-- ===== src/Tests/Fixtures.antt =====
-- Concrete inputs: a UUID package, two parts, an order for them, and OrderService over the in-memory
-- storage, with a transaction manager that runs the closure, as `noopTxManager` of
-- order/pkg/handler/handler.go does.
use Prim.Native.Nat.{zero, suc}
use Prim.Native.String.{[] as empty_text, ◌∷◌ as char_cons}
use microservices_course.Common.{
  ℕ, ◌≡◌, refl, ap, String, Option, some, none, List, [], ◌∷◌, arith, lookup,
}
use microservices_course.Common.Int64.{add}
use microservices_course.Go.{Uuid, UuidPackage, ok}
use microservices_course.Order.Model.{
  Order, OrderItem, Part, CreateOrderInput, part_hull, part_engine,
}
use microservices_course.Order.Converter.{IsConsistent, rebuild, add_item}
use microservices_course.Order.Memory.{MemoryRepository, memory_repository, create}
use microservices_course.Order.Memory.View.{IsKeyed, Kept-refl}
use microservices_course.Order.Memory.Laws.{memory_laws, create_lem}
use microservices_course.Order.Service.Deps.{Service}
use microservices_course.Order.Service.Create.{new_order}
use microservices_course.Order.Service.Refinement.{LeavesOrders}
use microservices_course.Order.Service.Create.Totality.{AsksOnly, Commits}

-- A UUID is written as a sign and one mark for each unit.
abbrev marks : ℕ → String
marks zero = ""
marks (suc n) = char_cons "-" (marks n)

abbrev tally : String → ℕ
tally empty_text = 0
tally (char_cons c s) = suc (tally s)

abbrev parse : String → Option Uuid
parse empty_text = none
parse (char_cons c s) = some (tally s)

pub tally-marks : (n : ℕ) → tally (marks n) ≡ n
tally-marks zero = refl
tally-marks (suc n) = ap suc (tally-marks n)

abbrev pub uuids : UuidPackage
uuids = record {
  parse = parse;
  to_string = λ u. char_cons "#" (marks u);
  parse-to_string = λ u. ap some (tally-marks u);
  parse-empty = refl;
}

abbrev pub hull : Part
hull = record { uuid = 1; price = 10; stock_quantity = 3 }

abbrev pub engine : Part
engine = record { uuid = 2; price = 20; stock_quantity = 4 }

abbrev pub input : CreateOrderInput
input = record { hull_uuid = 1; engine_uuid = 2; shield_uuid = none; weapon_uuid = none }

abbrev pub items : List OrderItem
items =
    record { part_uuid = 1; part_type = part_hull; price = 10 }
    ∷ record { part_uuid = 2; part_type = part_engine; price = 20 }
    ∷ []

abbrev pub pending_order : Order
pending_order = new_order input 5 9 items 30

pub pending_order-IsConsistent : IsConsistent pending_order
unfolding rebuild add_item add
pending_order-IsConsistent = refl

-- The inventory offers both parts; every charge is the transaction 77.
abbrev pub service : Service MemoryRepository
service = record {
  tx_manager = λ A a. a;
  order_repo = memory_repository;
  inventory_client = λ raws orders. (ok (hull ∷ engine ∷ []), orders);
  payment_client = λ raw method orders. (ok 77, orders);
}

pub empty-IsKeyed : IsKeyed []
unfolding lookup
empty-IsKeyed u r e = ground arith

pub service-LeavesOrders : LeavesOrders uuids service memory_laws
service-LeavesOrders raw m s good = Kept-refl s good

pub service-AsksOnly : AsksOnly service memory_laws
service-AsksOnly raws s good = Kept-refl s good

pub service-Commits : Commits service memory_laws
service-Commits a s e = refl

-- The storage with the order.
abbrev pub stocked : MemoryRepository
stocked = (create pending_order []).1

pub stocked-IsKeyed : IsKeyed stocked
stocked-IsKeyed = (create_lem pending_order [] empty-IsKeyed pending_order-IsConsistent).1.good

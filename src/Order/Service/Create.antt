-- ===== src/Order/Service/Create.antt =====
-- order/internal/service/order/create.go: creating an order.
pub mod Items
pub mod Steps
pub mod Stored
pub mod Insertable
pub mod Verdict
pub mod Totality
pub mod Found
use microservices_course.Common.{
  ◌==◌, nat_eq, Bool, false, ◌||◌, Option, some, none, List, [], ◌∷◌, ◌++◌, String, Map, lookup,
  insert, if◌then◌else◌,
}
use microservices_course.Common.Int64.{Int64, add, le_zero}
use microservices_course.Go.{
  Action, Result, Uuid, UuidPackage, nil_uuid, Time, ok, err, sentinel, lift, pure, ◌>>=◌, ◌>>◌,
}
use microservices_course.Order.Errors.{OrderError, invalid_uuid, out_of_stock, part_not_found}
use microservices_course.Order.Model.{
  CreateOrderInput, CreateOrderResult, Order, OrderItem, Part, PartType, part_hull, part_engine,
  part_shield, part_weapon, status_pending_payment,
}
use microservices_course.Order.Service.Deps.{Service, reject_if}

pub record RequestedPart : Type 0 where
  pub uuid : Uuid
  pub part_type : PartType

-- `p != nil && *p == uuid.Nil`
abbrev pub is_pointer_to_nil : Option Uuid → Bool
is_pointer_to_nil none = false
is_pointer_to_nil (some u) = u == nil_uuid

-- `if p != nil { requestedParts = append(requestedParts, ...) }`
abbrev pub append_part : List RequestedPart → Option Uuid → PartType → List RequestedPart
append_part parts none part_type = parts
append_part parts (some u) part_type = parts ++ record { uuid = u; part_type = part_type } ∷ []

unfoldable pub requested_parts : CreateOrderInput → List RequestedPart
requested_parts input =
    let base =
      record { uuid = input.hull_uuid; part_type = part_hull }
      ∷ record { uuid = input.engine_uuid; part_type = part_engine }
      ∷ [] in
    append_part (append_part base input.shield_uuid part_shield) input.weapon_uuid part_weapon

-- The loop that writes the UUIDs as text.
unfoldable pub part_uuids : UuidPackage → List RequestedPart → List String
part_uuids uuids [] = []
part_uuids uuids (part ∷ parts) = uuids.to_string part.uuid ∷ part_uuids uuids parts

-- The loop that checks the stock and fills `partByUUID`.
unfoldable pub index_parts : Map Part → List Part → Result OrderError (Map Part)
index_parts by_uuid [] = ok by_uuid
index_parts by_uuid (part ∷ parts) =
    if le_zero part.stock_quantity
    then err (sentinel out_of_stock)
    else index_parts (insert part.uuid part by_uuid) parts

abbrev pub new_item : RequestedPart → Part → OrderItem
new_item requested part = record {
  part_uuid = requested.uuid;
  part_type = requested.part_type;
  price = part.price;
}

-- The loop that appends the items and adds up the prices.
unfoldable pub price_items :
    Map Part
    → List RequestedPart
    → List OrderItem
    → Int64
    → Result OrderError (List OrderItem × Int64)
price_items by_uuid [] items total_price = ok (items, total_price)
price_items by_uuid (requested ∷ rest) items total_price = elim (lookup requested.uuid by_uuid) [
  | none ↦ err (sentinel part_not_found)
  | some part ↦
      price_items by_uuid rest (items ++ new_item requested part ∷ []) (add total_price part.price)
]

abbrev pub new_order : CreateOrderInput → Uuid → Time → List OrderItem → Int64 → Order
new_order input order_uuid now items total_price = record {
  order_uuid = order_uuid;
  hull_uuid = input.hull_uuid;
  engine_uuid = input.engine_uuid;
  shield_uuid = input.shield_uuid;
  weapon_uuid = input.weapon_uuid;
  total_price = total_price;
  transaction_uuid = none;
  payment_method = none;
  status = status_pending_payment;
  created_at = now;
  items = items;
}

module _ {St : Type 0} (uuids : UuidPackage) (service : Service St) where
  open service use {tx_manager, order_repo, inventory_client}

  -- Create; `fresh` is what `uuid.NewRandom` returns and `now` what `time.Now` does.
  unfoldable pub create :
      Result OrderError Uuid → Time → CreateOrderInput → Action St OrderError CreateOrderResult
  unfolding requested_parts
  create fresh now input = do
    reject_if (input.hull_uuid == nil_uuid || input.engine_uuid == nil_uuid) (sentinel invalid_uuid)
    reject_if (is_pointer_to_nil input.shield_uuid) (sentinel invalid_uuid)
    reject_if (is_pointer_to_nil input.weapon_uuid) (sentinel invalid_uuid)
    parts ← inventory_client (part_uuids uuids (requested_parts input))
    by_uuid ← lift (index_parts [] parts)
    priced ← lift (price_items by_uuid (requested_parts input) [] 0)
    order_uuid ← lift fresh
    tx_manager Unit (order_repo.create (new_order input order_uuid now priced.0 priced.1))
    pure (record { order_uuid = order_uuid; total_price = priced.1 })

-- ===== src/Tests/Services.antt =====
-- PaymentService and InventoryService, alone and called by OrderService.
use Prim.Native.String.{◌++◌}
use microservices_course.Common.{
  ◌≡◌, refl, inl, String, Option, some, none, List, [], ◌∷◌, map, ◌==◌, nat_eq, if◌then◌else◌,
}
use microservices_course.Go.{Uuid, Status, ok}
use microservices_course.Inventory.Model.{PartRecord, type_hull}
use microservices_course.Inventory.Repository.{PartsDb, no_rows, rows, list}
use microservices_course.Inventory.Repository.Lookup.{AnswersFrom, good_rows, pick, list-pick}
use microservices_course.Inventory.Api.{part_type_to_proto, part_type_to_model}
use microservices_course.Inventory.Types.{known, part_type_to_proto-part_type_to_model}
use microservices_course.Payment.Model.{Payment}
use microservices_course.Payment.History.{Call, History, answers, answers-History}
use microservices_course.Order.Service.Pay.{is_valid_payment_method}
use microservices_course.System.Charge.{charge, charge_spec, charge-eq}
use microservices_course.System.Quote.{quote, quote_spec, quote-eq}
use microservices_course.Tests.Fixtures.{uuids}

-- A text that names no code.
abbrev rpc_text : Status → String
rpc_text status = "rpc error: " ++ status.text

-- A table of payments whose INSERT succeeds.
abbrev append : Payment → List Payment → Option String × List Payment
append payment table = (none, payment ∷ table)

-- Three requests, the last first: one by an unknown method, one that pays, and one for no UUID.
abbrev requests : List Call
requests =
    record { raw_order_uuid = "#---"; method = "CASH"; fresh = ok 78; now = 10 }
    ∷ record { raw_order_uuid = "#---"; method = "CARD"; fresh = ok 77; now = 9 }
    ∷ record { raw_order_uuid = ""; method = "CARD"; fresh = ok 76; now = 8 }
    ∷ []

answers-History_example :
    History uuids [] requests
      (answers uuids append (λ ps. ps) requests []).0
      (answers uuids append (λ ps. ps) requests []).1
answers-History_example =
    answers-History uuids append (λ ps. ps) (λ p s. inl (refl, refl)) requests []

charge-eq_example :
    charge uuids (λ raw. raw) rpc_text append 77 9 5 "CARD" []
    ≡ charge_spec uuids (λ raw. raw) rpc_text append 77 9 5 "CARD" []
unfolding is_valid_payment_method
charge-eq_example = charge-eq uuids (λ raw. raw) rpc_text append 77 9 5 "CARD" [] refl refl

abbrev hull_row : PartRecord
hull_row = record {
  uuid = 3;
  name = "hull";
  description = "";
  price = 10;
  part_type = type_hull;
  stock_quantity = 2;
  created_at = 8;
}

-- A table with one part, and the database that answers from it.
abbrev table : Uuid → Option PartRecord
table u = if hull_row.uuid == u then some hull_row else none

abbrev database : PartsDb
database = record { query_row = λ u. no_rows; query = λ q. rows (good_rows (hull_row ∷ [])) none }

database-AnswersFrom : AnswersFrom database table (3 ∷ 4 ∷ [])
database-AnswersFrom = record { selected = hull_row ∷ []; reply = refl; complete = λ u i. refl }

list-pick_example : list database (λ ps. ps) (3 ∷ 4 ∷ []) "UNSPECIFIED" ≡ pick table (3 ∷ 4 ∷ [])
list-pick_example =
    list-pick database (λ ps. ps) "UNSPECIFIED" table 3 (4 ∷ []) database-AnswersFrom

quote-eq_example :
    quote uuids (λ t. t) rpc_text database (λ ps. ps) (map uuids.to_string (3 ∷ 4 ∷ []))
    ≡ quote_spec table (3 ∷ 4 ∷ [])
quote-eq_example =
    quote-eq uuids (λ t. t) rpc_text database (λ ps. ps) table 3 (4 ∷ []) (refl, (refl, tt))
      database-AnswersFrom

part_type_to_proto-part_type_to_model_example : part_type_to_proto (part_type_to_model 7) ≡ known 7
part_type_to_proto-part_type_to_model_example = part_type_to_proto-part_type_to_model 7

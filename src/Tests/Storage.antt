-- ===== src/Tests/Storage.antt =====
-- The order storage in PostgreSQL over the database of `Tests.Database`.
use microservices_course.Common.{◌≡◌, refl, List, [], ◌∷◌, String, nat_eq, lookup, insert}
use microservices_course.Go.{Action, Uuid, ok, err, wrap, foreign}
use microservices_course.Order.Model.{Order, OrderItem, Part, PaymentMethod}
use microservices_course.Order.Repository.{Mirrors, Put}
use microservices_course.Order.Repository.Machine.{Call, calls}
use microservices_course.Order.Repository.Table.{replies}
use microservices_course.Order.Memory.Sequence.{calls-replies_in_memory}
use microservices_course.Order.Memory.{memory_repository}
use microservices_course.Order.Memory.View
use microservices_course.Order.Postgres.{create, create_items, get}
use microservices_course.Order.Postgres.Shown.{view}
use microservices_course.Order.Postgres.Reread.{IsInsertable}
use microservices_course.Order.Postgres.Laws.{create-Mirrors, postgres_laws}
use microservices_course.Order.Postgres.Agreement.{get-create}
use microservices_course.Order.Postgres.Failures.{inserted, create_items-stops}
use microservices_course.Order.Service.Create
use microservices_course.Order.Service.Create.{requested_parts}
use microservices_course.Order.Service.Create.Steps.{asked}
use microservices_course.Order.Service.Create.Verdict.{Ends}
use microservices_course.Order.Service.Create.Totality.{AsksOnly, Commits}
use microservices_course.Order.Service.Create.Insertable.{RequestedApart}
use microservices_course.Order.Service.Deps.{Service}
use microservices_course.Order.Service.OnPostgres.{postgres_service, create-Ends_on_postgres}
use microservices_course.Order.Errors.{OrderError}
use microservices_course.Tests.Database.{Disk, database, tables}
use microservices_course.Tests.Fixtures.{
  stocked, stocked-IsKeyed, uuids, input, pending_order, pending_order-IsConsistent, hull, engine,
}

abbrev no_text : String → String
no_text t = t

pending_order-IsInsertable : IsInsertable pending_order
pending_order-IsInsertable = record {
  unpaid = refl;
  no_method = refl;
  first = record { part_uuid = 1; part_type = "HULL"; price = 10 };
  rest = record { part_uuid = 2; part_type = "ENGINE"; price = 20 } ∷ [];
  listed = refl;
  consistent = pending_order-IsConsistent;
  slots = ((refl, tt), (tt, tt));
  parts = ((refl, tt), (tt, tt));
}

create-Mirrors_example :
    ((create uuids no_text database pending_order []).0 ≡ ok tt)
    × ((kept : Order) × Mirrors pending_order kept
        × Put
            (view uuids tables)
            tables.Good
            5
            kept
            []
            (create uuids no_text database pending_order []).1)
unfolding lookup
create-Mirrors_example =
    create-Mirrors uuids no_text database tables pending_order [] tt pending_order-IsInsertable refl

get-create_example :
    (kept : Order) × Mirrors pending_order kept
    × ((get uuids no_text database 5 (create uuids no_text database pending_order []).1).0
        ≡ ok kept)
unfolding lookup
get-create_example =
    get-create uuids no_text database tables pending_order [] tt pending_order-IsInsertable refl

abbrev requests : List (Call × Uuid)
requests =
    (Call.start_payment, 5)
    ∷ (Call.cancel, 5)
    ∷ (Call.finish_payment 77 "SBP", 5)
    ∷ (Call.get, 5)
    ∷ (Call.get, 6)
    ∷ []

calls-replies_in_memory_example :
    calls memory_repository requests stocked ≡ replies requests (View.view stocked)
calls-replies_in_memory_example = calls-replies_in_memory requests stocked stocked-IsKeyed

-- An order with the same part in two slots.
abbrev hull_item : OrderItem
hull_item = record { part_uuid = 1; part_type = "HULL"; price = 10 }

abbrev weapon_item : OrderItem
weapon_item = record { part_uuid = 1; part_type = "WEAPON"; price = 10 }

abbrev with_row : Disk
with_row = (database.insert_order 5 "PENDING_PAYMENT" 9 []).1

create_items-stops_example :
    create_items uuids no_text database 5 (hull_item ∷ weapon_item ∷ hull_item ∷ []) with_row ≡ (
      err (wrap "создать позицию заказа" (foreign "duplicate key")),
      (inserted uuids no_text database 5 weapon_item
          (create_items uuids no_text database 5 (hull_item ∷ []) with_row).1).1,
    )
unfolding create_items lookup insert
create_items-stops_example =
    create_items-stops uuids no_text database 5 (hull_item ∷ []) weapon_item (hull_item ∷ [])
      with_row "duplicate key" refl refl

-- OrderService over the database: the inventory offers both parts, and the transactions commit.
abbrev inventory : List String → Action Disk OrderError (List Part)
inventory raws s = (ok (hull ∷ engine ∷ []), s)

abbrev payment : String → PaymentMethod → Action Disk OrderError Uuid
payment raw method s = (ok 77, s)

abbrev shop : Service Disk
shop = postgres_service uuids no_text database (λ A a. a) inventory payment

shop-AsksOnly : AsksOnly shop (postgres_laws uuids no_text database tables)
shop-AsksOnly raws s good = record { good = good; shows = λ v. refl }

shop-Commits : Commits shop (postgres_laws uuids no_text database tables)
shop-Commits a s e = refl

input-RequestedApart : RequestedApart (requested_parts input)
unfolding requested_parts
input-RequestedApart = ((refl, tt), (tt, tt))

create-Ends_on_postgres_example :
    Ends
      (view uuids tables)
      tables.Good
      9
      input
      (asked uuids shop (ok 5) 9 input []).0
      (ok 5)
      []
      (Create.create uuids shop (ok 5) 9 input [])
unfolding lookup
create-Ends_on_postgres_example =
    create-Ends_on_postgres uuids no_text database (λ A a. a) inventory payment tables shop-AsksOnly
      shop-Commits (ok 5) 9 input [] input-RequestedApart tt (λ u e. refl)

-- ===== src/Order/Service/OnPostgres.antt =====
-- order/internal/service/order over order/internal/repository/order/repository.go, as
-- order/internal/app/app.go puts them together.
use microservices_course.Common.{◌≡◌, none, String, List}
use microservices_course.Go.{Action, Uuid, UuidPackage, Time, Result, TxManager, ok}
use microservices_course.Order.Errors.{OrderError}
use microservices_course.Order.Model.{Part, PaymentMethod, CreateOrderInput}
use microservices_course.Order.Postgres.{OrdersDb, postgres_repository}
use microservices_course.Order.Postgres.Shown.{view}
use microservices_course.Order.Postgres.Tables.{Tables}
use microservices_course.Order.Postgres.Laws.{postgres_laws}
use microservices_course.Order.Service.Deps.{Service}
use microservices_course.Order.Service.Create.{create, requested_parts}
use microservices_course.Order.Service.Create.Steps.{asked}
use microservices_course.Order.Service.Create.Verdict.{Ends}
use microservices_course.Order.Service.Create.Totality.{AsksOnly, Commits, create-Ends}
use microservices_course.Order.Service.Create.Insertable.{RequestedApart, new_order-IsInsertable}

module _ {St : Type 0} (uuids : UuidPackage) (parse_failure : String → String) (db : OrdersDb St)
    (tx : TxManager St OrderError) (inventory : List String → Action St OrderError (List Part))
    (payment : String → PaymentMethod → Action St OrderError Uuid) where
  -- The service over the storage in PostgreSQL.
  abbrev pub postgres_service : Service St
  postgres_service = record {
    tx_manager = tx;
    order_repo = postgres_repository uuids parse_failure db;
    inventory_client = inventory;
    payment_client = payment;
  }

  module _ (tables : Tables uuids db)
      (asks : AsksOnly postgres_service (postgres_laws uuids parse_failure db tables))
      (commits : Commits postgres_service (postgres_laws uuids parse_failure db tables)) where
    -- Over the storage in PostgreSQL, on a database with the tables of `Tables`, where no
    -- statement fails, with an inventory client that leaves the orders alone, a transaction
    -- manager that commits and a random UUID that is unused: for every request that names no part
    -- twice, every reply of the inventory and every outcome of the random generator, Create ends
    -- with an answer that the verdict allows, and leaves the storage as the verdict says.
    pub create-Ends_on_postgres :
        (fresh : Result OrderError Uuid) (now : Time) (input : CreateOrderInput) (s : St)
        → RequestedApart (requested_parts input)
        → tables.Good s
        → ((u : Uuid) → fresh ≡ ok u → view uuids tables s u ≡ none)
        → Ends
            (view uuids tables)
            tables.Good
            now
            input
            (asked uuids postgres_service fresh now input s).0
            fresh
            s
            (create uuids postgres_service fresh now input s)
    create-Ends_on_postgres fresh now input s apart good unused =
        create-Ends uuids postgres_service (postgres_laws uuids parse_failure db tables) asks
          commits fresh now input (λ f u is h. new_order-IsInsertable f u now input is h apart) s
          good unused

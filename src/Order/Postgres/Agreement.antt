-- ===== src/Order/Postgres/Agreement.antt =====
-- order/internal/repository/order/repository.go: an order that is created is found.
use microservices_course.Common.{◌≡◌, String, none}
use microservices_course.Go.{UuidPackage, ok}
use microservices_course.Order.Model.{Order}
use microservices_course.Order.Repository.{Mirrors}
use microservices_course.Order.Repository.Views.{Put_here}
use microservices_course.Order.Postgres.{OrdersDb, create, get}
use microservices_course.Order.Postgres.Tables.{Tables}
use microservices_course.Order.Postgres.Shown.{view}
use microservices_course.Order.Postgres.Reread.{IsInsertable}
use microservices_course.Order.Postgres.Laws.{create-Mirrors}
use microservices_course.Order.Postgres.Methods

module _ {St : Type 0} (uuids : UuidPackage) (parse_failure : String → String) (db : OrdersDb St)
    (tables : Tables uuids db) where
  open tables use {Good}

  -- Over a database with the tables of `Tables`, in a state where no statement fails: after Create
  -- of a new order as `IsInsertable` describes it, Get finds the order, with its items in some
  -- order and its time as the column keeps it.
  pub get-create :
      (o : Order) (s : St)
      → Good s
      → IsInsertable o
      → view uuids tables s o.order_uuid ≡ none
      → (kept : Order) × Mirrors o kept
        × ((get uuids parse_failure db o.order_uuid (create uuids parse_failure db o s).1).0
            ≡ ok kept)
  get-create o s good h e =
      let (_, (kept, mirrors, put)) = create-Mirrors uuids parse_failure db tables o s good h e in
      (
        kept,
        mirrors,
        (Methods.get_found uuids parse_failure db tables o.order_uuid
            (create uuids parse_failure db o s).1 put.good kept (Put_here put)).0,
      )

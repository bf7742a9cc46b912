-- ===== src/Order/Postgres/Missing.antt =====
-- order/internal/repository/order/repository.go: the methods on orders that are not there, over a
-- database with the tables of `Tables`, where no statement fails.
use microservices_course.Common.{◌≡◌, refl, sym, ap, subst, ◌∙◌, false, none, String}
use microservices_course.Go.{Uuid, UuidPackage, err, sentinel}
use microservices_course.Order.Errors.{order_not_found}
use microservices_course.Order.Model.{
  OrderStatus, PaymentMethod, status_pending_payment, status_payment_processing, status_paid,
  status_cancelled,
}
use microservices_course.Order.Repository.{Kept}
use microservices_course.Order.Postgres.{
  OrdersDb, exists, get, start_payment, finish_payment, reset_payment, cancel,
}
use microservices_course.Order.Postgres.Steps
use microservices_course.Order.Postgres.Steps.{current}
use microservices_course.Order.Postgres.Shown.{view, Kept_of_Same, unseen}
use microservices_course.Order.Postgres.Tables.{Tables, Misses, is_row}
use microservices_course.Order.Postgres.Methods

module _ {St : Type 0} (uuids : UuidPackage) (parse_failure : String → String) (db : OrdersDb St)
    (tables : Tables uuids db) (u : Uuid) (s : St) where
  open tables use {orders, Good}

  module _ (good : Good s) (e : view uuids tables s u ≡ none) where
    no_row : (old : OrderStatus) → Misses old (orders s u)
    no_row old = subst (Misses old) (sym (unseen uuids tables s u e)) tt

    pub get_missing :
        ((get uuids parse_failure db u s).0 ≡ err (sentinel order_not_found))
        × Kept (view uuids tables) Good s (get uuids parse_failure db u s).1
    get_missing =
        Methods.read_missing uuids parse_failure db tables u
          (Methods.unchanged uuids parse_failure db tables u s good) e

    pub start_missing :
        ((start_payment uuids parse_failure db u s).0 ≡ err (sentinel order_not_found))
        × Kept (view uuids tables) Good s (start_payment uuids parse_failure db u s).1
    start_missing =
        let (a, same) =
          tables.update_miss u status_payment_processing status_pending_payment s good (no_row _) in
        let (answer, kept) = Methods.read_missing uuids parse_failure db tables u same e in
        rw (Steps.start_of_miss uuids parse_failure db u s a) (ap current answer, kept)

    pub cancel_missing :
        ((cancel uuids parse_failure db u s).0 ≡ err (sentinel order_not_found))
        × Kept (view uuids tables) Good s (cancel uuids parse_failure db u s).1
    cancel_missing =
        let (a, same) =
          tables.update_miss u status_cancelled status_pending_payment s good (no_row _) in
        let (answer, kept) = Methods.read_missing uuids parse_failure db tables u same e in
        rw (Steps.cancel_of_miss uuids parse_failure db u s a) (ap current answer, kept)

    pub finish_missing :
        (t : Uuid) (m : PaymentMethod)
        → ((finish_payment uuids parse_failure db u t m s).0 ≡ err (sentinel order_not_found))
          × Kept (view uuids tables) Good s (finish_payment uuids parse_failure db u t m s).1
    finish_missing t m =
        let (a, same) =
          tables.paid_miss u t status_paid status_payment_processing m s good (no_row _) in
        let (answer, kept) = Methods.read_missing uuids parse_failure db tables u same e in
        rw (Steps.finish_of_miss uuids parse_failure db u s t m a) (ap current answer, kept)

    pub reset_missing :
        ((reset_payment uuids parse_failure db u s).0 ≡ err (sentinel order_not_found))
        × Kept (view uuids tables) Good s (reset_payment uuids parse_failure db u s).1
    reset_missing =
        let (a, same) =
          tables.update_miss u status_pending_payment status_payment_processing s good (no_row _) in
        let (b, k) =
          tables.select_exists_lem u (Steps.reset uuids parse_failure db u s).1 same.good in
        rw (Steps.reset_of_miss uuids parse_failure db u s a) (
          rw
            (Steps.check_of_exists uuids parse_failure db u _ false
              (b ∙ ap (λ x. exists (is_row x)) (same.same_orders u ∙ unseen uuids tables s u e)))
            (
              refl,
              Kept_of_Same uuids tables (Methods.Same_trans uuids parse_failure db tables same k),
            ))

-- ===== src/Order/Postgres/Methods.antt =====
-- order/internal/repository/order/repository.go: the methods on orders that are there, over a database
-- with the tables of `Tables`, where no statement fails.
use microservices_course.Common.{
  ◌≡◌, ◌≢◌, refl, sym, ap, subst, ◌∙◌, true, false, some, none, String, ◌==◌, string_eq, eq_iff,
  inl, inr, Bool-cases,
}
use microservices_course.Go.{Uuid, UuidPackage, ok, err, sentinel}
use microservices_course.Order.Errors.{order_not_found}
use microservices_course.Order.Model.{
  Order, OrderStatus, PaymentMethod, status_pending_payment, status_payment_processing, status_paid,
  status_cancelled,
}
use microservices_course.Order.Repository.{Kept, Put}
use microservices_course.Order.Postgres.{
  OrdersDb, exists, get, start_payment, finish_payment, reset_payment, cancel,
}
use microservices_course.Order.Postgres.Steps
use microservices_course.Order.Postgres.Steps.{order_of, current}
use microservices_course.Order.Postgres.Shown.{
  view, Kept_of_Same, Put_of_Wrote, seen, unseen, restamped, restatused,
}
use microservices_course.Order.Postgres.Tables.{Tables, Same, Misses, row_reply, is_row}

module _ {St : Type 0} (uuids : UuidPackage) (parse_failure : String → String) (db : OrdersDb St)
    (tables : Tables uuids db) where
  open tables use {orders, items, Good}

  pub Same_trans :
      {s t w : St}
      → Same orders items Good s t
      → Same orders items Good t w
      → Same orders items Good s w
  Same_trans h k = record {
    good = k.good;
    same_orders = λ v. k.same_orders v ∙ h.same_orders v;
    same_items = λ v. k.same_items v ∙ h.same_items v;
  }

  -- A read after statements that changed no table.
  module _ (u : Uuid) {s t : St} (same : Same orders items Good s t) where
    read_found :
        (o : Order)
        → view uuids tables s u ≡ some o
        → ((get uuids parse_failure db u t).0 ≡ ok o)
          × Kept (view uuids tables) Good s (get uuids parse_failure db u t).1
    read_found o e =
        let row = seen uuids tables s u o e in
        let (a, k) = tables.select_order_lem u t same.good in
        let (b, l) = tables.select_items_lem u (db.select_order u t).1 k.good in
        let found : orders t u ≡ some row.row = same.same_orders u ∙ row.found in
        let run =
          Steps.get_of_found uuids parse_failure db u t row.row _ (a ∙ ap (row_reply uuids u) found)
            b in
        (
          ap (λ x. x.0) run
              ∙ ap (λ is. ok (order_of uuids u is row.row)) (k.same_items u ∙ same.same_items u)
              ∙ ap ok row.shows,
          subst (λ x. Kept (view uuids tables) Good s x) (sym (ap (λ x. x.1) run))
              (Kept_of_Same uuids tables (Same_trans same (Same_trans k l))),
        )

    pub read_missing :
        view uuids tables s u ≡ none
        → ((get uuids parse_failure db u t).0 ≡ err (sentinel order_not_found))
          × Kept (view uuids tables) Good s (get uuids parse_failure db u t).1
    read_missing e =
        let (a, k) = tables.select_order_lem u t same.good in
        let absent = same.same_orders u ∙ unseen uuids tables s u e in
        let run =
          Steps.get_of_missing uuids parse_failure db u t (a ∙ ap (row_reply uuids u) absent) in
        (
          ap (λ x. x.0) run,
          subst (λ x. Kept (view uuids tables) Good s x) (sym (ap (λ x. x.1) run))
              (Kept_of_Same uuids tables (Same_trans same k)),
        )

  module _ (u : Uuid) (s : St) (good : Good s) where
    pub unchanged : Same orders items Good s s
    unchanged = record { good = good; same_orders = λ v. refl; same_items = λ v. refl }

    module _ (o : Order) (e : view uuids tables s u ≡ some o) where
      open seen uuids tables s u o e use {row, found, shows, status_lem}

      pub get_found :
          ((get uuids parse_failure db u s).0 ≡ ok o)
          × Kept (view uuids tables) Good s (get uuids parse_failure db u s).1
      get_found = read_found u unchanged o e

      misses : (old : OrderStatus) → o.status ≢ old → Misses old (orders s u)
      misses old n = subst (Misses old) (sym found) (elim (Bool-cases (row.status == old)) [
        | inl q ↦ absurd (n (sym status_lem ∙ (eq_iff row.status old).0 q))
        | inr q ↦ q
      ])

      pub start_pending :
          o.status ≡ status_pending_payment
          → (o' : Order) × ((start_payment uuids parse_failure db u s).0 ≡ ok (o', true))
            × (o'.order_uuid ≡ u)
            × Put
                (view uuids tables)
                Good
                u
                (record o { status = status_payment_processing })
                s
                (start_payment uuids parse_failure db u s).1
      start_pending q =
          let (a, wrote) =
            tables.update_hit u status_payment_processing status_pending_payment s row good found
              (status_lem ∙ q) in
          rw (Steps.start_of_hit uuids parse_failure db u s a) (
            _,
            refl,
            refl,
            Put_of_Wrote uuids tables u _ _ wrote
                (restatused uuids tables u (items s u) row o status_payment_processing shows),
          )

      pub start_other :
          o.status ≢ status_pending_payment
          → ((start_payment uuids parse_failure db u s).0 ≡ ok (o, false))
            × Kept (view uuids tables) Good s (start_payment uuids parse_failure db u s).1
      start_other n =
          let (a, same) =
            tables.update_miss u status_payment_processing status_pending_payment s good
              (misses _ n) in
          let (answer, kept) = read_found u same o e in
          rw (Steps.start_of_miss uuids parse_failure db u s a) (ap current answer, kept)

      pub cancel_pending :
          o.status ≡ status_pending_payment
          → (o' : Order) × ((cancel uuids parse_failure db u s).0 ≡ ok (o', true))
            × Put
                (view uuids tables)
                Good
                u
                (record o { status = status_cancelled })
                s
                (cancel uuids parse_failure db u s).1
      cancel_pending q =
          let (a, wrote) =
            tables.update_hit u status_cancelled status_pending_payment s row good found
              (status_lem ∙ q) in
          rw (Steps.cancel_of_hit uuids parse_failure db u s a) (
            _,
            refl,
            Put_of_Wrote uuids tables u _ _ wrote
                (restatused uuids tables u (items s u) row o status_cancelled shows),
          )

      pub cancel_other :
          o.status ≢ status_pending_payment
          → ((cancel uuids parse_failure db u s).0 ≡ ok (o, false))
            × Kept (view uuids tables) Good s (cancel uuids parse_failure db u s).1
      cancel_other n =
          let (a, same) =
            tables.update_miss u status_cancelled status_pending_payment s good (misses _ n) in
          let (answer, kept) = read_found u same o e in
          rw (Steps.cancel_of_miss uuids parse_failure db u s a) (ap current answer, kept)

      pub reset_processing :
          o.status ≡ status_payment_processing
          → ((reset_payment uuids parse_failure db u s).0 ≡ ok tt)
            × Put
                (view uuids tables)
                Good
                u
                (record o { status = status_pending_payment })
                s
                (reset_payment uuids parse_failure db u s).1
      reset_processing q =
          let (a, wrote) =
            tables.update_hit u status_pending_payment status_payment_processing s row good found
              (status_lem ∙ q) in
          rw (Steps.reset_of_hit uuids parse_failure db u s a) (
            refl,
            Put_of_Wrote uuids tables u _ _ wrote
                (restatused uuids tables u (items s u) row o status_pending_payment shows),
          )

      pub reset_other :
          o.status ≢ status_payment_processing
          → ((reset_payment uuids parse_failure db u s).0 ≡ ok tt)
            × Kept (view uuids tables) Good s (reset_payment uuids parse_failure db u s).1
      reset_other n =
          let (a, same) =
            tables.update_miss u status_pending_payment status_payment_processing s good
              (misses _ n) in
          let (b, k) =
            tables.select_exists_lem u (Steps.reset uuids parse_failure db u s).1 same.good in
          rw (Steps.reset_of_miss uuids parse_failure db u s a) (
            rw
              (Steps.check_of_exists uuids parse_failure db u _ true
                (b ∙ ap (λ x. exists (is_row x)) (same.same_orders u ∙ found)))
              (refl, Kept_of_Same uuids tables (Same_trans same k)))

      module _ (t : Uuid) (m : PaymentMethod) where
        pub finish_processing :
            o.status ≡ status_payment_processing
            → (o' : Order) × ((finish_payment uuids parse_failure db u t m s).0 ≡ ok (o', true))
              × Put
                  (view uuids tables)
                  Good
                  u
                  (record o {
                    status = status_paid;
                    transaction_uuid = some t;
                    payment_method = some m;
                  })
                  s
                  (finish_payment uuids parse_failure db u t m s).1
        finish_processing q =
            let (a, wrote) =
              tables.paid_hit u t status_paid status_payment_processing m s row good found
                (status_lem ∙ q) in
            rw (Steps.finish_of_hit uuids parse_failure db u s t m a) (
              _,
              refl,
              Put_of_Wrote uuids tables u _ _ wrote
                  (restamped uuids tables u (items s u) row o status_paid (some t) (some m) shows),
            )

        pub finish_other :
            o.status ≢ status_payment_processing
            → ((finish_payment uuids parse_failure db u t m s).0 ≡ ok (o, false))
              × Kept (view uuids tables) Good s (finish_payment uuids parse_failure db u t m s).1
        finish_other n =
            let (a, same) =
              tables.paid_miss u t status_paid status_payment_processing m s good (misses _ n) in
            let (answer, kept) = read_found u same o e in
            rw (Steps.finish_of_miss uuids parse_failure db u s t m a) (ap current answer, kept)

-- ===== src/Order/Postgres/Steps.antt =====
-- order/internal/repository/order/repository.go: each method, by the replies of the database.
use mathlib.Core.List.{append_assoc, append-nil}
use microservices_course.Common.{
  arith, if◌then◌else◌, nat_eq, ◌≡◌, refl, sym, ap, ◌∙◌, String, Option, some, none, List, [], ◌∷◌,
  ◌++◌, true, false, Bool,
}
use microservices_course.Go.{Uuid, UuidPackage, Result, ok, err, sentinel}
use microservices_course.Order.Errors.{OrderError, order_not_found}
use microservices_course.Order.Model.{
  Order, PaymentMethod, status_pending_payment, status_payment_processing, status_paid,
  status_cancelled,
}
use microservices_course.Order.Records.{ItemRecord}
use microservices_course.Order.Converter.{order_to_model}
use microservices_course.Order.Postgres.{
  OrdersDb, UpdateReply, check_exists, rows, affected, exists, scan_items, read_transaction,
  record_of, updated_order, get, start_payment, finish_payment, reset_payment, cancel, no_rows,
}
use microservices_course.Order.Postgres.Tables.{StoredRow, row_of, row_reply, all_scanned}

scan_all : (is acc : List ItemRecord) → scan_items (all_scanned is) none acc ≡ ok (acc ++ is)
unfolding scan_items
scan_all [] acc = ap ok (sym (append-nil acc))
scan_all (i ∷ is) acc = scan_all is (acc ++ i ∷ []) ∙ ap ok (append_assoc acc (i ∷ []) is)

-- The order of a row and its items.
abbrev pub order_of : UuidPackage → Uuid → List ItemRecord → StoredRow → Order
order_of uuids u is r = order_to_model (record_of (row_of uuids u r) r.transaction_uuid is)

-- What a read that follows an UPDATE without a row answers.
abbrev pub current : Result OrderError Order → Result OrderError (Order × Bool)
current (ok order) = ok (order, false)
current (err e) = err e

module _ {St : Type 0} (uuids : UuidPackage) (parse_failure : String → String)
    (db : OrdersDb St) where
  read_transaction_of_row :
      (u : Uuid) (r : StoredRow)
      → read_transaction uuids parse_failure db (row_of uuids u r) ≡ ok r.transaction_uuid
  unfolding read_transaction
  read_transaction_of_row u r = go r.transaction_uuid refl
    where
      go :
          (t : Option Uuid)
          → r.transaction_uuid ≡ t
          → read_transaction uuids parse_failure db (row_of uuids u r) ≡ ok r.transaction_uuid
      go none e = rw e refl
      go (some t) e = rw e (rw (uuids.parse-to_string t) refl)

  module _ (u : Uuid) (s : St) where
    pub get_of_missing :
        (db.select_order u s).0 ≡ no_rows
        → get uuids parse_failure db u s ≡ (err (sentinel order_not_found), (db.select_order u s).1)
    unfolding get
    get_of_missing e = ground arith

    pub get_of_found :
        (r : StoredRow) (is : List ItemRecord)
        → (db.select_order u s).0 ≡ row_reply uuids u (some r)
        → (db.select_items u (db.select_order u s).1).0 ≡ rows (all_scanned is) none
        → get uuids parse_failure db u s
          ≡ (ok (order_of uuids u is r), (db.select_items u (db.select_order u s).1).1)
    unfolding get
    get_of_found r is e q = ground (arith, read_transaction_of_row u r, scan_all is [])

  module _ (u : Uuid) (s : St) where
    -- The UPDATE of each method, and what follows when it hits a row and when it does not.
    abbrev pub started : UpdateReply × St
    started = db.update_status u status_payment_processing status_pending_payment s

    abbrev pub cancelled : UpdateReply × St
    cancelled = db.update_status u status_cancelled status_pending_payment s

    abbrev pub reset : UpdateReply × St
    reset = db.update_status u status_pending_payment status_payment_processing s

    pub start_of_hit :
        started.0 ≡ affected 1
        → start_payment uuids parse_failure db u s
          ≡ (ok (updated_order u none none status_payment_processing, true), started.1)
    unfolding start_payment
    start_of_hit e = ground arith

    pub start_of_miss :
        started.0 ≡ affected 0
        → let run = get uuids parse_failure db u started.1 in
          start_payment uuids parse_failure db u s ≡ (current run.0, run.1)
    unfolding start_payment
    start_of_miss e = ground arith

    pub cancel_of_hit :
        cancelled.0 ≡ affected 1
        → cancel uuids parse_failure db u s
          ≡ (ok (updated_order u none none status_cancelled, true), cancelled.1)
    unfolding cancel
    cancel_of_hit e = ground arith

    pub cancel_of_miss :
        cancelled.0 ≡ affected 0
        → let run = get uuids parse_failure db u cancelled.1 in
          cancel uuids parse_failure db u s ≡ (current run.0, run.1)
    unfolding cancel
    cancel_of_miss e = ground arith

    pub reset_of_hit :
        reset.0 ≡ affected 1 → reset_payment uuids parse_failure db u s ≡ (ok tt, reset.1)
    unfolding reset_payment
    reset_of_hit e = ground arith

    pub reset_of_miss :
        reset.0 ≡ affected 0
        → reset_payment uuids parse_failure db u s ≡ check_exists uuids parse_failure db u reset.1
    unfolding reset_payment
    reset_of_miss e = ground arith

    pub check_of_exists :
        (b : Bool)
        → (db.select_exists u s).0 ≡ exists b
        → check_exists uuids parse_failure db u s
          ≡ ((if b then ok tt else err (sentinel order_not_found)), (db.select_exists u s).1)
    check_of_exists true e = ground arith
    check_of_exists false e = ground arith

    module _ (t : Uuid) (m : PaymentMethod) where
      abbrev pub paid : UpdateReply × St
      paid = db.update_paid u status_paid t m status_payment_processing s

      pub finish_of_hit :
          paid.0 ≡ affected 1
          → finish_payment uuids parse_failure db u t m s
            ≡ (ok (updated_order u (some t) (some m) status_paid, true), paid.1)
      unfolding finish_payment
      finish_of_hit e = ground arith

      pub finish_of_miss :
          paid.0 ≡ affected 0
          → let run = get uuids parse_failure db u paid.1 in
            finish_payment uuids parse_failure db u t m s ≡ (current run.0, run.1)
      unfolding finish_payment
      finish_of_miss e = ground arith

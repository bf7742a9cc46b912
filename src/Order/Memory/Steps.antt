-- ===== src/Order/Memory/Steps.antt =====
-- order/internal/repository/order/memory.go: what each method returns and leaves, by what it finds
-- under the UUID.
use microservices_course.Common.{◌≡◌, true, false, some, none, ◌==◌, string_eq, lookup, insert}
use microservices_course.Go.{Uuid, ok, err, sentinel}
use microservices_course.Order.Errors.{order_not_found}
use microservices_course.Order.Model.{
  PaymentMethod, status_pending_payment, status_payment_processing, status_paid, status_cancelled,
}
use microservices_course.Order.Records.{OrderRecord}
use microservices_course.Order.Converter.{order_to_model}
use microservices_course.Order.Memory.{
  MemoryRepository, get, start_payment, finish_payment, reset_payment, cancel,
}

module _ (m : MemoryRepository) (u : Uuid) where
  module _ (e : lookup u m ≡ none) where
    pub get_of_none : get u m ≡ (err (sentinel order_not_found), m)
    unfolding get
    get_of_none = rw (e, get)

    pub start_of_none : start_payment u m ≡ (err (sentinel order_not_found), m)
    unfolding start_payment
    start_of_none = rw (e, start_payment)

    pub finish_of_none :
        (t : Uuid) (p : PaymentMethod)
        → finish_payment u t p m ≡ (err (sentinel order_not_found), m)
    unfolding finish_payment
    finish_of_none t p = rw (e, finish_payment)

    pub reset_of_none : reset_payment u m ≡ (err (sentinel order_not_found), m)
    unfolding reset_payment
    reset_of_none = rw (e, reset_payment)

    pub cancel_of_none : cancel u m ≡ (err (sentinel order_not_found), m)
    unfolding cancel
    cancel_of_none = rw (e, cancel)

  module _ (r : OrderRecord) (e : lookup u m ≡ some r) where
    pub get_of_some : get u m ≡ (ok (order_to_model r), m)
    unfolding get
    get_of_some = rw (e, get)

    pub start_of_pending :
        (r.status == status_pending_payment) ≡ true
        → let r' = record r { status = status_payment_processing } in
          start_payment u m ≡ (ok (order_to_model r', true), insert u r' m)
    unfolding start_payment
    start_of_pending q = rw (e, start_payment) (rw q)

    pub start_of_other :
        (r.status == status_pending_payment) ≡ false
        → start_payment u m ≡ (ok (order_to_model r, false), m)
    unfolding start_payment
    start_of_other q = rw (e, start_payment) (rw q)

    pub finish_of_processing :
        (t : Uuid) (p : PaymentMethod)
        → (r.status == status_payment_processing) ≡ true
        → let r' = record r {
          status = status_paid;
          transaction_uuid = some t;
          payment_method = some p;
        } in
          finish_payment u t p m ≡ (ok (order_to_model r', true), insert u r' m)
    unfolding finish_payment
    finish_of_processing t p q = rw (e, finish_payment) (rw q)

    pub finish_of_other :
        (t : Uuid) (p : PaymentMethod)
        → (r.status == status_payment_processing) ≡ false
        → finish_payment u t p m ≡ (ok (order_to_model r, false), m)
    unfolding finish_payment
    finish_of_other t p q = rw (e, finish_payment) (rw q)

    pub reset_of_processing :
        (r.status == status_payment_processing) ≡ true
        → reset_payment u m ≡ (ok tt, insert u (record r { status = status_pending_payment }) m)
    unfolding reset_payment
    reset_of_processing q = rw (e, reset_payment) (rw q)

    pub reset_of_other :
        (r.status == status_payment_processing) ≡ false → reset_payment u m ≡ (ok tt, m)
    unfolding reset_payment
    reset_of_other q = rw (e, reset_payment) (rw q)

    pub cancel_of_pending :
        (r.status == status_pending_payment) ≡ true
        → let r' = record r { status = status_cancelled } in
          cancel u m ≡ (ok (order_to_model r', true), insert u r' m)
    unfolding cancel
    cancel_of_pending q = rw (e, cancel) (rw q)

    pub cancel_of_other :
        (r.status == status_pending_payment) ≡ false
        → cancel u m ≡ (ok (order_to_model r, false), m)
    unfolding cancel
    cancel_of_other q = rw (e, cancel) (rw q)

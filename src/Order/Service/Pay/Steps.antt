-- ===== src/Order/Service/Pay/Steps.antt =====
-- order/internal/service/order/pay.go: what each part of `Pay` and `Cancel` returns and leaves, by
-- what the storage and the payment client return.
use microservices_course.Common.{◌≡◌, true, false, arith}
use microservices_course.Go.{Uuid, UuidPackage, ok, err, sentinel}
use microservices_course.Order.Errors.{Error, invalid_payment_method}
use microservices_course.Order.Model.{Order, PaymentMethod}
use microservices_course.Order.Service.Deps.{Service, refusal}
use microservices_course.Order.Service.Pay.{
  is_valid_payment_method, begin_payment, roll_back, complete, charge, pay, cancel,
}

module _ {St : Type 0} (uuids : UuidPackage) (service : Service St) (u : Uuid) (s : St) where
  open service use {order_repo, payment_client}

  module _ (m : PaymentMethod) where
    pub begin_of_invalid :
        is_valid_payment_method m ≡ false
        → begin_payment uuids service u m s ≡ (err (sentinel invalid_payment_method), s)
    unfolding begin_payment
    begin_of_invalid h = ground arith

    module _ (valid : is_valid_payment_method m ≡ true) where
      pub begin_of_error :
          (e : Error)
          → (order_repo.start_payment u s).0 ≡ err e
          → begin_payment uuids service u m s ≡ (err e, (order_repo.start_payment u s).1)
      unfolding begin_payment
      begin_of_error e h = ground arith

      pub begin_of_refused :
          (o : Order)
          → (order_repo.start_payment u s).0 ≡ ok (o, false)
          → begin_payment uuids service u m s
            ≡ (err (sentinel (refusal o)), (order_repo.start_payment u s).1)
      unfolding begin_payment
      begin_of_refused o h = ground arith

      pub begin_of_started :
          (o : Order)
          → (order_repo.start_payment u s).0 ≡ ok (o, true)
          → begin_payment uuids service u m s ≡ (ok o, (order_repo.start_payment u s).1)
      unfolding begin_payment
      begin_of_started o h = ground arith

    pub pay_of_error :
        (e : Error)
        → (begin_payment uuids service u m s).0 ≡ err e
        → pay uuids service u m s ≡ (err e, (begin_payment uuids service u m s).1)
    unfolding pay
    pay_of_error e h = ground arith

    pub pay_of_begun :
        (o : Order)
        → (begin_payment uuids service u m s).0 ≡ ok o
        → pay uuids service u m s ≡ charge uuids service u m o (begin_payment uuids service u m s).1
    unfolding pay
    pay_of_begun o h = ground arith

    pub charge_of_error :
        (o : Order) (e : Error)
        → (payment_client (uuids.to_string o.order_uuid) m s).0 ≡ err e
        → charge uuids service u m o s
          ≡ roll_back uuids service u e (payment_client (uuids.to_string o.order_uuid) m s).1
    unfolding charge
    charge_of_error o e h = ground arith

    pub charge_of_paid :
        (o : Order) (t : Uuid)
        → (payment_client (uuids.to_string o.order_uuid) m s).0 ≡ ok t
        → charge uuids service u m o s
          ≡ complete uuids service u t m (payment_client (uuids.to_string o.order_uuid) m s).1
    unfolding charge
    charge_of_paid o t h = ground arith

    pub complete_of_finished :
        (t : Uuid) (o : Order)
        → (order_repo.finish_payment u t m s).0 ≡ ok (o, true)
        → complete uuids service u t m s ≡ (ok t, (order_repo.finish_payment u t m s).1)
    unfolding complete
    complete_of_finished t o h = ground arith

  pub roll_back_of_reset :
      (e : Error)
      → (order_repo.reset_payment u s).0 ≡ ok tt
      → roll_back uuids service u e s ≡ (err e, (order_repo.reset_payment u s).1)
  unfolding roll_back
  roll_back_of_reset e h = ground arith

  pub cancel_of_error :
      (e : Error)
      → (order_repo.cancel u s).0 ≡ err e
      → cancel uuids service u s ≡ (err e, (order_repo.cancel u s).1)
  unfolding cancel
  cancel_of_error e h = ground arith

  pub cancel_of_refused :
      (o : Order)
      → (order_repo.cancel u s).0 ≡ ok (o, false)
      → cancel uuids service u s ≡ (err (sentinel (refusal o)), (order_repo.cancel u s).1)
  unfolding cancel
  cancel_of_refused o h = ground arith

  pub cancel_of_done :
      (o : Order)
      → (order_repo.cancel u s).0 ≡ ok (o, true)
      → cancel uuids service u s ≡ (ok tt, (order_repo.cancel u s).1)
  unfolding cancel
  cancel_of_done o h = ground arith

-- ===== src/Order/Service/Pay.antt =====
-- order/internal/service/order/pay.go, cancel.go, get.go: paying, cancelling and reading an order.
pub mod Steps
use microservices_course.Common.{◌==◌, string_eq, Bool, not, ◌||◌}
use microservices_course.Go.{
  Action, Uuid, UuidPackage, ok, err, sentinel, join, lift, pure, ◌>>=◌, ◌>>◌,
}
use microservices_course.Order.Errors.{OrderError, Error, invalid_payment_method}
use microservices_course.Order.Model.{
  Order, PaymentMethod, method_card, method_sbp, method_credit_card, method_investor_money,
}
use microservices_course.Order.Service.Deps.{Service, reject_if, expect_updated}

-- isValidPaymentMethod
unfoldable pub is_valid_payment_method : PaymentMethod → Bool
is_valid_payment_method method =
    method == method_card
    || (method == method_sbp || (method == method_credit_card || method == method_investor_money))

module _ {St : Type 0} (uuids : UuidPackage) (service : Service St) where
  open service use {order_repo, payment_client}

  -- The check of the method and `StartPayment`, up to the call of the payment client.
  unfoldable pub begin_payment : Uuid → PaymentMethod → Action St OrderError Order
  unfolding is_valid_payment_method
  begin_payment order_uuid method = do
    reject_if (not (is_valid_payment_method method)) (sentinel invalid_payment_method)
    started ← order_repo.start_payment order_uuid
    lift (expect_updated started)

  -- After a failed call of the payment client.
  unfoldable pub roll_back : Uuid → Error → Action St OrderError Uuid
  roll_back order_uuid e s =
      let (reset, t) = order_repo.reset_payment order_uuid s in
      elim reset [ ok _ ↦ (err e, t) | err reset_err ↦ (err (join e reset_err), t) ]

  -- After a successful call of the payment client.
  unfoldable pub complete : Uuid → Uuid → PaymentMethod → Action St OrderError Uuid
  complete order_uuid transaction_uuid method = do
    finished ← order_repo.finish_payment order_uuid transaction_uuid method
    lift (expect_updated finished)
    pure transaction_uuid

  -- The call of the payment client, and what follows each of its results.
  unfoldable pub charge : Uuid → PaymentMethod → Order → Action St OrderError Uuid
  charge order_uuid method order s =
      let (paid, t) = payment_client (uuids.to_string order.order_uuid) method s in
      elim paid [
        | ok transaction_uuid ↦ complete order_uuid transaction_uuid method t
        | err e ↦ roll_back order_uuid e t
      ]

  -- Pay
  unfoldable pub pay : Uuid → PaymentMethod → Action St OrderError Uuid
  pay order_uuid method = do order ← begin_payment order_uuid method; charge order_uuid method order

  -- Cancel
  unfoldable pub cancel : Uuid → Action St OrderError (Unit {0})
  cancel order_uuid = do
    cancelled ← order_repo.cancel order_uuid
    lift (expect_updated cancelled)
    pure tt

  -- Get
  unfoldable pub get : Uuid → Action St OrderError Order
  get order_uuid = order_repo.get order_uuid

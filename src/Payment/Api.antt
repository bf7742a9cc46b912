-- ===== src/Payment/Api.antt =====
-- payment/internal/api/payment/v1/pay.go: the gRPC handler.
use Prim.Native.String.{◌++◌}
use microservices_course.Common.{String, ◌==◌, nat_eq, ◌||◌, if◌then◌else◌}
use microservices_course.Go.{
  Uuid, UuidPackage, Time, Result, ok, err, is, error_text, Status, Reply, response, failed,
  invalid_argument, internal,
}
use microservices_course.Proto.Billing
use microservices_course.Proto.Billing.{PayOrderRequest, PayOrderResponse}
use microservices_course.Payment.Errors.{
  PaymentError, Error, payment_sentinel, invalid_uuid, invalid_payment_method,
}
use microservices_course.Payment.Model.{
  PaymentMethod, method_unspecified, method_card, method_sbp, method_credit_card,
  method_investor_money,
}
use microservices_course.Payment.Service
use microservices_course.Payment.Service.{Service}

-- paymentMethodToModel
unfoldable pub payment_method_to_model : Billing.PaymentMethod → PaymentMethod
payment_method_to_model method =
    if method == Billing.payment_method_card
    then method_card
    else if method == Billing.payment_method_sbp
    then method_sbp
    else if method == Billing.payment_method_credit_card
    then method_credit_card
    else if method == Billing.payment_method_investor_money
    then method_investor_money
    else method_unspecified

-- paymentErrorToStatus
unfoldable pub payment_error_to_status : Error → Status
payment_error_to_status e =
    if is e invalid_uuid || is e invalid_payment_method
    then record { code = invalid_argument; text = error_text e }
    else record { code = internal; text = "внутренняя ошибка: " ++ error_text e }

-- What the handler replies, by what the service returns.
unfoldable pub pay_order_reply : Result PaymentError String → Reply PayOrderResponse
pay_order_reply (err e) = failed (payment_error_to_status e)
pay_order_reply (ok transaction_uuid) = response (record { transaction_uuid = transaction_uuid })

-- PayOrder
unfoldable pub pay_order :
    {St : Type 0}
    → UuidPackage
    → Service St
    → Result PaymentError Uuid
    → Time
    → PayOrderRequest
    → St
    → Reply PayOrderResponse × St
pay_order uuids service fresh now req s =
    let (r, t) =
      Service.pay_order uuids service fresh now req.order_uuid
        (payment_method_to_model req.payment_method) s in
    (pay_order_reply r, t)

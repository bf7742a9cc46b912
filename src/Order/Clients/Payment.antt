-- ===== src/Order/Clients/Payment.antt =====
-- order/internal/client/grpc/payment/v1/client.go: the client of PaymentService. The gRPC call is a
-- parameter.
use microservices_course.Common.{String, none, some, ◌==◌, string_eq, if◌then◌else◌}
use microservices_course.Go.{
  Action, Uuid, UuidPackage, Result, ok, err, sentinel, wrap, foreign, Status, invalid_argument,
  not_found, internal, other, Reply, response, failed,
}
use microservices_course.Proto.Billing
use microservices_course.Proto.Billing.{PayOrderRequest, PayOrderResponse}
use microservices_course.Order.Errors.{OrderError, Error, invalid_payment_method}
use microservices_course.Order.Model.{
  PaymentMethod, method_card, method_sbp, method_credit_card, method_investor_money,
}

-- paymentMethodToProto
unfoldable pub payment_method_to_proto : PaymentMethod → Billing.PaymentMethod
payment_method_to_proto method =
    if method == method_card
    then Billing.payment_method_card
    else if method == method_sbp
    then Billing.payment_method_sbp
    else if method == method_credit_card
    then Billing.payment_method_credit_card
    else if method == method_investor_money
    then Billing.payment_method_investor_money
    else Billing.payment_method_unspecified

-- The `switch` on the code of a failed call; `rpc_text` is the text of the error that the gRPC package
-- makes of a status.
abbrev pub pay_order_error : (Status → String) → Status → Error
pay_order_error rpc_text status = elim status.code [
  | invalid_argument ↦ sentinel invalid_payment_method
  | not_found ↦ wrap "оплатить заказ" (foreign (rpc_text status))
  | internal ↦ wrap "оплатить заказ" (foreign (rpc_text status))
  | other ↦ wrap "оплатить заказ" (foreign (rpc_text status))
]

-- `parse_failure` is the text of the error of `uuid.Parse`.
unfoldable pub read_transaction :
    UuidPackage
    → (String → String)
    → (Status → String)
    → Reply PayOrderResponse
    → Result OrderError Uuid
read_transaction uuids parse_failure rpc_text (failed status) =
    err (pay_order_error rpc_text status)
read_transaction uuids parse_failure rpc_text (response resp) =
    elim (uuids.parse resp.transaction_uuid) [
      | none ↦
          err (wrap "разобрать UUID транзакции" (foreign (parse_failure resp.transaction_uuid)))
      | some u ↦ ok u
    ]

-- PayOrder
unfoldable pub pay_order :
    {St : Type 0}
    → UuidPackage
    → (String → String)
    → (Status → String)
    → (PayOrderRequest → St → Reply PayOrderResponse × St)
    → String
    → PaymentMethod
    → Action St OrderError Uuid
unfolding read_transaction payment_method_to_proto
pay_order uuids parse_failure rpc_text call order_uuid method s =
    let (reply, t) =
      call (record { order_uuid = order_uuid; payment_method = payment_method_to_proto method })
        s in
    (read_transaction uuids parse_failure rpc_text reply, t)

-- ===== src/Order/Api/Convert.antt =====
-- order/internal/converter/order.go: between the domain model and the types of the HTTP interface.
use microservices_course.Common.{Option, some, none, ◌==◌, string_eq, if◌then◌else◌}
use microservices_course.Go.{Uuid, nil_uuid}
use microservices_course.Openapi.Schemas
use microservices_course.Openapi.Schemas.{OptNil, new_opt_nil, unset, OrderDto}
use microservices_course.Order.Model.{
  Order, PaymentMethod, OrderStatus, method_card, method_sbp, method_credit_card,
  method_investor_money, status_paid, status_cancelled,
}

-- PaymentMethodToModel
unfoldable pub payment_method_to_model : Schemas.PaymentMethod → PaymentMethod
payment_method_to_model method =
    if method == Schemas.card
    then method_card
    else if method == Schemas.sbp
    then method_sbp
    else if method == Schemas.credit_card
    then method_credit_card
    else if method == Schemas.investor_money
    then method_investor_money
    else ""

-- PaymentMethodToDTO
unfoldable pub payment_method_to_dto : PaymentMethod → Schemas.PaymentMethod
payment_method_to_dto method =
    if method == method_card
    then Schemas.card
    else if method == method_sbp
    then Schemas.sbp
    else if method == method_credit_card
    then Schemas.credit_card
    else if method == method_investor_money
    then Schemas.investor_money
    else ""

-- OrderStatusToDTO
unfoldable pub order_status_to_dto : OrderStatus → Schemas.OrderStatus
order_status_to_dto status =
    if status == status_paid
    then Schemas.paid_status
    else if status == status_cancelled
    then Schemas.cancelled_status
    else Schemas.pending_payment

-- `var x OptNilUUID; if p != nil { x = NewOptNilUUID(*p) }`
abbrev uuid_to_dto : Option Uuid → OptNil Uuid
uuid_to_dto none = unset nil_uuid
uuid_to_dto (some u) = new_opt_nil u

abbrev method_to_dto : Option PaymentMethod → OptNil Schemas.PaymentMethod
method_to_dto none = unset ""
method_to_dto (some m) = new_opt_nil (payment_method_to_dto m)

-- OrderToDTO
unfoldable pub order_to_dto : Order → OrderDto
unfolding payment_method_to_dto order_status_to_dto new_opt_nil unset
order_to_dto order = record {
  order_uuid = order.order_uuid;
  hull_uuid = order.hull_uuid;
  engine_uuid = order.engine_uuid;
  shield_uuid = uuid_to_dto order.shield_uuid;
  weapon_uuid = uuid_to_dto order.weapon_uuid;
  total_price = order.total_price;
  transaction_uuid = uuid_to_dto order.transaction_uuid;
  payment_method = method_to_dto order.payment_method;
  status = order_status_to_dto order.status;
  created_at = order.created_at;
}

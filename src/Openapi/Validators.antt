-- ===== src/Openapi/Validators.antt =====
-- shared/pkg/openapi/order/v1/oas_validators_gen.go: the checks of the generated types; a failure
-- names the fields that failed.
use microservices_course.Common.{
  String, Bool, true, false, ◌==◌, string_eq, Option, some, none, List, [], ◌∷◌, ◌++◌,
  if◌then◌else◌,
}
use microservices_course.Openapi.Schemas.{
  opt_get, PaymentMethod, OrderStatus, OrderDto, PayOrderRequest,
}

-- (PaymentMethod).Validate, true for nil
unfoldable pub method_valid : PaymentMethod → Bool
method_valid s =
    if s == "CARD"
    then true
    else if s == "SBP"
    then true
    else if s == "CREDIT_CARD"
    then true
    else if s == "INVESTOR_MONEY"
    then true
    else false

-- (OrderStatus).Validate, true for nil
unfoldable pub status_valid : OrderStatus → Bool
status_valid s =
    if s == "PENDING_PAYMENT"
    then true
    else if s == "PAID"
    then true
    else if s == "CANCELLED"
    then true
    else false

abbrev method_set_valid : Option PaymentMethod → Bool
method_set_valid none = true
method_set_valid (some value) = method_valid value

-- (*OrderDto).Validate: the names of the fields that fail
unfoldable pub order_dto_failures : OrderDto → List String
unfolding method_valid status_valid opt_get
order_dto_failures s =
    (if method_set_valid (opt_get s.payment_method) then [] else "payment_method" ∷ [])
    ++ (if status_valid s.status then [] else "status" ∷ [])

-- (*PayOrderRequest).Validate: the names of the fields that fail
unfoldable pub pay_order_request_failures : PayOrderRequest → List String
unfolding method_valid
pay_order_request_failures s = if method_valid s.payment_method then [] else "payment_method" ∷ []

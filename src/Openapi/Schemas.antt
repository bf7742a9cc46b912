-- ===== src/Openapi/Schemas.antt =====
-- shared/pkg/openapi/order/v1/oas_schemas_gen.go: the types of the requests and responses.
use microservices_course.Common.{
  ℕ, String, Bool, true, false, not, Option, some, none, if◌then◌else◌,
}
use microservices_course.Common.Int64.{Int64}
use microservices_course.Go.{Uuid, Time}

-- OptNilUUID and OptNilPaymentMethod: a field that may be absent or null.
pub record OptNil (A : Type 0) : Type 0 where
  pub value : A
  pub set : Bool
  pub null : Bool

module _ {A : Type 0} where
  -- NewOptNilUUID, NewOptNilPaymentMethod
  unfoldable pub new_opt_nil : A → OptNil A
  new_opt_nil v = record { value = v; set = true; null = false }

  -- The zero value of the struct; `zero_value` is that of the field.
  unfoldable pub unset : A → OptNil A
  unset zero_value = record { value = zero_value; set = false; null = false }

  -- SetToNull
  unfoldable pub set_to_null : A → OptNil A
  set_to_null zero_value = record { value = zero_value; set = true; null = true }

  -- Get: the value, where it is set and not null.
  unfoldable pub opt_get : OptNil A → Option A
  opt_get o = if o.null then none else if not o.set then none else some o.value

-- The constants of PaymentMethod and OrderStatus.
abbrev pub PaymentMethod : Type 0
PaymentMethod = String

abbrev pub card : PaymentMethod
card = "CARD"

abbrev pub sbp : PaymentMethod
sbp = "SBP"

abbrev pub credit_card : PaymentMethod
credit_card = "CREDIT_CARD"

abbrev pub investor_money : PaymentMethod
investor_money = "INVESTOR_MONEY"

abbrev pub OrderStatus : Type 0
OrderStatus = String

abbrev pub pending_payment : OrderStatus
pending_payment = "PENDING_PAYMENT"

abbrev pub paid_status : OrderStatus
paid_status = "PAID"

abbrev pub cancelled_status : OrderStatus
cancelled_status = "CANCELLED"

pub record CreateOrderRequest : Type 0 where
  pub hull_uuid : Uuid
  pub engine_uuid : Uuid
  pub shield_uuid : OptNil Uuid
  pub weapon_uuid : OptNil Uuid

pub record CreateOrderResponse : Type 0 where
  pub order_uuid : Uuid
  pub total_price : Int64

pub record PayOrderRequest : Type 0 where
  pub payment_method : PaymentMethod

pub record PayOrderResponse : Type 0 where
  pub transaction_uuid : Uuid

pub record OrderDto : Type 0 where
  pub order_uuid : Uuid
  pub hull_uuid : Uuid
  pub engine_uuid : Uuid
  pub shield_uuid : OptNil Uuid
  pub weapon_uuid : OptNil Uuid
  pub total_price : Int64
  pub transaction_uuid : OptNil Uuid
  pub payment_method : OptNil PaymentMethod
  pub status : OrderStatus
  pub created_at : Time

-- Error; the code is an int in Go, here a number from zero.
pub record ErrorBody : Type 0 where
  pub code : ℕ
  pub message : String

pub data CreateOrderRes : Type 0 where
  created : CreateOrderResponse → CreateOrderRes
  bad_request not_found conflict internal_server_error : ErrorBody → CreateOrderRes

pub data GetOrderRes : Type 0 where
  found : OrderDto → GetOrderRes
  bad_request not_found internal_server_error : ErrorBody → GetOrderRes

pub data PayOrderRes : Type 0 where
  paid : PayOrderResponse → PayOrderRes
  bad_request not_found conflict internal_server_error : ErrorBody → PayOrderRes

pub data CancelOrderRes : Type 0 where
  cancelled : CancelOrderRes
  bad_request not_found conflict internal_server_error : ErrorBody → CancelOrderRes

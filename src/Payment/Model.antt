-- ===== src/Payment/Model.antt =====
-- payment/internal/model/payment.go: a stored payment.
use microservices_course.Common.{String}
use microservices_course.Go.{Uuid, Time}

abbrev pub PaymentMethod : Type 0
PaymentMethod = String

abbrev pub method_unspecified : PaymentMethod
method_unspecified = "UNSPECIFIED"

abbrev pub method_card : PaymentMethod
method_card = "CARD"

abbrev pub method_sbp : PaymentMethod
method_sbp = "SBP"

abbrev pub method_credit_card : PaymentMethod
method_credit_card = "CREDIT_CARD"

abbrev pub method_investor_money : PaymentMethod
method_investor_money = "INVESTOR_MONEY"

pub record Payment : Type 0 where
  pub transaction_uuid : Uuid
  pub order_uuid : Uuid
  pub payment_method : PaymentMethod
  pub created_at : Time

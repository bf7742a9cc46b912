-- ===== src/Proto/Billing.antt =====
-- shared/pkg/proto/payment/v1/payment.pb.go: the messages of PaymentService.
use microservices_course.Common.{ℕ, String}

-- PaymentMethod
abbrev pub PaymentMethod : Type 0
PaymentMethod = ℕ

abbrev pub payment_method_unspecified : PaymentMethod
payment_method_unspecified = 0

abbrev pub payment_method_card : PaymentMethod
payment_method_card = 1

abbrev pub payment_method_sbp : PaymentMethod
payment_method_sbp = 2

abbrev pub payment_method_credit_card : PaymentMethod
payment_method_credit_card = 3

abbrev pub payment_method_investor_money : PaymentMethod
payment_method_investor_money = 4

pub record PayOrderRequest : Type 0 where
  pub order_uuid : String
  pub payment_method : PaymentMethod

pub record PayOrderResponse : Type 0 where
  pub transaction_uuid : String

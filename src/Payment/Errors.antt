-- ===== src/Payment/Errors.antt =====
-- payment/internal/errors/errors.go: the sentinels of PaymentService.
use microservices_course.Common.{ℕ, String, ◌==◌, nat_eq}
use microservices_course.Go.{Sentinel, Err}

pub data PaymentError : Type 0 where
  invalid_uuid invalid_payment_method : PaymentError

abbrev tag : PaymentError → ℕ
tag invalid_uuid = 0
tag invalid_payment_method = 1

abbrev message : PaymentError → String
message invalid_uuid = "неверный формат UUID"
message invalid_payment_method = "неверный метод оплаты"

instance abbrev pub payment_sentinel : Sentinel PaymentError
payment_sentinel = record { same = λ a b. tag a == tag b; message = message }

abbrev pub Error : Type 0
Error = Err PaymentError

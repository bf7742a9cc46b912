-- ===== src/Order/Errors.antt =====
-- order/internal/errors/errors.go: the sentinels of OrderService.
use microservices_course.Common.{ℕ, String, ◌==◌, nat_eq}
use microservices_course.Go.{Sentinel, Err}

pub data OrderError : Type 0 where
  order_not_found order_already_paid order_cancelled payment_in_progress : OrderError
  part_not_found out_of_stock invalid_uuid invalid_payment_method : OrderError

-- The identity of each variable.
abbrev tag : OrderError → ℕ
tag order_not_found = 0
tag order_already_paid = 1
tag order_cancelled = 2
tag payment_in_progress = 3
tag part_not_found = 4
tag out_of_stock = 5
tag invalid_uuid = 6
tag invalid_payment_method = 7

abbrev message : OrderError → String
message order_not_found = "заказ не найден"
message order_already_paid = "заказ уже оплачен"
message order_cancelled = "заказ отменён"
message payment_in_progress = "оплата заказа уже обрабатывается"
message part_not_found = "деталь не найдена"
message out_of_stock = "деталь отсутствует на складе"
message invalid_uuid = "неверный формат UUID"
message invalid_payment_method = "неверный метод оплаты"

instance abbrev pub order_sentinel : Sentinel OrderError
order_sentinel = record { same = λ a b. tag a == tag b; message = message }

abbrev pub Error : Type 0
Error = Err OrderError

-- ===== src/Order/Model/Statuses.antt =====
-- order/internal/model/order.go: the constants of OrderStatus are different texts.
use microservices_course.Common.{◌≡◌, eq_iff, arith}
use microservices_course.Order.Model.{
  status_pending_payment, status_payment_processing, status_paid, status_cancelled,
}

pub pending_not_processing : status_pending_payment ≡ status_payment_processing → ⊥
pending_not_processing = ground (arith, eq_iff status_pending_payment status_payment_processing)

pub paid_not_processing : status_paid ≡ status_payment_processing → ⊥
paid_not_processing = ground (arith, eq_iff status_paid status_payment_processing)

pub cancelled_not_processing : status_cancelled ≡ status_payment_processing → ⊥
cancelled_not_processing = ground (arith, eq_iff status_cancelled status_payment_processing)

pub pending_not_paid : status_pending_payment ≡ status_paid → ⊥
pending_not_paid = ground (arith, eq_iff status_pending_payment status_paid)

-- ===== src/Payment.antt =====
-- PaymentService: it records the payment of an order.
pub mod Errors
pub mod Model
pub mod Service
pub mod Api
pub mod Charge
pub mod History

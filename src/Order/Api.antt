-- ===== src/Order/Api.antt =====
-- order/internal/api/order/v1 and order/internal/converter: the handlers of the HTTP interface.
pub mod Convert
pub mod Errors
pub mod Handlers
pub mod Statuses

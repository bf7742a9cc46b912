-- ===== src/Openapi.antt =====
-- shared/pkg/openapi/order/v1: the HTTP interface of OrderService, generated from shared/api/order/v1.
pub mod Schemas
pub mod Responses
pub mod Json
pub mod Router
pub mod Parameters
pub mod Bodies
pub mod Server
pub mod Answers
pub mod Client
pub mod Validators

-- ===== src/Order/Service.antt =====
-- order/internal/service/order: the business logic of orders, over the storage and the clients.
pub mod Create
pub mod Pay
pub mod Deps
pub mod Spec
pub mod Refinement
pub mod OnPostgres

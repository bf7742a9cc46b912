-- ===== src/Order/Clients.antt =====
-- order/internal/client/grpc: the clients of InventoryService and PaymentService.
pub mod Inventory
pub mod Payment

-- ===== src/Proto.antt =====
-- shared/pkg/proto: the messages that the services exchange over gRPC.
pub mod Catalog
pub mod Billing

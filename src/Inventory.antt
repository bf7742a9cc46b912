-- ===== src/Inventory.antt =====
-- InventoryService: the catalogue of parts.
pub mod Errors
pub mod Model
pub mod Repository
pub mod Service
pub mod Api
pub mod Types

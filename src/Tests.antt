-- ===== src/Tests.antt =====
-- The theorems at concrete inputs.
pub mod Fixtures
pub mod Database
pub mod Json
mod Orders
mod Requests
mod Services
mod Storage
pub mod Http
mod Calls

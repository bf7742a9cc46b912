-- ===== src/Order.antt =====
-- OrderService: its data, its storage, its clients, its business logic and its API.
pub mod Errors
pub mod Model
pub mod Records
pub mod Converter
pub mod Repository
pub mod Memory
pub mod Postgres
pub mod Service
pub mod Api
pub mod Clients
pub mod Threads
pub mod Http
pub mod Readback
pub mod Crossing

-- ===== src/System.antt =====
-- The services together: a client of OrderService over the handlers of the service that it calls.
pub mod Charge
pub mod Quote

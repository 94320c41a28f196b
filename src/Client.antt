-- ===== src/Client.antt =====
-- client: the load generator, a client of the exchange that keeps requests in flight on its
-- connections.
pub mod Factory
pub mod State
pub mod Sending
pub mod Receiving
pub mod Pipeline
pub mod Running

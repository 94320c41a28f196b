-- ===== src/Server.antt =====
-- exchange/server: the gateway between the sockets and the engine.
pub mod Validation
pub mod Gateway
pub mod Latency
pub mod Responses
pub mod State
pub mod Sending
pub mod Routing
pub mod Connecting
pub mod Closing
pub mod Rounds

-- ===== src/Tests.antt =====
-- Small books, rings and messages, and the theorems at them.
pub mod Samples
pub mod Rings
pub mod Buffers
pub mod Queues
pub mod Books
pub mod Drivers
pub mod Servers
pub mod Clients
pub mod Exchanges
pub mod Threads

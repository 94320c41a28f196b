-- ===== src/Engine.antt =====
-- exchange/engine: the matching engine around one order book.
pub mod Config
pub mod Order
pub mod OrderPool
pub mod Levels
pub mod PriceLevelQueue
pub mod Orderbook
pub mod Driver

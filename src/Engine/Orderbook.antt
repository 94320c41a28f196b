-- ===== src/Engine/Orderbook.antt =====
-- exchange/engine/include/orderbook.hpp and exchange/engine/src/orderbook.cpp: the price-time-priority
-- book. `State`, `Matching` and `Requests` are the code; the others prove what it does.
pub mod Orders
pub mod State
pub mod Matching
pub mod Requests
pub mod Counting
pub mod Ladders
pub mod Core
pub mod Tally
pub mod Entering
pub mod Invariant
pub mod Steps
pub mod Priority
pub mod Conserving
pub mod Fronts
pub mod Rounds
pub mod MarketRounds
pub mod Exhausting
pub mod Crossing
pub mod Market
pub mod Cancelling
pub mod Adding
pub mod Good
pub mod Processing
pub mod Starting
pub mod Overpriced

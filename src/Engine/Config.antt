-- ===== src/Engine/Config.antt =====
-- exchange/config/config.hpp, as committed: LOGGING, DIAGNOSTICS and TESTING are 0.
use client_exchange_simulati.Prelude.{ℕ}

-- `MIN_PRICE` and `MAX_PRICE`, the first and the last tick of the price ladders
abbrev pub min_price : ℕ
min_price = 1

abbrev pub max_price : ℕ
max_price = 100_000

-- `PREALLOCATION_COUNT`, the capacity of the order pool
abbrev pub preallocation_count : ℕ
preallocation_count = 1_000_000

-- ===== src/Server/Latency.antt =====
-- exchange/server/include/latency.hpp: the samples that the outbound thread collects, and the values
-- that are handed to the histogram at the end. The histogram is a library. `samples_` is an array, of
-- which the indices below `count` are used; `ticks_per_ns_` is a double that is truncated wherever it
-- is used, so its integer part is an argument. DIAGNOSTICS is 0, so t1 to t6 stay 0.
pub mod Bounds
use client_exchange_simulati.Prelude.{
  ℕ, zero, suc, ◌+◌, ◌-◌, ◌/◌, ◌%◌, ◌^◌, Bool, Option, none, some, List, [], ◌∷◌, ltb, ◌==◌,
  if◌then◌else◌,
}
use client_exchange_simulati.RingBuffer.{store}
use client_exchange_simulati.Wire.{Timestamp}

pub record LatencySample : Type 0 where
  pub t0 : Timestamp
  pub t1 : Timestamp
  pub t2 : Timestamp
  pub t3 : Timestamp
  pub t4 : Timestamp
  pub t5 : Timestamp
  pub t6 : Timestamp
  pub t7 : Timestamp

pub record PendingLatency : Type 0 where
  pub read_begin_tsc : Timestamp
  pub recv_tsc : Timestamp
  pub server_push_tsc : Timestamp
  pub engine_pop_tsc : Timestamp
  pub engine_push_tsc : Timestamp
  pub server_pop : Timestamp
  pub is_recorded : Bool

pub record LatencyHandler : Type 0 where
  pub samples : ℕ → LatencySample
  pub count : ℕ

-- `LATENCY_SAMPLE_DROP` and `LATENCY_SAMPLE_COUNT`, the size of `samples_`
abbrev pub sample_drop : ℕ
sample_drop = 100_000

abbrev pub sample_count : ℕ
sample_count = 100_100_000

-- `LatencySample s{}` with its first and last time
abbrev pub sample_of : Timestamp → Timestamp → LatencySample
sample_of begin end = record {
  t0 = begin;
  t1 = 0;
  t2 = 0;
  t3 = 0;
  t4 = 0;
  t5 = 0;
  t6 = 0;
  t7 = end;
}

unfoldable pub push_sample : LatencyHandler → LatencySample → LatencyHandler
push_sample h s =
    if ltb h.count sample_count
    then record { samples = store h.samples h.count s; count = h.count + 1 }
    else h

-- `calc_latency` of times that do not run backwards; the difference wraps in 64 bits. There is no
-- value for a clock of less than one tick in a nanosecond, where the code divides by zero.
unfoldable pub calc_latency : ℕ → Timestamp → Timestamp → Option ℕ
calc_latency ticks t1 t2 = if ticks == 0 then none else some ((t2 + 2 ^ 64 - t1) % 2 ^ 64 / ticks)

-- The values that the loop of the destructor records, from index `i` on.
unfoldable pub record_from : ℕ → LatencyHandler → ℕ → ℕ → List (Option ℕ)
record_from ticks h i zero = []
record_from ticks h i (suc n) =
    calc_latency ticks (h.samples i).t0 (h.samples i).t7 ∷ record_from ticks h (suc i) n

-- The destructor
unfoldable pub report : ℕ → LatencyHandler → List (Option ℕ)
report ticks h =
    if h.count == 0 then [] else record_from ticks h sample_drop (h.count - sample_drop)

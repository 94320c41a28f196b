-- ===== src/Server/Latency/Bounds.antt =====
-- The samples stay within their array, and the first ones are left out of the report.
use client_exchange_simulati.Prelude.{
  ℕ, zero, suc, ◌+◌, ◌-◌, ◌≤◌, ◌≡◌, refl, ap, List, [], ◌∷◌, arith, length, ltb, if◌then◌else◌,
}
use client_exchange_simulati.Server.Latency.{
  LatencySample, LatencyHandler, sample_count, sample_drop, push_sample, record_from, report,
}

-- The samples pushed one after the other.
pub push_all : LatencyHandler → List LatencySample → LatencyHandler
push_all h [] = h
push_all h (s ∷ ss) = push_all (push_sample h s) ss

push_sample-count :
    (h : LatencyHandler) (s : LatencySample)
    → h.count ≤ sample_count
    → (push_sample h s).count ≡ (if ltb h.count sample_count then h.count + 1 else sample_count)
unfolding push_sample
push_sample-count h s v = ground arith

-- However many samples are pushed onto a handler within its array, it counts the old and the new ones
-- as long as they fit, and never more than the array has places.
pub push_all-count :
    (h : LatencyHandler) (ss : List LatencySample)
    → h.count ≤ sample_count
    → (push_all h ss).count
      ≡ (if ltb (h.count + length ss) sample_count then h.count + length ss else sample_count)
unfolding push_all
push_all-count h [] v = ground arith
push_all-count h (s ∷ ss) v =
    let one = push_sample-count h s v in
    ground (arith, push_all-count (push_sample h s) ss (ground arith))

length-record_from :
    (ticks : ℕ) (h : LatencyHandler) (i n : ℕ) → length (record_from ticks h i n) ≡ n
unfolding record_from
length-record_from ticks h i zero = refl
length-record_from ticks h i (suc n) = ap suc (length-record_from ticks h (suc i) n)

-- The report has one value for each sample but the first LATENCY_SAMPLE_DROP.
pub length-report :
    (ticks : ℕ) (h : LatencyHandler) → length (report ticks h) ≡ h.count - sample_drop
unfolding report
length-report ticks h =
    ground (arith, length-record_from ticks h sample_drop (h.count - sample_drop))

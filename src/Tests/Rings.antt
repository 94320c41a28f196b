-- ===== src/Tests/Rings.antt =====
-- The ring and the validation of messages, at concrete values.
use client_exchange_simulati.RingBuffer.Linear.{interleave_refines, interleave-apart}
use client_exchange_simulati.Prelude.{
  ℕ, ◌↔◌, ◌≢◌, List, ◌++◌, refl, true, ◌≡◌, ◌≤◌, [], ◌∷◌, length, arith,
}
use client_exchange_simulati.RingBuffer.{RingBuffer, size, next}
use client_exchange_simulati.RingBuffer.Threads.{
  Turn, of_producer, of_consumer, start, produce, consume, turn, interleave, calls, replies,
}
use client_exchange_simulati.RingBuffer.Inv.{IsValid}
use client_exchange_simulati.RingBuffer.Refine.{contents, size_lem}
use client_exchange_simulati.RingBuffer.Runs.{give, take, run, run_queue, run_refines}
use client_exchange_simulati.Server.Validation.{validate_message, IsRequest, validate_message_lem}
use client_exchange_simulati.Tests.Samples.{empty_ring, sell}

-- A ring of eight places that reads from the sixth: five items go round its end.
abbrev pub late_ring : RingBuffer ℕ
late_ring = record (empty_ring 0) { write_idx = 2; read_idx = 5 }

late_ring-IsValid : IsValid 3 late_ring
late_ring-IsValid = record {
  sized = refl;
  small = omega arith;
  write_in = omega arith;
  read_in = omega arith;
}

run_refines_example :
    run late_ring (give 4 ∷ take ∷ give 5 ∷ give 6 ∷ give 7 ∷ take ∷ [])
    ≡ run_queue 7 (contents late_ring) (give 4 ∷ take ∷ give 5 ∷ give 6 ∷ give 7 ∷ take ∷ [])
run_refines_example =
    run_refines (give 4 ∷ take ∷ give 5 ∷ give 6 ∷ give 7 ∷ take ∷ []) late_ring-IsValid

size_lem_example : (size late_ring ≡ length (contents late_ring)) × (size late_ring ≤ 7)
size_lem_example = size_lem late_ring-IsValid

-- The consumer reads its place while the producer stores at another.
abbrev turns : List (Turn ℕ)
turns = of_producer 4 ∷ of_consumer ∷ of_producer 0 ∷ of_consumer ∷ []

interleave_refines_example :
    let es = (interleave (start late_ring) (turns ++ of_producer 0 ∷ of_consumer ∷ turns)).0 in
    replies es ≡ run_queue 7 (contents late_ring) (calls es)
interleave_refines_example =
    interleave_refines late_ring late_ring-IsValid (turns ++ of_producer 0 ∷ of_consumer ∷ turns)

interleave-apart_example : let place : ℕ = 2 in place ≢ 5
unfolding produce consume turn interleave next
interleave-apart_example = interleave-apart late_ring late_ring-IsValid turns 4 2 3 5 refl refl

validate_message_lem_example : (validate_message sell ≡ true) ↔ IsRequest sell
validate_message_lem_example = validate_message_lem sell

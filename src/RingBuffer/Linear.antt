-- ===== src/RingBuffer/Linear.antt =====
-- exchange/include/ring_buffer.hpp: schedules of the accesses of the two threads, and the calls that
-- return on the way.
use client_exchange_simulati.Prelude.{
  ℕ, ◌≡◌, ◌≢◌, refl, sym, ap, subst, ◌∙◌, Option, none, some, List, [], ◌∷◌,
}
use client_exchange_simulati.RingBuffer.{RingBuffer}
use client_exchange_simulati.RingBuffer.Inv.{IsValid}
use client_exchange_simulati.RingBuffer.Refine.{contents}
use client_exchange_simulati.RingBuffer.Runs.{run_queue}
use client_exchange_simulati.RingBuffer.Places.{apart}
use client_exchange_simulati.RingBuffer.Threads.{
  Threads, at_store, reading, Event, returned, start, Turn, turn, note, interleave, calls, replies,
}
use client_exchange_simulati.RingBuffer.Turns.{Knows, Sees, IsRunning, Acts, turn-Turned}

module _ {T : Type 0} where
  note-Acts :
      (cap : ℕ) (q q' : List T) (e : Option (Event T)) (es : List (Event T))
      → Acts cap q e q'
      → replies es ≡ run_queue cap q' (calls es)
      → replies (note e es) ≡ run_queue cap q (calls (note e es))
  unfolding note calls replies
  note-Acts cap q q' none es a h = h ∙ ap (λ l. run_queue cap l (calls es)) a
  note-Acts cap q q' (some (returned c r)) es a h = ap (λ l. r ∷ l) h ∙ sym (a (calls es))

  running_refines :
      (ts : List (Turn T)) {width : ℕ} (s : Threads T)
      → IsRunning width s
      → let es = (interleave s ts).0 in
        replies es ≡ run_queue s.ring.mask (contents s.ring) (calls es)
  unfolding interleave replies calls run_queue
  running_refines [] s v = refl
  running_refines (t ∷ ts) s v =
      let now = turn-Turned s t v in
      note-Acts s.ring.mask _ _ _ _ now.2 (
        running_refines ts (turn s t).0 now.0
        ∙ ap (λ m. run_queue m (contents (turn s t).0.ring) (calls (interleave (turn s t).0 ts).0))
            now.1)

  interleave-IsRunning :
      (ts : List (Turn T)) {width : ℕ} (s : Threads T)
      → IsRunning width s
      → IsRunning width (interleave s ts).1
  unfolding interleave
  interleave-IsRunning [] s v = v
  interleave-IsRunning (t ∷ ts) s v = interleave-IsRunning ts (turn s t).0 (turn-Turned s t v).0

  start-IsRunning : {width : ℕ} {r : RingBuffer T} → IsValid width r → IsRunning width (start r)
  start-IsRunning v = record { valid = v; knows = tt; sees = tt }

  -- For any order of the accesses of a producer and a consumer to a valid ring, both between two calls
  -- at first: what the calls that returned answered is what a first-in first-out queue of at most N - 1
  -- items, with those the ring held at first, answers to the same calls, one after another in the
  -- order they returned.
  pub interleave_refines :
      {width : ℕ} (r : RingBuffer T)
      → IsValid width r
      → (ts : List (Turn T))
      → let es = (interleave (start r) ts).0 in
        replies es ≡ run_queue r.mask (contents r) (calls es)
  interleave_refines r v ts = running_refines ts (start r) (start-IsRunning v)

  -- For any order of the accesses of a producer and a consumer to a valid ring, both between two calls
  -- at first: when the producer is about to write a place of the array, the consumer is not about to
  -- read that place.
  pub interleave-apart :
      {width : ℕ} (r : RingBuffer T)
      → IsValid width r
      → (ts : List (Turn T)) (x : T) (w n i : ℕ)
      → (interleave (start r) ts).1.producer ≡ at_store x w n
      → (interleave (start r) ts).1.consumer ≡ reading i
      → w ≢ i
  interleave-apart r v ts x w n i p c e =
      let after = interleave-IsRunning ts (start r) (start-IsRunning v) in
      let here = (interleave (start r) ts).1.ring in
      let known : Knows here (at_store x w n) = subst (Knows here) p after.knows in
      let seen : Sees here (reading i) = subst (Sees here) c after.sees in
      apart after.valid seen.1 (sym seen.0 ∙ (sym e ∙ known.0))

-- ===== src/RingBuffer/Runs.antt =====
-- Any sequence of calls of the producer and the consumer, seen from outside.
use client_exchange_simulati.Prelude.{ℕ, ◌≡◌, refl, Bool, Option, List, [], ◌∷◌, arith}
use client_exchange_simulati.RingBuffer.{RingBuffer, push, pop}
use client_exchange_simulati.RingBuffer.Inv.{IsValid, push-IsValid, pop-IsValid}
use client_exchange_simulati.RingBuffer.Refine.{contents, offer, poll, push_refines, pop_refines}

pub data Call (T : Type 0) : Type 0 where
  give : T → Call T
  take : Call T

pub data Reply (T : Type 0) : Type 0 where
  stored : Bool → Reply T
  taken : Option T → Reply T

module _ {T : Type 0} where
  unfoldable pub run : RingBuffer T → List (Call T) → List (Reply T)
  run r [] = []
  run r (give x ∷ cs) = let (done, r') = push r x in stored done ∷ run r' cs
  run r (take ∷ cs) = let (out, r') = pop r in taken out ∷ run r' cs

  -- The same calls on the specification.
  unfoldable pub run_queue : ℕ → List T → List (Call T) → List (Reply T)
  run_queue cap q [] = []
  run_queue cap q (give x ∷ cs) =
      let (done, q') = offer cap q x in stored done ∷ run_queue cap q' cs
  run_queue cap q (take ∷ cs) = let (out, q') = poll q in taken out ∷ run_queue cap q' cs

  mask-push : (r : RingBuffer T) (x : T) → (push r x).1.mask ≡ r.mask
  unfolding push
  mask-push r x = ground arith

  mask-pop : (r : RingBuffer T) → (pop r).1.mask ≡ r.mask
  unfolding pop
  mask-pop r = ground arith

  -- The replies of a valid ring to any sequence of calls are those of a first-in first-out queue
  -- that holds at most N - 1 items and starts with what the ring holds.
  pub run_refines :
      (cs : List (Call T)) {width : ℕ} {r : RingBuffer T}
      → IsValid width r
      → run r cs ≡ run_queue r.mask (contents r) cs
  unfolding run run_queue
  run_refines [] v = refl
  run_refines (give x ∷ cs) {r = r} v =
      rw (run_refines cs (push-IsValid v x), ← push_refines v x, mask-push r x)
  run_refines (take ∷ cs) {r = r} v =
      rw (run_refines cs (pop-IsValid v), ← pop_refines v, mask-pop r)

-- ===== src/RingBuffer/Drops.antt =====
-- Pushes whose answers are not looked at: a full ring drops what does not fit.
use client_exchange_simulati.Prelude.{ℕ, ◌≡◌, refl, ap, ◌∙◌, List, [], ◌∷◌, ◌++◌, arith}
use client_exchange_simulati.RingBuffer.{RingBuffer, push}
use client_exchange_simulati.RingBuffer.Inv.{IsValid, push-IsValid}
use client_exchange_simulati.RingBuffer.Refine.{contents, offer, push_refines}

module _ {T : Type 0} where
  -- What a queue of at most `cap` items holds after these were offered to it in order: an item that comes
  -- to a full queue is dropped.
  abbrev pub offer_all : ℕ → List T → List T → List T
  offer_all cap q [] = q
  offer_all cap q (x ∷ xs) = offer_all cap (offer cap q x).1 xs

  -- The ring after these items were pushed in order.
  abbrev pub push_each : RingBuffer T → List T → RingBuffer T
  push_each r [] = r
  push_each r (x ∷ xs) = push_each (push r x).1 xs

  pub offer_all-append :
      (cap : ℕ) (q xs ys : List T)
      → offer_all cap (offer_all cap q xs) ys ≡ offer_all cap q (xs ++ ys)
  offer_all-append cap q [] ys = refl
  offer_all-append cap q (x ∷ xs) ys = offer_all-append cap (offer cap q x).1 xs ys

  mask-push : (r : RingBuffer T) (x : T) → (push r x).1.mask ≡ r.mask
  unfolding push
  mask-push r x = ground arith

  pub mask-push_each : (r : RingBuffer T) (xs : List T) → (push_each r xs).mask ≡ r.mask
  mask-push_each r [] = refl
  mask-push_each r (x ∷ xs) = mask-push_each (push r x).1 xs ∙ mask-push r x

  -- A valid ring that items are pushed to stays valid, and holds what the queue of capacity N - 1 holds
  -- that they were offered to.
  pub push_each_refines :
      {width : ℕ} (r : RingBuffer T) (xs : List T)
      → IsValid width r
      → (contents (push_each r xs) ≡ offer_all r.mask (contents r) xs)
        × IsValid width (push_each r xs)
  push_each_refines r [] v = (refl, v)
  push_each_refines r (x ∷ xs) v =
      let rest = push_each_refines (push r x).1 xs (push-IsValid v x) in
      (
        rest.0
            ∙ ap (λ m. offer_all m (contents (push r x).1) xs) (mask-push r x)
            ∙ ap (λ q. offer_all r.mask q xs) (ap (λ p. p.1) (push_refines v x)),
        rest.1,
      )

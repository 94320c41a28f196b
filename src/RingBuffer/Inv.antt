-- ===== src/RingBuffer/Inv.antt =====
-- The representation invariant of a ring: N is a power of two, and both indices are below it.
use native.Mathlib.Nat.{mod-lt}
use client_exchange_simulati.Prelude.{ℕ, ◌+◌, ◌-◌, ◌%◌, ◌^◌, ◌≤◌, ◌<◌, ◌≡◌, arith}
use client_exchange_simulati.Prelude.Bits.{bit_and-mod}
use client_exchange_simulati.RingBuffer.{RingBuffer, next, push, pop}

-- `width` is the logarithm of N.
pub record IsValid {ℓ} {T : Type ℓ} (width : ℕ) (r : RingBuffer T) : Type 0 where
  pub sized : r.mask + 1 ≡ 2 ^ width
  pub small : r.mask < 2 ^ 32 - 1
  pub write_in : r.write_idx ≤ r.mask
  pub read_in : r.read_idx ≤ r.mask

module _ {ℓ} {T : Type ℓ} {width : ℕ} {r : RingBuffer T} (v : IsValid width r) where
  -- The mask wraps an index round at N.
  pub next_lem : (i : ℕ) → next r i ≡ (i + 1) % (r.mask + 1)
  unfolding next
  next_lem i = rw v.sized (bit_and-mod width (i + 1) r.mask v.sized)

  pub next-le : (i : ℕ) → next r i ≤ r.mask
  next-le i = omega (arith, next_lem i, mod-lt (i + 1) {m = r.mask + 1} (omega arith))

  -- `push` keeps the invariant, whether or not it stores.
  pub push-IsValid : (x : T) → IsValid width (push r x).1
  unfolding push
  push-IsValid x = ground (arith, next-le r.write_idx)

  -- `pop` keeps the invariant.
  pub pop-IsValid : IsValid width (pop r).1
  unfolding pop
  pop-IsValid = ground (arith, next-le r.read_idx)

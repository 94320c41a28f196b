-- ===== src/RingBuffer.antt =====
-- exchange/include/ring_buffer.hpp: the single-producer single-consumer ring. The atomics are plain
-- numbers here: a call of the model is one whole call of the producer or of the consumer. `Threads` takes
-- the calls apart into their accesses of memory.
pub mod Inv
pub mod Refine
pub mod Runs
pub mod Drops
pub mod Places
pub mod Threads
pub mod Turns
pub mod Linear
use Prim.Native.Nat.{bit_and}
use client_exchange_simulati.Prelude.{
  ℕ, ◌+◌, ◌-◌, ◌%◌, ◌^◌, Bool, true, false, Option, none, some, ◌==◌, leb, if◌then◌else◌, ◌≡◌, refl,
  arith,
}

-- `RingBuffer<T>`. `buffer` is the array `T[N]`, of which only the indices below N are used.
pub record RingBuffer {ℓ} (T : Type ℓ) : Type ℓ where
  pub write_idx : ℕ
  pub read_idx : ℕ
  pub mask : ℕ
  pub buffer : ℕ → T

-- The assignment `buffer[i] = item`.
abbrev pub store {ℓ} : {T : Type ℓ} → (ℕ → T) → ℕ → T → ℕ → T
store f i x j = if j == i then x else f j

pub store-same {ℓ} : {T : Type ℓ} (f : ℕ → T) (i : ℕ) (x : T) → store f i x i ≡ x
store-same f i x = let here : (i == i) ≡ true = ground arith in rw here refl

module _ {ℓ} {T : Type ℓ} where
  -- The constructor. `std::make_unique<T[]>` fills the array with `T{}`; `mask(N - 1)` is a
  -- `uint32_t`; the assertion `(N & (N - 1)) == 0` fails as `none`.
  pub init : T → ℕ → Option (RingBuffer T)
  init zeroed n =
      let m = (n + 2 ^ 32 - 1) % 2 ^ 32 in
      if bit_and n m == 0
      then some (record { write_idx = 0; read_idx = 0; mask = m; buffer = λ _. zeroed })
      else none

  -- `(idx + 1) & mask`
  unfoldable pub next : RingBuffer T → ℕ → ℕ
  next r idx = bit_and (idx + 1) r.mask

  unfoldable pub push : RingBuffer T → T → Bool × RingBuffer T
  push r item =
      let next_write = next r r.write_idx in
      if next_write == r.read_idx
      then (false, r)
      else (true, record r { buffer = store r.buffer r.write_idx item; write_idx = next_write })

  unfoldable pub pop : RingBuffer T → Option T × RingBuffer T
  pop r =
      if r.read_idx == r.write_idx
      then (none, r)
      else (some (r.buffer r.read_idx), record r { read_idx = next r r.read_idx })

  -- `mask + 1` is computed in `uint32_t`, the rest in `size_t`.
  pub size : RingBuffer T → ℕ
  size r =
      if leb r.read_idx r.write_idx
      then r.write_idx - r.read_idx
      else ((r.mask + 1) % 2 ^ 32 + (r.write_idx + 2 ^ 64 - r.read_idx) % 2 ^ 64) % 2 ^ 64

  unfoldable pub empty : RingBuffer T → Bool
  empty r = r.write_idx == r.read_idx

-- ===== src/RingBuffer/Refine.antt =====
-- A valid ring is a queue of at most N - 1 items: those from the read index up to the write index.
use native.Mathlib.Nat.{mod-add-mod, mod-eq_of_lt, mod-eq-sub-mod}
use native.Mathlib.Decide.{dec_lt}
use client_exchange_simulati.Prelude.{
  ℕ, zero, suc, ◌+◌, ◌-◌, ◌%◌, ◌≤◌, ◌<◌, ◌≡◌, ◌≢◌, refl, ap, ◌∙◌, Bool, true, false, inl, inr,
  leb→le, not-leb→lt, Bool-cases, Option, none, some, List, [], ◌∷◌, ◌++◌, arith, ◌==◌, leb,
  if◌then◌else◌, length, is_nil,
}
use client_exchange_simulati.RingBuffer.{RingBuffer, store, push, pop, size, empty}
use client_exchange_simulati.RingBuffer.Inv.{IsValid, next_lem}

module _ {T : Type 0} where
  -- The `n` items from index `h` on, going round after index `m`.
  abbrev pub window : (ℕ → T) → ℕ → ℕ → ℕ → List T
  window f m h zero = []
  window f m h (suc n) = f h ∷ window f m ((h + 1) % (m + 1)) n

  -- How many items lie between the indices.
  abbrev pub count : RingBuffer T → ℕ
  count r =
      if leb r.read_idx r.write_idx
      then r.write_idx - r.read_idx
      else r.mask + 1 + r.write_idx - r.read_idx

  abbrev pub contents : RingBuffer T → List T
  contents r = window r.buffer r.mask r.read_idx (count r)

  -- The specification: a queue that holds at most `cap` items.
  abbrev pub offer : ℕ → List T → T → Bool × List T
  offer cap q x = if length q == cap then (false, q) else (true, q ++ x ∷ [])

  abbrev pub poll : List T → Option T × List T
  poll [] = (none, [])
  poll (x ∷ q) = (some x, q)

  pub length-window : (f : ℕ → T) (m h n : ℕ) → length (window f m h n) ≡ n
  length-window f m h zero = refl
  length-window f m h (suc n) = ap suc (length-window f m ((h + 1) % (m + 1)) n)

  pub window-eq-cons :
      (f : ℕ → T) (m h n : ℕ)
      → n ≢ 0
      → window f m h n ≡ f h ∷ window f m ((h + 1) % (m + 1)) (n - 1)
  window-eq-cons f m h zero ne = absurd (ne refl)
  window-eq-cons f m h (suc n) ne = ap (λ k. window f m h (suc k)) (omega arith)

-- A walk of fewer steps than the ring has places does not come back.
pub no_return : (m h k : ℕ) → h ≤ m → k < m → (h + suc k) % (m + 1) ≢ h
no_return m h k hh hk = elim (dec_lt (h + suc k) (m + 1)) [
  | yes p ↦ omega (arith, mod-eq_of_lt p)
  | no p ↦ omega (
    arith,
    mod-eq-sub-mod {n = h + suc k} {m = m + 1} (omega arith),
    mod-eq_of_lt {n = h + suc k - (m + 1)} {m = m + 1} (omega arith),
  )
]

-- The next place, without the remainder.
pub step_mod : (m i : ℕ) → i ≤ m → (i + 1) % (m + 1) ≡ (if i == m then 0 else i + 1)
step_mod m i h = elim (dec_lt i m) [
  | yes p ↦ ground (arith, mod-eq_of_lt {n = i + 1} {m = m + 1} (omega arith))
  | no p ↦ ground (
    arith,
    mod-eq-sub-mod {n = i + 1} {m = m + 1} (omega arith),
    mod-eq_of_lt {n = i + 1 - (m + 1)} {m = m + 1} (omega arith),
  )
]

module _ {T : Type 0} where
  -- A store at the place after a window adds the item to its end.
  window-store :
      (f : ℕ → T) (m : ℕ) (x : T) (h n i : ℕ)
      → h ≤ m
      → n ≤ m
      → i ≡ (h + n) % (m + 1)
      → window (store f i x) m h (suc n) ≡ window f m h n ++ x ∷ []
  window-store f m x h zero i hh hn e =
      let same : i ≡ h = omega (arith, mod-eq_of_lt {n = h + 0} {m = m + 1} (omega arith)) in
      ground arith
  window-store f m x h (suc n) i hh hn e =
      let other : i ≢ h = λ same. no_return m h n hh (omega arith) (omega arith) in
      let shift : (h + suc n) % (m + 1) ≡ ((h + 1) % (m + 1) + n) % (m + 1) =
        rw mod-add-mod (ap (λ k. k % (m + 1)) (omega arith)) in
      ground
        (arith, window-store f m x ((h + 1) % (m + 1)) n i (omega arith) (omega arith) (e ∙ shift))

  module _ {width : ℕ} {r : RingBuffer T} (v : IsValid width r) where
    pub count-le : count r ≤ r.mask
    count-le = ground (arith, v.read_in, v.write_in)

    -- The place to write is `count` steps after the place to read.
    pub write-eq : r.write_idx ≡ (r.read_idx + count r) % (r.mask + 1)
    write-eq = elim (Bool-cases (leb r.read_idx r.write_idx)) [
      | inl ahead ↦ rw ahead (
          omega (
            arith,
            leb→le r.read_idx r.write_idx ahead,
            mod-eq_of_lt {n = r.read_idx + (r.write_idx - r.read_idx)} {m = r.mask + 1}
                (omega (arith, leb→le r.read_idx r.write_idx ahead)),
          ))
      | inr behind ↦
          let less : r.write_idx < r.read_idx = not-leb→lt _ _ behind in
          rw behind (
            omega (
              arith,
              mod-eq-sub-mod {n = r.read_idx + (r.mask + 1 + r.write_idx - r.read_idx)}
                  {m = r.mask + 1} (omega arith),
              mod-eq_of_lt {n = r.read_idx + (r.mask + 1 + r.write_idx - r.read_idx) - (r.mask + 1)}
                  {m = r.mask + 1} (omega arith),
            ))
    ]

    -- `size` of a valid ring is the number of items it holds, and at most N - 1.
    pub size_lem : (size r ≡ length (contents r)) × (size r ≤ r.mask)
    unfolding size
    size_lem =
        rw (length-window r.buffer r.mask r.read_idx (count r))
          (ground (arith, v.read_in, v.write_in, v.small))

    -- `empty` tells whether nothing is held.
    pub empty_lem : empty r ≡ is_nil (contents r)
    unfolding empty
    empty_lem =
        ground (arith, v.read_in, v.write_in, length-window r.buffer r.mask r.read_idx (count r))

    -- `push` offers the item to the queue of capacity N - 1: it answers `false` and changes nothing
    -- exactly when the queue is full.
    pub push_refines :
        (x : T) → let (done, r') = push r x in (done, contents r') ≡ offer r.mask (contents r) x
    unfolding push
    push_refines x = ground (
      arith,
      next_lem v r.write_idx,
      step_mod r.mask r.write_idx,
      v.read_in,
      v.write_in,
      count-le,
      write-eq,
      length-window r.buffer r.mask r.read_idx (count r),
      window-store r.buffer r.mask x r.read_idx (count r) r.write_idx,
    )

    -- `pop` takes the oldest item, and answers `false` exactly when there is none.
    pub pop_refines : let (out, r') = pop r in (out, contents r') ≡ poll (contents r)
    unfolding pop
    pop_refines = ground (
      arith,
      next_lem v r.read_idx,
      step_mod r.mask r.read_idx,
      v.read_in,
      v.write_in,
      window-eq-cons r.buffer r.mask r.read_idx (count r),
    )

  module _ {width : ℕ} {r : RingBuffer T} (v : IsValid width r) where
    pub pop-nil : contents r ≡ [] → ((pop r).0 ≡ none) × (contents (pop r).1 ≡ [])
    pop-nil e = let h = pop_refines v ∙ ap poll e in (ap (λ p. p.0) h, ap (λ p. p.1) h)

    pub pop-cons :
        {x : T} {xs : List T}
        → contents r ≡ x ∷ xs
        → ((pop r).0 ≡ some x) × (contents (pop r).1 ≡ xs)
    pop-cons e = let h = pop_refines v ∙ ap poll e in (ap (λ p. p.0) h, ap (λ p. p.1) h)

-- ===== src/RingBuffer/Places.antt =====
-- exchange/include/ring_buffer.hpp: what one store to a valid ring does to the items it holds.
use native.Mathlib.Nat.{mod-add-mod, mod-eq_of_lt, mod-lt}
use client_exchange_simulati.Prelude.{
  ℕ, zero, suc, ◌+◌, ◌-◌, ◌%◌, ◌≤◌, ◌<◌, ◌≡◌, ◌≢◌, refl, sym, ap, ◌∙◌, [], ◌∷◌, ◌++◌, arith,
}
use client_exchange_simulati.RingBuffer.{RingBuffer, store, next}
use client_exchange_simulati.RingBuffer.Inv.{IsValid, next_lem}
use client_exchange_simulati.RingBuffer.Refine.{
  window, count, contents, no_return, step_mod, window-eq-cons, count-le, write-eq,
}

module _ {T : Type 0} where
  -- The place after a window is the last of the longer one.
  window-snoc :
      (f : ℕ → T) (m h n : ℕ)
      → h ≤ m
      → window f m h (suc n) ≡ window f m h n ++ f ((h + n) % (m + 1)) ∷ []
  window-snoc f m h zero hh =
      let same : (h + 0) % (m + 1) ≡ h =
        omega (arith, mod-eq_of_lt {n = h + 0} {m = m + 1} (omega arith)) in
      rw same refl
  window-snoc f m h (suc n) hh =
      let shift : (h + suc n) % (m + 1) ≡ ((h + 1) % (m + 1) + n) % (m + 1) =
        rw mod-add-mod (ap (λ k. k % (m + 1)) (omega arith)) in
      rw shift (
        ap (λ l. f h ∷ l)
          (window-snoc f m ((h + 1) % (m + 1)) n
            (omega (arith, mod-lt (h + 1) {m = m + 1} (omega arith)))))

  -- A store at the place after a window is not seen in it.
  window-store_after :
      (f : ℕ → T) (m : ℕ) (x : T) (h n i : ℕ)
      → h ≤ m
      → n ≤ m
      → i ≡ (h + n) % (m + 1)
      → window (store f i x) m h n ≡ window f m h n
  window-store_after f m x h zero i hh hn e = refl
  window-store_after f m x h (suc n) i hh hn e =
      let other : i ≢ h = λ same. no_return m h n hh (omega arith) (omega arith) in
      let shift : (h + suc n) % (m + 1) ≡ ((h + 1) % (m + 1) + n) % (m + 1) =
        rw mod-add-mod (ap (λ k. k % (m + 1)) (omega arith)) in
      ground (
        arith,
        mod-lt (h + 1) {m = m + 1} (omega arith),
        window-store_after f m x ((h + 1) % (m + 1)) n i,
      )

  module _ {width : ℕ} {r : RingBuffer T} (v : IsValid width r) where
    -- The ring is full when the place after the one to write is the one to read.
    pub full_lem :
        (next r r.write_idx ≡ r.read_idx → count r ≡ r.mask)
        × (next r r.write_idx ≢ r.read_idx → count r < r.mask)
    full_lem = (
      ground (
        arith,
        next_lem v r.write_idx,
        step_mod r.mask r.write_idx,
        v.read_in,
        v.write_in,
        count-le v,
      ),
      ground (
        arith,
        next_lem v r.write_idx,
        step_mod r.mask r.write_idx,
        v.read_in,
        v.write_in,
        count-le v,
      ),
    )

    pub empty_count :
        (r.read_idx ≡ r.write_idx → count r ≡ 0) × (r.read_idx ≢ r.write_idx → 0 < count r)
    empty_count = ground (arith, v.read_in, v.write_in)

    -- The place to write and, in a ring that holds an item, the place to read are not the same.
    pub apart : 0 < count r → r.read_idx ≢ r.write_idx
    apart = λ h e. ground (arith)

    -- A store to the array at the place to write changes no item that is held.
    pub contents-store :
        (x : T) → contents (record r { buffer = store r.buffer r.write_idx x }) ≡ contents r
    contents-store x =
        window-store_after r.buffer r.mask x r.read_idx (count r) r.write_idx v.read_in (count-le v)
          (write-eq v)

    pub count-publish :
        count r < r.mask → count (record r { write_idx = next r r.write_idx }) ≡ suc (count r)
    count-publish = λ room. ground (
      arith,
      next_lem v r.write_idx,
      step_mod r.mask r.write_idx,
      v.read_in,
      v.write_in,
      count-le v,
    )

    pub count-advance :
        0 < count r → count (record r { read_idx = next r r.read_idx }) ≡ count r - 1
    count-advance = λ held.
        ground (arith, next_lem v r.read_idx, step_mod r.mask r.read_idx, v.read_in, v.write_in)

    -- Moving the write index on adds the item at its place.
    pub contents-publish :
        count r < r.mask
        → contents (record r { write_idx = next r r.write_idx })
          ≡ contents r ++ r.buffer r.write_idx ∷ []
    contents-publish = λ room.
        let last = window-snoc r.buffer r.mask r.read_idx (count r) v.read_in in
        rw (count-publish room) (last ∙ ap (λ i. contents r ++ r.buffer i ∷ []) (sym (write-eq v)))

    -- Moving the read index on takes the item at its place away.
    pub contents-advance :
        0 < count r
        → contents r ≡ r.buffer r.read_idx ∷ contents (record r { read_idx = next r r.read_idx })
    contents-advance = λ held.
        rw (count-advance held, next_lem v r.read_idx)
          (window-eq-cons r.buffer r.mask r.read_idx (count r) (omega arith))

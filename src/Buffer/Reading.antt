-- ===== src/Buffer/Reading.antt =====
-- The read path: what `recv` brings is read in order, once.
use client_exchange_simulati.Prelude.{
  ℕ, ◌+◌, ◌-◌, ◌≤◌, ◌<◌, ◌≡◌, ◌≢◌, refl, sym, ap, ◌∙◌, subst, inl, inr, Bool-cases, Option, none,
  some, List, [], ◌++◌, append-nil, arith, length, ltb, leb, ◌==◌, ◌&&◌,
}
use client_exchange_simulati.Buffer.{
  Buffer, view, remaining_capacity, compact, Receive, take_in, read_from, advance,
}
use client_exchange_simulati.Buffer.Bytes.{
  blit, slide, slice, drop, length-slice, slice-blit_after, slice-slide, slice_at, drop-slice,
}

pub record IsReading (n : ℕ) (b : Buffer) : Type 0 where
  pub off_in : b.read_off ≤ b.len
  pub len_in : b.len ≤ n

-- The bytes of an answer of `recv`.
abbrev pub received : Option (List ℕ) → List ℕ
received none = []
received (some xs) = xs

-- `recv` writes no more bytes than there is room for.
abbrev pub Fits : Receive → Type 0
Fits recv = (k : ℕ) → length (received (recv k)) ≤ k

-- `compact` keeps the bytes to be read, and makes room when the buffer is full and some were read.
pub record Compacted (n : ℕ) (b b' : Buffer) : Type 0 where
  pub valid : IsReading n b'
  pub same : view b' ≡ view b
  pub room : b.read_off ≢ 0 → 0 < n → 0 < remaining_capacity n b'

pub compact_lem : (n : ℕ) (b : Buffer) → IsReading n b → Compacted n b (compact n b)
unfolding compact
compact_lem n b v = elim (Bool-cases (ltb 0 b.read_off && b.len == n)) [
  | inl full ↦ rw full (record {
    valid = record { off_in = omega arith; len_in = omega (arith, v.len_in) };
    same =
        slice_at (slide b.bytes b.read_off (b.len - b.read_off)) 0 0 (b.len - b.read_off - 0)
          (b.len - b.read_off) refl (omega arith)
        ∙ slice-slide b.bytes b.read_off (b.len - b.read_off);
    room = λ ne pos. ground (arith, v.off_in);
  })
  | inr keep ↦
      rw keep (record { valid = v; same = refl; room = λ ne pos. ground (arith, v.len_in) })
]

take_in-IsReading :
    (n : ℕ) (b : Buffer) (o : Option (List ℕ))
    → IsReading n b
    → length (received o) ≤ remaining_capacity n b
    → IsReading n (take_in b o)
take_in-IsReading n b none v h = v
take_in-IsReading n b (some xs) v h = record {
  off_in = omega (arith, v.off_in);
  len_in = omega (arith, v.len_in);
}

pub view-take_in :
    (n : ℕ) (b : Buffer) (o : Option (List ℕ))
    → IsReading n b
    → view (take_in b o) ≡ view b ++ received o
view-take_in n b none v = sym (append-nil _)
view-take_in n b (some xs) v =
    let at : b.read_off + (b.len - b.read_off) ≡ b.len = omega (arith, v.off_in) in
    let count : b.len - b.read_off + length xs ≡ b.len + length xs - b.read_off =
      omega (arith, v.off_in) in
    subst (λ k. slice (blit b.bytes b.len xs) b.read_off k ≡ view b ++ xs) count
      (subst
        (λ k. slice (blit b.bytes k xs) b.read_off (b.len - b.read_off + length xs) ≡ view b ++ xs)
        at (slice-blit_after b.bytes b.read_off (b.len - b.read_off) xs))

-- `read_from` adds the bytes that `recv` brings behind those still to be read, and loses none of them
-- when it moves them to the front; the indices stay within the buffer. `recv` is assumed to bring no
-- more bytes than there is room for.
pub read_from-view :
    (n : ℕ) (recv : Receive) (b : Buffer)
    → IsReading n b
    → Fits recv
    → let (answer, b') = read_from n recv b in
      (view b' ≡ view b ++ received answer) × IsReading n b'
unfolding read_from
read_from-view n recv b v fits =
    let c = compact_lem n b v in
    let answer = recv (n - (compact n b).len) in
    (
      view-take_in n (compact n b) answer c.valid ∙ ap (λ xs. xs ++ received answer) c.same,
      take_in-IsReading n (compact n b) answer c.valid (fits (n - (compact n b).len)),
    )

-- `advance` drops the first `k` of the bytes to be read, when there are so many.
pub advance-view :
    (n : ℕ) (b : Buffer) (k : ℕ)
    → IsReading n b
    → k ≤ length (view b)
    → (view (advance b k) ≡ drop k (view b)) × IsReading n (advance b k)
unfolding advance
advance-view n b k v h =
    let count : k ≤ b.len - b.read_off =
      omega (arith, length-slice b.bytes b.read_off (b.len - b.read_off)) in
    let dropped = drop-slice b.bytes k b.read_off (b.len - b.read_off) count in
    elim (Bool-cases (leb b.len (b.read_off + k))) [
      | inl all ↦
          let none_left : b.len - b.read_off - k ≡ 0 = ground arith in
          rw all (
            sym (dropped ∙ ap (slice b.bytes (b.read_off + k)) none_left),
            record { off_in = omega arith; len_in = omega arith },
          )
      | inr some_left ↦ rw some_left (
        sym (dropped ∙ ap (slice b.bytes (b.read_off + k)) (omega arith)),
        record { off_in = ground arith; len_in = v.len_in },
      )
    ]

-- `advance` leaves less to be read.
pub advance-shorter :
    (b : Buffer) (k : ℕ)
    → 0 < k
    → k ≤ b.len - b.read_off
    → (advance b k).len - (advance b k).read_off < b.len - b.read_off
unfolding advance
advance-shorter b k pos h = elim (Bool-cases (leb b.len (b.read_off + k))) [
  | inl all ↦ rw all (omega arith)
  | inr more ↦ rw more (omega arith)
]

-- ===== src/Buffer/Bytes.antt =====
-- Arrays of bytes as functions: `memcpy`, `memmove` to the front, and the bytes of a range.
use client_exchange_simulati.Prelude.{
  ℕ, zero, suc, ◌+◌, ◌-◌, ◌≤◌, ◌<◌, ◌≡◌, refl, ap, ◌∙◌, subst, List, [], ◌∷◌, ◌++◌, arith, ltb,
  ◌==◌, if◌then◌else◌, length, is_nil,
}

-- `memcpy(f + at, xs, length of xs)`
abbrev pub blit : (ℕ → ℕ) → ℕ → List ℕ → ℕ → ℕ
blit f at [] i = f i
blit f at (x ∷ xs) i = if i == at then x else blit f (suc at) xs i

-- `memmove(f, f + from, n)`
abbrev pub slide : (ℕ → ℕ) → ℕ → ℕ → ℕ → ℕ
slide f from n i = if ltb i n then f (from + i) else f i

-- The `n` bytes from `at` on.
abbrev pub slice : (ℕ → ℕ) → ℕ → ℕ → List ℕ
slice f at zero = []
slice f at (suc n) = f at ∷ slice f (suc at) n

abbrev pub drop : ℕ → List ℕ → List ℕ
drop zero xs = xs
drop (suc n) [] = []
drop (suc n) (x ∷ xs) = drop n xs

pub length-slice : (f : ℕ → ℕ) (at n : ℕ) → length (slice f at n) ≡ n
length-slice f at zero = refl
length-slice f at (suc n) = ap suc (length-slice f (suc at) n)

pub is_nil-slice : (f : ℕ → ℕ) (at n : ℕ) → is_nil (slice f at n) ≡ (n == 0)
is_nil-slice f at zero = refl
is_nil-slice f at (suc n) = ground arith

pub blit-below : (f : ℕ → ℕ) (at : ℕ) (xs : List ℕ) (i : ℕ) → i < at → blit f at xs i ≡ f i
blit-below f at [] i h = refl
blit-below f at (x ∷ xs) i h = ground (arith, blit-below f (suc at) xs i (omega arith))

-- The same range, with its bounds written in another way.
pub slice_at : (f : ℕ → ℕ) (at at' n n' : ℕ) → at ≡ at' → n ≡ n' → slice f at n ≡ slice f at' n'
slice_at f at at' n n' p q = ap (λ k. slice f k n) p ∙ ap (slice f at') q

pub slice_cong :
    (f g : ℕ → ℕ) (at n : ℕ)
    → ((i : ℕ) → at ≤ i → i < at + n → f i ≡ g i)
    → slice f at n ≡ slice g at n
slice_cong f g at zero h = refl
slice_cong f g at (suc n) h = rw (h at (omega arith) (omega arith)) (
    ap (λ xs. g at ∷ xs)
      (slice_cong f g (suc at) n (λ i low high. h i (omega arith) (omega arith))))

slice-blit : (f : ℕ → ℕ) (at : ℕ) (xs : List ℕ) → slice (blit f at xs) at (length xs) ≡ xs
slice-blit f at [] = refl
slice-blit f at (x ∷ xs) =
    let head : blit f at (x ∷ xs) at ≡ x = ground arith in
    let tail =
      slice_cong (blit f at (x ∷ xs)) (blit f (suc at) xs) (suc at) (length xs)
        (λ i low high. ground arith) in
    rw head (ap (λ ys. x ∷ ys) (tail ∙ slice-blit f (suc at) xs))

-- Bytes written behind a range are added to its end.
pub slice-blit_after :
    (f : ℕ → ℕ) (lo n : ℕ) (xs : List ℕ)
    → slice (blit f (lo + n) xs) lo (n + length xs) ≡ slice f lo n ++ xs
slice-blit_after f lo zero xs =
    let here : lo + 0 ≡ lo = omega arith in
    let all : 0 + length xs ≡ length xs = omega arith in rw (here, all) (slice-blit f lo xs)
slice-blit_after f lo (suc n) xs =
    let next : suc lo + n ≡ lo + suc n = omega arith in
    let count : suc n + length xs ≡ suc (n + length xs) = omega arith in
    rw (count, blit-below f (lo + suc n) xs lo (omega arith))
      (ap (λ ys. f lo ∷ ys)
        (subst (λ k. slice (blit f k xs) (suc lo) (n + length xs) ≡ slice f (suc lo) n ++ xs) next
          (slice-blit_after f (suc lo) n xs)))

-- The bytes that `slide` moves are at the front afterwards.
pub slice-slide : (f : ℕ → ℕ) (from n : ℕ) → slice (slide f from n) 0 n ≡ slice f from n
slice-slide f from n =
    slice_cong (slide f from n) (λ i. f (from + i)) 0 n (λ i low high. ground arith)
    ∙ shifted f from 0 n
    ∙ slice_at f (from + 0) from n n (omega arith) refl
  where
    shifted : (f : ℕ → ℕ) (from at n : ℕ) → slice (λ i. f (from + i)) at n ≡ slice f (from + at) n
    shifted f from at zero = refl
    shifted f from at (suc n) =
        ap (λ ys. f (from + at) ∷ ys)
          (shifted f from (suc at) n
            ∙ slice_at f (from + suc at) (suc (from + at)) n n (omega arith) refl)

pub drop-slice : (f : ℕ → ℕ) (k at n : ℕ) → k ≤ n → drop k (slice f at n) ≡ slice f (at + k) (n - k)
drop-slice f zero at n h = slice_at f at (at + 0) n (n - 0) (omega arith) (omega arith)
drop-slice f (suc k) at zero h = absurd (omega arith)
drop-slice f (suc k) at (suc n) h =
    drop-slice f k (suc at) n (omega arith)
    ∙ slice_at f (suc at + k) (at + suc k) (n - k) (suc n - suc k) (omega arith) (omega arith)

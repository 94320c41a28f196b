-- ===== src/Buffer/Writing.antt =====
-- The write path: what is appended is sent in order, once.
use client_exchange_simulati.Prelude.{
  ℕ, true, ◌+◌, ◌-◌, ◌≤◌, ◌≡◌, refl, sym, ap, ◌∙◌, subst, inl, inr, Bool-cases, Option, none, some,
  List, ◌++◌, arith, length, is_nil, ◌==◌, if◌then◌else◌,
}
use client_exchange_simulati.Buffer.{
  Buffer, unsent, has_room, append, Send, count_sent, write_to, try_reset,
}
use client_exchange_simulati.Buffer.Bytes.{
  blit, slice, drop, length-slice, is_nil-slice, slice-blit_after, drop-slice,
}

pub record IsWriting (n : ℕ) (b : Buffer) : Type 0 where
  pub written_in : b.bytes_written ≤ b.len
  pub len_in : b.len ≤ n

-- `append` adds the bytes behind those still to be sent when there is room for all of them, and
-- changes nothing otherwise; its answer says which.
pub append-unsent :
    (n : ℕ) (b : Buffer) (src : List ℕ)
    → IsWriting n b
    → let (done, b') = append n b src in
      (done ≡ has_room n b (length src))
      × (unsent b' ≡ (if done then unsent b ++ src else unsent b))
      × IsWriting n b'
unfolding append
append-unsent n b src v = elim (Bool-cases (has_room n b (length src))) [
  | inr full ↦ rw full (refl, refl, v)
  | inl room ↦
      let at : b.bytes_written + (b.len - b.bytes_written) ≡ b.len = omega (arith, v.written_in) in
      let count : b.len - b.bytes_written + length src ≡ b.len + length src - b.bytes_written =
        omega (arith, v.written_in) in
      rw room (
        refl,
        subst (λ k. slice (blit b.bytes b.len src) b.bytes_written k ≡ unsent b ++ src) count
            (subst
              (λ k.
                slice (blit b.bytes k src) b.bytes_written (b.len - b.bytes_written + length src)
                ≡ unsent b ++ src)
              at (slice-blit_after b.bytes b.bytes_written (b.len - b.bytes_written) src)),
        record { written_in = omega (arith, v.written_in); len_in = ground arith },
      )
]

-- How many bytes an answer of `send` took.
abbrev pub sent : Option ℕ → ℕ
sent none = 0
sent (some k) = k

-- `write_to` drops the bytes that `send` took. `send` is assumed to take no more than it is given.
pub write_to-unsent :
    (n : ℕ) (send : Send) (b : Buffer)
    → IsWriting n b
    → ((xs : List ℕ) → sent (send xs) ≤ length xs)
    → let (answer, b') = write_to send b in
      (unsent b' ≡ drop (sent answer) (unsent b)) × IsWriting n b'
unfolding write_to
write_to-unsent n send b v takes = counted (send (unsent b)) (takes (unsent b))
  where
    counted :
        (o : Option ℕ)
        → sent o ≤ length (unsent b)
        → (unsent (count_sent b o) ≡ drop (sent o) (unsent b)) × IsWriting n (count_sent b o)
    counted none h = (refl, v)
    counted (some k) h =
        let most : k ≤ b.len - b.bytes_written =
          omega (arith, length-slice b.bytes b.bytes_written (b.len - b.bytes_written)) in
        (
          sym (
              drop-slice b.bytes k b.bytes_written (b.len - b.bytes_written) most
              ∙ ap (slice b.bytes (b.bytes_written + k)) (omega arith)),
          record { written_in = omega (arith, v.written_in); len_in = v.len_in },
        )

-- `try_reset` keeps the bytes still to be sent; with none left the whole buffer is free again, and
-- otherwise nothing is freed.
pub try_reset-unsent :
    (n : ℕ) (b : Buffer)
    → IsWriting n b
    → (unsent (try_reset b) ≡ unsent b)
      × IsWriting n (try_reset b)
      × ((try_reset b).len ≡ (if is_nil (unsent b) then 0 else b.len))
unfolding try_reset
try_reset-unsent n b v = elim (Bool-cases (b.bytes_written == b.len)) [
  | inl done ↦
      let none_left : b.len - b.bytes_written ≡ 0 = ground arith in
      rw done (
        sym (ap (slice b.bytes b.bytes_written) none_left),
        record { written_in = omega arith; len_in = omega arith },
        rw (is_nil-slice b.bytes b.bytes_written (b.len - b.bytes_written), none_left) refl,
      )
  | inr more ↦ rw more (
    refl,
    v,
    rw (is_nil-slice b.bytes b.bytes_written (b.len - b.bytes_written))
        (ground (arith, v.written_in)),
  )
]

pub append-len :
    (n : ℕ) (b : Buffer) (src : List ℕ)
    → has_room n b (length src) ≡ true
    → (append n b src).1.len ≡ b.len + length src
unfolding append
append-len n b src room = rw room refl

-- `append` leaves the index of the bytes read.
pub append-read_off : (n : ℕ) (b : Buffer) (src : List ℕ) → (append n b src).1.read_off ≡ b.read_off
unfolding append
append-read_off n b src = elim (Bool-cases (has_room n b (length src))) [
  | inl room ↦ rw room refl
  | inr full ↦ rw full refl
]

-- `write_to` moves the index of the bytes sent, and nothing else.
pub write_to-written :
    (send : Send) (b : Buffer)
    → let (answer, b') = write_to send b in
      b' ≡ record b { bytes_written = b.bytes_written + sent answer }
unfolding write_to
write_to-written send b = counted (send (unsent b))
  where
    counted :
        (o : Option ℕ) → count_sent b o ≡ record b { bytes_written = b.bytes_written + sent o }
    counted none = let same : b.bytes_written + 0 ≡ b.bytes_written = omega arith in rw same refl
    counted (some k) = refl

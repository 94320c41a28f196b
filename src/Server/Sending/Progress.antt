-- ===== src/Server/Sending/Progress.antt =====
-- The loop of `sendResponse`, and what the socket takes of the bytes.
use client_exchange_simulati.Prelude.{
  ℕ, zero, suc, ◌+◌, ◌≤◌, ◌<◌, ◌≡◌, ◌≢◌, refl, sym, ap, ◌∙◌, subst, ◌⊎◌, inl, inr, true, false,
  Bool-cases, Option, none, some, List, [], ◌∷◌, ◌++◌, append_assoc, arith, length, ltb, ltb→lt,
}
use client_exchange_simulati.Prelude.Result.{Returns, Returns-weaken}
use client_exchange_simulati.Buffer.{Buffer, unsent, write_to, remaining_to_send}
use client_exchange_simulati.Buffer.Bytes.{drop, slice, length-slice}
use client_exchange_simulati.Buffer.Writing.{IsWriting, sent, write_to-unsent, write_to-written}
use client_exchange_simulati.Server.Sending.{
  Sender, SendEnd, complete, blocked, broken, is_positive, send_loop,
}

-- `send` takes no more bytes than it is given.
abbrev pub Takes : Sender → Type 0
Takes net = (call : ℕ) (xs : List ℕ) → sent (net call xs).count ≤ length xs

-- The first bytes.
abbrev pub take : ℕ → List ℕ → List ℕ
take zero xs = []
take (suc n) [] = []
take (suc n) (x ∷ xs) = x ∷ take n xs

take-drop : (k : ℕ) (xs : List ℕ) → xs ≡ take k xs ++ drop k xs
take-drop zero xs = refl
take-drop (suc k) [] = refl
take-drop (suc k) (x ∷ xs) = ap (λ ys. x ∷ ys) (take-drop k xs)

-- What the answers of `send` from the call of this number on make of some bytes: the bytes the socket
-- takes, those it does not take, and how that ends. Each call is asked to send all the bytes that are
-- left, and takes the first of them.
pub data Transmits (net : Sender) : ℕ → List ℕ → List ℕ → List ℕ → SendEnd → Type 0 where
  nothing_left : (call : ℕ) → Transmits net call [] [] [] complete
  some_taken :
      (call k : ℕ) (xs out left : List ℕ) (end : SendEnd)
      → 0 < length xs
      → (net call xs).count ≡ some k
      → 0 < k
      → Transmits net (suc call) (drop k xs) out left end
      → Transmits net call xs (take k xs ++ out) left end
  would_block :
      (call : ℕ) (xs : List ℕ)
      → 0 < length xs
      → is_positive (net call xs).count ≡ false
      → (net call xs).again ≡ true
      → Transmits net call xs [] xs blocked
  refused :
      (call : ℕ) (xs : List ℕ)
      → 0 < length xs
      → is_positive (net call xs).count ≡ false
      → (net call xs).again ≡ false
      → Transmits net call xs [] xs broken

-- What the loop makes of the buffer `b`: the socket takes the first bytes, those that it does not take
-- are left, and the loop ends as the answers of `send` say.
pub record Sent (n : ℕ) (net : Sender) (call : ℕ) (b : Buffer) (out : SendEnd × Buffer)
    : Type 0 where
  pub passed : List ℕ
  pub transmits : Transmits net call (unsent b) passed (unsent out.1) out.0
  pub in_order : unsent b ≡ passed ++ unsent out.1
  pub same_len : out.1.len ≡ b.len
  pub same_off : out.1.read_off ≡ b.read_off
  pub writing : IsWriting n out.1
  pub ended : (out.0 ≢ complete) ⊎ (remaining_to_send out.1 ≡ 0)

length-unsent : (b : Buffer) → length (unsent b) ≡ remaining_to_send b
length-unsent b = length-slice b.bytes b.bytes_written (remaining_to_send b)

pub sent-pos : (o : Option ℕ) → is_positive o ≡ true → 0 < sent o
sent-pos none e = ground arith
sent-pos (some k) e = ground arith

sent-zero : (o : Option ℕ) → is_positive o ≡ false → sent o ≡ 0
sent-zero none e = refl
sent-zero (some k) e = ground arith

same_written : (b : Buffer) (k : ℕ) → k ≡ 0 → record b { bytes_written = b.bytes_written + k } ≡ b
same_written b k e = let same : b.bytes_written + k ≡ b.bytes_written = omega arith in rw same refl

-- A call of `send` that takes nothing leaves the buffer as it is.
write_to-none :
    (send : List ℕ → Option ℕ) (b : Buffer)
    → is_positive (write_to send b).0 ≡ false
    → (write_to send b).1 ≡ b
write_to-none send b none_sent =
    let moved = write_to-written send b in
    let zero_sent = sent-zero (write_to send b).0 none_sent in
    moved ∙ same_written b (sent (write_to send b).0) zero_sent

stopped :
    (n : ℕ) (b : Buffer) (end : SendEnd) (net : Sender) (call : ℕ)
    → IsWriting n b
    → is_positive (write_to (λ xs. (net call xs).count) b).0 ≡ false
    → end ≢ complete
    → Transmits net call (unsent b) [] (unsent b) end
    → Sent n net call b (end, (write_to (λ xs. (net call xs).count) b).1)
stopped n b end net call v none_sent other t =
    rw (write_to-none (λ xs. (net call xs).count) b none_sent) (record {
      passed = [];
      transmits = t;
      in_order = refl;
      same_len = refl;
      same_off = refl;
      writing = v;
      ended = inl other;
    })

-- With nothing to be sent, the loop is complete.
done-Sent :
    (n : ℕ) (net : Sender) (call : ℕ) (b : Buffer)
    → IsWriting n b
    → remaining_to_send b ≡ 0
    → Sent n net call b (complete, b)
done-Sent n net call b v none_left = record {
  passed = [];
  transmits =
      let empty : unsent b ≡ [] = ap (slice b.bytes b.bytes_written) none_left in
      rw empty (nothing_left call);
  in_order = refl;
  same_len = refl;
  same_off = refl;
  writing = v;
  ended = inr none_left;
}

blocked-ne : blocked ≢ complete
blocked-ne e = ground arith

broken-ne : broken ≢ complete
broken-ne e = ground arith

-- The answer of `write_to` is that of `send`.
write_to-answer : (send : List ℕ → Option ℕ) (b : Buffer) → (write_to send b).0 ≡ send (unsent b)
unfolding write_to
write_to-answer send b = refl

positive-some : (o : Option ℕ) → is_positive o ≡ true → (o ≡ some (sent o)) × (0 < sent o)
positive-some none e = ground arith
positive-some (some k) e = (refl, sent-pos (some k) e)

-- A call that takes `k` bytes, and what comes after it.
more-Sent :
    (n : ℕ) (net : Sender) (call k : ℕ) (b b' : Buffer) (out : SendEnd × Buffer)
    → 0 < remaining_to_send b
    → (net call (unsent b)).count ≡ some k
    → 0 < k
    → unsent b' ≡ drop k (unsent b)
    → b' ≡ record b { bytes_written = b.bytes_written + k }
    → Sent n net (suc call) b' out
    → Sent n net call b out
more-Sent n net call k b b' out more answer pos left moved s = record {
  passed = take k (unsent b) ++ s.passed;
  transmits =
      some_taken call k (unsent b) s.passed (unsent out.1) out.0 (omega (arith, length-unsent b))
        answer pos
        (subst (λ xs. Transmits net (suc call) xs s.passed (unsent out.1) out.0) left s.transmits);
  in_order =
      take-drop k (unsent b)
      ∙ ap (λ xs. take k (unsent b) ++ xs) (sym left ∙ s.in_order)
      ∙ sym (append_assoc (take k (unsent b)) s.passed (unsent out.1));
  same_len = s.same_len ∙ ap (λ c. c.len) moved;
  same_off = s.same_off ∙ ap (λ c. c.read_off) moved;
  writing = s.writing;
  ended = s.ended;
}

-- From a valid buffer, whatever `send` answers as long as it takes no more than it is given, the loop
-- ends within its fuel, the way the answers of `send` say. The socket takes the first of the bytes to be
-- sent, those that it does not take are left, and the buffer stays valid.
pub send_loop-Returns :
    (n fuel : ℕ) (net : Sender) (call : ℕ) (b : Buffer)
    → IsWriting n b
    → Takes net
    → remaining_to_send b < fuel
    → Returns (Sent n net call b) (send_loop fuel net call b)
unfolding send_loop
send_loop-Returns n zero net call b v takes h = absurd (omega arith)
send_loop-Returns n (suc fuel) net call b v takes h =
    let send : List ℕ → Option ℕ = λ xs. (net call xs).count in
    let answer = write_to-answer send b in
    elim (Bool-cases (ltb 0 (remaining_to_send b))) [
      | inr all ↦ rw all (done-Sent n net call b v (ground arith))
      | inl more ↦
          let some_left : 0 < remaining_to_send b = ltb→lt 0 (remaining_to_send b) more in
          let long : 0 < length (unsent b) = omega (arith, length-unsent b) in
          rw more (elim (Bool-cases (is_positive (write_to send b).0)) [
            | inr none_sent ↦
                let none_taken = ap is_positive (sym answer) ∙ none_sent in
                rw none_sent (elim (Bool-cases (net call (unsent b)).again) [
                  | inl again ↦ rw again (
                      stopped n b blocked net call v none_sent blocked-ne
                        (would_block call (unsent b) long none_taken again))
                  | inr fatal ↦ rw fatal (
                      stopped n b broken net call v none_sent broken-ne
                        (refused call (unsent b) long none_taken fatal))
                ])
            | inl some_sent ↦
                let k = sent (write_to send b).0 in
                let b' = (write_to send b).1 in
                let w = write_to-unsent n send b v (takes call) in
                let moved = write_to-written send b in
                let p = positive-some (write_to send b).0 some_sent in
                let written : b'.bytes_written ≡ b.bytes_written + k =
                  ap (λ c. c.bytes_written) moved in
                let len : b'.len ≡ b.len = ap (λ c. c.len) moved in
                rw some_sent (
                  Returns-weaken (Sent n net (suc call) b') (Sent n net call b)
                    (send_loop fuel net (suc call) b')
                    (send_loop-Returns n fuel net (suc call) b' w.1 takes
                      (omega (arith, len, written, p.1)))
                    λ out s.
                      more-Sent n net call k b b' out some_left (sym answer ∙ p.0) p.1 w.0 moved s)
          ])
    ]

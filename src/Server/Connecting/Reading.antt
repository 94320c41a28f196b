-- ===== src/Server/Connecting/Reading.antt =====
-- The loop of `readRequest`, and what `recv` brings into the read buffer.
use client_exchange_simulati.Prelude.{
  ℕ, zero, suc, ◌&&◌, ◌+◌, ◌-◌, ◌%◌, ◌≤◌, ◌<◌, ◌≡◌, refl, sym, ap, ◌∙◌, subst, ◌⊎◌, inl, inr, true,
  false, length, Bool-cases, Option, none, some, List, [], ◌∷◌, ◌++◌, append_assoc, append-nil,
  arith, ltb, leb, ◌==◌,
}
use client_exchange_simulati.Prelude.Result.{Returns, Returns-weaken}
use client_exchange_simulati.Buffer.{
  Buffer, view, remaining_capacity, compact, read_from, take_in, advance,
}
use client_exchange_simulati.Buffer.Reading.{
  IsReading, Fits, received, read_from-view, view-take_in,
}
use client_exchange_simulati.Server.Connecting.{
  Reader, ReadEnd, filled, drained, failed, is_some_bytes, read_capacity, read_loop,
}

-- `recv` brings no more bytes than there is room for.
abbrev pub AllFit : Reader → Type 0
AllFit net = (call : ℕ) → Fits (λ k. (net call k).bytes)

-- A read buffer between two operations: what was read is whole frames, and it is dropped as soon as
-- nothing is left behind it.
pub record IsSettled (b : Buffer) : Type 0 where
  pub reading : IsReading read_capacity b
  pub whole : b.read_off % 72 ≡ 0
  pub started : (b.read_off ≡ 0) ⊎ (b.read_off < b.len)

pub advance-IsSettled :
    (b : Buffer) → IsSettled b → 72 ≤ b.len - b.read_off → IsSettled (advance b 72)
unfolding advance
advance-IsSettled b v h = elim (Bool-cases (leb b.len (b.read_off + 72))) [
  | inl all ↦ rw all (record {
    reading = record { off_in = omega arith; len_in = omega arith };
    whole = refl;
    started = inl refl;
  })
  | inr more ↦ rw more (record {
    reading = record { off_in = ground arith; len_in = v.reading.len_in };
    whole = omega (arith, v.whole);
    started = inr (ground arith);
  })
]

-- With room in the buffer nothing is moved.
compact-roomy : (b : Buffer) → 0 < remaining_capacity read_capacity b → compact read_capacity b ≡ b
unfolding compact
compact-roomy b h = elim (Bool-cases (ltb 0 b.read_off && b.len == read_capacity)) [
  | inl full ↦ absurd (ground arith)
  | inr keep ↦ rw keep refl
]

-- `recv` on a buffer with room
abbrev asked : Reader → ℕ → Buffer → Option (List ℕ)
asked net call b = (net call (remaining_capacity read_capacity b)).bytes

read_from-roomy :
    (net : Reader) (call : ℕ) (b : Buffer)
    → 0 < remaining_capacity read_capacity b
    → read_from read_capacity (λ k. (net call k).bytes) b
      ≡ (asked net call b, take_in b (asked net call b))
unfolding read_from
read_from-roomy net call b h =
    ap (λ b'. (asked net call b', take_in b' (asked net call b'))) (compact-roomy b h)

take_in-IsSettled :
    (b : Buffer) (o : Option (List ℕ))
    → IsSettled b
    → IsReading read_capacity (take_in b o)
    → IsSettled (take_in b o)
take_in-IsSettled b none v r = v
take_in-IsSettled b (some xs) v r = record {
  reading = r;
  whole = v.whole;
  started = elim v.started [ inl z ↦ inl z | inr l ↦ inr (omega arith) ];
}

len-take_in :
    (b : Buffer) (o : Option (List ℕ)) → is_some_bytes o ≡ true → b.len < (take_in b o).len
len-take_in b none e = ground arith
len-take_in b (some []) e = ground arith
len-take_in b (some (x ∷ xs)) e = omega arith

-- What the answers of `recv` from the call of this number on bring into so much room, and how that ends:
-- each call is asked for as many bytes as there is room left, until there is none, a call fails, or a
-- call brings none.
pub data Brings (net : Reader) : ℕ → ℕ → List ℕ → ReadEnd → Type 0 where
  no_room : (call : ℕ) → Brings net call 0 [] filled
  bytes_come :
      (call room : ℕ) (xs rest : List ℕ) (end : ReadEnd)
      → 0 < room
      → (net call room).bytes ≡ some xs
      → 0 < length xs
      → Brings net (suc call) (room - length xs) rest end
      → Brings net call room (xs ++ rest) end
  runs_dry :
      (call room : ℕ)
      → 0 < room
      → is_some_bytes (net call room).bytes ≡ false
      → (net call room).again ≡ true
      → Brings net call room [] drained
  breaks :
      (call room : ℕ)
      → 0 < room
      → is_some_bytes (net call room).bytes ≡ false
      → (net call room).again ≡ false
      → Brings net call room [] failed

-- What the loop makes of the buffer `b`: the bytes that `recv` brings are behind the others.
pub record HasRead (net : Reader) (call : ℕ) (b : Buffer) (out : ReadEnd × Buffer) : Type 0 where
  pub got : List ℕ
  pub brings : Brings net call (remaining_capacity read_capacity b) got out.0
  pub appended : view out.1 ≡ view b ++ got
  pub settled : IsSettled out.1

full_buffer :
    (net : Reader) (call : ℕ) (b : Buffer)
    → IsSettled b
    → remaining_capacity read_capacity b ≡ 0
    → HasRead net call b (filled, b)
full_buffer net call b v none_left = record {
  got = [];
  brings = subst (λ room. Brings net call room [] filled) (sym none_left) (no_room call);
  appended = sym (append-nil _);
  settled = v;
}

-- One call of `recv` appends what it brings.
one_read :
    (net : Reader) (call : ℕ) (b : Buffer)
    → AllFit net
    → IsSettled b
    → 0 < remaining_capacity read_capacity b
    → let b' = take_in b (asked net call b) in
      (view b' ≡ view b ++ received (asked net call b)) × IsSettled b'
one_read net call b fit v h =
    let r = read_from-view read_capacity (λ k. (net call k).bytes) b v.reading (fit call) in
    let same = read_from-roomy net call b h in
    (
      view-take_in read_capacity b (asked net call b) v.reading,
      take_in-IsSettled b (asked net call b) v (subst (λ p. IsReading read_capacity p.1) same r.1),
    )

nothing_received : (o : Option (List ℕ)) → is_some_bytes o ≡ false → received o ≡ []
nothing_received none e = refl
nothing_received (some []) e = refl
nothing_received (some (x ∷ xs)) e = ground arith

some-received :
    (o : Option (List ℕ))
    → is_some_bytes o ≡ true
    → (o ≡ some (received o)) × (0 < length (received o))
some-received none e = ground arith
some-received (some []) e = ground arith
some-received (some (x ∷ xs)) e = (refl, omega arith)

room-take_in :
    (b : Buffer) (o : Option (List ℕ))
    → remaining_capacity read_capacity (take_in b o)
      ≡ remaining_capacity read_capacity b - length (received o)
room-take_in b none = omega arith
room-take_in b (some xs) = omega arith

-- A call of `recv` that brings nothing ends the loop.
last_read :
    (net : Reader) (call : ℕ) (b : Buffer) (end : ReadEnd)
    → AllFit net
    → IsSettled b
    → 0 < remaining_capacity read_capacity b
    → is_some_bytes (asked net call b) ≡ false
    → Brings net call (remaining_capacity read_capacity b) [] end
    → HasRead net call b (end, take_in b (asked net call b))
last_read net call b end fit v pos last brings =
    let one = one_read net call b fit v pos in
    record {
      got = [];
      brings = brings;
      appended = one.0 ∙ ap (λ xs. view b ++ xs) (nothing_received (asked net call b) last);
      settled = one.1;
    }

-- A call of `recv` that brings bytes, and what comes after it.
read_more :
    (net : Reader) (call : ℕ) (b : Buffer) (out : ReadEnd × Buffer)
    → AllFit net
    → IsSettled b
    → 0 < remaining_capacity read_capacity b
    → is_some_bytes (asked net call b) ≡ true
    → HasRead net (suc call) (take_in b (asked net call b)) out
    → HasRead net call b out
read_more net call b out fit v pos more r =
    let one = one_read net call b fit v pos in
    let p = some-received (asked net call b) more in
    let xs = received (asked net call b) in
    record {
      got = xs ++ r.got;
      brings = bytes_come call (remaining_capacity read_capacity b) xs r.got out.0 pos p.0 p.1 (
          subst (λ room. Brings net (suc call) room r.got out.0) (room-take_in b (asked net call b))
            r.brings);
      appended = r.appended ∙ ap (λ ys. ys ++ r.got) one.0 ∙ append_assoc (view b) xs r.got;
      settled = r.settled;
    }

-- The loop of `readRequest` ends within its fuel, the way the answers of `recv` say, whatever they are as
-- long as it brings no more bytes than there is room for. The bytes it brings are behind those that were
-- to be read, in order.
pub read_loop-Returns :
    (fuel : ℕ) (net : Reader) (call : ℕ) (b : Buffer)
    → IsSettled b
    → AllFit net
    → remaining_capacity read_capacity b < fuel
    → Returns (HasRead net call b) (read_loop fuel net call b)
unfolding read_loop
read_loop-Returns zero net call b v fit h = absurd (omega arith)
read_loop-Returns (suc fuel) net call b v fit h =
    let room = remaining_capacity read_capacity b in
    elim (Bool-cases (ltb 0 room)) [
      | inr full ↦ rw full (full_buffer net call b v (ground arith))
      | inl roomy ↦
          let pos : 0 < room = ground arith in
          let o = asked net call b in
          rw (read_from-roomy net call b pos) (
            rw roomy (elim (Bool-cases (is_some_bytes o)) [
              | inl more ↦ rw more (
                  Returns-weaken (HasRead net (suc call) (take_in b o)) (HasRead net call b) _
                    (read_loop-Returns fuel net (suc call) (take_in b o)
                      (one_read net call b fit v pos).1 fit (omega (arith, len-take_in b o more)))
                    λ out r. read_more net call b out fit v pos more r)
              | inr last ↦ elim (Bool-cases (net call room).again) [
                | inl wait ↦
                    rw (last, wait)
                      (last_read net call b drained fit v pos last
                        (runs_dry call room pos last wait))
                | inr bad ↦
                    rw (last, bad)
                      (last_read net call b failed fit v pos last (breaks call room pos last bad))
              ]
            ]))
    ]

-- ===== src/RingBuffer/Turns.antt =====
-- exchange/include/ring_buffer.hpp: what the producer and the consumer know of the ring between two
-- accesses, and what one access does to the queue.
use client_exchange_simulati.Prelude.{
  ℕ, ◌≤◌, ◌<◌, ◌≡◌, refl, sym, ap, ◌∙◌, inl, inr, Bool-cases, true, false, Option, none, some, List,
  [], ◌∷◌, ◌++◌, arith, ◌==◌, length,
}
use client_exchange_simulati.RingBuffer.{RingBuffer, store, store-same, next}
use client_exchange_simulati.RingBuffer.Inv.{IsValid, next-le}
use client_exchange_simulati.RingBuffer.Refine.{count, contents, length-window}
use client_exchange_simulati.RingBuffer.Runs.{Call, give, take, stored, taken, run_queue}
use client_exchange_simulati.RingBuffer.Places.{
  full_lem, empty_count, apart, contents-store, contents-publish, count-publish, count-advance,
  contents-advance,
}
use client_exchange_simulati.RingBuffer.Threads.{
  Threads, Producer, at_rest, at_check, at_store, at_publish, Consumer, waiting, checking, reading,
  leaving, Event, returned, Turn, of_producer, of_consumer, produce, consume, turn,
}

module _ {T : Type 0} where
  -- What the producer knows of the ring: the write index is its own, and once it has seen room there
  -- is room.
  abbrev pub Knows : RingBuffer T → Producer T → Type 0
  Knows r at_rest = Unit {0}
  Knows r (at_check x w n) = (w ≡ r.write_idx) × (n ≡ next r w)
  Knows r (at_store x w n) = (w ≡ r.write_idx) × (n ≡ next r w) × (count r < r.mask)
  Knows r (at_publish x n) =
      (n ≡ next r r.write_idx) × (count r < r.mask) × (r.buffer r.write_idx ≡ x)

  -- What the consumer knows of the ring: the read index is its own, and once it has seen an item there
  -- is one.
  abbrev pub Sees : RingBuffer T → Consumer T → Type 0
  Sees r waiting = Unit {0}
  Sees r (checking i) = i ≡ r.read_idx
  Sees r (reading i) = (i ≡ r.read_idx) × (0 < count r)
  Sees r (leaving x i) = (i ≡ r.read_idx) × (0 < count r) × (r.buffer r.read_idx ≡ x)

  pub record IsRunning (width : ℕ) (s : Threads T) : Type 0 where
    pub valid : IsValid width s.ring
    pub knows : Knows s.ring s.producer
    pub sees : Sees s.ring s.consumer

  -- How a turn that starts with the items `q` and ends with `q'` looks to the queue: no call, or one.
  abbrev pub Acts : ℕ → List T → Option (Event T) → List T → Type 0
  Acts cap q none q' = q' ≡ q
  Acts cap q (some (returned c a)) q' =
      (cs : List (Call T)) → run_queue cap q (c ∷ cs) ≡ a ∷ run_queue cap q' cs

  abbrev pub Turned : ℕ → Threads T → Threads T × Option (Event T) → Type 0
  Turned width s out =
      IsRunning width out.0
      × (out.0.ring.mask ≡ s.ring.mask)
      × Acts s.ring.mask (contents s.ring) out.1 (contents out.0.ring)

  -- The queue's answers to the next call.
  full_call :
      (cap : ℕ) (q : List T) (x : T) (cs : List (Call T))
      → length q ≡ cap
      → run_queue cap q (give x ∷ cs) ≡ stored false ∷ run_queue cap q cs
  unfolding run_queue
  full_call cap q x cs e = let full : (length q == cap) ≡ true = ground arith in rw full refl

  room_call :
      (cap : ℕ) (q : List T) (x : T) (cs : List (Call T))
      → length q < cap
      → run_queue cap q (give x ∷ cs) ≡ stored true ∷ run_queue cap (q ++ x ∷ []) cs
  unfolding run_queue
  room_call cap q x cs h = let room : (length q == cap) ≡ false = ground arith in rw room refl

  empty_call :
      (cap : ℕ) (cs : List (Call T))
      → run_queue cap [] (take ∷ cs) ≡ taken none ∷ run_queue cap [] cs
  unfolding run_queue
  empty_call cap cs = refl

  take_call :
      (cap : ℕ) (x : T) (q : List T) (cs : List (Call T))
      → run_queue cap (x ∷ q) (take ∷ cs) ≡ taken (some x) ∷ run_queue cap q cs
  unfolding run_queue
  take_call cap x q cs = refl

  length-nil : {q : List T} → length q ≡ 0 → q ≡ []
  length-nil {q = []} e = refl
  length-nil {q = x ∷ q} e = absurd (omega (arith, e))

  holds : (r : RingBuffer T) → length (contents r) ≡ count r
  holds r = length-window r.buffer r.mask r.read_idx (count r)

  -- What one thread knows survives what the other does.
  Knows-after_pop :
      (r : RingBuffer T) (p : Producer T) (i : ℕ)
      → count (record r { read_idx = i }) ≤ count r
      → Knows r p
      → Knows (record r { read_idx = i }) p
  unfolding next
  Knows-after_pop r at_rest i h k = tt
  Knows-after_pop r (at_check x w n) i h k = k
  Knows-after_pop r (at_store x w n) i h k = (k.0, k.1, omega (arith, h, k.2))
  Knows-after_pop r (at_publish x n) i h k = (k.0, omega (arith, h, k.1), k.2)

  Sees-after_publish :
      (r : RingBuffer T) (c : Consumer T) (i : ℕ)
      → count r ≤ count (record r { write_idx = i })
      → Sees r c
      → Sees (record r { write_idx = i }) c
  Sees-after_publish r waiting i h k = tt
  Sees-after_publish r (checking j) i h k = k
  Sees-after_publish r (reading j) i h k = (k.0, omega (arith, h, k.1))
  Sees-after_publish r (leaving x j) i h k = (k.0, omega (arith, h, k.1), k.2)

  Sees-after_store :
      {width : ℕ} (r : RingBuffer T) (c : Consumer T) (x : T)
      → IsValid width r
      → Sees r c
      → Sees (record r { buffer = store r.buffer r.write_idx x }) c
  Sees-after_store r waiting x v k = tt
  Sees-after_store r (checking j) x v k = k
  Sees-after_store r (reading j) x v k = k
  Sees-after_store r (leaving y j) x v k = (k.0, k.1, ground (arith, apart v k.1, k.2))

  produce-at :
      {width : ℕ} (r : RingBuffer T) (p : Producer T) (c : Consumer T) (item : T)
      → let s : Threads T = record { ring = r; producer = p; consumer = c } in
        IsRunning width s → Turned width s (produce s item)
  unfolding produce next
  produce-at r at_rest c item v =
      (record { valid = v.valid; knows = (refl, refl); sees = v.sees }, refl, refl)
  produce-at r (at_check x w n) c item v = elim (Bool-cases (n == r.read_idx)) [
    | inl full ↦ rw full (
      record { valid = v.valid; knows = tt; sees = v.sees },
      refl,
      λ cs. full_call r.mask (contents r) x cs (
          holds r
          ∙ (full_lem v.valid).0 (sym (ap (next r) v.knows.0) ∙ (sym v.knows.1 ∙ ground arith))),
    )
    | inr room ↦ rw room (
      record {
        valid = v.valid;
        knows = (
          v.knows.0,
          v.knows.1,
          (full_lem v.valid).1 (λ e. absurd (ground (arith, ap (next r) v.knows.0, v.knows.1))),
        );
        sees = v.sees;
      },
      refl,
      refl,
    )
  ]
  produce-at r (at_store x w n) c item v = rw v.knows.0 (
    record {
      valid = record {
        sized = v.valid.sized;
        small = v.valid.small;
        write_in = v.valid.write_in;
        read_in = v.valid.read_in;
      };
      knows = (v.knows.1 ∙ ap (next r) v.knows.0, v.knows.2, store-same r.buffer r.write_idx x);
      sees = Sees-after_store r c x v.valid v.sees;
    },
    refl,
    contents-store v.valid x,
  )
  produce-at r (at_publish x n) c item v =
      let more = contents-publish v.valid v.knows.1 in
      let one = count-publish v.valid v.knows.1 in
      rw v.knows.0 (
        record {
          valid = record {
            sized = v.valid.sized;
            small = v.valid.small;
            write_in = next-le v.valid r.write_idx;
            read_in = v.valid.read_in;
          };
          knows = tt;
          sees = Sees-after_publish r c (next r r.write_idx) (omega (arith, one)) v.sees;
        },
        refl,
        λ cs.
            room_call r.mask (contents r) x cs (omega (arith, holds r, v.knows.1))
            ∙ ap (λ q. stored true ∷ run_queue r.mask q cs)
                (ap (λ y. contents r ++ y ∷ []) (sym v.knows.2) ∙ sym more),
      )

  consume-at :
      {width : ℕ} (r : RingBuffer T) (p : Producer T) (c : Consumer T)
      → let s : Threads T = record { ring = r; producer = p; consumer = c } in
        IsRunning width s → Turned width s (consume s)
  unfolding consume
  consume-at r p waiting v = (record { valid = v.valid; knows = v.knows; sees = refl }, refl, refl)
  consume-at r p (checking i) v = elim (Bool-cases (i == r.write_idx)) [
    | inl dry ↦
        let none_held : contents r ≡ [] =
          length-nil (holds r ∙ (empty_count v.valid).0 (ground (arith, v.sees))) in
        rw (dry, none_held)
          (record { valid = v.valid; knows = v.knows; sees = tt }, refl, λ cs. empty_call r.mask cs)
    | inr held ↦ rw held (
      record {
        valid = v.valid;
        knows = v.knows;
        sees = (v.sees, (empty_count v.valid).1 (λ e. absurd (ground (arith, v.sees))));
      },
      refl,
      refl,
    )
  ]
  consume-at r p (reading i) v = (
    record {
      valid = v.valid;
      knows = v.knows;
      sees = (v.sees.0, v.sees.1, ap r.buffer (sym v.sees.0));
    },
    refl,
    refl,
  )
  consume-at r p (leaving x i) v =
      let less = contents-advance v.valid v.sees.1 in
      let one = count-advance v.valid v.sees.1 in
      rw v.sees.0 (
        record {
          valid = record {
            sized = v.valid.sized;
            small = v.valid.small;
            write_in = v.valid.write_in;
            read_in = next-le v.valid r.read_idx;
          };
          knows = Knows-after_pop r p (next r r.read_idx) (omega (arith, one)) v.knows;
          sees = tt;
        },
        refl,
        λ cs. rw (less, v.sees.2) (take_call r.mask x _ cs),
      )

  pub turn-Turned :
      {width : ℕ} (s : Threads T) (t : Turn T) → IsRunning width s → Turned width s (turn s t)
  unfolding turn
  turn-Turned s (of_producer x) v = produce-at s.ring s.producer s.consumer x v
  turn-Turned s of_consumer v = consume-at s.ring s.producer s.consumer v

-- ===== src/RingBuffer/Threads.antt =====
-- exchange/include/ring_buffer.hpp: `push` and `pop` one access of shared memory at a time, for a
-- producer and a consumer thread that take turns in any order. An atomic load or store is one turn,
-- and so is an access of the array. Memory is one state: the release store of an index is taken to
-- publish all the thread wrote before it.
use client_exchange_simulati.Prelude.{
  ℕ, true, false, Option, none, some, List, [], ◌∷◌, ◌==◌, if◌then◌else◌,
}
use client_exchange_simulati.RingBuffer.{RingBuffer, store, next}
use client_exchange_simulati.RingBuffer.Runs.{Call, give, take, Reply, stored, taken}

-- Where the producer stands in `push`, with its local variables `write_idx` and `next_write`.
pub data Producer (T : Type 0) : Type 0 where
  at_rest : Producer T
  at_check : T → ℕ → ℕ → Producer T
  at_store : T → ℕ → ℕ → Producer T
  at_publish : T → ℕ → Producer T

-- Where the consumer stands in `pop`, with its local variable `read_idx` and the item it read.
pub data Consumer (T : Type 0) : Type 0 where
  waiting : Consumer T
  checking : ℕ → Consumer T
  reading : ℕ → Consumer T
  leaving : T → ℕ → Consumer T

-- Both threads and the ring they share.
pub record Threads (T : Type 0) : Type 0 where
  pub ring : RingBuffer T
  pub producer : Producer T
  pub consumer : Consumer T

-- A call that returned in a turn, with what it returned.
pub data Event (T : Type 0) : Type 0 where
  returned : Call T → Reply T → Event T

-- Whose turn it is; the item is what the producer pushes next if it is at rest.
pub data Turn (T : Type 0) : Type 0 where
  of_producer : T → Turn T
  of_consumer : Turn T

module _ {T : Type 0} where
  -- Both threads between two calls.
  abbrev pub start : RingBuffer T → Threads T
  start r = record { ring = r; producer = at_rest; consumer = waiting }

  -- The next access of the producer; at rest it starts `push(item)`.
  unfoldable pub produce : Threads T → T → Threads T × Option (Event T)
  produce s item = elim s.producer [
    | at_rest ↦ (
      record s { producer = at_check item s.ring.write_idx (next s.ring s.ring.write_idx) },
      none,
    )
    | at_check x w n ↦
        if n == s.ring.read_idx
        then (record s { producer = at_rest }, some (returned (give x) (stored false)))
        else (record s { producer = at_store x w n }, none)
    | at_store x w n ↦ (
      record s {
        ring = record s.ring { buffer = store s.ring.buffer w x };
        producer = at_publish x n;
      },
      none,
    )
    | at_publish x n ↦ (
      record s { ring = record s.ring { write_idx = n }; producer = at_rest },
      some (returned (give x) (stored true)),
    )
  ]

  -- The next access of the consumer; waiting, it starts `pop`.
  unfoldable pub consume : Threads T → Threads T × Option (Event T)
  consume s = elim s.consumer [
    | waiting ↦ (record s { consumer = checking s.ring.read_idx }, none)
    | checking i ↦
        if i == s.ring.write_idx
        then (record s { consumer = waiting }, some (returned take (taken none)))
        else (record s { consumer = reading i }, none)
    | reading i ↦ (record s { consumer = leaving (s.ring.buffer i) i }, none)
    | leaving x i ↦ (
      record s { ring = record s.ring { read_idx = next s.ring i }; consumer = waiting },
      some (returned take (taken (some x))),
    )
  ]

  unfoldable pub turn : Threads T → Turn T → Threads T × Option (Event T)
  turn s (of_producer x) = produce s x
  turn s of_consumer = consume s

  unfoldable pub note : Option (Event T) → List (Event T) → List (Event T)
  note none es = es
  note (some e) es = e ∷ es

  -- A schedule, with what returned on the way, and the state it ends in.
  unfoldable pub interleave : Threads T → List (Turn T) → List (Event T) × Threads T
  interleave s [] = ([], s)
  interleave s (t ∷ ts) =
      let (s', e) = turn s t in let (es, last) = interleave s' ts in (note e es, last)

  unfoldable pub calls : List (Event T) → List (Call T)
  calls [] = []
  calls (returned c a ∷ es) = c ∷ calls es

  unfoldable pub replies : List (Event T) → List (Reply T)
  replies [] = []
  replies (returned c a ∷ es) = a ∷ replies es

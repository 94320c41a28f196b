-- ===== src/Client/Pipeline/Answers.antt =====
-- `handleReadable` ends, whatever the exchange sends, and keeps the pipeline.
use client_exchange_simulati.Prelude.{
  ℕ, zero, suc, ◌-◌, ◌%◌, ◌≤◌, ◌<◌, ◌≡◌, refl, sym, ap, ◌∙◌, subst, inl, inr, Bool, true, false,
  Bool-cases, Option, none, some, List, [], ◌∷◌, arith, ltb, leb, ◌==◌,
}
use client_exchange_simulati.Prelude.Result.{ok, Returns, Returns-bind}
use client_exchange_simulati.Buffer.{view, unread_length, read_from}
use client_exchange_simulati.Buffer.Reading.{
  IsReading, Fits, read_from-view, advance-view, advance-shorter,
}
use client_exchange_simulati.Buffer.Writing.{IsWriting}
use client_exchange_simulati.Buffer.Bytes.{length-slice}
use client_exchange_simulati.Wire.{OrderId, new}
use client_exchange_simulati.Server.Gateway.{header, starts_with}
use client_exchange_simulati.Server.Responses.{outbound_bsize}
use client_exchange_simulati.Server.Sending.Progress.{Takes}
use client_exchange_simulati.Server.Connecting.{Reader}
use client_exchange_simulati.Client.Factory.Roundtrip.{IsLeft}
use client_exchange_simulati.Client.State.{is_held, Client, client_depth, reconnect, next_64}
use client_exchange_simulati.Client.Sending.{Outside, request_capacity}
use client_exchange_simulati.Client.Receiving.{
  response_capacity, byte_at, order_id_at, remember, answered, acknowledge, take_match, take_error,
  take_frame, advanced, take_frames, fill_up, after_recv, handle_readable,
}
use client_exchange_simulati.Client.Pipeline.{
  HasBuffers, IsOpen, IsPipelined, reconnect-IsPipelined,
}
use client_exchange_simulati.Client.Pipeline.Filling.{build_batch-Returns}

-- A client that counts other answers, or has other targets.
counting :
    (cs cs' : Client)
    → IsOpen cs
    → cs'.acks_pending ≡ cs.acks_pending
    → cs'.orders_in_flight ≡ cs.orders_in_flight
    → cs'.pending_tail ≡ cs.pending_tail
    → cs'.pending_head ≡ cs.pending_head
    → cs'.fd ≡ cs.fd
    → HasBuffers cs'
    → IsOpen cs'
counting cs cs' v a o t h f b = record {
  held = ap is_held f ∙ v.held;
  depth = omega (arith, a, v.depth);
  counted = o ∙ v.counted ∙ sym a;
  ring = t ∙ v.ring ∙ rw (a, h) refl;
  buffers = b;
}

same_buffers :
    (cs cs' : Client)
    → HasBuffers cs
    → cs'.active_count ≤ 32
    → cs'.read_buf ≡ cs.read_buf
    → cs'.write_buf ≡ cs.write_buf
    → HasBuffers cs'
same_buffers cs cs' b s r w = record {
  stored = s;
  reading = subst (IsReading response_capacity) (sym r) b.reading;
  writing = subst (λ x. IsWriting request_capacity x) (sym w) b.writing;
  front = ap (λ x. x.read_off) w ∙ b.front;
}

remember-IsOpen : (cs : Client) (oid : OrderId) → IsOpen cs → IsOpen (remember cs oid)
remember-IsOpen cs oid v =
    counting cs (remember cs oid) v refl refl refl refl refl
      (same_buffers cs (remember cs oid) v.buffers (ground (arith, v.buffers.stored)) refl refl)

answered-IsOpen : (cs : Client) → IsOpen cs → 0 < cs.acks_pending → IsOpen (answered cs)
answered-IsOpen cs v h = record {
  depth = omega (arith, v.depth);
  counted = omega (arith, v.counted, v.depth);
  ring = omega (arith, v.ring);
  held = v.held;
  buffers = same_buffers cs (answered cs) v.buffers v.buffers.stored refl refl;
}

acknowledge-IsOpen : (cs : Client) (oid : OrderId) → IsOpen cs → IsOpen (acknowledge cs oid)
unfolding acknowledge
acknowledge-IsOpen cs oid v = elim (Bool-cases (ltb 0 cs.acks_pending)) [
  | inr idle ↦ rw idle v
  | inl busy ↦
      rw busy (elim (Bool-cases (cs.pending_types (cs.pending_head % client_depth) == new)) [
        | inl fresh ↦ rw fresh (acked (remember cs oid) (remember-IsOpen cs oid v) (ground arith))
        | inr other ↦ rw other (acked cs v (ground arith))
      ])
]
  where
    acked :
        (c : Client)
        → IsOpen c
        → 0 < c.acks_pending
        → IsOpen (record (answered c) { responses_ack = next_64 cs.responses_ack })
    acked c u h =
        counting (answered c) (record (answered c) { responses_ack = next_64 cs.responses_ack })
          (answered-IsOpen c u h) refl refl refl refl refl
          (same_buffers c (record (answered c) { responses_ack = next_64 cs.responses_ack })
            u.buffers u.buffers.stored refl refl)

take_match-IsOpen : (cs : Client) → IsOpen cs → IsOpen (take_match cs)
unfolding take_match
take_match-IsOpen cs v =
    counting cs _ v refl refl refl refl refl
      (same_buffers cs _ v.buffers v.buffers.stored refl refl)

take_error-IsOpen : (cs : Client) → IsOpen cs → IsOpen (take_error cs)
unfolding take_error
take_error-IsOpen cs v = elim (Bool-cases (ltb 0 cs.acks_pending)) [
  | inl busy ↦ rw busy (erred (answered cs) (answered-IsOpen cs v (ground arith)))
  | inr idle ↦ rw idle (erred cs v)
]
  where
    erred : (c : Client) → IsOpen c → IsOpen (record c { responses_err = next_64 c.responses_err })
    erred c u =
        counting c (record c { responses_err = next_64 c.responses_err }) u refl refl refl refl refl
          (same_buffers c (record c { responses_err = next_64 c.responses_err }) u.buffers
            u.buffers.stored refl refl)

acknowledge-read_buf : (cs : Client) (oid : OrderId) → (acknowledge cs oid).read_buf ≡ cs.read_buf
unfolding acknowledge
acknowledge-read_buf cs oid = ground arith

take_match-read_buf : (cs : Client) → (take_match cs).read_buf ≡ cs.read_buf
unfolding take_match
take_match-read_buf cs = refl

take_error-read_buf : (cs : Client) → (take_error cs).read_buf ≡ cs.read_buf
unfolding take_error
take_error-read_buf cs = ground arith

-- What a frame leaves of the client, if it follows the protocol.
abbrev Kept : Client → Option Client → Type 0
Kept cs none = Unit {0}
Kept cs (some c) = IsOpen c × (c.read_buf ≡ cs.read_buf)

take_frame-Kept : (cs : Client) (frame : List ℕ) → IsOpen cs → Kept cs (take_frame cs frame)
unfolding take_frame
take_frame-Kept cs frame v =
    let oid = order_id_at frame in
    elim (Bool-cases (starts_with frame header)) [
      | inr bad ↦ rw bad tt
      | inl good ↦ rw good (elim (Bool-cases (byte_at 9 frame == 79)) [
        | inl ack ↦ rw ack (acknowledge-IsOpen cs oid v, acknowledge-read_buf cs oid)
        | inr not_ack ↦ rw not_ack (elim (Bool-cases (byte_at 9 frame == 77)) [
          | inl fill ↦ rw fill (take_match-IsOpen cs v, take_match-read_buf cs)
          | inr not_fill ↦ rw not_fill (elim (Bool-cases (byte_at 9 frame == 69)) [
            | inl bad ↦ rw bad (take_error-IsOpen cs v, take_error-read_buf cs)
            | inr unknown ↦ rw unknown tt
          ])
        ])
      ])
    ]

-- After the frames: still connected when they were all well formed.
abbrev AfterFrames : Bool × Client → Type 0
AfterFrames (true, c) = IsOpen c
AfterFrames (false, c) = IsPipelined c

advanced-IsOpen :
    (cs : Client)
    → IsOpen cs
    → outbound_bsize ≤ unread_length cs.read_buf
    → IsOpen (advanced cs) × (unread_length (advanced cs).read_buf < unread_length cs.read_buf)
advanced-IsOpen cs v h =
    let b = cs.read_buf in
    let count = length-slice b.bytes b.read_off (b.len - b.read_off) in
    let r =
      advance-view response_capacity b outbound_bsize v.buffers.reading (omega (arith, count)) in
    (
      record {
        depth = v.depth;
        counted = v.counted;
        ring = v.ring;
        held = v.held;
        buffers = record {
          stored = v.buffers.stored;
          reading = r.1;
          writing = v.buffers.writing;
          front = v.buffers.front;
        };
      },
      advance-shorter b outbound_bsize (omega arith) h,
    )

-- The rest of the loop, from what a frame left.
frames_after :
    (fuel now : ℕ) (cs : Client)
    → IsOpen cs
    → ((c : Client)
        → IsOpen c
        → c.read_buf ≡ cs.read_buf
        → Returns AfterFrames (take_frames fuel now (advanced c)))
    → (o : Option Client) → Kept cs o
    → Returns AfterFrames (elim o [
      | none ↦ ok (false, reconnect now cs)
      | some c ↦ take_frames fuel now (advanced c)
    ])
frames_after fuel now cs v rest none k = reconnect-IsPipelined now cs v
frames_after fuel now cs v rest (some c) (u, same) = rest c u same

take_frames-Returns :
    (fuel now : ℕ) (cs : Client)
    → IsOpen cs
    → unread_length cs.read_buf < fuel
    → Returns AfterFrames (take_frames fuel now cs)
unfolding take_frames
take_frames-Returns zero now cs v h = absurd (omega arith)
take_frames-Returns (suc fuel) now cs v h =
    elim (Bool-cases (leb outbound_bsize (unread_length cs.read_buf))) [
      | inr short ↦ rw short v
      | inl whole ↦
          let enough : outbound_bsize ≤ unread_length cs.read_buf = ground arith in
          rw whole (
            frames_after fuel now cs v
              (λ c u same.
                let room = ap unread_length same in
                let next = advanced-IsOpen c u (omega (arith, room)) in
                take_frames-Returns fuel now (advanced c) next.0 (omega (arith, room, next.1)))
              (take_frame cs (view cs.read_buf)) (take_frame-Kept cs (view cs.read_buf) v))
    ]

fill_up-Returns :
    (w : Outside) (out : Bool × Client)
    → AfterFrames out
    → ((k : ℕ) → IsLeft (w.leftover k))
    → Takes w.send
    → Returns IsPipelined (fill_up w out)
fill_up-Returns w (true, c) v l takes = build_batch-Returns w c v l takes
fill_up-Returns w (false, c) v l takes = v

after_recv-Returns :
    (w : Outside) (cs : Client) (again : Bool) (n : Option (List ℕ))
    → IsOpen cs
    → ((k : ℕ) → IsLeft (w.leftover k))
    → Takes w.send
    → Returns IsPipelined (after_recv w cs again n)
after_recv-Returns w cs true none v l takes = inl v
after_recv-Returns w cs false none v l takes = reconnect-IsPipelined w.reconnect_now cs v
after_recv-Returns w cs again (some []) v l takes = reconnect-IsPipelined w.reconnect_now cs v
after_recv-Returns w cs again (some (x ∷ xs)) v l takes =
    Returns-bind _ _ (take_frames (suc (unread_length cs.read_buf)) w.reconnect_now cs) (fill_up w)
      (take_frames-Returns (suc (unread_length cs.read_buf)) w.reconnect_now cs v (omega arith))
      λ out k. fill_up-Returns w out k l takes

-- From an open client, whatever the exchange sends and the system answers, `handleReadable` returns within
-- its fuel. Either the client is still open: at most 32 requests are in flight, the counter of orders
-- in flight agrees, and the ring of sent types holds one entry for each; or it has closed its
-- connection, and nothing is in flight. `recv` and `send` keep to the room and the bytes they are
-- given, and the bytes that the code leaves open in a frame have their sizes.
pub handle_readable-Returns :
    (w : Outside) (net : Reader) (cs : Client)
    → IsOpen cs
    → Fits (λ k. (net 0 k).bytes)
    → ((k : ℕ) → IsLeft (w.leftover k))
    → Takes w.send
    → Returns IsPipelined (handle_readable w net cs)
unfolding handle_readable
handle_readable-Returns w net cs v fits l takes =
    let r = read_from response_capacity (λ k. (net 0 k).bytes) cs.read_buf in
    let now = record cs { read_buf = r.1 } in
    after_recv-Returns w now (net 0 (response_capacity - r.1.len)).again r.0
      (record {
        depth = v.depth;
        counted = v.counted;
        ring = v.ring;
        held = v.held;
        buffers = record {
          stored = v.buffers.stored;
          reading =
              (read_from-view response_capacity (λ k. (net 0 k).bytes) cs.read_buf v.buffers.reading
                fits).1;
          writing = v.buffers.writing;
          front = v.buffers.front;
        };
      })
      l takes

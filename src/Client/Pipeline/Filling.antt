-- ===== src/Client/Pipeline/Filling.antt =====
-- `buildBatch` and `flushWrite` end; every request of a batch has room in the write buffer.
use client_exchange_simulati.Prelude.{
  ℕ, zero, suc, ◌+◌, ◌-◌, ◌*◌, ◌≤◌, ◌<◌, ◌≡◌, refl, ap, ◌∙◌, ◌⊎◌, inl, inr, Bool, true, false,
  Bool-cases, arith, length, ltb, ◌==◌,
}
use client_exchange_simulati.Prelude.Result.{Returns, Returns-bind, Returns-weaken}
use client_exchange_simulati.Buffer.{
  Buffer, clear, write_to, unread_length, remaining_to_send, has_room, unsent, try_reset,
}
use client_exchange_simulati.Buffer.Writing.{
  IsWriting, append-unsent, append-len, append-read_off, write_to-unsent, write_to-written,
  try_reset-unsent,
}
use client_exchange_simulati.Server.Sending.{
  Sender, SendEnd, complete, blocked, broken, is_positive,
}
use client_exchange_simulati.Server.Sending.Progress.{Takes, sent-pos}
use client_exchange_simulati.Client.Factory.{Built, build_frame}
use client_exchange_simulati.Client.Factory.Roundtrip.{IsLeft, length-build_frame}
use client_exchange_simulati.Client.State.{Client, client_depth}
use client_exchange_simulati.Client.Sending.{
  request_capacity, Outside, is_negative, flush_loop, after_flush, flush_write, active_order,
  append_request, build_loop, may_build, slots_of, timed, build_batch, handle_connect,
}
use client_exchange_simulati.Client.Pipeline.{IsOpen, IsPipelined, reconnect-IsPipelined}

-- A write buffer of the client
abbrev IsOut : Buffer → Type 0
IsOut b = IsWriting request_capacity b × (b.read_off ≡ 0)

wrote-IsOut :
    (net : Sender) (call : ℕ) (b : Buffer)
    → IsOut b
    → Takes net
    → IsOut (write_to (λ xs. (net call xs).count) b).1
wrote-IsOut net call b (v, front) takes = (
  (write_to-unsent request_capacity (λ xs. (net call xs).count) b v (takes call)).1,
  ap (λ b'. b'.read_off) (write_to-written (λ xs. (net call xs).count) b) ∙ front,
)

flush_loop-Returns :
    (fuel : ℕ) (net : Sender) (call : ℕ) (b : Buffer)
    → IsOut b
    → Takes net
    → remaining_to_send b < fuel
    → Returns (λ out. IsOut out.1) (flush_loop fuel net call b)
unfolding flush_loop
flush_loop-Returns zero net call b v takes h = absurd (omega arith)
flush_loop-Returns (suc fuel) net call b v takes h =
    let n = (write_to (λ xs. (net call xs).count) b).0 in
    let w = wrote-IsOut net call b v takes in
    elim (Bool-cases (ltb 0 (remaining_to_send b))) [
      | inr all ↦ rw all v
      | inl more ↦ rw more (elim (Bool-cases (is_positive n)) [
        | inl some_sent ↦
            let moved = write_to-written (λ xs. (net call xs).count) b in
            let b' = (write_to (λ xs. (net call xs).count) b).1 in
            rw some_sent (
              flush_loop-Returns fuel net (suc call) b' w takes (
                omega (
                  arith,
                  ap (λ c. c.len) moved,
                  ap (λ c. c.bytes_written) moved,
                  sent-pos n some_sent,
                )))
        | inr stuck ↦ elim (Bool-cases (is_negative n)) [
          | inr eof ↦ rw stuck (rw eof w)
          | inl failed ↦ elim (Bool-cases (net call (unsent b)).again) [
            | inl wait ↦ rw stuck (rw (failed, wait) w)
            | inr bad ↦ rw stuck (rw (failed, bad) w)
          ]
        ]
      ])
    ]

-- A client with another write buffer.
with_buffer :
    (cs : Client) (b : Buffer) → IsOpen cs → IsOut b → IsOpen (record cs { write_buf = b })
with_buffer cs b v o = record {
  depth = v.depth;
  counted = v.counted;
  ring = v.ring;
  held = v.held;
  buffers = record {
    stored = v.buffers.stored;
    reading = v.buffers.reading;
    writing = o.0;
    front = o.1;
  };
}

try_reset-front : (b : Buffer) → (try_reset b).read_off ≡ b.read_off
unfolding try_reset
try_reset-front b = elim (Bool-cases (b.bytes_written == b.len)) [
  | inl done ↦ rw done refl
  | inr more ↦ rw more refl
]

after_flush-IsPipelined :
    (now : ℕ) (cs : Client) (b : Buffer) (end : SendEnd)
    → IsOpen cs
    → IsOut b
    → IsPipelined (after_flush now cs b end)
after_flush-IsPipelined now cs b complete v o = inl (
    with_buffer cs (try_reset b) v
      ((try_reset-unsent request_capacity b o.0).1, try_reset-front b ∙ o.1))
after_flush-IsPipelined now cs b blocked v o = inl (with_buffer cs b v o)
after_flush-IsPipelined now cs b broken v o =
    reconnect-IsPipelined now (record cs { write_buf = b }) (with_buffer cs b v o)

-- `flushWrite` returns within its fuel.
pub flush_write-Returns :
    (w : Outside) (cs : Client) → IsOpen cs → Takes w.send → Returns IsPipelined (flush_write w cs)
unfolding flush_write
flush_write-Returns w cs v takes =
    Returns-bind _ _ (flush_loop (suc (remaining_to_send cs.write_buf)) w.send 0 cs.write_buf) _
      (flush_loop-Returns (suc (remaining_to_send cs.write_buf)) w.send 0 cs.write_buf
        (v.buffers.writing, v.buffers.front) takes (omega arith))
      λ out o. after_flush-IsPipelined w.reconnect_now cs out.1 out.0 v o

-- What the loop of `buildBatch` adds: the pipeline is filled, and the write buffer grows by one frame
-- for each request, so none of them found the buffer full.
pub record Packed (slots : ℕ) (cs out : Client) : Type 0 where
  pub open_still : IsOpen out
  pub filled : slots ≤ out.acks_pending
  pub grown : cs.acks_pending ≤ out.acks_pending
  pub no_more : (out.acks_pending ≤ slots) ⊎ (out.acks_pending ≡ cs.acks_pending)
  pub packed : out.write_buf.len ≡ cs.write_buf.len + 72 * (out.acks_pending - cs.acks_pending)

append_request-IsOpen :
    (cs : Client) (b : Built)
    → IsOpen cs
    → cs.acks_pending < client_depth
    → IsOpen (append_request cs b)
unfolding append_request
append_request-IsOpen cs b v h = record {
  depth = omega arith;
  counted = omega (arith, v.counted);
  ring = omega (arith, v.ring);
  held = v.held;
  buffers = record {
    stored = v.buffers.stored;
    reading = v.buffers.reading;
    writing = (append-unsent request_capacity cs.write_buf b.frame v.buffers.writing).2;
    front = append-read_off request_capacity cs.write_buf b.frame ∙ v.buffers.front;
  };
}

appended :
    (cs : Client) (b : Built)
    → has_room request_capacity cs.write_buf (length b.frame) ≡ true
    → (append_request cs b).write_buf.len ≡ cs.write_buf.len + length b.frame
unfolding append_request
appended cs b fits = append-len request_capacity cs.write_buf b.frame fits

one_more :
    (cs : Client) (b : Built)
    → cs.acks_pending < client_depth
    → (append_request cs b).acks_pending ≡ cs.acks_pending + 1
unfolding append_request
one_more cs b h = omega arith

build_loop-Returns :
    (fuel : ℕ) (w : Outside) (slots call : ℕ) (cs : Client)
    → IsOpen cs
    → ((k : ℕ) → IsLeft (w.leftover k))
    → slots ≤ client_depth
    → cs.write_buf.len + 72 * (client_depth - cs.acks_pending) ≤ request_capacity
    → client_depth < fuel + cs.acks_pending
    → Returns (Packed slots cs) (build_loop fuel w slots call cs)
unfolding build_loop
build_loop-Returns zero w slots call cs v l most room h = absurd (omega (arith, v.depth))
build_loop-Returns (suc fuel) w slots call cs v l most room h =
    let b = build_frame (w.draws call) (w.leftover call) cs.client_id (active_order cs) in
    let cs' = append_request cs b in
    elim (Bool-cases (ltb cs.acks_pending slots)) [
      | inr full ↦ rw full (record {
        open_still = v;
        filled = ground arith;
        grown = omega arith;
        no_more = inr refl;
        packed = omega arith;
      })
      | inl more ↦
          let below : cs.acks_pending < slots = ground arith in
          let size : length b.frame ≡ 72 = length-build_frame _ _ _ _ (l call) in
          let fits : has_room request_capacity cs.write_buf (length b.frame) ≡ true =
            ground (arith, size) in
          let len : cs'.write_buf.len ≡ cs.write_buf.len + 72 =
            appended cs b fits ∙ ap (λ k. cs.write_buf.len + k) size in
          let acks : cs'.acks_pending ≡ cs.acks_pending + 1 = one_more cs b (omega arith) in
          rw more (
            Returns-weaken (Packed slots cs') (Packed slots cs) _
              (build_loop-Returns fuel w slots (suc call) cs'
                (append_request-IsOpen cs b v (omega arith)) l most (omega (arith, len, acks))
                (omega (arith, acks)))
              λ out p. record {
                open_still = p.open_still;
                filled = p.filled;
                grown = omega (arith, p.grown, acks);
                no_more = inl (elim p.no_more [ inl q ↦ q | inr e ↦ omega (arith, acks) ]);
                packed = omega (arith, p.packed, p.grown, len, acks);
              })
    ]

-- On an open client, whatever is drawn, the loop of `buildBatch` returns within its fuel and fills the
-- pipeline to its slots. The write buffer grows by one frame for each request that was counted, so none
-- was dropped for want of room; the client stays open. The bytes that the code leaves open in a frame
-- have their sizes.
pub build_loop-Packed :
    (w : Outside) (cs : Client)
    → IsOpen cs
    → ((k : ℕ) → IsLeft (w.leftover k))
    → let ready = record cs { write_buf = clear cs.write_buf } in
      Returns (Packed (slots_of w) ready) (build_loop (suc client_depth) w (slots_of w) 0 ready)
build_loop-Packed w cs v l =
    let cleared =
      with_buffer cs (clear cs.write_buf) v
        (record { written_in = omega arith; len_in = omega arith }, refl) in
    build_loop-Returns (suc client_depth) w (slots_of w) 0
      (record cs { write_buf = clear cs.write_buf }) cleared l (ground arith) (omega arith)
      (omega arith)

timed-IsOpen : (w : Outside) (cs : Client) → IsOpen cs → IsOpen (timed w cs)
timed-IsOpen w cs v = elim (Bool-cases (ltb 0 w.inter_arrival_ns)) [
  | inr off ↦ rw off v
  | inl on ↦ rw on (record {
    depth = v.depth;
    counted = v.counted;
    ring = v.ring;
    held = v.held;
    buffers = record {
      stored = v.buffers.stored;
      reading = v.buffers.reading;
      writing = v.buffers.writing;
      front = v.buffers.front;
    };
  })
]

pub build_batch-Returns :
    (w : Outside) (cs : Client)
    → IsOpen cs
    → ((k : ℕ) → IsLeft (w.leftover k))
    → Takes w.send
    → Returns IsPipelined (build_batch w cs)
unfolding build_batch
build_batch-Returns w cs v l takes = elim (Bool-cases (ltb 0 (unread_length cs.write_buf))) [
  | inl busy ↦ rw busy (inl v)
  | inr idle ↦ elim (Bool-cases (may_build w cs)) [
    | inr saturated ↦ rw idle (rw saturated (inl v))
    | inl free ↦ rw idle (
        rw free (
          Returns-bind _ _
            (build_loop (suc client_depth) w (slots_of w) 0
              (record cs { write_buf = clear cs.write_buf }))
            _ (build_loop-Packed w cs v l)
            λ out p. flush_write-Returns w (timed w out) (timed-IsOpen w out p.open_still) takes))
  ]
]

pub handle_connect-Returns :
    (w : Outside) (refused : Bool) (cs : Client)
    → IsOpen cs
    → ((k : ℕ) → IsLeft (w.leftover k))
    → Takes w.send
    → Returns IsPipelined (handle_connect w refused cs)
unfolding handle_connect
handle_connect-Returns w true cs v l takes = reconnect-IsPipelined w.reconnect_now cs v
handle_connect-Returns w false cs v l takes =
    build_batch-Returns w (record cs { connecting = false; reconnect_backoff_ms = 0 })
      (record {
        depth = v.depth;
        counted = v.counted;
        ring = v.ring;
        held = v.held;
        buffers = record {
          stored = v.buffers.stored;
          reading = v.buffers.reading;
          writing = v.buffers.writing;
          front = v.buffers.front;
        };
      })
      l takes

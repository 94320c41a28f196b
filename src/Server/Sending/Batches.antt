-- ===== src/Server/Sending/Batches.antt =====
-- Filling a write buffer and sending it keep a connection valid.
use client_exchange_simulati.Prelude.{
  ℕ, zero, suc, ◌+◌, ◌*◌, ◌<◌, ◌≡◌, refl, sym, ap, ◌∙◌, subst, ◌⊎◌, inl, inr, Bool, true, false,
  ◌||◌, Bool-cases, List, [], ◌∷◌, ◌++◌, append_assoc, append-nil, arith, length, is_nil, ◌==◌,
}
use client_exchange_simulati.Prelude.Result.{ok, Returns, Returns-bind, Returns-weaken}
use client_exchange_simulati.RingBuffer.Refine.{contents, empty_lem}
use client_exchange_simulati.Buffer.{Buffer, unsent, has_room, remaining_to_send, try_reset}
use client_exchange_simulati.Buffer.Writing.{IsWriting, try_reset-unsent}
use client_exchange_simulati.Wire.{OutboundMessage}
use client_exchange_simulati.Server.Latency.{LatencyHandler}
use client_exchange_simulati.Server.Responses.{
  Outbound, append_response, response_frame, write_capacity, outbound_bsize,
}
use client_exchange_simulati.Server.Responses.Frames.{IsOutbound, append_response-Responded}
use client_exchange_simulati.Server.Sending.{
  Sending, System, Sender, SendEnd, complete, blocked, broken, send_loop, send_response, fill_loop,
  finish_batch, push_samples,
}
use client_exchange_simulati.Server.Sending.Progress.{Takes, Transmits, Sent, send_loop-Returns}

-- The frames of some responses, one behind the other.
abbrev pub frames : List OutboundMessage → List ℕ
frames [] = []
frames (m ∷ ms) = response_frame m ++ frames ms

-- What the filling of a write buffer leaves: the first responses are framed, until none is staged or
-- there is no room for a frame.
pub record Filled (width : ℕ) (o o' : Outbound) : Type 0 where
  pub valid : IsOutbound width o'
  pub framed : List OutboundMessage
  pub taken : contents o.staging ≡ framed ++ contents o'.staging
  pub bytes : unsent o'.write_buffer ≡ unsent o.write_buffer ++ frames framed
  pub full :
      (contents o'.staging ≡ []) ⊎ (has_room write_capacity o'.write_buffer outbound_bsize ≡ false)

is_nil-eq : (xs : List OutboundMessage) → is_nil xs ≡ true → xs ≡ []
is_nil-eq [] e = refl
is_nil-eq (x ∷ xs) e = ground arith

pending-cons :
    (xs : List OutboundMessage)
    → is_nil xs ≡ false
    → (m : OutboundMessage) × (ms : List OutboundMessage) × (xs ≡ m ∷ ms)
pending-cons [] e = ground arith
pending-cons (m ∷ ms) e = (m, ms, refl)

length-snoc {ℓ} : {A : Type ℓ} (xs : List A) (x : A) → length (xs ++ x ∷ []) ≡ length xs + 1
length-snoc [] x = omega arith
length-snoc (y ∷ ys) x = omega (arith, length-snoc ys x)

settled :
    (width : ℕ) (o : Outbound)
    → IsOutbound width o
    → (contents o.staging ≡ []) ⊎ (has_room write_capacity o.write_buffer outbound_bsize ≡ false)
    → Filled width o o
settled width o v why = record {
  valid = v;
  framed = [];
  taken = refl;
  bytes = sym (append-nil _);
  full = why;
}

-- From a valid connection the loop of `beginSends` that fills the write buffer ends within its fuel.
-- The first responses staged are framed behind the bytes still to be sent, in their order, until none
-- is staged or a frame does not fit; the others stay staged, and the connection stays valid.
pub fill_loop-Returns :
    (width fuel : ℕ) (o : Outbound)
    → IsOutbound width o
    → write_capacity < o.write_buffer.len + outbound_bsize * fuel
    → Returns (Filled width o) (fill_loop fuel o)
unfolding fill_loop
fill_loop-Returns width zero o v h = absurd (omega (arith, v.writing.len_in))
fill_loop-Returns width (suc fuel) o v h =
    let empty = empty_lem v.staged in
    elim (Bool-cases (is_nil (contents o.staging))) [
      | inl none_staged ↦
          rw empty
            (rw none_staged (settled width o v (inl (is_nil-eq (contents o.staging) none_staged))))
      | inr staged ↦ elim (Bool-cases (has_room write_capacity o.write_buffer outbound_bsize)) [
        | inr no_room ↦ rw empty (rw staged (rw no_room (settled width o v (inr no_room))))
        | inl room ↦
            let (m, ms, first) = pending-cons (contents o.staging) staged in
            let r = append_response-Responded o m ms v first room in
            let grown : (append_response o).write_buffer.len ≡ o.write_buffer.len + outbound_bsize =
              omega (
                arith,
                r.valid.entries,
                v.entries,
                ap length r.entered,
                length-snoc o.latency_batch _,
              ) in
            rw empty (
              rw staged (
                rw room (
                  Returns-weaken (Filled width (append_response o)) (Filled width o)
                    (fill_loop fuel (append_response o))
                    (fill_loop-Returns width fuel (append_response o) r.valid (omega arith))
                    λ o' f. record {
                      valid = f.valid;
                      framed = m ∷ f.framed;
                      taken = first ∙ ap (λ l. m ∷ l) (sym r.left ∙ f.taken);
                      bytes =
                          f.bytes
                          ∙ ap (λ l. l ++ frames f.framed) r.framed
                          ∙ append_assoc (unsent o.write_buffer) (response_frame m)
                              (frames f.framed);
                      full = f.full;
                    })))
      ]
    ]

finish_batch-IsOutbound :
    (width : ℕ) (o : Outbound) (b : Buffer)
    → IsOutbound width o
    → IsWriting write_capacity b
    → remaining_to_send b ≡ 0
    → IsOutbound width (finish_batch (record o { write_buffer = b }))
unfolding finish_batch try_reset
finish_batch-IsOutbound width o b v w done =
    let all : (b.bytes_written == b.len) ≡ true = ground (arith, w.written_in) in
    rw all (record {
      staged = v.staged;
      writing = record { written_in = omega arith; len_in = omega arith };
      entries = omega arith;
    })

-- What became of the entries of a connection at the end of the sending: with all bytes sent the buffer
-- and the batch of latency entries are empty; otherwise the bytes of the buffer and every entry are kept.
abbrev pub Concluded : SendEnd → Outbound → Outbound → Type 0
Concluded complete o o' = (o'.write_buffer.len ≡ 0) × (o'.latency_batch ≡ [])
Concluded blocked o o' =
    (o'.write_buffer.len ≡ o.write_buffer.len) × (o'.latency_batch ≡ o.latency_batch)
Concluded broken o o' =
    (o'.write_buffer.len ≡ o.write_buffer.len) × (o'.latency_batch ≡ o.latency_batch)

-- Whether an end of the sending is answered as a success.
abbrev pub is_success : SendEnd → Bool
is_success complete = true
is_success blocked = true
is_success broken = false

-- What `sendResponse` makes of a connection: the socket takes the first bytes, those that it does not
-- take are left, and the answer and the entries are what the end of the sending asks for.
pub record Responding (width : ℕ) (net : Sender) (o : Outbound) (r : Sending) : Type 0 where
  pub valid : IsOutbound width r.outbound
  pub passed : List ℕ
  pub end : SendEnd
  pub transmits :
      Transmits net 0 (unsent o.write_buffer) passed (unsent r.outbound.write_buffer) end
  pub in_order : unsent o.write_buffer ≡ passed ++ unsent r.outbound.write_buffer
  pub staged : r.outbound.staging ≡ o.staging
  pub answered : r.ok_sent ≡ is_success end
  pub concluded : Concluded end o r.outbound

finish_batch-staging : (o : Outbound) → (finish_batch o).staging ≡ o.staging
unfolding finish_batch
finish_batch-staging o = refl

unsent-finish_batch :
    (o : Outbound) (b : Buffer)
    → unsent (finish_batch (record o { write_buffer = b })).write_buffer ≡ unsent (try_reset b)
unfolding finish_batch
unsent-finish_batch o b = refl

finish_batch-empty :
    (o : Outbound) (b : Buffer)
    → IsWriting write_capacity b
    → remaining_to_send b ≡ 0
    → let o' = finish_batch (record o { write_buffer = b }) in
      (o'.write_buffer.len ≡ 0) × (o'.latency_batch ≡ [])
unfolding finish_batch try_reset
finish_batch-empty o b w done =
    let all : (b.bytes_written == b.len) ≡ true = ground (arith, w.written_in) in
    rw all (refl, refl)

Sent-IsOutbound :
    (width : ℕ) (net : Sender) (o : Outbound) (end : SendEnd) (b : Buffer)
    → IsOutbound width o
    → Sent write_capacity net 0 o.write_buffer (end, b)
    → IsOutbound width (record o { write_buffer = b })
Sent-IsOutbound width net o end b v s = record {
  staged = v.staged;
  writing = s.writing;
  entries = s.same_len ∙ v.entries;
}

ended-complete :
    (net : Sender) (b b' : Buffer)
    → Sent write_capacity net 0 b (complete, b')
    → remaining_to_send b' ≡ 0
ended-complete net b b' s = elim s.ended [ inl ne ↦ absurd (ne refl) | inr e ↦ e ]

-- From a valid connection, `sendResponse` returns, whatever `send` answers as long as it takes no more
-- than it is given, and keeps the connection valid, the staged responses as they are. It asks `send` for
-- all the bytes that are left until none are, or a call takes none: the socket takes the first of the
-- bytes to be sent, in order, and those that it does not take are still to be sent. With all of them
-- sent, it answers `true`, and the buffer and the batch of latency entries are empty; with EAGAIN or
-- EWOULDBLOCK it answers `true`, and with another error `false`, and then the bytes and every entry are
-- kept.
pub send_response-Returns :
    (width : ℕ) (sys : System) (fd : ℕ) (armed : Bool) (h : LatencyHandler) (o : Outbound)
    → IsOutbound width o
    → Takes (sys.send fd)
    → Returns (Responding width (sys.send fd) o) (send_response sys fd armed h o)
unfolding send_response
send_response-Returns width sys fd armed h o v takes =
    Returns-bind (Sent write_capacity net 0 o.write_buffer) (Responding width net o)
      (send_loop (suc (remaining_to_send o.write_buffer)) net 0 o.write_buffer) _
      (send_loop-Returns write_capacity (suc (remaining_to_send o.write_buffer)) net 0
        o.write_buffer v.writing takes (omega arith))
      λ out s. conclude out.0 out.1 s
  where
    net : Sender
    net = sys.send fd

    stopped_at :
        (end : SendEnd) (b : Buffer) (answer armed' : Bool)
        → Sent write_capacity net 0 o.write_buffer (end, b)
        → answer ≡ is_success end
        → Concluded end o (record o { write_buffer = b })
        → Responding width net o (record {
          ok_sent = answer;
          armed = armed';
          handler = h;
          outbound = record o { write_buffer = b };
        })
    stopped_at end b answer armed' s e kept = record {
      valid = Sent-IsOutbound width net o end b v s;
      passed = s.passed;
      end = end;
      transmits = s.transmits;
      in_order = s.in_order;
      staged = refl;
      answered = e;
      concluded = kept;
    }

    conclude :
        (end : SendEnd) (b : Buffer)
        → Sent write_capacity net 0 o.write_buffer (end, b)
        → Returns (Responding width net o) (elim end [
          | complete ↦ ok (record {
            ok_sent = true;
            armed = armed;
            handler = push_samples (sys.clock fd) h o.latency_batch;
            outbound = finish_batch (record o { write_buffer = b });
          })
          | blocked ↦ ok (record {
            ok_sent = true;
            armed = armed || sys.arm fd;
            handler = h;
            outbound = record o { write_buffer = b };
          })
          | broken ↦ ok (record {
            ok_sent = false;
            armed = armed;
            handler = h;
            outbound = record o { write_buffer = b };
          })
        ])
    conclude complete b s =
        let done = ended-complete net o.write_buffer b s in
        let reset = unsent-finish_batch o b ∙ (try_reset-unsent write_capacity b s.writing).0 in
        record {
          valid = finish_batch-IsOutbound width o b v s.writing done;
          passed = s.passed;
          end = complete;
          transmits =
              subst (λ xs. Transmits net 0 (unsent o.write_buffer) s.passed xs complete) (sym reset)
                s.transmits;
          in_order = s.in_order ∙ ap (λ xs. s.passed ++ xs) (sym reset);
          staged = finish_batch-staging (record o { write_buffer = b });
          answered = refl;
          concluded = finish_batch-empty o b s.writing done;
        }
    conclude blocked b s = stopped_at blocked b true (armed || sys.arm fd) s refl (s.same_len, refl)
    conclude broken b s = stopped_at broken b false armed s refl (s.same_len, refl)

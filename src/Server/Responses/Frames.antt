-- ===== src/Server/Responses/Frames.antt =====
-- A staged response becomes one whole frame.
use client_exchange_simulati.Server.Latency.{PendingLatency}
use client_exchange_simulati.Prelude.{
  ◌*◌, ◌<◌, arith, length-append, ℕ, zero, suc, ◌≡◌, refl, sym, ap, ◌∙◌, subst, Bool, true, List,
  [], ◌∷◌, ◌++◌, length, if◌then◌else◌,
}
use client_exchange_simulati.RingBuffer
use client_exchange_simulati.RingBuffer.Inv.{IsValid, pop-IsValid}
use client_exchange_simulati.RingBuffer.Refine.{contents, poll, pop_refines}
use client_exchange_simulati.Buffer.{unsent, has_room}
use client_exchange_simulati.Buffer.Writing.{IsWriting, append-unsent, append-len}
use client_exchange_simulati.Wire.{OutboundMessage}
use client_exchange_simulati.Server.Responses.{
  Outbound, outbound_bsize, write_capacity, padded, response_frame, message_or_zero,
  append_response, pipeline_depth, push_entry, latency_of,
}

length-padded : (n : ℕ) (xs : List ℕ) → length (padded n xs) ≡ n
length-padded zero xs = refl
length-padded (suc n) [] = ap suc (length-padded n [])
length-padded (suc n) (x ∷ xs) = ap suc (length-padded n xs)

length-response_frame : (msg : OutboundMessage) → length (response_frame msg) ≡ outbound_bsize
unfolding response_frame
length-response_frame msg = length-padded outbound_bsize _

-- The state of a connection on the outbound side. Every frame since the buffer was last emptied has its
-- latency entry; the array of entries has a place for each frame that fits the buffer.
pub record IsOutbound (width : ℕ) (o : Outbound) : Type 0 where
  pub staged : IsValid width o.staging
  pub writing : IsWriting write_capacity o.write_buffer
  pub entries : o.write_buffer.len ≡ outbound_bsize * length o.latency_batch

-- What `appendResponse` leaves of the responses `msg ∷ rest`.
pub record Responded (width : ℕ) (o : Outbound) (msg : OutboundMessage)
    (rest : List OutboundMessage) (o' : Outbound) : Type 0 where
  pub framed : unsent o'.write_buffer ≡ unsent o.write_buffer ++ response_frame msg
  pub whole : length (response_frame msg) ≡ outbound_bsize
  pub left : contents o'.staging ≡ rest
  pub entered : o'.latency_batch ≡ o.latency_batch ++ latency_of msg ∷ []
  pub valid : IsOutbound width o'

push_entry-fits :
    (es : List PendingLatency) (e : PendingLatency)
    → length es < pipeline_depth
    → push_entry es e ≡ es ++ e ∷ []
push_entry-fits es e h = ground arith

-- With a response staged and room for a frame in the write buffer of a valid connection,
-- `appendResponse` takes the oldest response and adds its frame, of OUTBOUND_BSIZE bytes, behind the
-- bytes still to be sent, and its latency entry behind the others; the other responses stay in their
-- order, and the connection stays valid.
pub append_response-Responded :
    {width : ℕ} (o : Outbound) (msg : OutboundMessage) (rest : List OutboundMessage)
    → IsOutbound width o
    → contents o.staging ≡ msg ∷ rest
    → has_room write_capacity o.write_buffer outbound_bsize ≡ true
    → Responded width o msg rest (append_response o)
unfolding append_response
append_response-Responded o msg rest v c room =
    let popped = pop_refines v.staged ∙ ap poll c in
    let oldest : message_or_zero (RingBuffer.pop o.staging).0 ≡ msg =
      ap (λ p. message_or_zero p.0) popped in
    let size = length-response_frame msg in
    let added = append-unsent write_capacity o.write_buffer (response_frame msg) v.writing in
    let fits : has_room write_capacity o.write_buffer (length (response_frame msg)) ≡ true =
      subst (λ k. has_room write_capacity o.write_buffer k ≡ true) (sym size) room in
    let place : length o.latency_batch < pipeline_depth = ground (arith, v.entries) in
    let grown = push_entry-fits o.latency_batch (latency_of msg) place in
    let longer = append-len write_capacity o.write_buffer (response_frame msg) fits in
    let more = length-append o.latency_batch (latency_of msg ∷ []) in
    record {
      framed = rw oldest (
          added.1
          ∙ ap
              (λ (b : Bool).
                if b then unsent o.write_buffer ++ response_frame msg else unsent o.write_buffer)
              (added.0 ∙ fits));
      whole = size;
      left = ap (λ p. p.1) popped;
      entered = rw oldest grown;
      valid = record {
        staged = pop-IsValid v.staged;
        writing = rw oldest added.2;
        entries = rw (oldest, grown) (omega (arith, longer, more, size, v.entries));
      };
    }

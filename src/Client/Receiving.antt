-- ===== src/Client/Receiving.antt =====
-- `handleReadable` of client/src/load_generator.cpp: the responses of the exchange are read, and the
-- pipeline is filled again.
pub mod Responses
use client_exchange_simulati.Prelude.{
  ℕ, zero, suc, ◌+◌, ◌-◌, ◌*◌, ◌%◌, Bool, true, false, not, Option, none, some, List, [], ◌∷◌, ltb,
  leb, ◌==◌, if◌then◌else◌, is_nil,
}
use client_exchange_simulati.Prelude.Result.{Result, ok, err, ◌>>=◌, out_of_fuel}
use client_exchange_simulati.RingBuffer.{store}
use client_exchange_simulati.Buffer.{Buffer, view, unread_length, read_from, advance}
use client_exchange_simulati.Buffer.Bytes.{drop}
use client_exchange_simulati.Wire.{OrderId, new}
use client_exchange_simulati.Server.Gateway.{header, starts_with, little_endian}
use client_exchange_simulati.Server.Responses.{outbound_bsize}
use client_exchange_simulati.Server.Connecting.{ReadAnswer, Reader}
use client_exchange_simulati.Client.State.{
  Client, client_depth, max_active_orders, next_32, next_64, minus_64, reconnect,
}
use client_exchange_simulati.Client.Sending.{Outside, build_batch}

-- The capacity of `read_buf`, `PIPELINE_DEPTH * 2 * OUTBOUND_BSIZE`
abbrev pub response_capacity : ℕ
response_capacity = 32 * 2 * 32

-- A byte of a frame
abbrev pub byte_at : ℕ → List ℕ → ℕ
byte_at n bytes = little_endian 1 (drop n bytes)

-- `memcpy(&oid, frame + 16, sizeof(oid))`
abbrev pub order_id_at : List ℕ → OrderId
order_id_at frame = little_endian 8 (drop 16 frame)

-- The order id of an acknowledged NEW becomes a target.
abbrev pub remember : Client → OrderId → Client
remember cs oid = record cs {
  active_orders = store cs.active_orders (cs.active_write % max_active_orders) oid;
  active_write = next_32 cs.active_write;
  active_count =
      if ltb cs.active_count max_active_orders then cs.active_count + 1 else cs.active_count;
}

-- One response answers the oldest request.
abbrev pub answered : Client → Client
answered cs = record cs {
  pending_head = next_32 cs.pending_head;
  acks_pending = cs.acks_pending - 1;
  orders_in_flight = minus_64 cs.orders_in_flight 1;
}

unfoldable pub acknowledge : Client → OrderId → Client
acknowledge cs oid =
    let sent_type = cs.pending_types (cs.pending_head % client_depth) in
    let known = if sent_type == new then remember cs oid else cs in
    if ltb 0 cs.acks_pending
    then record (answered known) { responses_ack = next_64 cs.responses_ack }
    else cs

abbrev pub take_ack : Client → List ℕ → Client
take_ack cs frame = acknowledge cs (order_id_at frame)

unfoldable pub take_match : Client → Client
take_match cs = record cs { responses_match = next_64 cs.responses_match }

unfoldable pub take_error : Client → Client
take_error cs =
    let cs' = if ltb 0 cs.acks_pending then answered cs else cs in
    record cs' { responses_err = next_64 cs.responses_err }

-- A frame; none if it violates the protocol.
unfoldable pub take_frame : Client → List ℕ → Option Client
take_frame cs frame =
    if not (starts_with frame header)
    then none
    else if byte_at 9 frame == 79
    then some (take_ack cs frame)
    else if byte_at 9 frame == 77
    then some (take_match cs)
    else if byte_at 9 frame == 69
    then some (take_error cs)
    else none

abbrev pub advanced : Client → Client
advanced cs = record cs { read_buf = advance cs.read_buf outbound_bsize }

-- The loop of `handleReadable`; whether it came to its end
unfoldable pub take_frames : ℕ → ℕ → Client → Result (Bool × Client)
take_frames zero now cs = err out_of_fuel
take_frames (suc fuel) now cs =
    if leb outbound_bsize (unread_length cs.read_buf)
    then elim (take_frame cs (view cs.read_buf)) [
      | none ↦ ok (false, reconnect now cs)
      | some cs' ↦ take_frames fuel now (advanced cs')
    ]
    else ok (true, cs)

abbrev pub fill_up : Outside → Bool × Client → Result Client
fill_up w (false, cs) = ok cs
fill_up w (true, cs) = build_batch w cs

abbrev pub after_recv : Outside → Client → Bool → Option (List ℕ) → Result Client
after_recv w cs again none = if again then ok cs else ok (reconnect w.reconnect_now cs)
after_recv w cs again (some []) = ok (reconnect w.reconnect_now cs)
after_recv w cs again (some (x ∷ xs)) =
    take_frames (suc (unread_length cs.read_buf)) w.reconnect_now cs >>= fill_up w

-- `handleReadable`, with the answer of `recv`
unfoldable pub handle_readable : Outside → Reader → Client → Result Client
handle_readable w net cs =
    let (n, b) = read_from response_capacity (λ k. (net 0 k).bytes) cs.read_buf in
    after_recv w (record cs { read_buf = b }) (net 0 (response_capacity - b.len)).again n

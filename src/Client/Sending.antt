-- ===== src/Client/Sending.antt =====
-- `buildBatch`, `flushWrite` and `handleConnect` of client/src/load_generator.cpp: requests are packed
-- into the write buffer and sent.
use client_exchange_simulati.Prelude.{
  ℕ, zero, suc, ◌+◌, ◌*◌, ◌%◌, ◌^◌, Bool, true, false, ◌||◌, Option, none, some, ltb, leb, ◌==◌,
  if◌then◌else◌,
}
use client_exchange_simulati.Prelude.Result.{Result, ok, err, ◌>>=◌, out_of_fuel}
use client_exchange_simulati.RingBuffer.{store}
use client_exchange_simulati.Buffer.{
  Buffer, unread_length, unsent, append, write_to, try_reset, remaining_to_send, clear,
}
use client_exchange_simulati.Wire.{OrderId, cancel, modify}
use client_exchange_simulati.Server.Sending.{
  Sender, SendEnd, complete, blocked, broken, is_positive,
}
use client_exchange_simulati.Client.Factory.{Draws, Leftover, Built, build_frame}
use client_exchange_simulati.Client.State.{
  Client, client_depth, max_active_orders, next_32, next_64, reconnect,
}

-- The capacity of `write_buf`, `PIPELINE_DEPTH * INBOUND_BSIZE`
abbrev pub request_capacity : ℕ
request_capacity = 32 * 72

-- What the handlers of a client take from outside: the clock at each of the three places that read it,
-- for the next slot of a request (`slot_now`), after a batch (`batch_now`) and on a reconnection
-- (`reconnect_now`); the draws and the open bytes of each
-- frame of a batch, the answers of `send`; and `inter_arrival_ns_`.
pub record Outside : Type 0 where
  pub slot_now : ℕ
  pub batch_now : ℕ
  pub reconnect_now : ℕ
  pub draws : ℕ → Draws
  pub leftover : ℕ → Leftover
  pub send : Sender
  pub inter_arrival_ns : ℕ

abbrev pub is_negative : Option ℕ → Bool
is_negative none = true
is_negative (some n) = false

unfoldable pub flush_loop : ℕ → Sender → ℕ → Buffer → Result (SendEnd × Buffer)
flush_loop zero net call b = err out_of_fuel
flush_loop (suc fuel) net call b =
    let (n, b') = write_to (λ xs. (net call xs).count) b in
    let rest = flush_loop fuel net (suc call) b' in
    if ltb 0 (remaining_to_send b)
    then if is_positive n
      then rest
      else if is_negative n
      then if (net call (unsent b)).again then ok (blocked, b') else ok (broken, b')
      else ok (broken, b')
    else ok (complete, b)

abbrev pub after_flush : ℕ → Client → Buffer → SendEnd → Client
after_flush now cs b complete = record cs { write_buf = try_reset b }
after_flush now cs b blocked = record cs { write_buf = b }
after_flush now cs b broken = reconnect now (record cs { write_buf = b })

-- `flushWrite`
unfoldable pub flush_write : Outside → Client → Result Client
flush_write w cs = do
  (end, b) ← flush_loop (suc (remaining_to_send cs.write_buf)) w.send 0 cs.write_buf
  ok (after_flush w.reconnect_now cs b end)

-- The order that a cancellation or a modification is for
abbrev pub active_order : Client → OrderId
active_order cs =
    if ltb 0 cs.active_count then cs.active_orders (cs.active_read % max_active_orders) else 0

-- A round of the loop of `buildBatch`, with the request made up for it
unfoldable pub append_request : Client → Built → Client
append_request cs b = record cs {
  write_buf = (append request_capacity cs.write_buf b.frame).1;
  active_read =
      if b.message.message_type == cancel || b.message.message_type == modify
      then next_32 cs.active_read
      else cs.active_read;
  pending_types = store cs.pending_types (cs.pending_tail % client_depth) b.message.message_type;
  pending_tail = next_32 cs.pending_tail;
  acks_pending = next_32 cs.acks_pending;
  requests_sent = next_64 cs.requests_sent;
  orders_in_flight = next_64 cs.orders_in_flight;
}

unfoldable pub build_loop : ℕ → Outside → ℕ → ℕ → Client → Result Client
build_loop zero w slots call cs = err out_of_fuel
build_loop (suc fuel) w slots call cs =
    let b = build_frame (w.draws call) (w.leftover call) cs.client_id (active_order cs) in
    let rest = build_loop fuel w slots (suc call) (append_request cs b) in
    if ltb cs.acks_pending slots then rest else ok cs

abbrev pub may_build : Outside → Client → Bool
may_build w cs =
    if ltb 0 w.inter_arrival_ns
    then if leb client_depth cs.acks_pending
      then false
      else if ltb w.slot_now cs.next_send_ns
      then false
      else true
    else if cs.acks_pending == client_depth
    then false
    else true

abbrev pub slots_of : Outside → ℕ
slots_of w = if ltb 0 w.inter_arrival_ns then 1 else client_depth

abbrev pub timed : Outside → Client → Client
timed w cs =
    if ltb 0 w.inter_arrival_ns
    then record cs { next_send_ns = (w.batch_now + w.inter_arrival_ns) % 2 ^ 64 }
    else cs

-- `buildBatch`
unfoldable pub build_batch : Outside → Client → Result Client
build_batch w cs =
    if ltb 0 (unread_length cs.write_buf)
    then ok cs
    else if may_build w cs
    then (do
      cs' ←
          build_loop (suc client_depth) w (slots_of w) 0
            (record cs { write_buf = clear cs.write_buf })
      flush_write w (timed w cs'))
    else ok cs

-- `handleConnect`, with whether SO_ERROR is set
unfoldable pub handle_connect : Outside → Bool → Client → Result Client
handle_connect w refused cs =
    if refused
    then ok (reconnect w.reconnect_now cs)
    else build_batch w (record cs { connecting = false; reconnect_backoff_ms = 0 })

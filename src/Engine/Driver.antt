-- ===== src/Engine/Driver.antt =====
-- exchange/engine/src/engine.cpp: the driver of the order book. It assigns ids, turns each inbound
-- message into a request, and acknowledges it. The outbound ring is the one that the book holds; the
-- inbound ring is shared with the gateway, so it is passed along. `prefetch` has no effect on the
-- state and is left out.
pub mod Execute
pub mod Overpriced
pub mod Pipeline
use client_exchange_simulati.Prelude.{
  ℕ, zero, suc, ◌+◌, ◌%◌, ◌^◌, Option, none, some, List, [], ◌∷◌, ◌==◌, if◌then◌else◌,
}
use client_exchange_simulati.Prelude.Result.{Result, ok, err, ◌>>=◌, out_of_fuel}
use client_exchange_simulati.RingBuffer.{RingBuffer, pop}
use client_exchange_simulati.Wire.{
  InboundMessage, OutboundMessage, zero_outbound, OrderId, Status, new,
}
use client_exchange_simulati.Engine.Order.{OrderRequest}
use client_exchange_simulati.Engine.Levels.{LevelStore}
use client_exchange_simulati.Engine.Orderbook.State.{Orderbook, push_message}
use client_exchange_simulati.Engine.Orderbook.Requests.{process}

pub record Engine (S : Type 0) : Type 0 where
  pub book : Orderbook S
  pub next_id : OrderId

-- The request of a message; the timestamps keep their default arguments.
abbrev pub request_of : OrderId → InboundMessage → OrderRequest
request_of id msg = record {
  message_type = msg.message_type;
  order_id = id;
  client_id = msg.client_id;
  side = msg.side;
  order_type = msg.order_type;
  price = msg.price;
  quantity = msg.quantity;
  recv_tsc = 0;
  server_push_tsc = 0;
  engine_pop_tsc = 0;
}

unfoldable pub ack_message : OrderId → InboundMessage → Status → OutboundMessage
ack_message id msg status = record zero_outbound {
  read_begin_tsc = msg.read_begin_tsc;
  order_id = id;
  client_id = msg.client_id;
  message_type = msg.message_type;
  status = status;
}

module _ (L : LevelStore) where
  abbrev pub assigned_id : Engine L.Store → InboundMessage → OrderId
  assigned_id e msg = if msg.message_type == new then e.next_id else msg.order_id

  -- `executeRequest`
  unfoldable pub execute_request : Engine L.Store → InboundMessage → Result (Engine L.Store)
  execute_request e msg = do
    let id = assigned_id e msg
    let next = if msg.message_type == new then (e.next_id + 1) % 2 ^ 64 else e.next_id
    (res, book) ← process L e.book (request_of id msg)
    let acked = push_message L book (ack_message id msg res.status)
    ok (record { book = if res.suppress_ack then book else acked; next_id = next })

  -- `step`: the messages that the ring holds, one after the other.
  unfoldable pub step_loop :
      ℕ
      → RingBuffer InboundMessage
      → Engine L.Store
      → Result (RingBuffer InboundMessage × Engine L.Store)
  step_loop zero r e = err out_of_fuel
  step_loop (suc fuel) r e =
      let (out, r') = pop r in
      elim out [
        | none ↦ ok (r', e)
        | some msg ↦ do e' ← execute_request e msg; step_loop fuel r' e'
      ]

  -- Each round takes one message, and a ring of N places holds at most N - 1.
  unfoldable pub step :
      RingBuffer InboundMessage
      → Engine L.Store
      → Result (RingBuffer InboundMessage × Engine L.Store)
  step r e = step_loop (suc r.mask) r e

  -- The part of a round of `handleMatching` that has a message, `cur`, to execute. It takes the next
  -- one off the ring first.
  unfoldable pub execute_ahead :
      InboundMessage
      → RingBuffer InboundMessage
      → Engine L.Store
      → Result (Option InboundMessage × RingBuffer InboundMessage × Engine L.Store)
  execute_ahead cur r e = let (nxt, r') = pop r in do e' ← execute_request e cur; ok (nxt, r', e')

  -- One round of the loop of `handleMatching`; the first argument is `cur` when `have` is set.
  unfoldable pub matching_round :
      Option InboundMessage
      → RingBuffer InboundMessage
      → Engine L.Store
      → Result (Option InboundMessage × RingBuffer InboundMessage × Engine L.Store)
  unfolding execute_ahead
  matching_round (some cur) r e = execute_ahead cur r e
  matching_round none r e =
      let (out, r') = pop r in
      elim out [ none ↦ ok (none, r', e) | some cur ↦ execute_ahead cur r' e ]

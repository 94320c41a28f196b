-- ===== src/Tests/Samples.antt =====
-- Sample data.
use client_exchange_simulati.Prelude.{ℕ, refl, arith}
use client_exchange_simulati.RingBuffer.{RingBuffer}
use client_exchange_simulati.RingBuffer.Inv.{IsValid}
use client_exchange_simulati.Wire.{
  InboundMessage, Side, Price, Quantity, OrderType, MessageType, OrderId, bid, ask, market, limit,
  new, cancel,
}
use client_exchange_simulati.Engine.Order.{Order, OrderRequest, make_order}
use client_exchange_simulati.Engine.Driver.{request_of}

-- An empty ring of eight places.
abbrev pub empty_ring {ℓ} : {T : Type ℓ} → T → RingBuffer T
empty_ring zeroed = record { write_idx = 0; read_idx = 0; mask = 7; buffer = λ _. zeroed }

pub empty_ring-IsValid {ℓ} : {T : Type ℓ} (zeroed : T) → IsValid 3 (empty_ring zeroed)
empty_ring-IsValid zeroed = record {
  sized = refl;
  small = omega arith;
  write_in = omega arith;
  read_in = omega arith;
}

abbrev pub message : MessageType → OrderId → Side → OrderType → Price → Quantity → InboundMessage
message type id side kind price quantity = record {
  read_begin_tsc = 0;
  recv_tsc = 0;
  server_push = 0;
  order_id = id;
  client_id = 7;
  price = price;
  quantity = quantity;
  message_type = type;
  side = side;
  order_type = kind;
}

abbrev pub sell : InboundMessage
sell = message new 0 ask limit 105 10

abbrev pub buy : InboundMessage
buy = message new 0 bid limit 106 4

abbrev pub sweep : InboundMessage
sweep = message new 0 bid market 0 3

abbrev pub withdraw : InboundMessage
withdraw = message cancel 0 bid market 0 0

abbrev pub sell_request : OrderRequest
sell_request = request_of 0 sell

abbrev pub buy_request : OrderRequest
buy_request = request_of 1 buy

abbrev pub arena : ℕ → Order
arena x = make_order 0 sell_request

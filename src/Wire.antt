-- ===== src/Wire.antt =====
-- infra/order_types.hpp and infra/communication_types.hpp: the scalar types and the messages that
-- travel between client, gateway and engine. An enumeration with a fixed underlying type can hold
-- any byte that a peer sends, so it is a number here, and its enumerators are constants.
pub mod Enums
use client_exchange_simulati.Prelude.{ℕ}
pub use Enums.*

abbrev pub Timestamp : Type 0
Timestamp = ℕ

abbrev pub ClientId : Type 0
ClientId = ℕ

abbrev pub OrderId : Type 0
OrderId = ℕ

abbrev pub Price : Type 0
Price = ℕ

abbrev pub Quantity : Type 0
Quantity = ℕ

-- gateway to engine; the padding is left out
pub record InboundMessage : Type 0 where
  pub read_begin_tsc : Timestamp
  pub recv_tsc : Timestamp
  pub server_push : Timestamp
  pub order_id : OrderId
  pub client_id : ClientId
  pub price : Price
  pub quantity : Quantity
  pub message_type : MessageType
  pub side : Side
  pub order_type : OrderType

-- engine to gateway
pub record OutboundMessage : Type 0 where
  pub read_begin_tsc : Timestamp
  pub recv_tsc : Timestamp
  pub server_push_tsc : Timestamp
  pub engine_pop_tsc : Timestamp
  pub engine_push_tsc : Timestamp
  pub order_id : OrderId
  pub client_id : ClientId
  pub message_type : MessageType
  pub status : Status
  pub server_error : ServerError

-- `OutboundMessage{}`: every member zero.
abbrev pub zero_outbound : OutboundMessage
zero_outbound = record {
  read_begin_tsc = 0;
  recv_tsc = 0;
  server_push_tsc = 0;
  engine_pop_tsc = 0;
  engine_push_tsc = 0;
  order_id = 0;
  client_id = 0;
  message_type = 0;
  status = 0;
  server_error = 0;
}

-- `InboundMessage{}`
abbrev pub zero_inbound : InboundMessage
zero_inbound = record {
  read_begin_tsc = 0;
  recv_tsc = 0;
  server_push = 0;
  order_id = 0;
  client_id = 0;
  price = 0;
  quantity = 0;
  message_type = 0;
  side = 0;
  order_type = 0;
}

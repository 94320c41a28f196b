-- ===== src/Client/Factory.antt =====
-- client/include/order_factory.hpp: the requests that the load generator makes up, and their frames.
-- The draws of the generator of random numbers are arguments; the mid-price, a floating-point number,
-- is behind the draw of a price.
pub mod Roundtrip
use client_exchange_simulati.Prelude.{ℕ, List, [], ◌∷◌, ◌++◌, ltb, ◌==◌, if◌then◌else◌}
use client_exchange_simulati.Wire.{
  InboundMessage, zero_inbound, ClientId, OrderId, Price, Quantity, Side, OrderType, bid, limit,
  new, cancel, modify,
}
use client_exchange_simulati.Server.Gateway.{header}
use client_exchange_simulati.Server.Responses.{bytes_of}

-- What is drawn for a frame. `limit_price` is the function of this name, which draws too.
pub record Draws : Type 0 where
  pub roll : ℕ
  pub side : Side
  pub order_type : OrderType
  pub limit_price : Side → Price
  pub quantity : Quantity

-- The enumerators that `build_frame` returns; GARBAGE and INVALID are disabled.
pub data FrameKind : Type 0 where
  new_frame cancel_frame modify_frame : FrameKind

unfoldable pub make_new : Draws → ClientId → InboundMessage
make_new d cid = record zero_inbound {
  client_id = cid;
  price = if d.order_type == limit then d.limit_price d.side else 0;
  quantity = d.quantity;
  message_type = new;
  side = d.side;
  order_type = d.order_type;
}

unfoldable pub make_cancel : ClientId → OrderId → InboundMessage
make_cancel cid target = record zero_inbound {
  order_id = target;
  client_id = cid;
  message_type = cancel;
  side = bid;
  order_type = limit;
}

unfoldable pub make_modify : Draws → ClientId → OrderId → InboundMessage
make_modify d cid target = record zero_inbound {
  order_id = target;
  client_id = cid;
  price = d.limit_price d.side;
  quantity = d.quantity;
  message_type = modify;
  side = d.side;
  order_type = limit;
}

-- The bytes of the members of an `InboundMessage`, by their offsets
abbrev pub encode : InboundMessage → List ℕ
encode msg =
    bytes_of 8 msg.read_begin_tsc
    ++ bytes_of 8 msg.recv_tsc
    ++ bytes_of 8 msg.server_push
    ++ bytes_of 8 msg.order_id
    ++ bytes_of 4 msg.client_id
    ++ bytes_of 4 msg.price
    ++ bytes_of 4 msg.quantity
    ++ bytes_of 1 msg.message_type
    ++ bytes_of 1 msg.side
    ++ bytes_of 1 msg.order_type

-- The bytes of a frame that the code leaves open: the padding of the message, and what was behind the
-- 66 bytes that are written.
pub record Leftover : Type 0 where
  pub padding : List ℕ
  pub behind : List ℕ

unfoldable pub frame_message : InboundMessage → Leftover → List ℕ
frame_message msg left = header ++ encode msg ++ left.padding ++ 10 ∷ left.behind

-- What `build_frame` returns and writes.
pub record Built : Type 0 where
  pub kind : FrameKind
  pub message : InboundMessage
  pub frame : List ℕ

unfoldable pub build_frame : Draws → Leftover → ClientId → OrderId → Built
build_frame d left cid active_order =
    let as_new = make_new d cid in
    let as_cancel = make_cancel cid active_order in
    let as_modify = make_modify d cid active_order in
    if ltb 20 d.roll
    then record { kind = new_frame; message = as_new; frame = frame_message as_new left }
    else if ltb 8 d.roll
    then record { kind = cancel_frame; message = as_cancel; frame = frame_message as_cancel left }
    else record { kind = modify_frame; message = as_modify; frame = frame_message as_modify left }

-- ===== src/Engine/Order.antt =====
-- exchange/engine/include/order_request.hpp and order.hpp. The `prev_` and `next_` links of an order
-- are kept by `PriceLevelQueue`, which alone touches them; the timestamps that only DIAGNOSTICS
-- builds keep in an order are left out.
use client_exchange_simulati.Prelude.{◌-◌, Bool, ltb, ◌==◌, if◌then◌else◌}
use client_exchange_simulati.Prelude.Result.{Result, ok, err, logic_error}
use client_exchange_simulati.Wire.{
  Timestamp, OrderId, ClientId, Price, Quantity, Side, OrderType, MessageType,
}

pub record OrderRequest : Type 0 where
  pub message_type : MessageType
  pub order_id : OrderId
  pub client_id : ClientId
  pub side : Side
  pub order_type : OrderType
  pub price : Price
  pub quantity : Quantity
  pub recv_tsc : Timestamp
  pub server_push_tsc : Timestamp
  pub engine_pop_tsc : Timestamp

pub record Order : Type 0 where
  pub recv_tsc : Timestamp
  pub id : OrderId
  pub client_id : ClientId
  pub price : Price
  pub initial_quantity : Quantity
  pub remaining_quantity : Quantity
  pub side : Side
  pub order_type : OrderType

-- `Order{id, request}`
abbrev pub make_order : OrderId → OrderRequest → Order
make_order id req = record {
  recv_tsc = req.recv_tsc;
  id = id;
  client_id = req.client_id;
  price = req.price;
  initial_quantity = req.quantity;
  remaining_quantity = req.quantity;
  side = req.side;
  order_type = req.order_type;
}

abbrev pub is_filled : Order → Bool
is_filled o = o.remaining_quantity == 0

unfoldable pub fill : Order → Quantity → Result Order
fill o quantity =
    if ltb o.remaining_quantity quantity
    then err logic_error
    else ok (record o { remaining_quantity = o.remaining_quantity - quantity })

-- ===== src/Server/Validation.antt =====
-- exchange/server/include/validation.hpp: which inbound messages reach the engine.
use client_exchange_simulati.Prelude.{
  ◌≤◌, ◌≡◌, ◌⊎◌, ◌≢◌, ◌↔◌, Bool, true, false, not, ◌&&◌, arith, ltb, ◌==◌, if◌then◌else◌,
}
use client_exchange_simulati.Wire.{InboundMessage, bid, ask, market, limit, new, cancel, modify}

unfoldable pub validate_new : InboundMessage → Bool
validate_new msg =
    if not (msg.message_type == 0)
    then false
    else if not (msg.side == 0) && not (msg.side == 1)
    then false
    else if not (msg.order_type == 0) && not (msg.order_type == 1)
    then false
    else if msg.order_type == limit && msg.price == 0
    then false
    else if ltb 1_000_000 msg.quantity
    then false
    else true

unfoldable pub validate_cancel : InboundMessage → Bool
validate_cancel msg = if not (msg.message_type == 1) then false else true

unfoldable pub validate_modify : InboundMessage → Bool
validate_modify msg =
    if not (msg.message_type == 2)
    then false
    else if not (msg.side == 0) && not (msg.side == 1)
    then false
    else if not (msg.order_type == 0) && not (msg.order_type == 1)
    then false
    else if msg.order_type == limit && msg.price == 0
    then false
    else if ltb 1_000_000 msg.quantity
    then false
    else true

unfoldable pub validate_message : InboundMessage → Bool
unfolding validate_new validate_cancel validate_modify
validate_message msg =
    if msg.message_type == new
    then validate_new msg
    else if msg.message_type == cancel
    then validate_cancel msg
    else if msg.message_type == modify
    then validate_modify msg
    else false

-- What an order that may enter the book must look like.
pub record IsOrder (msg : InboundMessage) : Type 0 where
  pub side_known : (msg.side ≡ bid) ⊎ (msg.side ≡ ask)
  pub type_known : (msg.order_type ≡ market) ⊎ (msg.order_type ≡ limit)
  pub priced : msg.order_type ≡ limit → msg.price ≢ 0
  pub bounded : msg.quantity ≤ 1_000_000

-- A request of the protocol: a cancellation, or a new or modified order that is well formed.
abbrev pub IsRequest : InboundMessage → Type 0
IsRequest msg =
    (msg.message_type ≡ cancel)
    ⊎ (((msg.message_type ≡ new) ⊎ (msg.message_type ≡ modify)) × IsOrder msg)

pub complete : (msg : InboundMessage) → IsRequest msg → validate_message msg ≡ true
unfolding validate_message
complete msg r = ground arith

pub sound : (msg : InboundMessage) → validate_message msg ≡ true → IsRequest msg
unfolding validate_message
sound msg e = ground arith

-- `validate_message` accepts the cancellations, and the new or modified orders that are well formed: a
-- known side and type, a quantity of at most a million, and no zero price on a limit order; and no other
-- message.
pub validate_message_lem : (msg : InboundMessage) → (validate_message msg ≡ true) ↔ IsRequest msg
validate_message_lem msg = (sound msg, complete msg)

-- ===== src/Engine/Driver/Execute.antt =====
-- `executeRequest`: what a validated message does to the engine.
use client_exchange_simulati.Prelude.{
  ◌+◌, ◌%◌, ◌^◌, ◌≤◌, ◌≡◌, ◌≢◌, refl, inl, inr, true, arith, ◌==◌, if◌then◌else◌, Bool-cases,
}
use client_exchange_simulati.Prelude.Result.{Returns, Returns-bind}
use client_exchange_simulati.Wire.{InboundMessage, new, cancel, limit}
use client_exchange_simulati.Server.Validation
use client_exchange_simulati.Server.Validation.{validate_message}
use client_exchange_simulati.Engine.Config.{max_price}
use client_exchange_simulati.Engine.Levels.{list_levels, Queues}
use client_exchange_simulati.Engine.Orderbook.State.{push_message}
use client_exchange_simulati.Engine.Orderbook.Requests.{process}
use client_exchange_simulati.Engine.Orderbook.Invariant.{Book}
use client_exchange_simulati.Engine.Orderbook.Steps.{push_message-IsBook}
use client_exchange_simulati.Engine.Orderbook.Good.{IsAdmissible, IsGood}
use client_exchange_simulati.Engine.Orderbook.Processing.{process-Returns}
use client_exchange_simulati.Engine.Driver.{Engine, request_of, assigned_id, execute_request}

-- A message that the gateway lets through, with the check on the upper price bound that the gateway
-- does not make.
pub record IsExecutable (msg : InboundMessage) : Type 0 where
  pub validated : validate_message msg ≡ true
  pub below_max : msg.message_type ≢ cancel → msg.order_type ≡ limit → msg.price ≤ max_price

admissible :
    (msg : InboundMessage)
    → IsExecutable msg
    → msg.message_type ≢ cancel
    → (id : _) → IsAdmissible (request_of id msg)
admissible msg x other id = elim (Validation.sound msg x.validated) [
  | inl c ↦ absurd (other c)
  | inr (_, o) ↦ record {
    side_known = o.side_known;
    on_tick = λ not_market. elim o.type_known [
      | inl m ↦ absurd (not_market m)
      | inr l ↦ ground (arith, o.priced l, x.below_max other l)
    ];
  }
]

-- What the engine is after a message: its book well formed and uncrossed, and an id used up by a new
-- order.
pub record Executed (e : Engine Queues) (msg : InboundMessage) (e' : Engine Queues) : Type 0 where
  pub good : IsGood e'.book
  pub next_id :
      e'.next_id ≡ (if msg.message_type == new then (e.next_id + 1) % 2 ^ 64 else e.next_id)

ack-Good : (b : Book) (m : _) → IsGood b → IsGood (push_message list_levels b m)
unfolding push_message
ack-Good b m g = record { book = push_message-IsBook b m g.book; uncrossed = g.uncrossed }

-- From an engine with a well-formed and uncrossed book, a message that validation accepts, and that
-- names no price above the last tick unless it is a cancellation or a market order, is executed with no
-- fault. The book
-- stays well formed and uncrossed, and the next id moves on exactly for a new order.
pub execute_request-Returns :
    (e : Engine Queues) (msg : InboundMessage)
    → IsGood e.book
    → IsExecutable msg
    → Returns (Executed e msg) (execute_request list_levels e msg)
unfolding execute_request
execute_request-Returns e msg g x =
    Returns-bind _ _ (process list_levels e.book (request_of (assigned_id list_levels e msg) msg)) _
      (process-Returns e.book (request_of (assigned_id list_levels e msg) msg) g
        (λ other. admissible msg x other _))
      λ out p. record {
        good = elim (Bool-cases out.0.suppress_ack) [
          | inl s ↦ rw s p.good
          | inr s ↦ rw s (ack-Good out.1 _ p.good)
        ];
        next_id = refl;
      }

-- ===== src/Server/Routing/Staging.antt =====
-- What `routeOutboundMessages` puts on the staging rings, which drop what comes when they are full.
use client_exchange_simulati.Prelude.{
  ℕ, ◌≡◌, refl, ap, ◌∙◌, Bool, true, false, Option, none, some, List, [], ◌∷◌, ◌++◌,
}
use client_exchange_simulati.Prelude.Result.{Returns, Returns-weaken}
use client_exchange_simulati.RingBuffer.Inv.{IsValid}
use client_exchange_simulati.RingBuffer.Refine.{contents}
use client_exchange_simulati.RingBuffer.Drops.{offer_all, push_each, push_each_refines}
use client_exchange_simulati.Wire.{OutboundMessage}
use client_exchange_simulati.Server.Responses.{Outbound, push_outbound}
use client_exchange_simulati.Server.State.{Server}
use client_exchange_simulati.Server.Sending.Turns.{IsEntry}
use client_exchange_simulati.Server.Routing.{route_outbound_messages}
use client_exchange_simulati.Server.Routing.Delivery.{addressed, push_all, staged}
use client_exchange_simulati.Server.Routing.Errors.{errors_at, Posted, route_outbound_messages_lem}

-- The responses that wait in the staging ring of a connection, if there is one.
abbrev pub waiting : Option Outbound → List OutboundMessage
waiting none = []
waiting (some o) = contents o.staging

-- The responses that wait once these came to the connection: as many of them as the ring has room for,
-- and none if the connection is condemned.
abbrev pub joined : Bool → Option Outbound → List OutboundMessage → List OutboundMessage
joined true entry ms = waiting entry
joined false none ms = []
joined false (some o) ms = offer_all o.staging.mask (contents o.staging) ms

staging-push_all :
    (o : Outbound) (ms : List OutboundMessage) → (push_all o ms).staging ≡ push_each o.staging ms
unfolding push_outbound
staging-push_all o [] = refl
staging-push_all o (m ∷ ms) = staging-push_all (push_outbound o m) ms

waiting-staged :
    (condemned : Bool) (entry : Option Outbound) (ms : List OutboundMessage)
    → IsEntry entry
    → waiting (staged condemned entry ms) ≡ joined condemned entry ms
waiting-staged true entry ms v = refl
waiting-staged false none ms v = refl
waiting-staged false (some o) ms v =
    ap contents (staging-push_all o ms) ∙ (push_each_refines o.staging ms v.staged).0

-- What `routeOutboundMessages` leaves, and what waits at each connection then.
pub record Staged (width depth : ℕ) (s s' : Server) : Type 0 where
  pub posted : Posted width depth s s'
  pub queues :
      (fd : ℕ)
      → waiting (s'.outbound_map fd)
        ≡ joined (s.condemned_inbound fd) (s.outbound_map fd) (
            addressed s.gateway fd (contents s.out_ring)
            ++ errors_at fd (contents s.gateway.error_channel))

-- From valid rings and valid connections, `routeOutboundMessages` returns within its fuel and empties the
-- outbound ring and the error channel, which stay valid. The staging ring of each connection that is
-- neither condemned nor gone then holds what a queue of its capacity holds that the messages of its
-- clients, in the order of the outbound ring, and behind them its errors, in the order of the channel,
-- were offered to: what comes to a full ring is dropped. A message whose client has no connection goes
-- nowhere, and what waits at a condemned connection is as before. What the inbound thread owns is as
-- before but for the channel.
pub route_outbound_messages-Returns :
    (width depth : ℕ) (s : Server)
    → IsValid width s.out_ring
    → IsValid depth s.gateway.error_channel
    → ((fd : ℕ) → IsEntry (s.outbound_map fd))
    → Returns (Staged width depth s) (route_outbound_messages s)
route_outbound_messages-Returns width depth s a b entries =
    Returns-weaken _ _ (route_outbound_messages s) (route_outbound_messages_lem s a b) λ s' p.
      record {
        posted = p;
        queues = λ fd.
            ap waiting (p.outbound fd)
            ∙ waiting-staged (s.condemned_inbound fd) (s.outbound_map fd) _ (entries fd);
      }

-- ===== src/Server/Rounds/Health.antt =====
-- exchange/server/src/server.cpp: the rounds of the two threads, from the start on.
use client_exchange_simulati.Prelude.{ℕ, List, [], ◌∷◌}
use client_exchange_simulati.Prelude.Result.{Returns, Returns-bind}
use client_exchange_simulati.RingBuffer.{RingBuffer}
use client_exchange_simulati.RingBuffer.Inv.{IsValid, push-IsValid, pop-IsValid}
use client_exchange_simulati.Wire.{OutboundMessage}
use client_exchange_simulati.Server.Gateway.{Gateway}
use client_exchange_simulati.Server.Latency.{LatencyHandler}
use client_exchange_simulati.Server.State.{Server}
use client_exchange_simulati.Server.Closing.{start_server}
use client_exchange_simulati.Server.Rounds.{
  Round, receives, responds, engine_takes, engine_gives, one_round, rounds, inbound_round,
  outbound_round,
}
use client_exchange_simulati.Server.Rounds.Sound.{Widths, IsSound, IsPlace}
use client_exchange_simulati.Server.Rounds.Inbound.{AllPolled, inbound_round-Returns}
use client_exchange_simulati.Server.Rounds.Outbound.{IsTaking, IsPolled, outbound_round-Returns}

-- The system keeps to its limits in a round: the descriptors that `accept` and `epoll_wait` answer are places of the arrays, `recv` brings no
-- more bytes than there is room for, and `send` takes no more than it is given.
abbrev pub IsLimited : Round → Type 0
IsLimited (receives polled) = AllPolled polled
IsLimited (responds sys sys' polled) = IsTaking sys × IsTaking sys' × IsPolled polled
IsLimited engine_takes = Unit {0}
IsLimited (engine_gives m) = Unit {0}

abbrev pub AllLimited : List Round → Type 0
AllLimited [] = Unit {0}
AllLimited (r ∷ rs) = IsLimited r × AllLimited rs

module _ (w : Widths) where
  one_round-Returns :
      (s : Server) (r : Round) → IsSound w s → IsLimited r → Returns (IsSound w) (one_round s r)
  unfolding one_round
  one_round-Returns s (receives polled) h k =
      Returns-bind _ (IsSound w) (inbound_round polled s) _ (inbound_round-Returns w polled s h k)
        λ out v. v
  one_round-Returns s (responds sys sys' polled) h k =
      Returns-bind _ (IsSound w) (outbound_round sys sys' polled s) _
        (outbound_round-Returns w sys sys' polled s k.0 k.1 k.2 h) λ out v. v
  one_round-Returns s engine_takes h k = record {
    gateway = record {
      in_ring = pop-IsValid h.gateway.in_ring;
      errors = h.gateway.errors;
      led = h.gateway.led;
    };
    ring = h.ring;
    inbound = h.inbound;
    outbound = h.outbound;
  }
  one_round-Returns s (engine_gives m) h k = record {
    gateway = h.gateway;
    ring = push-IsValid h.ring m;
    inbound = h.inbound;
    outbound = h.outbound;
  }

  rounds-IsSound :
      (rs : List Round) (s : Server)
      → IsSound w s
      → AllLimited rs
      → Returns (IsSound w) (rounds rs s)
  unfolding rounds
  rounds-IsSound [] s h k = h
  rounds-IsSound (r ∷ rs) s h k =
      Returns-bind (IsSound w) (IsSound w) (one_round s r) _ (one_round-Returns s r h k.0)
        λ s' h'. rounds-IsSound rs s' h' k.1

-- From a server without connections and with valid rings, whose clients are led to places of the arrays
-- if to any, any rounds of the two threads, in any order and with the engine at the rings between them,
-- return: no loop runs out of fuel. The rings are then valid, every connection of the inbound thread
-- stands at its own descriptor, a place of the arrays, with a settled read buffer, every client is led
-- to a place of the arrays if to any, and every connection of the outbound thread is valid. The
-- descriptors that `accept` and `epoll_wait` answer are places of the arrays, `recv` brings no more
-- bytes than there is room for, and `send` takes no more than it is given.
pub rounds-Returns :
    (w : Widths) (g : Gateway) (ring : RingBuffer OutboundMessage) (h : LatencyHandler)
    (rs : List Round)
    → IsValid w.in_width g.in_ring
    → IsValid w.error_width g.error_channel
    → IsValid w.out_width ring
    → ((cid : ℕ) → IsPlace (g.client_map cid))
    → AllLimited rs
    → Returns (IsSound w) (rounds rs (start_server g ring h))
rounds-Returns w g ring h rs a b c led k =
    rounds-IsSound w rs (start_server g ring h)
      (record {
        gateway = record { in_ring = a; errors = b; led = led };
        ring = c;
        inbound = λ fd. tt;
        outbound = λ fd. tt;
      })
      k

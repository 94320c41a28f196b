-- ===== src/Server/Rounds/Outbound.antt =====
-- The outbound thread of exchange/server/src/server.cpp: routing, sending and the events of its sockets.
use client_exchange_simulati.Prelude.{
  ℕ, ◌++◌, sym, subst, Bool, true, false, inl, inr, Bool-cases, Option, none, some, List, [], ◌∷◌,
  ◌==◌, ◌&&◌, not, if◌then◌else◌, ◌<◌, ◌≡◌, ltb, arith,
}
use client_exchange_simulati.Prelude.Result.{
  ok, ◌>>=◌, Returns, Returns-bind, Returns-weaken, Returns-if,
}
use client_exchange_simulati.RingBuffer.{store}
use client_exchange_simulati.RingBuffer.Inv.{IsValid, push-IsValid}
use client_exchange_simulati.RingBuffer.Refine.{contents}
use client_exchange_simulati.Buffer.{remaining_to_send}
use client_exchange_simulati.Wire.{OutboundMessage}
use client_exchange_simulati.Server.Responses.{Outbound, push_outbound}
use client_exchange_simulati.Server.Responses.Frames.{IsOutbound}
use client_exchange_simulati.Server.State.{
  Server, slot_count, condemn_outbound, handle_disconnects_outbound,
}
use client_exchange_simulati.Server.Routing.{route_outbound_messages}
use client_exchange_simulati.Server.Routing.Delivery.{addressed, push_all, staged}
use client_exchange_simulati.Server.Routing.Errors.{errors_at, Posted, route_outbound_messages_lem}
use client_exchange_simulati.Server.Sending.{
  System, Sending, send_response, store_sending, begin_sends, handle_writable,
}
use client_exchange_simulati.Server.Sending.Progress.{Takes}
use client_exchange_simulati.Server.Sending.Batches.{send_response-Returns}
use client_exchange_simulati.Server.Sending.Turns.{
  IsEntry, IsServing, store-IsEntry, begin_sends-Returns,
}
use client_exchange_simulati.Server.Rounds.{
  Polled, poll_interrupted, poll_failed, poll_events, OutEvent, out_events, after_poll,
  outbound_round,
}
use client_exchange_simulati.Server.Rounds.Sound.{
  Widths, IsFramed, IsSound, IsOpen, IsPlace, condemn_outbound-IsSound,
  handle_disconnects_outbound-IsSound,
}

push_all-IsOutbound :
    (o : Outbound) (ms : List OutboundMessage) → IsOutbound 6 o → IsOutbound 6 (push_all o ms)
unfolding push_outbound
push_all-IsOutbound o [] v = v
push_all-IsOutbound o (m ∷ ms) v =
    push_all-IsOutbound (push_outbound o m) ms
      (record { staged = push-IsValid v.staged m; writing = v.writing; entries = v.entries })

staged-IsEntry :
    (c : Bool) (entry : Option Outbound) (ms : List OutboundMessage)
    → IsEntry entry
    → IsEntry (staged c entry ms)
staged-IsEntry true entry ms v = v
staged-IsEntry false none ms v = v
staged-IsEntry false (some o) ms v = push_all-IsOutbound o ms v

-- The system takes no more bytes than it is given.
abbrev pub IsTaking : System → Type 0
IsTaking sys = (fd : ℕ) → Takes (sys.send fd)

-- The descriptors of the events are places of the arrays.
abbrev pub AllWithin : List OutEvent → Type 0
AllWithin [] = Unit {0}
AllWithin ((fd, hung_up) ∷ es) = (fd < slot_count) × AllWithin es

abbrev pub IsPolled : Polled OutEvent → Type 0
IsPolled poll_interrupted = Unit {0}
IsPolled poll_failed = Unit {0}
IsPolled (poll_events es) = AllWithin es

module _ (w : Widths) where
  routed-IsSound :
      (s s' : Server) → IsSound w s → Posted w.out_width w.error_width s s' → IsSound w s'
  routed-IsSound s s' h p = record {
    gateway = record {
      in_ring = subst (λ g. IsValid w.in_width g.in_ring) (sym p.gateway) h.gateway.in_ring;
      errors = p.channel_valid;
      led = subst (λ g. (cid : ℕ) → IsPlace (g.client_map cid)) (sym p.gateway) h.gateway.led;
    };
    ring = p.ring_valid;
    inbound = subst (λ f. (fd : ℕ) → IsOpen fd (f fd)) (sym p.inbound) h.inbound;
    outbound = λ fd. subst IsEntry (sym (p.outbound fd)) (
        staged-IsEntry (s.condemned_inbound fd) (s.outbound_map fd)
          (addressed s.gateway fd (contents s.out_ring)
            ++ errors_at fd (contents s.gateway.error_channel))
          (h.outbound fd));
  }

  served-IsSound : (s s' : Server) → IsSound w s → IsServing s s' → IsSound w s'
  served-IsSound s s' h v = record {
    gateway = subst (IsFramed w) (sym v.gateway) h.gateway;
    ring = subst (IsValid w.out_width) (sym v.ring) h.ring;
    inbound = subst (λ f. (fd : ℕ) → IsOpen fd (f fd)) (sym v.inbound) h.inbound;
    outbound = v.entries;
  }

  -- What is done with a connection that can be written to.
  sent-IsSound :
      (s : Server) (fd : ℕ) (r : Sending)
      → IsSound w s
      → IsOutbound 6 r.outbound
      → let s' = store_sending s fd r in
        let disarmed = record s' { epollout_armed = store s'.epollout_armed fd false } in
        (done : Bool)
        → IsSound w
            (if not r.ok_sent then condemn_outbound s' fd else if done then disarmed else s')
  sent-IsSound s fd r h v done =
      let s' = store_sending s fd r in
      let stored : IsSound w s' = record {
        gateway = h.gateway;
        ring = h.ring;
        inbound = h.inbound;
        outbound = store-IsEntry s.outbound_map fd (some r.outbound) h.outbound v;
      } in
      elim (Bool-cases r.ok_sent) [
        | inr bad ↦ rw bad (condemn_outbound-IsSound w s' fd stored)
        | inl fine ↦ elim (Bool-cases done) [
          | inr more ↦ rw (fine, more) stored
          | inl all ↦
              rw (fine, all)
                (record {
                  gateway = h.gateway;
                  ring = h.ring;
                  inbound = h.inbound;
                  outbound = stored.outbound;
                })
        ]
      ]

  entry_written :
      (sys : System) (s : Server) (fd : ℕ) (entry : Option Outbound)
      → IsTaking sys
      → IsSound w s
      → IsEntry entry
      → Returns (IsSound w) (elim entry [
        | none ↦ ok s
        | some o ↦ do
          r ← send_response sys fd (s.epollout_armed fd) s.latency_handler o
          let s' = store_sending s fd r
          let disarmed = record s' { epollout_armed = store s'.epollout_armed fd false }
          let done = r.armed && remaining_to_send r.outbound.write_buffer == 0
          ok (if not r.ok_sent then condemn_outbound s' fd else if done then disarmed else s')
      ])
  entry_written sys s fd none takes h v = h
  entry_written sys s fd (some o) takes h v =
      Returns-bind _ (IsSound w) (send_response sys fd (s.epollout_armed fd) s.latency_handler o) _
        (send_response-Returns 6 sys fd (s.epollout_armed fd) s.latency_handler o v (takes fd))
        λ r p.
          sent-IsSound s fd r h p.valid (r.armed && remaining_to_send r.outbound.write_buffer == 0)

  out_events-Returns :
      (sys : System) (es : List OutEvent) (s : Server)
      → IsTaking sys
      → AllWithin es
      → IsSound w s
      → Returns (IsSound w) (out_events sys es s)
  unfolding out_events handle_writable
  out_events-Returns sys [] s takes k h = h
  out_events-Returns sys ((fd, hung_up) ∷ es) s takes k h =
      let within : ltb fd slot_count ≡ true = ground (arith, k.0) in
      rw within (
        Returns-bind (IsSound w) (IsSound w) (handle_writable sys s fd hung_up) _
          (Returns-if (IsSound w) (s.condemned_inbound fd) _ _ (λ c. h)
            λ live.
              Returns-if (IsSound w) hung_up _ _ (λ c. condemn_outbound-IsSound w s fd h)
                λ held. entry_written sys s fd (s.outbound_map fd) takes h (h.outbound fd))
          λ s' h'. out_events-Returns sys es s' takes k.1 h')

  after_poll-Returns :
      (sys : System) (polled : Polled OutEvent) (s : Server)
      → IsTaking sys
      → IsPolled polled
      → IsSound w s
      → Returns (λ out. IsSound w out.1) (after_poll sys polled s)
  unfolding after_poll
  after_poll-Returns sys poll_interrupted s takes k h = h
  after_poll-Returns sys poll_failed s takes k h = h
  after_poll-Returns sys (poll_events es) s takes k h =
      Returns-bind (IsSound w) _ (out_events sys es s) _ (out_events-Returns sys es s takes k h)
        λ s' h'. h'

  pub outbound_round-Returns :
      (sys sys' : System) (polled : Polled OutEvent) (s : Server)
      → IsTaking sys
      → IsTaking sys'
      → IsPolled polled
      → IsSound w s
      → Returns (λ out. IsSound w out.1) (outbound_round sys sys' polled s)
  unfolding outbound_round
  outbound_round-Returns sys sys' polled s takes takes' k h =
      let swept = handle_disconnects_outbound s in
      let sound = handle_disconnects_outbound-IsSound w s h in
      Returns-bind (IsSound w) _ (route_outbound_messages swept) _
        (Returns-weaken _ _ (route_outbound_messages swept)
          (route_outbound_messages_lem swept sound.ring sound.gateway.errors)
          λ s1 p. routed-IsSound swept s1 sound p)
        λ s1 h1.
          Returns-bind (IsSound w) _ (begin_sends sys s1) _
            (Returns-weaken _ _ (begin_sends sys s1) (begin_sends-Returns sys s1 h1.outbound takes)
              λ s2 v. served-IsSound s1 s2 h1 v)
            λ s2 h2. after_poll-Returns sys' polled s2 takes' k h2

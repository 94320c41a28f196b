-- ===== src/Server/Routing/Errors.antt =====
-- The whole of `routeOutboundMessages`: the messages of the engine, and behind them the errors of the
-- inbound thread.
use client_exchange_simulati.Prelude.{
  ℕ, zero, suc, ◌<◌, ◌≡◌, refl, sym, ap, ◌∙◌, subst, Bool, true, false, Option, none, some, List,
  [], ◌∷◌, ◌++◌, arith, length, ◌==◌, if◌then◌else◌,
}
use client_exchange_simulati.Prelude.Result.{Returns, Returns-bind, Returns-weaken}
use client_exchange_simulati.RingBuffer
use client_exchange_simulati.RingBuffer.Inv.{IsValid, pop-IsValid}
use client_exchange_simulati.RingBuffer.Refine.{contents, pop-nil, pop-cons, size_lem}
use client_exchange_simulati.Wire.{OutboundMessage}
use client_exchange_simulati.Server.Gateway.{Gateway, PendingError}
use client_exchange_simulati.Server.Responses.{Outbound, push_outbound}
use client_exchange_simulati.Server.State.{Server}
use client_exchange_simulati.Server.Routing.{
  error_message, deliver_error, error_loop, route_errors, route_messages, route_outbound_messages,
}
use client_exchange_simulati.Server.Routing.Delivery.{
  addressed, push_all, staged, staged-nil, one_staged-cons, Delivered, deliver_to-Delivered, Routed,
  route_messages-Returns,
}

-- The messages for the errors of a connection, in order.
abbrev pub errors_at : ℕ → List PendingError → List OutboundMessage
errors_at fd [] = []
errors_at fd (pe ∷ es) = if pe.fd == fd then error_message pe ∷ errors_at fd es else errors_at fd es

-- The gateway with another error channel.
abbrev pub with_channel : Gateway → RingBuffer.RingBuffer PendingError → Gateway
with_channel g channel = record g { error_channel = channel }

-- The connections after the errors `es` were delivered.
record Erred (depth : ℕ) (s : Server) (es : List PendingError) (s' : Server) : Type 0 where
  drained : contents s'.gateway.error_channel ≡ []
  valid : IsValid depth s'.gateway.error_channel
  outbound :
      (fd : ℕ)
      → s'.outbound_map fd ≡ staged (s.condemned_inbound fd) (s.outbound_map fd) (errors_at fd es)
  gateway : s'.gateway ≡ with_channel s.gateway s'.gateway.error_channel
  inbound : s'.inbound_map ≡ s.inbound_map
  condemned : s'.condemned_inbound ≡ s.condemned_inbound
  ring : s'.out_ring ≡ s.out_ring

abbrev popped : Server → Server
popped s = record s { gateway = with_channel s.gateway (RingBuffer.pop s.gateway.error_channel).1 }

Erred-cons :
    (depth : ℕ) (s s' s'' : Server) (pe : PendingError) (es : List PendingError)
    → Delivered (popped s) (error_message pe) (some pe.fd) s'
    → Erred depth s' es s''
    → Erred depth s (pe ∷ es) s''
Erred-cons depth s s' s'' pe es d r = record {
  drained = r.drained;
  valid = r.valid;
  outbound = λ fd.
      r.outbound fd
      ∙ ap (λ c. staged (c fd) (s'.outbound_map fd) (errors_at fd es)) d.condemned
      ∙ ap (λ o. staged (s.condemned_inbound fd) o (errors_at fd es)) (d.outbound fd)
      ∙ one_staged-cons (s.condemned_inbound fd) (s.outbound_map fd) (pe.fd == fd)
          (error_message pe) (errors_at fd es);
  gateway = r.gateway ∙ ap (λ g. with_channel g s''.gateway.error_channel) d.gateway;
  inbound = r.inbound ∙ d.inbound;
  condemned = r.condemned ∙ d.condemned;
  ring = r.ring ∙ d.ring;
}

deliver_error-Delivered :
    (s : Server) (pe : PendingError)
    → Delivered s (error_message pe) (some pe.fd) (deliver_error s pe)
unfolding deliver_error
deliver_error-Delivered s pe = deliver_to-Delivered s (error_message pe) (some pe.fd)

error_loop-Returns :
    (fuel : ℕ) (es : List PendingError) {width : ℕ} (s : Server)
    → IsValid width s.gateway.error_channel
    → contents s.gateway.error_channel ≡ es
    → length es < fuel
    → Returns (Erred width s es) (error_loop fuel s)
unfolding error_loop
error_loop-Returns zero es s v c n = absurd (omega arith)
error_loop-Returns (suc fuel) [] s v c n =
    rw (Returns, (pop-nil v c).0)
      (record {
        drained = (pop-nil v c).1;
        valid = pop-IsValid v;
        outbound = λ fd. sym (staged-nil (s.condemned_inbound fd) (s.outbound_map fd));
        gateway = refl;
        inbound = refl;
        condemned = refl;
        ring = refl;
      })
error_loop-Returns (suc fuel) (pe ∷ es) {width = width} s v c n =
    let s' = deliver_error (popped s) pe in
    let d = deliver_error-Delivered (popped s) pe in
    rw (Returns, (pop-cons v c).0)
      (Returns-weaken (Erred width s' es) (Erred width s (pe ∷ es)) (error_loop fuel s')
        (error_loop-Returns fuel es s'
          (subst (λ g. IsValid width g.error_channel) (sym d.gateway) (pop-IsValid v))
          (ap (λ g. contents g.error_channel) d.gateway ∙ (pop-cons v c).1) (omega arith))
        λ s'' r. Erred-cons width s s' s'' pe es d r)

route_errors-Returns :
    {width : ℕ} (s : Server)
    → IsValid width s.gateway.error_channel
    → Returns (Erred width s (contents s.gateway.error_channel)) (route_errors s)
unfolding route_errors
route_errors-Returns s v =
    error_loop-Returns (suc s.gateway.error_channel.mask) (contents s.gateway.error_channel) s v
      refl (omega (arith, size_lem v))

-- What `routeOutboundMessages` leaves: both rings are empty, the connections have their messages and
-- then their errors staged, and what the inbound thread owns is as before.
pub record Posted (width depth : ℕ) (s s' : Server) : Type 0 where
  pub ring : contents s'.out_ring ≡ []
  pub ring_valid : IsValid width s'.out_ring
  pub channel : contents s'.gateway.error_channel ≡ []
  pub channel_valid : IsValid depth s'.gateway.error_channel
  pub outbound :
      (fd : ℕ)
      → s'.outbound_map fd
        ≡ staged (s.condemned_inbound fd) (s.outbound_map fd) (
            addressed s.gateway fd (contents s.out_ring)
            ++ errors_at fd (contents s.gateway.error_channel))
  pub gateway : s'.gateway ≡ with_channel s.gateway s'.gateway.error_channel
  pub inbound : s'.inbound_map ≡ s.inbound_map
  pub condemned : s'.condemned_inbound ≡ s.condemned_inbound

push_all-append :
    (o : Outbound) (ms ns : List OutboundMessage)
    → push_all (push_all o ms) ns ≡ push_all o (ms ++ ns)
push_all-append o [] ns = refl
push_all-append o (m ∷ ms) ns = push_all-append (push_outbound o m) ms ns

staged-append :
    (c : Bool) (entry : Option Outbound) (ms ns : List OutboundMessage)
    → staged c (staged c entry ms) ns ≡ staged c entry (ms ++ ns)
staged-append true entry ms ns = refl
staged-append false none ms ns = refl
staged-append false (some o) ms ns = ap some (push_all-append o ms ns)

Posted-of :
    (width depth : ℕ) (s s' s'' : Server)
    → (contents s'.out_ring ≡ []) × Routed s (contents s.out_ring) s' × IsValid width s'.out_ring
    → Erred depth s' (contents s'.gateway.error_channel) s''
    → Posted width depth s s''
Posted-of width depth s s' s'' r e =
    let ms : ℕ → List OutboundMessage = λ fd. addressed s.gateway fd (contents s.out_ring) in
    let es = contents s.gateway.error_channel in
    record {
      ring = ap contents e.ring ∙ r.0;
      ring_valid = subst (IsValid width) (sym e.ring) r.2;
      channel = e.drained;
      channel_valid = e.valid;
      outbound = λ fd.
          e.outbound fd
          ∙ ap
              (λ g.
                staged (s'.condemned_inbound fd) (s'.outbound_map fd)
                  (errors_at fd (contents g.error_channel)))
              r.1.gateway
          ∙ ap (λ c. staged (c fd) (s'.outbound_map fd) (errors_at fd es)) r.1.condemned
          ∙ ap (λ o. staged (s.condemned_inbound fd) o (errors_at fd es)) (r.1.outbound fd)
          ∙ staged-append (s.condemned_inbound fd) (s.outbound_map fd) (ms fd) (errors_at fd es);
      gateway = e.gateway ∙ ap (λ g. with_channel g s''.gateway.error_channel) r.1.gateway;
      inbound = e.inbound ∙ r.1.inbound;
      condemned = e.condemned ∙ r.1.condemned;
    }

-- From a valid outbound ring and a valid error channel, `routeOutboundMessages` returns within its fuel
-- and empties both, which stay valid. Each connection that is neither condemned nor gone has the messages
-- of its clients pushed to its staging ring, in the order of the ring, and behind them its errors, in the
-- order of the channel, whether or not there is room.
pub route_outbound_messages_lem :
    {width depth : ℕ} (s : Server)
    → IsValid width s.out_ring
    → IsValid depth s.gateway.error_channel
    → Returns (Posted width depth s) (route_outbound_messages s)
unfolding route_outbound_messages
route_outbound_messages_lem {width = width} {depth = depth} s v w =
    Returns-bind _ _ (route_messages s) _ (route_messages-Returns s v) λ s' r.
      Returns-weaken _ _ (route_errors s')
        (route_errors-Returns s' (subst (λ g. IsValid depth g.error_channel) (sym r.1.gateway) w))
        λ s'' e. Posted-of width depth s s' s'' r e

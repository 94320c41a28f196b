-- ===== src/Server/Rounds/Inbound.antt =====
-- The inbound thread of exchange/server/src/server.cpp: accepting, reading and framing.
use client_exchange_simulati.Prelude.{
  ◌∙◌, ◌==◌, Bool-cases, ℕ, suc, ◌-◌, ◌/◌, ◌<◌, ◌≡◌, refl, sym, subst, inl, inr, Bool, true, false,
  Option, none, some, List, [], ◌∷◌, arith, ltb, leb, not, length,
}
use client_exchange_simulati.Prelude.Result.{ok, ◌>>=◌, Returns, Returns-bind, Returns-if}
use client_exchange_simulati.RingBuffer.{store}
use client_exchange_simulati.RingBuffer.Inv.{push-IsValid}
use client_exchange_simulati.Buffer.{view, remaining_capacity}
use client_exchange_simulati.Wire.{InboundMessage, Timestamp}
use client_exchange_simulati.Server.Gateway.{Gateway, Connection, inbound_bsize, process_request}
use client_exchange_simulati.Server.Gateway.Framing.{
  Verdict, verdicts, malformed, invalid, accepted, deliver, deliver_all, process_request_lem,
}
use client_exchange_simulati.Server.State.{Server, slot_count, handle_disconnects_inbound}
use client_exchange_simulati.Server.Connecting.{
  Accepted, new_outbound, register_at, register_connections, Reader, ReadEnd, filled, drained,
  failed, read_capacity, read_loop, after_read, read_request, read_rounds, read_and_process_bytes,
  handle_event,
}
use client_exchange_simulati.Server.Connecting.Reading.{AllFit, HasRead, read_loop-Returns}
use client_exchange_simulati.Server.Connecting.Draining.{
  Returns-both, process_loop-IsSettled, read_request-Returns,
}
use client_exchange_simulati.Server.Sending.Turns.{store-IsEntry}
use client_exchange_simulati.Server.Rounds.{
  Polled, poll_interrupted, poll_failed, poll_events, InEvent, arrives, at_client, in_event,
  in_events, inbound_round,
}
use client_exchange_simulati.Server.Rounds.Sound.{
  Widths, IsFramed, IsSound, IsPlaced, IsPlace, IsOpen, store-IsOpen, condemn_inbound-IsSound,
  handle_disconnects_inbound-IsSound,
}

-- The descriptors that `accept` answers are places of the arrays.
abbrev pub AllPlaced : List Accepted → Type 0
AllPlaced [] = Unit {0}
AllPlaced (a ∷ rest) = (a.fd < slot_count) × AllPlaced rest

-- The system keeps to its limits in an event.
abbrev pub IsKept : InEvent → Type 0
IsKept (arrives clients) = AllPlaced clients
IsKept (at_client fd hung_up net now) = (fd < slot_count) × ((k : ℕ) → AllFit (net k))

abbrev pub AllKept : List InEvent → Type 0
AllKept [] = Unit {0}
AllKept (e ∷ es) = IsKept e × AllKept es

abbrev pub AllPolled : Polled InEvent → Type 0
AllPolled poll_interrupted = Unit {0}
AllPolled poll_failed = Unit {0}
AllPolled (poll_events es) = AllKept es

module _ (w : Widths) where
  register_at-IsSound :
      (s : Server) (fd : ℕ) → fd < slot_count → IsSound w s → IsSound w (register_at s fd)
  register_at-IsSound s fd within h = record {
    gateway = h.gateway;
    ring = h.ring;
    inbound = store-IsOpen s.inbound_map fd _ h.inbound (record {
      settled = record {
        reading = record { off_in = omega arith; len_in = omega arith };
        whole = refl;
        started = inl refl;
      };
      own = refl;
      within = within;
    });
    outbound = store-IsEntry s.outbound_map fd (some new_outbound) h.outbound (record {
      staged = record {
        sized = refl;
        small = omega arith;
        write_in = omega arith;
        read_in = omega arith;
      };
      writing = record { written_in = omega arith; len_in = omega arith };
      entries = refl;
    });
  }

  register_connections-Returns :
      (clients : List Accepted) (s : Server)
      → IsSound w s
      → AllPlaced clients
      → Returns (IsSound w) (register_connections s clients)
  unfolding register_connections
  register_connections-Returns [] s h p = h
  register_connections-Returns (a ∷ rest) s h p =
      let inside : ltb a.fd slot_count ≡ true = ground (arith, p.0) in
      Returns-if (IsSound w) (not a.non_blocking) _ _
        (λ blocking. register_connections-Returns rest s h p.1)
        λ ready.
          Returns-if (IsSound w) (not a.added) _ _ (λ lost. h)
            λ added. rw inside (
              register_connections-Returns rest (register_at s a.fd)
                (register_at-IsSound s a.fd p.0 h) p.1)

  led-admit :
      (fd : ℕ) (g : Gateway) (msg : InboundMessage)
      → fd < slot_count
      → ((cid : ℕ) → IsPlace (g.client_map cid))
      → (cid : ℕ) → IsPlace ((deliver fd g (accepted msg)).client_map cid)
  led-admit fd g msg within h cid = elim (Bool-cases (cid == msg.client_id)) [
    | inl here ↦ rw here within
    | inr other ↦ rw other (h cid)
  ]

  deliver_all-IsFramed :
      (fd : ℕ) (vs : List Verdict) (g : Gateway)
      → fd < slot_count
      → IsFramed w g
      → IsFramed w (deliver_all fd g vs)
  deliver_all-IsFramed fd [] g k h = h
  deliver_all-IsFramed fd (malformed ∷ vs) g k h =
      deliver_all-IsFramed fd vs (deliver fd g malformed) k
        (record { in_ring = h.in_ring; errors = push-IsValid h.errors _; led = h.led })
  deliver_all-IsFramed fd (invalid ∷ vs) g k h =
      deliver_all-IsFramed fd vs (deliver fd g invalid) k
        (record { in_ring = h.in_ring; errors = push-IsValid h.errors _; led = h.led })
  deliver_all-IsFramed fd (accepted msg ∷ vs) g k h =
      deliver_all-IsFramed fd vs (deliver fd g (accepted msg)) k (record {
        in_ring = push-IsValid h.in_ring msg;
        errors = h.errors;
        led = led-admit fd g msg k h.led;
      })

  -- `processRequest` on what a read has left.
  processed-IsSound :
      (s : Server) (fd : ℕ) (c : Connection)
      → IsSound w s
      → IsPlaced fd c
      → Returns
          (λ (out : Bool × Server). IsSound w out.1)
          (do
            (g, c') ← process_request s.gateway c
            let s' = record s { gateway = g; inbound_map = store s.inbound_map fd (some c') }
            ok (leb (remaining_capacity read_capacity c'.read_buffer) 0, s'))
  unfolding process_request
  processed-IsSound s fd c h v =
      let b = c.read_buffer in
      Returns-bind _ (λ (out : Bool × Server). IsSound w out.1) (process_request s.gateway c) _
        (Returns-both _ _ (process_request s.gateway c)
          (process_request_lem read_capacity s.gateway c v.settled.reading)
          (process_loop-IsSettled (suc (b.len - b.read_off)) s.gateway c v.settled (omega arith)))
        λ out f. record {
          gateway = subst (IsFramed w) (sym f.0.delivered) (
              deliver_all-IsFramed c.fd
                (verdicts (length (view b) / inbound_bsize) c.read_begin_tsc (view b)) s.gateway
                (subst (λ x. x < slot_count) (sym v.own) v.within) h.gateway);
          ring = h.ring;
          inbound =
              store-IsOpen s.inbound_map fd (some out.1) h.inbound
                (record { settled = f.1.0; own = f.1.1 ∙ v.own; within = v.within });
          outbound = h.outbound;
        }

  after_read-IsSound :
      (s : Server) (fd : ℕ) (c : Connection) (end : ReadEnd)
      → IsSound w s
      → IsPlaced fd c
      → Returns (λ out. IsSound w out.1) (after_read s fd c end)
  after_read-IsSound s fd c filled h v = processed-IsSound s fd c h v
  after_read-IsSound s fd c drained h v = processed-IsSound s fd c h v
  after_read-IsSound s fd c failed h v =
      condemn_inbound-IsSound w (record s { inbound_map = store s.inbound_map fd (some c) }) fd
        (record {
          gateway = h.gateway;
          ring = h.ring;
          inbound = store-IsOpen s.inbound_map fd (some c) h.inbound v;
          outbound = h.outbound;
        })

  read_request-IsSound :
      (net : Reader) (now : Timestamp) (s : Server) (fd : ℕ) (c : Connection)
      → IsSound w s
      → IsPlaced fd c
      → AllFit net
      → Returns (λ out. IsSound w out.1) (read_request net now s fd c)
  unfolding read_request
  read_request-IsSound net now s fd c h v fit =
      Returns-bind (HasRead net 0 c.read_buffer) _
        (read_loop (suc read_capacity) net 0 c.read_buffer) _
        (read_loop-Returns (suc read_capacity) net 0 c.read_buffer v.settled fit (omega arith))
        λ out r.
          after_read-IsSound s fd (record c { read_buffer = out.1; read_begin_tsc = now }) out.0 h
            (record { settled = r.settled; own = v.own; within = v.within })

  -- One round of the loop around `readRequest` is enough.
  entry_read :
      (net : ℕ → Reader) (now : ℕ → Timestamp) (s : Server) (fd : ℕ) (entry : Option Connection)
      → IsSound w s
      → IsOpen fd entry
      → ((k : ℕ) → AllFit (net k))
      → Returns (IsSound w) (elim entry [
        | none ↦ ok s
        | some c ↦ do
          (again, s') ← read_request (net 0) (now 0) s fd c
          elim again [ true ↦ read_rounds 0 net now s' fd | false ↦ ok s' ]
      ])
  entry_read net now s fd none h v fit = h
  entry_read net now s fd (some c) h v fit =
      Returns-bind _ (IsSound w) (read_request (net 0) (now 0) s fd c) _
        (Returns-both _ _ (read_request (net 0) (now 0) s fd c)
          (read_request-Returns (net 0) (now 0) s fd c v.settled (fit 0))
          (read_request-IsSound (net 0) (now 0) s fd c h v (fit 0)))
        λ out r. rw r.0.0 r.1

  read_and_process_bytes-Returns :
      (net : ℕ → Reader) (now : ℕ → Timestamp) (s : Server) (fd : ℕ)
      → IsSound w s
      → ((k : ℕ) → AllFit (net k))
      → Returns (IsSound w) (read_and_process_bytes 1 net now s fd)
  unfolding read_and_process_bytes read_rounds
  read_and_process_bytes-Returns net now s fd h fit =
      Returns-if (IsSound w) (s.condemned_inbound fd) _ _ (λ c. h)
        λ live.
          Returns-if (IsSound w) (s.condemned_outbound fd) _ _ (λ c. h)
            λ live'. entry_read net now s fd (s.inbound_map fd) h (h.inbound fd) fit

  in_event-Returns :
      (s : Server) (e : InEvent) → IsSound w s → IsKept e → Returns (IsSound w) (in_event s e)
  unfolding in_event handle_event
  in_event-Returns s (arrives clients) h k = register_connections-Returns clients s h k
  in_event-Returns s (at_client fd hung_up net now) h k =
      let within : ltb fd slot_count ≡ true = ground (arith, k.0) in
      rw within (
        Returns-if (IsSound w) hung_up _ _ (λ c. condemn_inbound-IsSound w s fd h)
          λ live. read_and_process_bytes-Returns net now s fd h k.1)

  in_events-Returns :
      (es : List InEvent) (s : Server)
      → IsSound w s
      → AllKept es
      → Returns (IsSound w) (in_events es s)
  unfolding in_events
  in_events-Returns [] s h k = h
  in_events-Returns (e ∷ es) s h k =
      Returns-bind (IsSound w) (IsSound w) (in_event s e) _ (in_event-Returns s e h k.0)
        λ s' h'. in_events-Returns es s' h' k.1

  pub inbound_round-Returns :
      (polled : Polled InEvent) (s : Server)
      → IsSound w s
      → AllPolled polled
      → Returns (λ out. IsSound w out.1) (inbound_round polled s)
  unfolding inbound_round
  inbound_round-Returns poll_interrupted s h k = handle_disconnects_inbound-IsSound w s h
  inbound_round-Returns poll_failed s h k = handle_disconnects_inbound-IsSound w s h
  inbound_round-Returns (poll_events es) s h k =
      Returns-bind (IsSound w) _ (in_events es (handle_disconnects_inbound s)) _
        (in_events-Returns es (handle_disconnects_inbound s)
          (handle_disconnects_inbound-IsSound w s h) k)
        λ s' h'. h'

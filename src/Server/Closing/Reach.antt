-- ===== src/Server/Closing/Reach.antt =====
-- Every state that the threads of the server reach keeps each descriptor in one of its phases.
use client_exchange_simulati.Prelude.{
  ℕ, suc, ◌≡◌, refl, sym, ap, ◌∙◌, subst, inl, inr, Bool, true, false, Bool-cases, Option, none,
  some, [], ◌∷◌, ltb, ◌==◌, ◌&&◌, not, if◌then◌else◌,
}
use client_exchange_simulati.Prelude.Result.{Result, ok, Ensures, Ensures-bind}
use client_exchange_simulati.RingBuffer.{store, store-same}
use client_exchange_simulati.Buffer.{remaining_to_send}
use client_exchange_simulati.Wire.{Timestamp}
use client_exchange_simulati.Server.Gateway.{Connection, process_request}
use client_exchange_simulati.Server.Responses.{Outbound}
use client_exchange_simulati.Server.State.{Server, condemn_inbound, condemn_outbound, slot_count}
use client_exchange_simulati.Server.Sending.{
  System, Sending, send_response, store_sending, send_turn, handle_writable,
}
use client_exchange_simulati.Server.Connecting.{
  Accepted, register_at, register_connections, new_connection, new_outbound, Reader, ReadEnd,
  filled, drained, failed, read_capacity, read_loop, after_read, read_request,
}
use client_exchange_simulati.Server.Closing.{
  Step, accepts, hangs_up, reads, closes, releases, polls, delivers, sends, drains, Reachable,
  start, next,
}
use client_exchange_simulati.Server.Closing.Phases.{
  is_phase, phase_at, IsPhased, changed_at, condemned-IsPhased, sweep_inbound_at-IsPhased,
  sweep_outbound_at-IsPhased, deliver_to-IsPhased, store_sending-IsPhased, failed-IsPhased,
  send_turn-IsPhased,
}

register_at-IsPhased : (s : Server) (fd : ℕ) → IsPhased s → IsPhased (register_at s fd)
register_at-IsPhased s fd h =
    changed_at s (register_at s fd) fd h (λ x off. rw off refl)
      (rw
        (
          store-same s.inbound_map fd (some (new_connection fd)),
          store-same s.outbound_map fd (some new_outbound),
          store-same s.condemned_outbound fd false,
        )
        refl)

registered-IsPhased :
    (s : Server) (a : Accepted) → IsPhased s → Ensures IsPhased (register_connections s (a ∷ []))
unfolding register_connections
registered-IsPhased s a h = elim (Bool-cases a.non_blocking) [
  | inr blocking ↦ rw blocking h
  | inl fine ↦ elim (Bool-cases a.added) [
    | inr refused ↦ rw fine (rw refused h)
    | inl added ↦ elim (Bool-cases (ltb a.fd slot_count)) [
      | inr out ↦ rw fine (rw (added, out) tt)
      | inl in_range ↦ rw fine (rw (added, in_range) (register_at-IsPhased s a.fd h))
    ]
  ]
]

-- The inbound thread stores the state of a connection that it has.
stored-IsPhased :
    (s : Server) (fd : ℕ) (c c' : Connection)
    → IsPhased s
    → s.inbound_map fd ≡ some c
    → IsPhased (record s { inbound_map = store s.inbound_map fd (some c') })
stored-IsPhased s fd c c' h e =
    changed_at s (record s { inbound_map = store s.inbound_map fd (some c') }) fd h
      (λ x off. rw off refl)
      (rw (store-same s.inbound_map fd (some c')) (
        sym (is_phase-kept (s.outbound_map fd) (s.condemned_outbound fd))
        ∙ ap (λ i. is_phase i (s.outbound_map fd) (s.condemned_outbound fd)) (sym e)
        ∙ h fd))
  where
    is_phase-kept :
        (o : Option Outbound) (r : Bool) → is_phase (some c) o r ≡ is_phase (some c') o r
    is_phase-kept none r = refl
    is_phase-kept (some o) r = refl

processed-IsPhased :
    (s : Server) (fd : ℕ) (c c' : Connection)
    → IsPhased s
    → s.inbound_map fd ≡ some c
    → Ensures (λ out. IsPhased out.1) (after_read s fd c' drained)
processed-IsPhased s fd c c' h e =
    Ensures-bind (λ out. IsPhased out.1) (process_request s.gateway c') _
      λ out. stored-IsPhased s fd c out.1 h e

after_read-IsPhased :
    (s : Server) (fd : ℕ) (c c' : Connection) (end : ReadEnd)
    → IsPhased s
    → s.inbound_map fd ≡ some c
    → Ensures (λ out. IsPhased out.1) (after_read s fd c' end)
unfolding condemn_inbound
after_read-IsPhased s fd c c' filled h e = processed-IsPhased s fd c c' h e
after_read-IsPhased s fd c c' drained h e = processed-IsPhased s fd c c' h e
after_read-IsPhased s fd c c' failed h e = stored-IsPhased s fd c c' h e

read_request-IsPhased :
    (net : Reader) (now : Timestamp) (s : Server) (fd : ℕ) (c : Connection)
    → IsPhased s
    → s.inbound_map fd ≡ some c
    → Ensures (λ out. IsPhased out.1) (read_request net now s fd c)
unfolding read_request
read_request-IsPhased net now s fd c h e =
    Ensures-bind (λ out. IsPhased out.1) (read_loop (suc read_capacity) net 0 c.read_buffer) _
      λ out. after_read-IsPhased s fd c _ out.0 h e

-- A failed `send` on a writable descriptor.
abbrev written_back : Server → ℕ → Sending → Result Server
written_back s fd r =
    let s' = store_sending s fd r in
    let disarmed = record s' { epollout_armed = store s'.epollout_armed fd false } in
    let done = r.armed && remaining_to_send r.outbound.write_buffer == 0 in
    ok (if not r.ok_sent then condemn_outbound s' fd else if done then disarmed else s')

written_back-IsPhased :
    (s : Server) (fd : ℕ) (o : Outbound) (r : Sending)
    → IsPhased s
    → s.outbound_map fd ≡ some o
    → Ensures IsPhased (written_back s fd r)
written_back-IsPhased s fd o r h e = elim (Bool-cases r.ok_sent) [
  | inr bad ↦ rw bad (failed-IsPhased s (store_sending s fd r) fd o r h e refl refl refl)
  | inl fine ↦ elim (Bool-cases (r.armed && remaining_to_send r.outbound.write_buffer == 0)) [
    | inl done ↦ rw fine (rw done (store_sending-IsPhased s fd o r h e))
    | inr more ↦ rw fine (rw more (store_sending-IsPhased s fd o r h e))
  ]
]

handle_writable-IsPhased :
    (sys : System) (s : Server) (fd : ℕ) (o : Outbound) (hung_up : Bool)
    → IsPhased s
    → s.outbound_map fd ≡ some o
    → Ensures IsPhased (handle_writable sys s fd hung_up)
unfolding handle_writable
handle_writable-IsPhased sys s fd o hung_up h e = elim (Bool-cases (s.condemned_inbound fd)) [
  | inl c ↦ rw c h
  | inr live ↦ elim (Bool-cases hung_up) [
    | inl hup ↦ rw live (rw hup (condemned-IsPhased s fd o h e))
    | inr quiet ↦ rw live (
        rw (quiet, e)
          (Ensures-bind IsPhased (send_response sys fd (s.epollout_armed fd) s.latency_handler o)
            (written_back s fd) λ r. written_back-IsPhased s fd o r h e))
  ]
]

ensured {ℓ} : {A : Type ℓ} (P : A → Type 0) (m : Result A) (a : A) → Ensures P m → m ≡ ok a → P a
ensured P m a h e = subst (Ensures P) e h

Step-IsPhased : (s s' : Server) → IsPhased s → Step s s' → IsPhased s'
unfolding condemn_inbound
Step-IsPhased s s' h (accepts a s1 vacant e) =
    ensured IsPhased (register_connections s (a ∷ [])) s1 (registered-IsPhased s a h) e
Step-IsPhased s s' h (hangs_up fd) = h
Step-IsPhased s s' h (reads net now fd c again s1 has e) =
    ensured (λ out. IsPhased out.1) (read_request net now s fd c) (again, s1)
      (read_request-IsPhased net now s fd c h has) e
Step-IsPhased s s' h (closes fd) = sweep_inbound_at-IsPhased s fd h
Step-IsPhased s s' h (releases fd) = sweep_outbound_at-IsPhased s fd h
Step-IsPhased s s' h (polls ring) = h
Step-IsPhased s s' h (delivers m to) = deliver_to-IsPhased s m to h
Step-IsPhased s s' h (sends sys fd s1 e) =
    ensured IsPhased (send_turn sys s fd) s1 (send_turn-IsPhased sys s fd h) e
Step-IsPhased s s' h (drains sys fd o hung_up s1 has e) =
    ensured IsPhased (handle_writable sys s fd hung_up) s1
      (handle_writable-IsPhased sys s fd o hung_up h has) e

-- However the steps of the two threads are interleaved, from the start on, every descriptor is in one of
-- three phases: vacant for both threads; held by both, with the outbound flag down; or let go by the
-- outbound thread, with its flag up, and still held by the inbound thread. So the inbound thread has
-- closed no descriptor that the outbound thread still holds. The steps take it that `accept` answers
-- with a vacant descriptor, and that the outbound thread has events only of those it holds.
pub Reachable-phase : (s : Server) → Reachable s → (fd : ℕ) → phase_at s fd ≡ true
Reachable-phase s (start g ring handler) fd = refl
Reachable-phase s (next s1 s2 reached step) fd =
    Step-IsPhased s1 s (Reachable-phase s1 reached) step fd

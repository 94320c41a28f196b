-- ===== src/Server/Closing/Phases.antt =====
-- The phases of a descriptor: vacant, serving, or let go by the outbound thread.
use client_exchange_simulati.Prelude.{
  ℕ, ◌≡◌, refl, sym, ap, ◌∙◌, subst, inl, inr, Bool, true, false, Bool-cases, Option, none, some,
  arith, ltb, ◌==◌, ◌&&◌, ◌||◌, not,
}
use client_exchange_simulati.Prelude.Result.{ok, ◌>>=◌, Ensures, Ensures-bind}
use client_exchange_simulati.RingBuffer.{store, store-same}
use client_exchange_simulati.Buffer.{remaining_to_send}
use client_exchange_simulati.Wire.{OutboundMessage}
use client_exchange_simulati.Server.Gateway.{Connection}
use client_exchange_simulati.Server.Responses.{Outbound, has_pending_outbound, push_outbound}
use client_exchange_simulati.Server.State.{
  Server, condemn_outbound, sweep_outbound_at, sweep_inbound_at, close_inbound,
}
use client_exchange_simulati.Server.Routing.{deliver_to, stage}
use client_exchange_simulati.Server.Sending.{
  System, Sending, fill_buffer, send_response, store_sending, leave, end_turn, after_send,
  send_filled, send_turn,
}

-- Whether the entries of a descriptor fit together: vacant; open for both threads; or let go by the
-- outbound thread, and still to be closed by the inbound thread.
abbrev pub is_phase : Option Connection → Option Outbound → Bool → Bool
is_phase none none released = not released
is_phase none (some o) released = false
is_phase (some c) none released = released
is_phase (some c) (some o) released = not released

abbrev pub phase_at : Server → ℕ → Bool
phase_at s fd = is_phase (s.inbound_map fd) (s.outbound_map fd) (s.condemned_outbound fd)

-- Every descriptor of a server is in one of its phases.
abbrev pub IsPhased : Server → Type 0
IsPhased s = (fd : ℕ) → phase_at s fd ≡ true

-- A change of the entries of one descriptor.
pub changed_at :
    (s s' : Server) (fd : ℕ)
    → IsPhased s
    → ((x : ℕ) → (x == fd) ≡ false → phase_at s' x ≡ phase_at s x)
    → phase_at s' fd ≡ true
    → IsPhased s'
changed_at s s' fd h other here x = elim (Bool-cases (x == fd)) [
  | inr off ↦ other x off ∙ h x
  | inl on ↦ let same : fd ≡ x = ground arith in subst (λ y. phase_at s' y ≡ true) same here
]

is_phase-some :
    (i : Option Connection) (o o' : Outbound) (r : Bool)
    → is_phase i (some o') r ≡ is_phase i (some o) r
is_phase-some none o o' r = refl
is_phase-some (some c) o o' r = refl

-- The outbound thread replaces the state of a connection.
replaced-IsPhased :
    (s : Server) (fd : ℕ) (o o' : Outbound)
    → IsPhased s
    → s.outbound_map fd ≡ some o
    → IsPhased (record s { outbound_map = store s.outbound_map fd (some o') })
replaced-IsPhased s fd o o' h e =
    let s' = record s { outbound_map = store s.outbound_map fd (some o') } in
    changed_at s s' fd h (λ x off. rw off refl)
      (ap (λ y. is_phase (s.inbound_map fd) y (s.condemned_outbound fd))
          (store-same s.outbound_map fd (some o'))
        ∙ is_phase-some (s.inbound_map fd) o o' (s.condemned_outbound fd)
        ∙ ap (λ y. is_phase (s.inbound_map fd) y (s.condemned_outbound fd)) (sym e)
        ∙ h fd)

is_phase-released :
    (i : Option Connection) (o : Outbound) (r : Bool)
    → is_phase i (some o) r ≡ true
    → is_phase i none true ≡ true
is_phase-released none o r e = e
is_phase-released (some c) o r e = refl

-- The outbound thread lets go of a connection that it has.
pub condemned-IsPhased :
    (s : Server) (fd : ℕ) (o : Outbound)
    → IsPhased s
    → s.outbound_map fd ≡ some o
    → IsPhased (condemn_outbound s fd)
unfolding condemn_outbound
condemned-IsPhased s fd o h e =
    changed_at s (condemn_outbound s fd) fd h (λ x off. rw off refl)
      (rw (store-same s.outbound_map fd none, store-same s.condemned_outbound fd true)
        (is_phase-released (s.inbound_map fd) o (s.condemned_outbound fd)
          (ap (λ y. is_phase (s.inbound_map fd) y (s.condemned_outbound fd)) (sym e) ∙ h fd)))

is_phase-closed :
    (i : Option Connection) (o : Option Outbound)
    → is_phase i o true ≡ true
    → is_phase none o false ≡ true
is_phase-closed none none e = ground arith
is_phase-closed none (some o) e = e
is_phase-closed (some c) none e = refl
is_phase-closed (some c) (some o) e = e

-- The inbound thread closes a connection that the outbound thread has let go.
pub sweep_inbound_at-IsPhased :
    (s : Server) (fd : ℕ) → IsPhased s → IsPhased (sweep_inbound_at s fd)
unfolding sweep_inbound_at
sweep_inbound_at-IsPhased s fd h = elim (Bool-cases (s.condemned_outbound fd)) [
  | inr kept ↦ rw kept h
  | inl released ↦ rw released (go (s.inbound_map fd) released)
]
  where
    go :
        (entry : Option Connection)
        → s.condemned_outbound fd ≡ true
        → IsPhased (elim entry [ none ↦ s | some c ↦ close_inbound s fd c ])
    go none e = h
    go (some c) e =
        changed_at s (close_inbound s fd c) fd h (λ x off. rw off refl)
          (rw (store-same s.inbound_map fd none, store-same s.condemned_outbound fd false)
            (is_phase-closed (s.inbound_map fd) (s.outbound_map fd)
              (ap (is_phase (s.inbound_map fd) (s.outbound_map fd)) (sym e) ∙ h fd)))

pub sweep_outbound_at-IsPhased :
    (s : Server) (fd : ℕ) → IsPhased s → IsPhased (sweep_outbound_at s fd)
unfolding sweep_outbound_at
sweep_outbound_at-IsPhased s fd h = elim (Bool-cases (s.condemned_inbound fd)) [
  | inr kept ↦ rw kept h
  | inl condemned ↦ rw condemned (go (s.outbound_map fd) refl)
]
  where
    go :
        (entry : Option Outbound)
        → s.outbound_map fd ≡ entry
        → IsPhased (elim entry [ none ↦ s | some o ↦ condemn_outbound s fd ])
    go none e = h
    go (some o) e = condemned-IsPhased s fd o h e

pub deliver_to-IsPhased :
    (s : Server) (m : OutboundMessage) (to : Option ℕ) → IsPhased s → IsPhased (deliver_to s m to)
unfolding deliver_to
deliver_to-IsPhased s m none h = h
deliver_to-IsPhased s m (some fd) h = elim (Bool-cases (s.condemned_inbound fd)) [
  | inl c ↦ rw c h
  | inr live ↦ rw live (go (s.outbound_map fd) refl)
]
  where
    go : (entry : Option Outbound) → s.outbound_map fd ≡ entry → IsPhased (stage s fd entry m)
    go none e = h
    go (some o) e = replaced-IsPhased s fd o (push_outbound o m) h e

end_turn-IsPhased : (s : Server) (fd : ℕ) (o : Outbound) → IsPhased s → IsPhased (end_turn s fd o)
end_turn-IsPhased s fd o h =
    elim (Bool-cases (
      s.condemned_inbound fd
      || (remaining_to_send o.write_buffer == 0 && not (has_pending_outbound o)))) [
        | inl done ↦ rw done h
        | inr more ↦ rw more h
      ]

pub store_sending-IsPhased :
    (s : Server) (fd : ℕ) (o : Outbound) (r : Sending)
    → IsPhased s
    → s.outbound_map fd ≡ some o
    → IsPhased (store_sending s fd r)
store_sending-IsPhased s fd o r h e = replaced-IsPhased s fd o r.outbound h e

-- Letting go right after a failed `send`.
pub failed-IsPhased :
    (s s' : Server) (fd : ℕ) (o : Outbound) (r : Sending)
    → IsPhased s
    → s.outbound_map fd ≡ some o
    → s'.inbound_map ≡ s.inbound_map
    → s'.outbound_map ≡ store s.outbound_map fd (some r.outbound)
    → s'.condemned_outbound ≡ s.condemned_outbound
    → IsPhased (condemn_outbound s' fd)
failed-IsPhased s s' fd o r h e same_i same_o same_r =
    condemned-IsPhased s' fd r.outbound
      (λ x.
        ap (λ i. is_phase (i x) (s'.outbound_map x) (s'.condemned_outbound x)) same_i
        ∙ ap (λ m. is_phase (s.inbound_map x) (m x) (s'.condemned_outbound x)) same_o
        ∙ ap (λ f. is_phase (s.inbound_map x) (store s.outbound_map fd (some r.outbound) x) (f x))
            same_r
        ∙ replaced-IsPhased s fd o r.outbound h e x)
      (ap (λ m. m fd) same_o ∙ store-same s.outbound_map fd (some r.outbound))

after_send-IsPhased :
    (s : Server) (fd : ℕ) (o : Outbound) (r : Sending)
    → IsPhased s
    → s.outbound_map fd ≡ some o
    → IsPhased (after_send s fd r)
after_send-IsPhased s fd o r h e = elim (Bool-cases r.ok_sent) [
  | inl fine ↦
      rw fine (
        end_turn-IsPhased (store_sending s fd r) fd r.outbound
          (store_sending-IsPhased s fd o r h e))
  | inr bad ↦ rw bad (failed-IsPhased s (leave (store_sending s fd r) fd) fd o r h e refl refl refl)
]

send_filled-IsPhased :
    (sys : System) (s : Server) (fd : ℕ) (o o' : Outbound)
    → IsPhased s
    → s.outbound_map fd ≡ some o
    → Ensures IsPhased (send_filled sys s fd o')
send_filled-IsPhased sys s fd o o' h e =
    elim (Bool-cases (ltb 0 (remaining_to_send o'.write_buffer))) [
      | inl more ↦ rw more (
          Ensures-bind IsPhased (send_response sys fd (s.epollout_armed fd) s.latency_handler o') _
            λ r. after_send-IsPhased s fd o r h e)
      | inr all ↦ rw all (
          end_turn-IsPhased (record s { outbound_map = store s.outbound_map fd (some o') }) fd o'
            (replaced-IsPhased s fd o o' h e))
    ]

pub send_turn-IsPhased :
    (sys : System) (s : Server) (fd : ℕ) → IsPhased s → Ensures IsPhased (send_turn sys s fd)
unfolding send_turn
send_turn-IsPhased sys s fd h = elim (Bool-cases (s.condemned_inbound fd)) [
  | inl c ↦ rw c h
  | inr live ↦ rw live (go (s.outbound_map fd) refl)
]
  where
    go :
        (entry : Option Outbound)
        → s.outbound_map fd ≡ entry
        → Ensures IsPhased (elim entry [
          | none ↦ ok (leave s fd)
          | some o ↦ do o' ← fill_buffer o; send_filled sys s fd o'
        ])
    go none e = h
    go (some o) e =
        Ensures-bind IsPhased (fill_buffer o) _ λ o'. send_filled-IsPhased sys s fd o o' h e

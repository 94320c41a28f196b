-- ===== src/Server/Rounds/Sound.antt =====
-- What holds of the gateway between any two handlers of its threads.
use client_exchange_simulati.Prelude.{
  ℕ, zero, suc, ◌<◌, ◌≡◌, subst, arith, inl, inr, Bool-cases, Option, none, some, ◌==◌, ltb,
}
use client_exchange_simulati.RingBuffer.{store}
use client_exchange_simulati.RingBuffer.Inv.{IsValid}
use client_exchange_simulati.Server.Gateway.{Connection, Gateway}
use client_exchange_simulati.Server.Responses.{Outbound}
use client_exchange_simulati.Server.State.{
  Server, condemn_inbound, condemn_outbound, sweep_outbound_at, close_inbound, unroute,
  sweep_inbound_at, for_fds, handle_disconnects_inbound, handle_disconnects_outbound, slot_count,
}
use client_exchange_simulati.Server.Connecting.Reading.{IsSettled}
use client_exchange_simulati.Server.Sending.Turns.{IsEntry, store-IsEntry}

-- A connection of the inbound thread stands at its own descriptor, which is a place of the arrays, with
-- a settled read buffer.
pub record IsPlaced (fd : ℕ) (c : Connection) : Type 0 where
  pub settled : IsSettled c.read_buffer
  pub own : c.fd ≡ fd
  pub within : fd < slot_count

abbrev pub IsOpen : ℕ → Option Connection → Type 0
IsOpen fd none = Unit {0}
IsOpen fd (some c) = IsPlaced fd c

-- A client is led to a place of the arrays, if to any.
abbrev pub IsPlace : Option ℕ → Type 0
IsPlace none = Unit {0}
IsPlace (some fd) = fd < slot_count

-- The logarithms of the sizes of the inbound ring, the error channel and the outbound ring.
pub record Widths : Type 0 where
  pub in_width : ℕ
  pub error_width : ℕ
  pub out_width : ℕ

pub record IsFramed (w : Widths) (g : Gateway) : Type 0 where
  pub in_ring : IsValid w.in_width g.in_ring
  pub errors : IsValid w.error_width g.error_channel
  pub led : (cid : ℕ) → IsPlace (g.client_map cid)

pub record IsSound (w : Widths) (s : Server) : Type 0 where
  pub gateway : IsFramed w s.gateway
  pub ring : IsValid w.out_width s.out_ring
  pub inbound : (fd : ℕ) → IsOpen fd (s.inbound_map fd)
  pub outbound : (fd : ℕ) → IsEntry (s.outbound_map fd)

pub store-IsOpen :
    (f : ℕ → Option Connection) (fd : ℕ) (entry : Option Connection)
    → ((x : ℕ) → IsOpen x (f x))
    → IsOpen fd entry
    → (x : ℕ) → IsOpen x (store f fd entry x)
store-IsOpen f fd entry h new x = elim (Bool-cases (x == fd)) [
  | inl here ↦ let same : fd ≡ x = ground arith in rw here (subst (λ y. IsOpen y entry) same new)
  | inr other ↦ rw other (h x)
]

store-IsPlace :
    (f : ℕ → Option ℕ) (cid : ℕ) (entry : Option ℕ)
    → ((x : ℕ) → IsPlace (f x))
    → IsPlace entry
    → (x : ℕ) → IsPlace (store f cid entry x)
store-IsPlace f cid entry h new x = elim (Bool-cases (x == cid)) [
  | inl here ↦ rw here new
  | inr other ↦ rw other (h x)
]

module _ (w : Widths) where
  pub condemn_inbound-IsSound :
      (s : Server) (fd : ℕ) → IsSound w s → IsSound w (condemn_inbound s fd)
  unfolding condemn_inbound
  condemn_inbound-IsSound s fd h = record {
    gateway = h.gateway;
    ring = h.ring;
    inbound = h.inbound;
    outbound = h.outbound;
  }

  pub condemn_outbound-IsSound :
      (s : Server) (fd : ℕ) → IsSound w s → IsSound w (condemn_outbound s fd)
  unfolding condemn_outbound
  condemn_outbound-IsSound s fd h = record {
    gateway = h.gateway;
    ring = h.ring;
    inbound = h.inbound;
    outbound = store-IsEntry s.outbound_map fd none h.outbound tt;
  }

  unroute-IsFramed : (g : Gateway) (cid : ℕ) → IsFramed w g → IsFramed w (unroute g cid)
  unroute-IsFramed g cid h = elim (Bool-cases (ltb 0 cid)) [
    | inl known ↦ rw known (record {
      in_ring = h.in_ring;
      errors = h.errors;
      led = store-IsPlace g.client_map cid none h.led tt;
    })
    | inr zeroed ↦ rw zeroed h
  ]

  close_inbound-IsSound :
      (s : Server) (fd : ℕ) (c : Connection) → IsSound w s → IsSound w (close_inbound s fd c)
  close_inbound-IsSound s fd c h = record {
    gateway = unroute-IsFramed s.gateway c.inbound.client_id h.gateway;
    ring = h.ring;
    inbound = store-IsOpen s.inbound_map fd none h.inbound tt;
    outbound = h.outbound;
  }

  entry_closed :
      (s : Server) (fd : ℕ) (entry : Option Connection)
      → IsSound w s
      → IsSound w (elim entry [ none ↦ s | some c ↦ close_inbound s fd c ])
  entry_closed s fd none h = h
  entry_closed s fd (some c) h = close_inbound-IsSound s fd c h

  entry_released :
      (s : Server) (fd : ℕ) (entry : Option Outbound)
      → IsSound w s
      → IsSound w (elim entry [ none ↦ s | some o ↦ condemn_outbound s fd ])
  entry_released s fd none h = h
  entry_released s fd (some o) h = condemn_outbound-IsSound s fd h

  sweep_inbound_at-IsSound : (s : Server) (fd : ℕ) → IsSound w s → IsSound w (sweep_inbound_at s fd)
  unfolding sweep_inbound_at
  sweep_inbound_at-IsSound s fd h = elim (Bool-cases (s.condemned_outbound fd)) [
    | inl c ↦ rw c (entry_closed s fd (s.inbound_map fd) h)
    | inr c ↦ rw c h
  ]

  sweep_outbound_at-IsSound :
      (s : Server) (fd : ℕ) → IsSound w s → IsSound w (sweep_outbound_at s fd)
  unfolding sweep_outbound_at
  sweep_outbound_at-IsSound s fd h = elim (Bool-cases (s.condemned_inbound fd)) [
    | inl c ↦ rw c (entry_released s fd (s.outbound_map fd) h)
    | inr c ↦ rw c h
  ]

  for_fds-IsSound :
      (body : Server → ℕ → Server)
      → ((s : Server) (fd : ℕ) → IsSound w s → IsSound w (body s fd))
      → (n fd : ℕ) (s : Server) → IsSound w s
      → IsSound w (for_fds body fd n s)
  for_fds-IsSound body keeps zero fd s h = h
  for_fds-IsSound body keeps (suc n) fd s h =
      for_fds-IsSound body keeps n (suc fd) (body s fd) (keeps s fd h)

  pub handle_disconnects_inbound-IsSound :
      (s : Server) → IsSound w s → IsSound w (handle_disconnects_inbound s)
  unfolding handle_disconnects_inbound
  handle_disconnects_inbound-IsSound s h =
      for_fds-IsSound sweep_inbound_at sweep_inbound_at-IsSound slot_count 0 s h

  pub handle_disconnects_outbound-IsSound :
      (s : Server) → IsSound w s → IsSound w (handle_disconnects_outbound s)
  unfolding handle_disconnects_outbound
  handle_disconnects_outbound-IsSound s h =
      for_fds-IsSound sweep_outbound_at sweep_outbound_at-IsSound slot_count 0 s h

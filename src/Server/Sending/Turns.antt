-- ===== src/Server/Sending/Turns.antt =====
-- `beginSends` returns, and keeps every connection of the outbound thread valid.
use client_exchange_simulati.Prelude.{
  ℕ, ◌≡◌, refl, inl, inr, Bool-cases, Option, none, some, List, [], ◌∷◌, arith, ltb, ◌==◌, ◌&&◌,
  ◌||◌, not,
}
use client_exchange_simulati.Prelude.Result.{ok, ◌>>=◌, Returns, Returns-bind, Returns-if}
use client_exchange_simulati.RingBuffer.{store}
use client_exchange_simulati.Buffer.{remaining_to_send}
use client_exchange_simulati.Server.Responses.{Outbound, has_pending_outbound}
use client_exchange_simulati.Server.Responses.Frames.{IsOutbound}
use client_exchange_simulati.Server.State.{Server, condemn_outbound}
use client_exchange_simulati.Server.Sending.{
  System, Sending, send_response, fill_buffer, leave, store_sending, end_turn, after_send,
  send_filled, send_turn, send_turns, begin_sends,
}
use client_exchange_simulati.Server.Sending.Progress.{Takes}
use client_exchange_simulati.Server.Sending.Batches.{fill_loop-Returns, send_response-Returns}

-- A connection of the outbound thread is valid, if there is one; its staging ring has RINGBUF_SIZE
-- places.
abbrev pub IsEntry : Option Outbound → Type 0
IsEntry none = Unit {0}
IsEntry (some o) = IsOutbound 6 o

-- Every outbound connection is valid, and what the inbound thread and the rings hold is as it was in
-- the server `s0`.
pub record IsServing (s0 s : Server) : Type 0 where
  pub entries : (fd : ℕ) → IsEntry (s.outbound_map fd)
  pub gateway : s.gateway ≡ s0.gateway
  pub inbound : s.inbound_map ≡ s0.inbound_map
  pub ring : s.out_ring ≡ s0.out_ring

pub store-IsEntry :
    (f : ℕ → Option Outbound) (fd : ℕ) (entry : Option Outbound)
    → ((x : ℕ) → IsEntry (f x))
    → IsEntry entry
    → (x : ℕ) → IsEntry (store f fd entry x)
store-IsEntry f fd entry h new x = elim (Bool-cases (x == fd)) [
  | inl here ↦ rw here new
  | inr other ↦ rw other (h x)
]

module _ (s0 : Server) where
  end_turn-IsServing :
      (s : Server) (fd : ℕ) (o : Outbound) → IsServing s0 s → IsServing s0 (end_turn s fd o)
  end_turn-IsServing s fd o h =
      elim (Bool-cases (
        s.condemned_inbound fd
        || (remaining_to_send o.write_buffer == 0 && not (has_pending_outbound o)))) [
          | inl done ↦ rw done (record {
            entries = h.entries;
            gateway = h.gateway;
            inbound = h.inbound;
            ring = h.ring;
          })
          | inr more ↦ rw more h
        ]

  pub condemned-IsServing :
      (s : Server) (fd : ℕ) → IsServing s0 s → IsServing s0 (condemn_outbound s fd)
  unfolding condemn_outbound
  condemned-IsServing s fd h = record {
    entries = store-IsEntry s.outbound_map fd none h.entries tt;
    gateway = h.gateway;
    inbound = h.inbound;
    ring = h.ring;
  }

  left-IsServing : (s : Server) (fd : ℕ) → IsServing s0 s → IsServing s0 (leave s fd)
  left-IsServing s fd h = record {
    entries = h.entries;
    gateway = h.gateway;
    inbound = h.inbound;
    ring = h.ring;
  }

  pub stored-IsServing :
      (s : Server) (fd : ℕ) (r : Sending)
      → IsServing s0 s
      → IsOutbound 6 r.outbound
      → IsServing s0 (store_sending s fd r)
  stored-IsServing s fd r h v = record {
    entries = store-IsEntry s.outbound_map fd (some r.outbound) h.entries v;
    gateway = h.gateway;
    inbound = h.inbound;
    ring = h.ring;
  }

  after_send-IsServing :
      (s : Server) (fd : ℕ) (r : Sending)
      → IsServing s0 s
      → IsOutbound 6 r.outbound
      → IsServing s0 (after_send s fd r)
  after_send-IsServing s fd r h v =
      let stored = stored-IsServing s fd r h v in
      elim (Bool-cases r.ok_sent) [
        | inl fine ↦ rw fine (end_turn-IsServing (store_sending s fd r) fd r.outbound stored)
        | inr bad ↦ rw bad (
            condemned-IsServing (leave (store_sending s fd r) fd) fd
              (left-IsServing (store_sending s fd r) fd stored))
      ]

  module _ (sys : System) (takes : (fd : ℕ) → Takes (sys.send fd)) where
    send_filled-Returns :
        (s : Server) (fd : ℕ) (o : Outbound)
        → IsServing s0 s
        → IsOutbound 6 o
        → Returns (IsServing s0) (send_filled sys s fd o)
    send_filled-Returns s fd o h v =
        Returns-if (IsServing s0) (ltb 0 (remaining_to_send o.write_buffer)) _ _
          (λ more.
            Returns-bind _ (IsServing s0)
              (send_response sys fd (s.epollout_armed fd) s.latency_handler o) _
              (send_response-Returns 6 sys fd (s.epollout_armed fd) s.latency_handler o v
                (takes fd))
              λ r p. after_send-IsServing s fd r h p.valid)
          λ all.
            end_turn-IsServing (record s { outbound_map = store s.outbound_map fd (some o) }) fd o
              (record {
                entries = store-IsEntry s.outbound_map fd (some o) h.entries v;
                gateway = h.gateway;
                inbound = h.inbound;
                ring = h.ring;
              })

    entry_turn :
        (s : Server) (fd : ℕ) (entry : Option Outbound)
        → IsServing s0 s
        → IsEntry entry
        → Returns (IsServing s0) (elim entry [
          | none ↦ ok (leave s fd)
          | some o ↦ do o' ← fill_buffer o; send_filled sys s fd o'
        ])
    entry_turn s fd none h v = left-IsServing s fd h
    entry_turn s fd (some o) h v =
        Returns-bind _ (IsServing s0) (fill_buffer o) _ (fill_loop-Returns 6 33 o v (omega arith))
          λ o' f. send_filled-Returns s fd o' h f.valid

    send_turn-Returns :
        (s : Server) (fd : ℕ) → IsServing s0 s → Returns (IsServing s0) (send_turn sys s fd)
    unfolding send_turn
    send_turn-Returns s fd h =
        Returns-if (IsServing s0) (s.condemned_inbound fd) _ _ (λ c. left-IsServing s fd h)
          λ live. entry_turn s fd (s.outbound_map fd) h (h.entries fd)

    send_turns-Returns :
        (fds : List ℕ) (s : Server) → IsServing s0 s → Returns (IsServing s0) (send_turns sys fds s)
    unfolding send_turns
    send_turns-Returns [] s h = h
    send_turns-Returns (fd ∷ fds) s h =
        Returns-bind (IsServing s0) (IsServing s0) (send_turn sys s fd) _ (send_turn-Returns s fd h)
          λ s' h'. send_turns-Returns fds s' h'

-- From a server whose outbound connections are valid, `beginSends` returns, whatever `send` answers as
-- long as it takes no more than it is given: no loop runs out of fuel. Every outbound connection is
-- valid afterwards, with one latency entry for each frame since its buffer was last emptied; what the
-- inbound thread owns and the outbound ring are as before.
pub begin_sends-Returns :
    (sys : System) (s : Server)
    → ((fd : ℕ) → IsEntry (s.outbound_map fd))
    → ((fd : ℕ) → Takes (sys.send fd))
    → Returns (IsServing s) (begin_sends sys s)
unfolding begin_sends
begin_sends-Returns sys s h takes =
    send_turns-Returns s sys takes s.writable_fds s
      (record { entries = h; gateway = refl; inbound = refl; ring = refl })

-- ===== src/Server/Closing/Sweeps.antt =====
-- The loops of `handleDisconnectsOutbound` and `handleDisconnectsInbound`, one descriptor at a time.
use client_exchange_simulati.Prelude.{
  ℕ, zero, suc, ◌+◌, ◌<◌, ◌≡◌, refl, sym, ap, ◌∙◌, subst, inl, inr, Bool, true, false, Bool-cases,
  Option, none, some, arith, ltb, leb, ◌==◌, ◌&&◌, ◌||◌, if◌then◌else◌,
}
use client_exchange_simulati.RingBuffer.{store-same}
use client_exchange_simulati.Server.Gateway.{Connection}
use client_exchange_simulati.Server.Responses.{Outbound}
use client_exchange_simulati.Server.State.{
  Server, slot_count, condemn_outbound, close_inbound, sweep_outbound_at, sweep_inbound_at, for_fds,
  handle_disconnects_outbound, handle_disconnects_inbound,
}
use client_exchange_simulati.Server.Closing.{Reachable}
use client_exchange_simulati.Server.Closing.Phases.{is_phase}
use client_exchange_simulati.Server.Closing.Reach.{Reachable-phase}

-- The entries of one descriptor.
pub record Entries : Type 0 where
  pub inbound : Option Connection
  pub outbound : Option Outbound
  pub condemned_inbound : Bool
  pub condemned_outbound : Bool

abbrev pub entries : Server → ℕ → Entries
entries s fd = record {
  inbound = s.inbound_map fd;
  outbound = s.outbound_map fd;
  condemned_inbound = s.condemned_inbound fd;
  condemned_outbound = s.condemned_outbound fd;
}

-- The outbound thread lets go of a connection that the inbound thread has condemned.
abbrev pub let_go : Entries → Entries
let_go e =
    if e.condemned_inbound
    then elim e.outbound [
      | none ↦ e
      | some o ↦ record e { outbound = none; condemned_outbound = true }
    ]
    else e

-- The inbound thread closes a connection that the outbound thread has let go.
abbrev pub close_entries : Entries → Entries
close_entries e =
    if e.condemned_outbound
    then elim e.inbound [
      | none ↦ e
      | some c ↦ record e { inbound = none; condemned_inbound = false; condemned_outbound = false }
    ]
    else e

-- A body changes the entries of its own descriptor, and of no other.
abbrev ChangesOwn : (Server → ℕ → Server) → (Entries → Entries) → Type 0
ChangesOwn body f =
    (s : Server) (fd x : ℕ)
    → entries (body s fd) x ≡ (if x == fd then f (entries s x) else entries s x)

for_fds-entries :
    (body : Server → ℕ → Server) (f : Entries → Entries)
    → ChangesOwn body f
    → (fd n : ℕ) (s : Server) (x : ℕ)
    → entries (for_fds body fd n s) x
      ≡ (if leb fd x && ltb x (fd + n) then f (entries s x) else entries s x)
for_fds-entries body f own fd zero s x =
    let out : (leb fd x && ltb x (fd + 0)) ≡ false = ground arith in rw out refl
for_fds-entries body f own fd (suc n) s x = elim (Bool-cases (x == fd)) [
  | inl here ↦
      let later : (leb (suc fd) x && ltb x (suc fd + n)) ≡ false = ground arith in
      let within : (leb fd x && ltb x (fd + suc n)) ≡ true = ground arith in
      let one : entries (body s fd) x ≡ f (entries s x) = own s fd x ∙ rw here refl in
      for_fds-entries body f own (suc fd) n (body s fd) x ∙ rw (later, within) one
  | inr there ↦
      let one : entries (body s fd) x ≡ entries s x = own s fd x ∙ rw there refl in
      let same : (leb (suc fd) x && ltb x (suc fd + n)) ≡ (leb fd x && ltb x (fd + suc n)) =
        ground arith in
      for_fds-entries body f own (suc fd) n (body s fd) x ∙ rw (same, one) refl
]

-- A body that is right at its own descriptor and leaves the others.
changes_own :
    (body : Server → ℕ → Server) (f : Entries → Entries)
    → ((s : Server) (fd : ℕ) → entries (body s fd) fd ≡ f (entries s fd))
    → ((s : Server) (fd x : ℕ) → (x == fd) ≡ false → entries (body s fd) x ≡ entries s x)
    → ChangesOwn body f
changes_own body f own other s fd x = elim (Bool-cases (x == fd)) [
  | inr off ↦ rw off (other s fd x off)
  | inl on ↦
      let same : fd ≡ x = ground arith in
      rw on (subst (λ y. entries (body s fd) y ≡ f (entries s y)) same (own s fd))
]

abbrev release_if : Server → ℕ → Bool → Option Outbound → Server
release_if s fd c entry = if c then elim entry [ none ↦ s | some o ↦ condemn_outbound s fd ] else s

sweep_outbound_at-entries : ChangesOwn sweep_outbound_at let_go
unfolding sweep_outbound_at condemn_outbound
sweep_outbound_at-entries =
    changes_own sweep_outbound_at let_go
      (λ s fd. own s fd (s.condemned_inbound fd) (s.outbound_map fd))
      (λ s fd x off. other s fd x off (s.condemned_inbound fd) (s.outbound_map fd))
  where
    own :
        (s : Server) (fd : ℕ) (c : Bool) (entry : Option Outbound)
        → entries (release_if s fd c entry) fd ≡ (
            if c
            then elim entry [
              | none ↦ entries s fd
              | some o ↦ record (entries s fd) { outbound = none; condemned_outbound = true }
            ]
            else entries s fd)
    own s fd false entry = refl
    own s fd true none = refl
    own s fd true (some o) =
        rw (store-same s.outbound_map fd none, store-same s.condemned_outbound fd true) refl

    other :
        (s : Server) (fd x : ℕ)
        → (x == fd) ≡ false
        → (c : Bool) (entry : Option Outbound) → entries (release_if s fd c entry) x ≡ entries s x
    other s fd x off false entry = refl
    other s fd x off true none = refl
    other s fd x off true (some o) = rw off refl

abbrev close_if : Server → ℕ → Bool → Option Connection → Server
close_if s fd c entry = if c then elim entry [ none ↦ s | some o ↦ close_inbound s fd o ] else s

sweep_inbound_at-entries : ChangesOwn sweep_inbound_at close_entries
unfolding sweep_inbound_at
sweep_inbound_at-entries =
    changes_own sweep_inbound_at close_entries
      (λ s fd. own s fd (s.condemned_outbound fd) (s.inbound_map fd))
      (λ s fd x off. other s fd x off (s.condemned_outbound fd) (s.inbound_map fd))
  where
    own :
        (s : Server) (fd : ℕ) (c : Bool) (entry : Option Connection)
        → entries (close_if s fd c entry) fd ≡ (
            if c
            then elim entry [
              | none ↦ entries s fd
              | some o ↦ record (entries s fd) {
                inbound = none;
                condemned_inbound = false;
                condemned_outbound = false;
              }
            ]
            else entries s fd)
    own s fd false entry = refl
    own s fd true none = refl
    own s fd true (some o) =
        rw
          (
            store-same s.inbound_map fd none,
            store-same s.condemned_inbound fd false,
            store-same s.condemned_outbound fd false,
          )
          refl

    other :
        (s : Server) (fd x : ℕ)
        → (x == fd) ≡ false
        → (c : Bool) (entry : Option Connection) → entries (close_if s fd c entry) x ≡ entries s x
    other s fd x off false entry = refl
    other s fd x off true none = refl
    other s fd x off true (some o) = rw off refl

swept :
    (body : Server → ℕ → Server) (f : Entries → Entries)
    → ChangesOwn body f
    → (s : Server) (x : ℕ) → x < slot_count
    → entries (for_fds body 0 slot_count s) x ≡ f (entries s x)
swept body f own s x h =
    let within : (leb 0 x && ltb x (0 + slot_count)) ≡ true = ground arith in
    for_fds-entries body f own 0 slot_count s x ∙ rw within refl

-- A closed descriptor
abbrev pub vacant : Entries
vacant = record {
  inbound = none;
  outbound = none;
  condemned_inbound = false;
  condemned_outbound = false;
}

closed_lem :
    (c : Connection) (o : Option Outbound) (ci co : Bool)
    → is_phase (some c) o co ≡ true
    → (ci || co) ≡ true
    → close_entries (
        let_go (record {
          inbound = some c;
          outbound = o;
          condemned_inbound = ci;
          condemned_outbound = co;
        }))
      ≡ vacant
closed_lem c none true true p e = refl
closed_lem c none false true p e = refl
closed_lem c none ci false p e = ground arith
closed_lem c (some o) true false p e = refl
closed_lem c (some o) false false p e = ground arith
closed_lem c (some o) ci true p e = ground arith

-- From every state that the threads reach, a connection below MAX_CLIENTS + 10 that one of the threads
-- has condemned is closed by one `handleDisconnectsOutbound` and then one `handleDisconnectsInbound`:
-- neither thread holds it, and both of its flags are down.
pub two_sweeps-close :
    (s : Server) (fd : ℕ) (c : Connection)
    → Reachable s
    → fd < slot_count
    → s.inbound_map fd ≡ some c
    → (s.condemned_inbound fd || s.condemned_outbound fd) ≡ true
    → entries (handle_disconnects_inbound (handle_disconnects_outbound s)) fd ≡ vacant
unfolding handle_disconnects_inbound handle_disconnects_outbound
two_sweeps-close s fd c reached h held e =
    swept sweep_inbound_at close_entries sweep_inbound_at-entries
      (for_fds sweep_outbound_at 0 slot_count s) fd h
    ∙ ap close_entries (swept sweep_outbound_at let_go sweep_outbound_at-entries s fd h)
    ∙ ap
        (λ i. close_entries (
          let_go (record {
            inbound = i;
            outbound = s.outbound_map fd;
            condemned_inbound = s.condemned_inbound fd;
            condemned_outbound = s.condemned_outbound fd;
          })))
        held
    ∙ closed_lem c (s.outbound_map fd) (s.condemned_inbound fd) (s.condemned_outbound fd)
        (ap (λ i. is_phase i (s.outbound_map fd) (s.condemned_outbound fd)) (sym held)
          ∙ Reachable-phase s reached fd)
        e

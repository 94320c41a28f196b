-- ===== src/Server/Routing/Delivery.antt =====
-- Every message of the outbound ring is pushed at the connection of its client, in order.
use client_exchange_simulati.Prelude.{
  ℕ, zero, suc, ◌<◌, ◌≡◌, refl, sym, ap, ◌∙◌, subst, inl, inr, Bool, true, false, Bool-cases,
  Option, none, some, List, [], ◌∷◌, arith, length, ◌==◌, if◌then◌else◌,
}
use client_exchange_simulati.Prelude.Result.{Returns, Returns-weaken}
use client_exchange_simulati.RingBuffer
use client_exchange_simulati.RingBuffer.{store}
use client_exchange_simulati.RingBuffer.Inv.{IsValid, pop-IsValid}
use client_exchange_simulati.RingBuffer.Refine.{contents, pop-nil, pop-cons, size_lem}
use client_exchange_simulati.Wire.{OutboundMessage}
use client_exchange_simulati.Server.Gateway.{Gateway}
use client_exchange_simulati.Server.Responses.{Outbound, push_outbound}
use client_exchange_simulati.Server.State.{Server}
use client_exchange_simulati.Server.Routing.{resolve, stage, deliver_to, route_loop, route_messages}

-- Whether a destination is this descriptor.
abbrev pub is_fd : ℕ → Option ℕ → Bool
is_fd fd none = false
is_fd fd (some x) = x == fd

-- The messages whose client is at this descriptor, in order.
abbrev pub addressed : Gateway → ℕ → List OutboundMessage → List OutboundMessage
addressed g fd [] = []
addressed g fd (m ∷ ms) =
    if is_fd fd (resolve g m) then m ∷ addressed g fd ms else addressed g fd ms

-- Some messages, staged one after the other.
abbrev pub push_all : Outbound → List OutboundMessage → Outbound
push_all o [] = o
push_all o (m ∷ ms) = push_all (push_outbound o m) ms

-- What becomes of a connection when these messages are for it: nothing if it is condemned or gone.
abbrev pub staged : Bool → Option Outbound → List OutboundMessage → Option Outbound
staged true entry ms = entry
staged false none ms = none
staged false (some o) ms = some (push_all o ms)

-- The connections after the messages `ms` were routed; what the inbound thread owns is as before.
pub record Routed (s : Server) (ms : List OutboundMessage) (s' : Server) : Type 0 where
  pub outbound :
      (fd : ℕ)
      → s'.outbound_map fd
        ≡ staged (s.condemned_inbound fd) (s.outbound_map fd) (addressed s.gateway fd ms)
  pub gateway : s'.gateway ≡ s.gateway
  pub inbound : s'.inbound_map ≡ s.inbound_map
  pub condemned : s'.condemned_inbound ≡ s.condemned_inbound

pub staged-nil : (c : Bool) (o : Option Outbound) → staged c o [] ≡ o
staged-nil true o = refl
staged-nil false none = refl
staged-nil false (some o) = refl

staged-cons :
    (c : Bool) (entry : Option Outbound) (m : OutboundMessage) (ms : List OutboundMessage)
    → staged c (staged c entry (m ∷ [])) ms ≡ staged c entry (m ∷ ms)
staged-cons true entry m ms = refl
staged-cons false none m ms = refl
staged-cons false (some o) m ms = refl

-- One message changes the connection it is for.
unfoldable pub one_staged : Bool → Option Outbound → Bool → OutboundMessage → Option Outbound
one_staged c entry true m = staged c entry (m ∷ [])
one_staged c entry false m = entry

stage-outbound :
    (s : Server) (fd : ℕ) (entry : Option Outbound) (m : OutboundMessage)
    → s.outbound_map fd ≡ entry
    → s.condemned_inbound fd ≡ false
    → (x : ℕ)
    → (stage s fd entry m).outbound_map x
      ≡ one_staged (s.condemned_inbound x) (s.outbound_map x) (fd == x) m
unfolding one_staged
stage-outbound s fd none m e c x = elim (Bool-cases (fd == x)) [
  | inr other ↦ rw other refl
  | inl here ↦
      let same : fd ≡ x = ground arith in
      let cx = ap s.condemned_inbound (sym same) ∙ c in
      let ex = ap s.outbound_map (sym same) ∙ e in rw here (rw (cx, ex) refl)
]
stage-outbound s fd (some o) m e c x = elim (Bool-cases (fd == x)) [
  | inr other ↦ let off : (x == fd) ≡ false = ground arith in rw (other, off) refl
  | inl here ↦
      let same : fd ≡ x = ground arith in
      let on : (x == fd) ≡ true = ground arith in
      let cx = ap s.condemned_inbound (sym same) ∙ c in
      let ex = ap s.outbound_map (sym same) ∙ e in rw (here, on) (rw (cx, ex) refl)
]

-- The effect of one delivery, with the destination known.
pub record Delivered (s : Server) (m : OutboundMessage) (to : Option ℕ) (s' : Server) : Type 0 where
  pub outbound :
      (x : ℕ)
      → s'.outbound_map x ≡ one_staged (s.condemned_inbound x) (s.outbound_map x) (is_fd x to) m
  pub gateway : s'.gateway ≡ s.gateway
  pub inbound : s'.inbound_map ≡ s.inbound_map
  pub condemned : s'.condemned_inbound ≡ s.condemned_inbound
  pub ring : s'.out_ring ≡ s.out_ring

stage-Delivered :
    (s : Server) (fd : ℕ) (entry : Option Outbound) (m : OutboundMessage)
    → s.outbound_map fd ≡ entry
    → s.condemned_inbound fd ≡ false
    → Delivered s m (some fd) (stage s fd entry m)
stage-Delivered s fd none m e c = record {
  outbound = stage-outbound s fd none m e c;
  gateway = refl;
  inbound = refl;
  condemned = refl;
  ring = refl;
}
stage-Delivered s fd (some o) m e c = record {
  outbound = stage-outbound s fd (some o) m e c;
  gateway = refl;
  inbound = refl;
  condemned = refl;
  ring = refl;
}

condemned_staged :
    (s : Server) (fd : ℕ) (m : OutboundMessage) (x : ℕ)
    → s.condemned_inbound fd ≡ true
    → s.outbound_map x ≡ one_staged (s.condemned_inbound x) (s.outbound_map x) (fd == x) m
unfolding one_staged
condemned_staged s fd m x c = elim (Bool-cases (fd == x)) [
  | inr other ↦ rw other refl
  | inl here ↦
      let same : fd ≡ x = ground arith in
      let cx = ap s.condemned_inbound (sym same) ∙ c in rw here (rw cx refl)
]

pub deliver_to-Delivered :
    (s : Server) (m : OutboundMessage) (to : Option ℕ) → Delivered s m to (deliver_to s m to)
unfolding deliver_to one_staged
deliver_to-Delivered s m none = record {
  outbound = λ x. refl;
  gateway = refl;
  inbound = refl;
  condemned = refl;
  ring = refl;
}
deliver_to-Delivered s m (some fd) = elim (Bool-cases (s.condemned_inbound fd)) [
  | inl c ↦ rw c (record {
    outbound = λ x. condemned_staged s fd m x c;
    gateway = refl;
    inbound = refl;
    condemned = refl;
    ring = refl;
  })
  | inr live ↦ rw live (stage-Delivered s fd (s.outbound_map fd) m refl live)
]

pub one_staged-cons :
    (c : Bool) (entry : Option Outbound) (hit : Bool) (m : OutboundMessage)
    (ms : List OutboundMessage)
    → staged c (one_staged c entry hit m) ms ≡ staged c entry (if hit then m ∷ ms else ms)
unfolding one_staged
one_staged-cons c entry true m ms = staged-cons c entry m ms
one_staged-cons c entry false m ms = refl

Routed-cons :
    {s s' s'' : Server} {m : OutboundMessage} {ms : List OutboundMessage}
    → Delivered s m (resolve s.gateway m) s'
    → Routed s' ms s''
    → Routed s (m ∷ ms) s''
Routed-cons {s} {s'} {s''} {m} {ms} d r = record {
  outbound = λ fd.
      r.outbound fd
      ∙ ap (λ c. staged (c fd) (s'.outbound_map fd) (addressed s'.gateway fd ms)) d.condemned
      ∙ ap (λ o. staged (s.condemned_inbound fd) o (addressed s'.gateway fd ms)) (d.outbound fd)
      ∙ ap
          (λ g.
            staged (s.condemned_inbound fd)
              (one_staged (s.condemned_inbound fd) (s.outbound_map fd)
                (is_fd fd (resolve s.gateway m)) m)
              (addressed g fd ms))
          d.gateway
      ∙ one_staged-cons (s.condemned_inbound fd) (s.outbound_map fd)
          (is_fd fd (resolve s.gateway m)) m (addressed s.gateway fd ms);
  gateway = r.gateway ∙ d.gateway;
  inbound = r.inbound ∙ d.inbound;
  condemned = r.condemned ∙ d.condemned;
}

-- The state after one more `pop`.
abbrev popped : Server → Server
popped s = record s { out_ring = (RingBuffer.pop s.out_ring).1 }

Routed-popped :
    {s s' : Server} {ms : List OutboundMessage} → Routed (popped s) ms s' → Routed s ms s'
Routed-popped r = record {
  outbound = r.outbound;
  gateway = r.gateway;
  inbound = r.inbound;
  condemned = r.condemned;
}

Routed-refl : (s : Server) → Routed s [] s
Routed-refl s = record {
  outbound = λ fd. sym (staged-nil (s.condemned_inbound fd) (s.outbound_map fd));
  gateway = refl;
  inbound = refl;
  condemned = refl;
}

-- The ring is valid and empty at the end, and the messages are where they belong.
AllRouted : ℕ → Server → List OutboundMessage → Server → Type 0
AllRouted width s ms s' = (contents s'.out_ring ≡ []) × Routed s ms s' × IsValid width s'.out_ring

route_loop-Returns :
    (fuel : ℕ) (q : List OutboundMessage) {width : ℕ} (s : Server) (cur : OutboundMessage)
    (to : Option ℕ)
    → IsValid width s.out_ring
    → contents s.out_ring ≡ q
    → length q < fuel
    → to ≡ resolve s.gateway cur
    → Returns (AllRouted width s (cur ∷ q)) (route_loop fuel s cur to)
unfolding route_loop AllRouted
route_loop-Returns zero q s cur to v c n e = absurd (omega arith)
route_loop-Returns (suc fuel) [] {width = width} s cur to v c n e =
    let d = deliver_to-Delivered (popped s) cur to in
    rw (Returns, (pop-nil v c).0)
      (
        ap contents d.ring ∙ (pop-nil v c).1,
        Routed-popped (
            Routed-cons (subst (λ t. Delivered (popped s) cur t (deliver_to (popped s) cur to)) e d)
              (Routed-refl _)),
        subst (IsValid width) (sym d.ring) (pop-IsValid v),
      )
route_loop-Returns (suc fuel) (m ∷ ms) s cur to v c n e =
    let d = deliver_to-Delivered (popped s) cur to in
    let s' = deliver_to (popped s) cur to in
    rw (Returns, (pop-cons v c).0)
      (Returns-weaken (AllRouted _ s' (m ∷ ms)) _ _
        (route_loop-Returns fuel ms s' m (resolve s.gateway m)
          (subst (IsValid _) (sym d.ring) (pop-IsValid v)) (ap contents d.ring ∙ (pop-cons v c).1)
          (omega arith) (ap (λ g. resolve g m) (sym d.gateway)))
        λ s'' r. (
          r.0,
          Routed-popped (Routed-cons (subst (λ t. Delivered (popped s) cur t s') e d) r.1),
          r.2,
        ))

routed_from :
    {width : ℕ} (s : Server) (q : List OutboundMessage)
    → IsValid width s.out_ring
    → contents s.out_ring ≡ q
    → Returns (AllRouted width s q) (route_messages s)
unfolding route_messages AllRouted
routed_from s [] v c =
    rw (Returns, (pop-nil v c).0) ((pop-nil v c).1, Routed-popped (Routed-refl _), pop-IsValid v)
routed_from s (m ∷ ms) v c =
    rw (Returns, (pop-cons v c).0)
      (Returns-weaken (AllRouted _ (popped s) (m ∷ ms)) _ _
        (route_loop-Returns (suc s.out_ring.mask) ms (popped s) m (resolve s.gateway m)
          (pop-IsValid v) (pop-cons v c).1 (omega (arith, size_lem v, ap length c)) refl)
        λ s' r. (r.0, Routed-popped r.1, r.2))

-- From a valid outbound ring, the routing of its messages returns within its fuel and empties the
-- ring, which stays valid. Each connection has the messages of its clients pushed to its staging ring, in
-- the order of the outbound ring, whether or not there is room, unless it is condemned or gone; a message whose client has no connection goes nowhere. What the
-- inbound thread owns is as before.
pub route_messages-Returns :
    {width : ℕ} (s : Server)
    → IsValid width s.out_ring
    → Returns
        (λ s'.
          (contents s'.out_ring ≡ [])
          × Routed s (contents s.out_ring) s'
          × IsValid width s'.out_ring)
        (route_messages s)
unfolding AllRouted
route_messages-Returns s v = routed_from s (contents s.out_ring) v refl

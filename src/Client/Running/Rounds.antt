-- ===== src/Client/Running/Rounds.antt =====
-- Every round of `run` keeps the pipeline of a client.
use client_exchange_simulati.Prelude.{
  ℕ, ◌≡◌, refl, ap, inl, inr, true, false, ◌&&◌, not, Bool-cases, Option, none, some, List, [], ◌∷◌,
  arith, leb, if◌then◌else◌,
}
use client_exchange_simulati.Prelude.Result.{ok, Returns, Returns-bind, Returns-if}
use client_exchange_simulati.Buffer.Reading.{Fits}
use client_exchange_simulati.Server.Sending.Progress.{Takes}
use client_exchange_simulati.Server.Connecting.{Reader}
use client_exchange_simulati.Client.Factory.Roundtrip.{IsLeft}
use client_exchange_simulati.Client.State.{is_held, Client, Connecting, new_client}
use client_exchange_simulati.Client.Sending.{Outside}
use client_exchange_simulati.Client.Pipeline.{
  IsOpen, IsClosed, IsPipelined, reconnect-IsPipelined, connect_client-IsPipelined,
}
use client_exchange_simulati.Client.Pipeline.Filling.{
  flush_write-Returns, build_batch-Returns, handle_connect-Returns,
}
use client_exchange_simulati.Client.Pipeline.Answers.{handle_readable-Returns}
use client_exchange_simulati.Client.Running.{
  Event, has_fd, on_readable, on_writable, handle_client_event, reconnect_due, is_blocked, unblock,
  Round, client_rounds, on_event, client_round,
}

-- What is taken for granted of the system: `send` takes no more than it is given, and the bytes that the
-- code leaves open in a frame have their sizes.
pub record IsOutside (w : Outside) : Type 0 where
  pub left : (k : ℕ) → IsLeft (w.leftover k)
  pub takes : Takes w.send

-- The same of a round, where `recv` keeps to the room it is given.
pub record IsRound (r : Round) : Type 0 where
  pub first : IsOutside r.first
  pub second : IsOutside r.second
  pub fits : Fits (λ k. (r.net 0 k).bytes)
  pub last : IsOutside r.last

still-IsOpen : (cs : Client) → IsPipelined cs → has_fd cs ≡ true → IsOpen cs
still-IsOpen cs (inl v) e = v
still-IsOpen cs (inr c) e = absurd (ground (arith, ap is_held c.no_fd, e))

module _ (w w' : Outside) (o : IsOutside w) (o' : IsOutside w') (net : Reader)
    (fits : Fits (λ k. (net 0 k).bytes)) (ev : Event) where
  on_readable-Returns : (cs : Client) → IsOpen cs → Returns IsPipelined (on_readable w' net ev cs)
  on_readable-Returns cs v =
      Returns-if IsPipelined ev.readable _ _
        (λ e. handle_readable-Returns w' net cs v fits o'.left o'.takes) λ e. inl v

  on_writable-Returns : (cs : Client) → IsOpen cs → Returns IsPipelined (on_writable w ev cs)
  unfolding on_writable
  on_writable-Returns cs v =
      Returns-if IsPipelined cs.connecting _ _
        (λ e. handle_connect-Returns w ev.refused cs v o.left o.takes)
        λ e. flush_write-Returns w cs v o.takes

  handle_client_event-Returns :
      (cs : Client) → IsOpen cs → Returns IsPipelined (handle_client_event w w' net ev cs)
  unfolding handle_client_event
  handle_client_event-Returns cs v =
      Returns-if IsPipelined ev.hung_up _ _ (λ e. reconnect-IsPipelined w.reconnect_now cs v)
        λ e.
          Returns-if IsPipelined ev.writable _ _
            (λ e'.
              Returns-bind IsPipelined IsPipelined (on_writable w ev cs) _
                (on_writable-Returns cs v)
                λ cs' v'.
                  Returns-if IsPipelined (has_fd cs') _ _
                    (λ there. on_readable-Returns cs' (still-IsOpen cs' v' there)) λ gone. v')
            λ e'. on_readable-Returns cs v

still-IsClosed : (cs : Client) → IsPipelined cs → has_fd cs ≡ false → IsClosed cs
still-IsClosed cs (inl v) e = absurd (ground (arith, v.held, e))
still-IsClosed cs (inr c) e = c

reconnect_due-IsPipelined :
    (after : ℕ) (a : Connecting) (cs : Client)
    → IsPipelined cs
    → IsPipelined (reconnect_due after a cs)
unfolding reconnect_due
reconnect_due-IsPipelined after a cs v =
    elim (Bool-cases (not (has_fd cs) && leb cs.reconnect_at_ns after)) [
      | inr early ↦ rw early v
      | inl due ↦
          let gone : has_fd cs ≡ false = ground (arith, due) in
          rw due (connect_client-IsPipelined a cs (still-IsClosed cs v gone))
    ]

unblock-Returns :
    (w : Outside) (cs : Client) → IsOutside w → IsPipelined cs → Returns IsPipelined (unblock w cs)
unfolding unblock
unblock-Returns w cs o v =
    Returns-if IsPipelined (is_blocked w cs) _ _
      (λ e. build_batch-Returns w cs (still-IsOpen cs v (ground (arith, e))) o.left o.takes) λ e. v

on_event-Returns :
    (r : Round) (cs : Client) → IsRound r → IsPipelined cs → Returns IsPipelined (on_event r cs)
unfolding on_event
on_event-Returns r cs o v = go r.event
  where
    go :
        (event : Option Event)
        → Returns IsPipelined (elim event [
          | none ↦ ok cs
          | some ev ↦ if has_fd cs then handle_client_event r.first r.second r.net ev cs else ok cs
        ])
    go none = v
    go (some ev) =
        Returns-if IsPipelined (has_fd cs) _ _
          (λ there.
            handle_client_event-Returns r.first r.second o.first o.second r.net o.fits ev cs
              (still-IsOpen cs v there))
          λ gone. v

client_round-Returns :
    (r : Round) (cs : Client) → IsRound r → IsPipelined cs → Returns IsPipelined (client_round r cs)
unfolding client_round
client_round-Returns r cs o v =
    Returns-bind IsPipelined IsPipelined (on_event r cs) _ (on_event-Returns r cs o v) λ cs' v'.
      unblock-Returns r.last (reconnect_due r.after r.connecting cs') o.last
        (reconnect_due-IsPipelined r.after r.connecting cs' v')

abbrev pub AllRounds : List Round → Type 0
AllRounds [] = Unit {0}
AllRounds (r ∷ rs) = IsRound r × AllRounds rs

rounds_from :
    (rs : List Round) (cs : Client)
    → AllRounds rs
    → IsPipelined cs
    → Returns IsPipelined (client_rounds rs cs)
unfolding client_rounds
rounds_from [] cs a v = v
rounds_from (r ∷ rs) cs a v =
    Returns-bind IsPipelined IsPipelined (client_round r cs) _ (client_round-Returns r cs a.0 v)
      λ cs' v'. rounds_from rs cs' a.1 v'

new_client-IsPipelined : (cid : ℕ) → IsPipelined (new_client cid)
new_client-IsPipelined cid = inr (record {
  no_fd = refl;
  none_pending = refl;
  none_counted = refl;
  buffers = record {
    stored = omega arith;
    reading = record { off_in = omega arith; len_in = omega arith };
    writing = record { written_in = omega arith; len_in = omega arith };
    front = refl;
  };
})

-- From a new client, any rounds of `run` return, whatever the exchange sends and the system answers, as
-- long as `recv` and `send` keep to the room and the bytes they are given and the bytes that the code
-- leaves open in a frame have their sizes. With a connection the client then has at most 32 requests in
-- flight, which its counter and its ring of sent types agree on; without one it has none.
pub client_rounds-Returns :
    (cid : ℕ) (rs : List Round)
    → AllRounds rs
    → Returns IsPipelined (client_rounds rs (new_client cid))
client_rounds-Returns cid rs a = rounds_from rs (new_client cid) a (new_client-IsPipelined cid)

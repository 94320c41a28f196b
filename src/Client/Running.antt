-- ===== src/Client/Running.antt =====
-- A round of `run` of client/src/load_generator.cpp for one client: its event, the reconnection that is
-- due, and the request whose time has come.
pub mod Rounds
pub mod Deadlines
use client_exchange_simulati.Prelude.{
  ℕ, Bool, true, false, ◌&&◌, not, Option, none, some, ltb, leb, ◌==◌, List, [], ◌∷◌, if◌then◌else◌,
}
use client_exchange_simulati.Prelude.Result.{Result, ok, err, ◌>>=◌}
use client_exchange_simulati.Buffer.{unread_length}
use client_exchange_simulati.Server.Connecting.{Reader}
use client_exchange_simulati.Client.State.{
  Client, is_held, client_depth, reconnect, Connecting, connect_client,
}
use client_exchange_simulati.Client.Sending.{Outside, flush_write, build_batch, handle_connect}
use client_exchange_simulati.Client.Receiving.{handle_readable}

-- What `epoll_wait` reports of a client, and whether SO_ERROR is set on its socket.
pub record Event : Type 0 where
  pub hung_up : Bool
  pub writable : Bool
  pub readable : Bool
  pub refused : Bool

abbrev pub has_fd : Client → Bool
has_fd cs = is_held cs.fd

abbrev pub on_readable : Outside → Reader → Event → Client → Result Client
on_readable w net ev cs = if ev.readable then handle_readable w net cs else ok cs

unfoldable pub on_writable : Outside → Event → Client → Result Client
on_writable w ev cs = if cs.connecting then handle_connect w ev.refused cs else flush_write w cs

-- The body of the loop over the events. What the handlers take from outside is first for a socket that
-- is writable or hung up, and then for one that is readable.
unfoldable pub handle_client_event : Outside → Outside → Reader → Event → Client → Result Client
handle_client_event w w' net ev cs =
    if ev.hung_up
    then ok (reconnect w.reconnect_now cs)
    else if ev.writable
    then (do cs' ← on_writable w ev cs; if has_fd cs' then on_readable w' net ev cs' else ok cs')
    else on_readable w' net ev cs

-- `if (cs.fd == -1 && after >= cs.reconnect_at_ns) connectClient(cs);`
unfoldable pub reconnect_due : ℕ → Connecting → Client → Client
reconnect_due after a cs =
    if not (has_fd cs) && leb cs.reconnect_at_ns after then (connect_client a cs).1 else cs

abbrev pub is_blocked : Outside → Client → Bool
is_blocked w cs =
    ltb 0 w.inter_arrival_ns
    && (has_fd cs
        && (not cs.connecting
            && (ltb cs.acks_pending client_depth && unread_length cs.write_buf == 0)))

unfoldable pub unblock : Outside → Client → Result Client
unblock w cs = if is_blocked w cs then build_batch w cs else ok cs

-- What a round of `run` brings for a client. There are no events of a client without a connection.
pub record Round : Type 0 where
  pub first : Outside
  pub second : Outside
  pub net : Reader
  pub event : Option Event
  pub after : ℕ
  pub connecting : Connecting
  pub last : Outside

unfoldable pub on_event : Round → Client → Result Client
on_event r cs = elim r.event [
  | none ↦ ok cs
  | some ev ↦ if has_fd cs then handle_client_event r.first r.second r.net ev cs else ok cs
]

unfoldable pub client_round : Round → Client → Result Client
client_round r cs = do cs' ← on_event r cs; unblock r.last (reconnect_due r.after r.connecting cs')

-- The rounds of a run
unfoldable pub client_rounds : List Round → Client → Result Client
client_rounds [] cs = ok cs
client_rounds (r ∷ rs) cs = do cs' ← client_round r cs; client_rounds rs cs'

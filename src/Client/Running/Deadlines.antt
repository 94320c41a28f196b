-- ===== src/Client/Running/Deadlines.antt =====
-- How long `run` of client/src/load_generator.cpp lets `epoll_wait` sleep.
use client_exchange_simulati.Prelude.{
  ℕ, ◌+◌, ◌-◌, ◌*◌, ◌/◌, ◌%◌, ◌^◌, min, ◌≤◌, ◌<◌, ◌≡◌, refl, inl, inr, Bool-cases, false, ◌&&◌, not,
  Option, none, some, List, [], ◌∷◌, arith, ltb, leb, ◌==◌, if◌then◌else◌,
}
use client_exchange_simulati.Buffer.{unread_length}
use client_exchange_simulati.Client.State.{Client, client_depth}
use client_exchange_simulati.Client.Running.{has_fd}

-- `UINT64_MAX`
abbrev pub no_deadline : ℕ
no_deadline = 2 ^ 64 - 1

-- The deadline of a client, with `inter_arrival_ns_`, if it has one.
unfoldable pub deadline : ℕ → Client → Option ℕ
deadline inter_arrival cs =
    if not (has_fd cs)
    then some cs.reconnect_at_ns
    else if ltb 0 inter_arrival
        && (not cs.connecting
            && (ltb cs.acks_pending client_depth && unread_length cs.write_buf == 0))
    then some cs.next_send_ns
    else none

abbrev pub sooner : ℕ → Option ℕ → ℕ
sooner m none = m
sooner m (some d) = min m d

-- The loop over the clients
unfoldable pub min_deadline : ℕ → ℕ → List Client → ℕ
min_deadline inter_arrival m [] = m
min_deadline inter_arrival m (cs ∷ rest) =
    min_deadline inter_arrival (sooner m (deadline inter_arrival cs)) rest

-- The order of `int64_t`, on the values of a `uint64_t` that are cast to it.
abbrev pub biased : ℕ → ℕ
biased x = (x + 2 ^ 63) % 2 ^ 64

-- `timeout_ms`; `none` is -1. The cast to `int` keeps 32 bits.
unfoldable pub timeout_ms : ℕ → ℕ → Option ℕ
timeout_ms now d =
    if d == no_deadline
    then none
    else some
        (if leb (biased d) (biased now) then 0 else (biased d - biased now) / 1_000_000 % 2 ^ 32)

-- A deadline that is not past half of `uint64_t`, and less than 2^31 milliseconds after the clock.
abbrev pub Near : ℕ → Option ℕ → Type 0
Near now none = Unit {0}
Near now (some d) = (d < 2 ^ 63) × (d < now + 2 ^ 31 * 1_000_000)

abbrev pub AllNear : ℕ → ℕ → List Client → Type 0
AllNear now inter_arrival [] = Unit {0}
AllNear now inter_arrival (cs ∷ rest) =
    Near now (deadline inter_arrival cs) × AllNear now inter_arrival rest

-- A sleep of so many milliseconds, or one without end, does not pass the deadline.
abbrev pub Kept : ℕ → Option ℕ → Option ℕ → Type 0
Kept now sleep none = Unit {0}
Kept now none (some d) = ⊥
Kept now (some t) (some d) = (t < 2 ^ 31) × (t * 1_000_000 ≤ d - now)

abbrev pub AllKept : ℕ → ℕ → Option ℕ → List Client → Type 0
AllKept now inter_arrival sleep [] = Unit {0}
AllKept now inter_arrival sleep (cs ∷ rest) =
    Kept now sleep (deadline inter_arrival cs) × AllKept now inter_arrival sleep rest

-- No client has a deadline.
abbrev pub AllIdle : ℕ → List Client → Type 0
AllIdle inter_arrival [] = Unit {0}
AllIdle inter_arrival (cs ∷ rest) = (deadline inter_arrival cs ≡ none) × AllIdle inter_arrival rest

sooner-le : (m : ℕ) (entry : Option ℕ) → sooner m entry ≤ m
sooner-le m none = omega arith
sooner-le m (some d) = omega arith

-- One deadline that the least one is not after.
timeout-Kept :
    (now m d : ℕ) → now < 2 ^ 63 → m ≤ d → Near now (some d) → Kept now (timeout_ms now m) (some d)
unfolding timeout_ms
timeout-Kept now m d h le n =
    let some_left : (m == no_deadline) ≡ false = ground (arith, n.0) in
    let bm : biased m ≡ m + 2 ^ 63 = omega (arith, n.0) in
    let bn : biased now ≡ now + 2 ^ 63 = omega arith in
    rw (some_left, bm, bn)
      (elim (Bool-cases (leb (m + 2 ^ 63) (now + 2 ^ 63))) [
        | inl due ↦ rw due (omega arith, omega arith)
        | inr later ↦
            let after : now < m = ground arith in
            let short : (m - now) / 1_000_000 < 2 ^ 31 = omega (arith, n.1) in
            rw later (omega (arith, short), omega (arith, short))
      ])

-- The least deadline is not after any of them.
min_deadline-le : (k m : ℕ) (clients : List Client) → min_deadline k m clients ≤ m
unfolding min_deadline
min_deadline-le k m [] = omega arith
min_deadline-le k m (cs ∷ rest) =
    let later = min_deadline-le k (sooner m (deadline k cs)) rest in
    omega (arith, later, sooner-le m (deadline k cs))

entry-Kept :
    (now k m : ℕ) (entry : Option ℕ) (rest : List Client)
    → now < 2 ^ 63
    → Near now entry
    → Kept now (timeout_ms now (min_deadline k (sooner m entry) rest)) entry
entry-Kept now k m none rest h n = tt
entry-Kept now k m (some d) rest h n =
    timeout-Kept now (min_deadline k (min m d) rest) d h
      (omega (arith, min_deadline-le k (min m d) rest)) n

all-Kept :
    (now k m : ℕ) (clients : List Client)
    → now < 2 ^ 63
    → AllNear now k clients
    → AllKept now k (timeout_ms now (min_deadline k m clients)) clients
unfolding min_deadline
all-Kept now k m [] h n = tt
all-Kept now k m (cs ∷ rest) h n = (
  entry-Kept now k m (deadline k cs) rest h n.0,
  all-Kept now k (sooner m (deadline k cs)) rest h n.1,
)

idle_lem :
    (now k : ℕ) (clients : List Client)
    → AllIdle k clients
    → timeout_ms now (min_deadline k no_deadline clients) ≡ none
unfolding min_deadline timeout_ms
idle_lem now k [] i = refl
idle_lem now k (cs ∷ rest) i = rw i.0 (idle_lem now k rest i.1)

-- If the clock and the deadlines are below 2^63 ns, and the deadlines less than 2^31 ms after the clock,
-- `epoll_wait` sleeps no longer than to the deadline of any client: `timeout_ms` is then not negative if
-- a client has a deadline, and passes none of them; it is -1 if no client has one.
pub timeout_ms-Kept :
    (now inter_arrival : ℕ) (clients : List Client)
    → now < 2 ^ 63
    → AllNear now inter_arrival clients
    → let sleep = timeout_ms now (min_deadline inter_arrival no_deadline clients) in
      AllKept now inter_arrival sleep clients × (AllIdle inter_arrival clients → sleep ≡ none)
timeout_ms-Kept now k clients h n = (all-Kept now k no_deadline clients h n, idle_lem now k clients)

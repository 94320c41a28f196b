-- ===== src/Engine/Orderbook/Good.antt =====
-- What keeps a book well formed and uncrossed: the parts of `process`.
use client_exchange_simulati.Prelude.{
  ℕ, ◌≡◌, ◌≢◌, refl, ◌⊎◌, inl, inr, Bool, true, ◌&&◌, some, arith, ◌==◌, Bool-cases,
}
use client_exchange_simulati.Prelude.Result.{Returns, Returns-bind, Returns-weaken}
use client_exchange_simulati.Wire.{bid, ask, market}
use client_exchange_simulati.Engine.Order.{OrderRequest}
use client_exchange_simulati.Engine.Levels.{list_levels}
use client_exchange_simulati.Engine.Orderbook.State.{in_ladder, order_at, set_order}
use client_exchange_simulati.Engine.Orderbook.Matching.{match_orders, match_market}
use client_exchange_simulati.Engine.Orderbook.Requests.{
  add_limit, add_order, cancel_order, modify_order, stamp_order,
}
use client_exchange_simulati.Engine.Orderbook.Orders.{find}
use client_exchange_simulati.Engine.Orderbook.Invariant.{
  Book, IsBook, IsUncrossed, Shrinks-IsUncrossed,
}
use client_exchange_simulati.Engine.Orderbook.Steps.{set_order-IsBook}
use client_exchange_simulati.Engine.Orderbook.Crossing.{match_orders-Returns}
use client_exchange_simulati.Engine.Orderbook.Market.{match_market-Returns}
use client_exchange_simulati.Engine.Orderbook.Cancelling.{Cancelled, cancel_order-Returns}
use client_exchange_simulati.Engine.Orderbook.Adding.{add_limit-Returns}

-- An order that the book can hold or match: a known side, and a limit order at a tick of the ladders.
pub record IsAdmissible (req : OrderRequest) : Type 0 where
  pub side_known : (req.side ≡ bid) ⊎ (req.side ≡ ask)
  pub on_tick : req.order_type ≢ market → in_ladder req.price ≡ true

pub record IsGood (b : Book) : Type 0 where
  pub book : IsBook b
  pub uncrossed : IsUncrossed b

abbrev pub Good : Bool × Book → Type 0
Good out = IsGood out.1

pub market-Good :
    (b : Book) (req : OrderRequest)
    → IsGood b
    → IsAdmissible req
    → Returns Good (match_market list_levels b req)
market-Good b req g a =
    Returns-weaken _ _ (match_market list_levels b req)
      (match_market-Returns b req g.book a.side_known)
      λ out m. record {
        book = m.book;
        uncrossed = Shrinks-IsUncrossed b out.1 m.shrinks g.uncrossed;
      }

pub add-Good :
    (b : Book) (req : OrderRequest)
    → IsGood b
    → IsAdmissible req
    → Returns Good (add_order list_levels b req)
unfolding add_order
add-Good b req g a = elim (Bool-cases (req.order_type == market)) [
  | inl e ↦ rw e (market-Good b req g a)
  | inr e ↦ rw e (
      Returns-weaken _ _ (add_limit list_levels b req)
        (add_limit-Returns b req g.book g.uncrossed (a.on_tick (λ q. ground arith)))
        λ out m. record { book = m.book; uncrossed = m.uncrossed })
]

pub stamp-Good :
    (b : Book) (req : OrderRequest) (x : ℕ)
    → IsGood b
    → IsAdmissible req
    → Returns Good (stamp_order list_levels b x req)
unfolding stamp_order
stamp-Good b req x g a =
    let o = order_at list_levels b x in
    let b' = set_order list_levels b x (record o { recv_tsc = req.recv_tsc }) in
    let book =
      set_order-IsBook b x (record o { recv_tsc = req.recv_tsc }) g.book
        (record { same_id = refl; same_side = refl; same_price = refl }) in
    elim (Bool-cases (req.order_type == market)) [
      | inl e ↦ rw e (market-Good b' req (record { book = book; uncrossed = g.uncrossed }) a)
      | inr e ↦ rw e (
          Returns-weaken _ _ (match_orders list_levels b') (match_orders-Returns b' book)
            λ out m. record { book = m.book; uncrossed = m.uncrossed })
    ]

pub cancelled-Good :
    (b b' : Book) (id x : ℕ) (g : IsGood b) (known : find id b.orders ≡ some x)
    → Cancelled b id x g.book known b'
    → IsGood b'
cancelled-Good b b' id x g known c = record {
  book = c.book;
  uncrossed = Shrinks-IsUncrossed b b' c.shrinks g.uncrossed;
}

pub modify-Good :
    (b : Book) (req : OrderRequest) (x : ℕ)
    → IsGood b
    → IsAdmissible req
    → find req.order_id b.orders ≡ some x
    → Returns Good (modify_order list_levels b req)
unfolding modify_order
modify-Good b req x g a known =
    rw known
      (elim (Bool-cases (
        req.price == (order_at list_levels b x).price
        && req.quantity == (order_at list_levels b x).initial_quantity)) [
          | inl same ↦ rw same (stamp-Good b req x g a)
          | inr differs ↦ rw differs (
              Returns-bind _ _ (cancel_order list_levels b req.order_id) _
                (cancel_order-Returns b req.order_id x g.book known)
                λ b' c. add-Good b' req (cancelled-Good b b' req.order_id x g known c) a)
        ])

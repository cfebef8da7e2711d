-- ===== src/Engine/Keeping.antt =====
-- `PutOrderNoLock` as a whole, which the replay calls with the engine's lock free: what its trades
-- take, and what becomes of the order.
use exchange_server.Base.{
  ℕ, nat_eq, ◌<◌, ◌≡◌, subst, ap, ◌∙◌, ◌⊎◌, inl, inr, not, ◌==◌, List, length, arith, All,
}
use exchange_server.Text.{text_eq}
use exchange_server.Decimal.{Decimals}
use exchange_server.Order.{Order, side_bid, side_ask}
use exchange_server.OrderBook.{queue_of}
use exchange_server.Engine.State.{Trade, Engine, returns, ◌>>=◌, book_of, get_or_create_order_book}
use exchange_server.Engine.Matching.{taker_queue, match_with, rest_or_finish}
use exchange_server.Engine.Commands.{put_order_no_lock, keep_order}
use exchange_server.Engine.Start.{book_of-get_or_create_order_book}
use exchange_server.Engine.Trading.{Ready, Allows, Descending, traded_amount, match_as_taker_trades}
use exchange_server.Engine.Ended.{Kept, Kept-left, ended-left, ended-Kept}

module _ ⦃d : Decimals⦄ where
  open d use {D}

  -- The sides of the book as seen from an order: its own, and the one that it trades with.
  abbrev pub Opposed : Order D → ℕ → Type 0
  Opposed o other =
      ((o.side ≡ side_bid) × (other ≡ side_ask)) ⊎ ((o.side ≡ side_ask) × (other ≡ side_bid))

  taker_queue-Opposed : (o : Order D) (other : ℕ) → Opposed o other → taker_queue o ≡ other
  taker_queue-Opposed o other (inl (own, opposite)) = ground (arith, own, opposite)
  taker_queue-Opposed o other (inr (own, opposite)) = ground (arith, own, opposite)

  own-Opposed :
      (o : Order D) (other : ℕ) → Opposed o other → (o.side == side_ask) ≡ not (other == side_ask)
  own-Opposed o other (inl (own, opposite)) = rw (own, opposite)
  own-Opposed o other (inr (own, opposite)) = rw (own, opposite)

module _ ⦃d : Decimals⦄ (now : ℕ) where
  open d use {D, add}

  opened-Ready :
      (p other : ℕ) (e : Engine D) (q : List ℕ)
      → Ready p other (e.memory p).market e q
      → Ready p other (e.memory p).market (get_or_create_order_book (e.memory p).market e) q
  unfolding get_or_create_order_book
  opened-Ready p other e q r = record {
    free = r.free;
    calm = r.calm;
    own_market = r.own_market;
    limit = r.limit;
    queue = ap (queue_of other) (book_of-get_or_create_order_book (e.memory p).market e) ∙ r.queue;
    sorted = r.sorted;
    outside = r.outside;
  }

  -- On an engine whose lock is free, in a market where no stop order waits, a limit order to buy
  -- or to sell that is not in the queue of the opposite side, which is in order, returns with
  -- enough fuel. What its trades took and what is left of it add up to what it had left, every
  -- trade is at a price that the limit allows, and no later trade has a higher price. If it then
  -- has something left, and less than its amount, it rests in the book, in the index of the
  -- orders and in that of its user, under its id, and the queue of its own side holds it twice
  -- beside the orders of before; otherwise it is finished, and that queue is as it was.
  pub put_order_no_lock_returns :
      (fuel p other : ℕ) (e : Engine D) (q : List ℕ)
      → Opposed (e.memory p) other
      → Ready p other (e.memory p).market e q
      → length q < fuel
      → (ts : List (Trade D)) × (f : Engine D) × (put_order_no_lock now fuel p e ≡ returns (ts, f))
        × (add (traded_amount ts) (f.memory p).left ≡ (e.memory p).left)
        × All (λ t. Allows (e.memory p) t.price) ts
        × Descending ts
        × Kept p
            (e.memory p).market
            (e.memory p)
            (queue_of (e.memory p).side (book_of (e.memory p).market e))
            f
  unfolding put_order_no_lock match_with get_or_create_order_book
  put_order_no_lock_returns fuel p other e q opposed r enough =
      let market = (e.memory p).market in
      let facing = taker_queue-Opposed (e.memory p) other opposed in
      let (ts, g, runs, o) =
        match_as_taker_trades now p other market fuel (get_or_create_order_book market e) q
          (opened-Ready p other e q r) enough in
      let own_queue : queue_of (e.memory p).side (book_of market g)
          ≡ queue_of (e.memory p).side (book_of market e) =
        o.resting (e.memory p).side (own-Opposed (e.memory p) other opposed)
        ∙ ap (queue_of (e.memory p).side) (book_of-get_or_create_order_book market e) in
      let f = keep_order now p market (rest_or_finish now p market g) in
      (
        ts,
        f,
        rw (facing, runs, ◌>>=◌),
        ap (add (traded_amount ts)) (ended-left now p market g) ∙ o.total,
        o.allowed,
        o.descending,
        subst (λ q. Kept p market (e.memory p) q f) own_queue
            (Kept-left p market (e.memory p) (g.memory p).left
              (queue_of (e.memory p).side (book_of market g)) f
              (subst (λ x. Kept p market x (queue_of x.side (book_of market g)) f) o.kept
                (ended-Kept now p market g))),
      )

-- ===== src/Handler/Counted.antt =====
-- What the status of a market counts.
use exchange_server.Base.{
  ◌+◌, ◌≡◌, sym, ◌∙◌, Bool, some, List, [], ◌∷◌, arith, ◌==◌, ◌&&◌, not, length, filter,
}
use exchange_server.Text.{Text}
use exchange_server.Decimal.{Decimals}
use exchange_server.Decimal.Laws.{zero_add}
use exchange_server.Order.{Order, side_bid}
use exchange_server.OrderBook.{OrderBook}
use exchange_server.Engine.State.{Engine}
use exchange_server.Handler.Markets.{
  Counts, count_order, count_orders, no_counts, is_waiting, market_status, orders_of,
}

module _ ⦃d : Decimals⦄ where
  open d use {D, zero, add, add_zero, add_assoc}

  abbrev pub waits_to_buy : Order D → Bool
  waits_to_buy o = is_waiting o && (o.side == side_bid)

  abbrev pub waits_to_sell : Order D → Bool
  waits_to_sell o = is_waiting o && not (o.side == side_bid)

  -- The sum of what orders have left.
  pub left_of : List (Order D) → D
  left_of [] = zero
  left_of (o ∷ orders) = add o.left (left_of orders)

  -- What a list of orders adds to the counts.
  record Adds (orders : List (Order D)) (c e : Counts D) : Type 0 where
    bids : e.bid_count ≡ c.bid_count + length (filter waits_to_buy orders)
    asks : e.ask_count ≡ c.ask_count + length (filter waits_to_sell orders)
    pending : e.pending + c.bid_count + c.ask_count ≡ c.pending + e.bid_count + e.ask_count
    bought : e.bid_amount ≡ add c.bid_amount (left_of (filter waits_to_buy orders))
    sold : e.ask_amount ≡ add c.ask_amount (left_of (filter waits_to_sell orders))

  count_order-Adds :
      (o : Order D) (orders : List (Order D)) (c e : Counts D)
      → Adds orders (count_order o c) e
      → Adds (o ∷ orders) c e
  unfolding count_order left_of
  count_order-Adds o orders c e h = record {
    bids = ground (arith, h.bids);
    asks = ground (arith, h.asks);
    pending = ground (arith, h.pending);
    bought =
        ground
          (arith, h.bought, add_assoc c.bid_amount o.left (left_of (filter waits_to_buy orders)));
    sold =
        ground
          (arith, h.sold, add_assoc c.ask_amount o.left (left_of (filter waits_to_sell orders)));
  }

  count_orders-Adds :
      (orders : List (Order D)) (c : Counts D) → Adds orders c (count_orders orders c)
  unfolding count_orders count_order left_of
  count_orders-Adds [] c = record {
    bids = omega arith;
    asks = omega arith;
    pending = omega arith;
    bought = sym (add_zero c.bid_amount);
    sold = sym (add_zero c.ask_amount);
  }
  count_orders-Adds (o ∷ orders) c =
      count_order-Adds o orders c (count_orders orders (count_order o c))
        (count_orders-Adds orders (count_order o c))

  -- The status of a market counts each waiting order of its book once: the bids and the asks make
  -- up the pending orders, and the amounts of each side are what its waiting orders have left.
  pub market_status_counts :
      (market : Text) (ob : OrderBook) (e : Engine D)
      → ((market_status market (some ob) e).pending_order_count
          ≡ (market_status market (some ob) e).bid_count
            + (market_status market (some ob) e).ask_count)
        × ((market_status market (some ob) e).bid_count
            ≡ length (filter waits_to_buy (orders_of ob e)))
        × ((market_status market (some ob) e).ask_count
            ≡ length (filter waits_to_sell (orders_of ob e)))
        × ((market_status market (some ob) e).bid_amount
            ≡ left_of (filter waits_to_buy (orders_of ob e)))
        × ((market_status market (some ob) e).ask_amount
            ≡ left_of (filter waits_to_sell (orders_of ob e)))
  unfolding market_status
  market_status_counts market ob e =
      let c = count_orders-Adds (orders_of ob e) no_counts in
      (
        omega (arith, c.pending),
        omega (arith, c.bids),
        omega (arith, c.asks),
        c.bought ∙ zero_add (left_of (filter waits_to_buy (orders_of ob e))),
        c.sold ∙ zero_add (left_of (filter waits_to_sell (orders_of ob e))),
      )

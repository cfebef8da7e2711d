-- ===== src/Engine/Matching.antt =====
-- internal/matchengine/engine/matching.go: the matching loop, the settlement of a trade, and the
-- stop orders that a trade sets off. Every reading of the clock in one call gives the same `now`.
-- The loop and the settlement call one another: each nested loop has one unit of fuel less.
use exchange_server.Base.{
  ℕ, zero, suc, Bool, Option, none, some, List, [], ◌∷◌, if◌then◌else◌, ◌==◌, ◌&&◌, ◌||◌, not,
  nat_eq,
}
use exchange_server.Text.{Text, text_eq}
use exchange_server.Dict.{insert}
use exchange_server.Decimal.{Decimals, greater_than, is_positive, is_zero, is_negative, equal, min}
use exchange_server.Order.{
  Order, type_market, side_bid, side_ask, status_pending, status_partial, status_finished, write,
}
use exchange_server.OrderBook.{queue_of, set_queue, remove, add}
use exchange_server.PriceQueue.{pop}
use exchange_server.Balance.{Book, deduct_balance, add_balance, unlock_balance}
use exchange_server.Engine.State.{
  MarketConfig, Trade, deal_event, balance_update, Engine, returns, panic, no_fuel, M, pure, ◌>>=◌,
  ◌>>◌, modify, gets, next_id, set_order, alloc, send, get_market, book_of, set_book,
  get_or_create_order_book, add_trade_to_order, remove_from_user_index,
}
use exchange_server.Engine.Stops.{check_stop_orders}

module _ ⦃d : Decimals⦄ where
  open d use {D, less_than, mul, sub, div, neg, thousandth}

  abbrev pub taker_fee_rate : D
  taker_fee_rate = thousandth

  abbrev pub maker_fee_rate : D
  maker_fee_rate = thousandth

  -- Whether a limit order's price stops the loop at this maker.
  abbrev pub price_stops : Order D → Order D → Bool
  price_stops incoming maker =
      (incoming.side == side_bid && greater_than maker.price incoming.price)
      || (incoming.side == side_ask && less_than maker.price incoming.price)

  abbrev pub is_market : Order D → Bool
  is_market o = o.type == type_market

  -- A market order to buy has money left, and divides it by the price.
  abbrev pub trade_amount : Order D → Order D → D
  trade_amount incoming maker =
      if is_market incoming && (incoming.side == side_bid)
      then min (div incoming.left maker.price) maker.left
      else min incoming.left maker.left

  -- `settleTrade`, its balances: the taker's deduction, the maker's credit and the taker's unlock
  -- of one asset. The errors of `DeductBalance` and `UnlockBalance` are dropped.
  unfoldable pub settle_asset : ℕ → ℕ → Text → D → D → Book D → Book D
  settle_asset taker maker asset paid credit bm =
      let deducted = (deduct_balance taker asset paid bm).0 in
      let credited = add_balance maker asset credit deducted in
      (unlock_balance taker asset paid credited).0

  -- What a trade moves: the money that a bid costs, or the stock that an ask hands over.
  abbrev pub paid_asset : MarketConfig → Trade D → Text
  paid_asset market t = if t.side == side_bid then market.money else market.stock

  abbrev pub paid : Trade D → D
  paid t = if t.side == side_bid then mul t.price t.amount else t.amount

  unfoldable pub settle_balances : MarketConfig → Trade D → Engine D → Engine D
  settle_balances market t e =
      let asset = paid_asset market t in
      let credit = sub (paid t) t.maker_fee in
      send (balance_update t.maker_user_id asset credit) (
        send (balance_update t.taker_user_id asset (neg (paid t))) (record e {
          balances = settle_asset t.taker_user_id t.maker_user_id asset (paid t) credit e.balances;
        }))

  -- `matchAsTaker`, as `match` and `matchAndSettle` call it: the incoming order, the side of the
  -- queue that it is matched against, the market of the book.
  abbrev pub Matcher : Type 0
  Matcher = ℕ → ℕ → Text → M (List (Trade D))

  -- `if incoming.Side == SideBid { … ob.Asks … } else { … ob.Bids … }`
  abbrev pub taker_queue : Order D → ℕ
  taker_queue o = if o.side == side_bid then side_ask else side_bid

  -- A maker with nothing left leaves its queue, the book's map and the user's index.
  unfoldable pub drop_filled : ℕ → ℕ → Text → Engine D → Engine D
  drop_filled maker side market e =
      let o = e.memory maker in
      let ob = book_of market e in
      let queue = (pop (λ q. (e.memory q).price) (queue_of side ob)).1 in
      if is_zero o.left || is_negative o.left
      then remove_from_user_index o.user_id o.id
          (set_book market (remove o.id (set_queue side queue ob)) e)
      else e

  -- `Div` panics where the price is zero.
  abbrev pub divides_by_zero : Order D → Order D → Bool
  divides_by_zero incoming maker =
      (is_market incoming && (incoming.side == side_bid)) && is_zero maker.price

module _ ⦃d : Decimals⦄ (now : ℕ) where
  open d use {D, less_than, mul, sub}

  abbrev pub make_trade : ℕ → Order D → Order D → Trade D
  make_trade id incoming maker =
      let amount = trade_amount incoming maker in
      record {
        id = id;
        taker_order_id = incoming.id;
        maker_order_id = maker.id;
        taker_user_id = incoming.user_id;
        maker_user_id = maker.user_id;
        market = incoming.market;
        side = incoming.side;
        price = maker.price;
        amount = amount;
        taker_fee = mul amount taker_fee_rate;
        maker_fee = mul amount maker_fee_rate;
        created_at = now;
      }

  -- The end of `match` and of `matchAndSettle`: an order that traded in part rests in the book, any
  -- other is finished.
  abbrev pub rests : Order D → Bool
  rests o = less_than o.left o.amount && is_positive o.left

  abbrev pub rested : Order D → Order D
  rested o =
      if rests o
      then record o { status = if equal o.left o.amount then status_pending else status_partial }
      else record o { status = status_finished; update_time = now }

  unfoldable pub rest_or_finish : ℕ → Text → Engine D → Engine D
  rest_or_finish p market e =
      let memory = write e.memory p (rested (e.memory p)) in
      record e {
        memory = memory;
        order_books =
            if rests (e.memory p)
            then insert market (add memory p (book_of market e)) e.order_books
            else e.order_books;
      }

  -- `match`
  unfoldable pub match_with : Matcher → ℕ → Text → M (List (Trade D))
  unfolding rest_or_finish
  match_with matcher p market = do
    o ← gets (λ e. e.memory p)
    trades ← matcher p (taker_queue o) market
    modify (rest_or_finish p market)
    pure trades

  -- `matchAndSettle` has the body of `match`.
  abbrev pub match_and_settle : Matcher → ℕ → Text → M (List (Trade D))
  match_and_settle matcher p market = match_with matcher p market

  -- The loop of `checkStopOrdersAfterTrade`: each triggered order is a copy of its own.
  unfoldable pub run_triggered : Matcher → List (Order D) → M (Unit {0})
  unfolding match_with next_id alloc get_or_create_order_book
  run_triggered matcher [] = pure tt
  run_triggered matcher (o ∷ l) =
      (do
        modify (get_or_create_order_book o.market)
        id ← next_id
        p ←
            alloc
              (record o { id = id; status = status_pending; create_time = now; update_time = now })
        match_and_settle matcher p o.market)
      >>= λ trades. run_triggered matcher l

  -- `checkStopOrdersAfterTrade`
  unfoldable pub check_stop_orders_after_trade : Matcher → Text → D → M (Unit {0})
  unfolding run_triggered check_stop_orders
  check_stop_orders_after_trade matcher market last_price e =
      let (triggered, stops) = check_stop_orders market last_price e.stops in
      run_triggered matcher triggered (record e { stops = stops })

  -- `settleTrade`
  unfoldable pub settle_in : Matcher → Trade D → Option MarketConfig → M (Unit {0})
  settle_in matcher t none e = returns (tt, e)
  settle_in matcher t (some market) e =
      (do
        add_trade_to_order t
        modify (settle_balances market t)
        check_stop_orders_after_trade matcher t.market t.price)
        (send (deal_event t) e)

  unfoldable pub settle_trade : Matcher → Trade D → M (Unit {0})
  settle_trade matcher t = do found ← get_market t.market; settle_in matcher t found

  -- One round of `matchAsTaker` that trades: it returns the trade.
  unfoldable pub trade_round : Matcher → ℕ → ℕ → ℕ → Text → M (Trade D)
  unfolding settle_trade drop_filled next_id
  trade_round matcher p maker side market = do
    incoming ← gets (λ e. e.memory p)
    resting ← gets (λ e. e.memory maker)
    id ← next_id
    let t = make_trade id incoming resting
    modify (λ e. set_order p (record (e.memory p) { left = sub (e.memory p).left t.amount }) e)
    modify (λ e.
        set_order maker (record (e.memory maker) { left = sub (e.memory maker).left t.amount }) e)
    settle_trade matcher t
    modify (drop_filled maker side market)
    pure t

  -- `matchAsTaker`
  unfoldable pub match_as_taker : ℕ → Matcher
  unfolding trade_round
  match_as_taker zero p side market e = no_fuel
  match_as_taker (suc f) p side market e =
      let incoming = e.memory p in
      let more : ℕ → M (List (Trade D)) = λ maker. (do
        t ← trade_round (match_as_taker f) p maker side market
        rest ← match_as_taker f p side market
        pure (t ∷ rest)) in
      elim (queue_of side (book_of market e)) [
        | [] ↦ returns ([], e)
        | maker ∷ rest ↦
            if is_positive incoming.left
            then (if not (is_market incoming) && price_stops incoming (e.memory maker)
                then returns ([], e)
                else if divides_by_zero incoming (e.memory maker)
                then panic
                else more maker e)
            else returns ([], e)
      ]

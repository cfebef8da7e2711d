-- ===== src/Handler/Placing.antt =====
-- internal/matchengine/server/handler/order.go: the handlers that place orders. Beside the freeze
-- of `ProcessOrder` they freeze the cost of the order a first time, under the name of the market.
use exchange_server.Base.{ℕ, Option, none, some, List, [], ◌∷◌, if◌then◌else◌, ◌==◌}
use exchange_server.Text.{Text}
use exchange_server.Decimal.{Decimals, is_zero}
use exchange_server.Order.{Order, blank, side_bid, status_pending, type_market, type_stop_limit}
use exchange_server.OrderBook.{OrderBook}
use exchange_server.Balance.{Book, BalanceError, Outcome, lock_balance, unlock_balance}
use exchange_server.Engine.State.{
  Engine, Trade, M, returns, pure, gets, next_id, alloc, ◌>>=◌, ◌>>◌,
}
use exchange_server.Engine.Queries.{get_order_book}
use exchange_server.Engine.Commands.{EngineError, process_order, add_stop}
use exchange_server.Handler.Params.{Floats, Body, Checked, ok, failed}
use exchange_server.Handler.Puts.{
  PutLimit, PutMarket, PutStop, read_put_limit, read_put_market, read_put_stop,
}
use exchange_server.Handler.Info.{OrderInfo, TradeInfo, order_to_info, trades_to_infos}
use exchange_server.Handler.Orders.{with_args}

pub record PutReply (D : Type 0) : Type 0 where
  pub order : OrderInfo D
  pub trades : List (TradeInfo D)

pub record StopReply : Type 0 where
  pub order_id : ℕ
  pub stop_price : Text

module _ ⦃d : Decimals⦄ where
  open d use {D, mul, sub}

  -- A method of the balances, which have a lock of their own.
  abbrev pub with_balances : (Book D → Outcome D) → M (Option BalanceError)
  with_balances method e =
      let (balances, failure) = method e.balances in
      returns (failure, record e { balances = balances })

  -- What a handler freezes for an order: the cost of a bid, the amount of an ask.
  abbrev pub cost : ℕ → D → D → D
  cost side price amount = if side == side_bid then mul price amount else amount

  -- What it gives back once the order has been matched.
  abbrev pub unspent : ℕ → D → D → D → D
  unspent side price amount left =
      if side == side_bid then sub (mul price amount) (mul price left) else sub amount left

  -- The price of the first order on the other side.
  unfoldable pub market_price : ℕ → OrderBook → Engine D → Option D
  market_price side ob e = elim (if side == side_bid then ob.asks else ob.bids) [
    | [] ↦ none
    | first ∷ rest ↦ some (e.memory first).price
  ]

module _ ⦃d : Decimals⦄ (now : ℕ) where
  open d use {D, mul}

  -- The new order as `HandleOrderPutLimit` makes it, and `HandleOrderPutMarket`: what a market
  -- order has left is its cost.
  abbrev pub limit_order_of : PutLimit D → ℕ → Order D
  limit_order_of a id = record blank {
    id = id;
    user_id = a.user;
    market = a.market;
    side = a.side;
    price = a.price;
    amount = a.amount;
    left = a.amount;
    taker_fee = a.taker_fee;
    status = status_pending;
    create_time = now;
    update_time = now;
  }

  abbrev pub market_order_of : PutMarket D → D → ℕ → Order D
  market_order_of a price id = record blank {
    id = id;
    user_id = a.user;
    market = a.market;
    side = a.side;
    type = type_market;
    price = price;
    amount = a.amount;
    left = mul price a.amount;
    taker_fee = a.taker_fee;
    status = status_pending;
    create_time = now;
    update_time = now;
  }

  abbrev put_reply : ℕ → List (Trade D) → M (Checked (PutReply D))
  put_reply p trades = do
    o ← gets (λ e. e.memory p)
    pure (ok (record { order = order_to_info now o; trades = trades_to_infos trades }))

  -- After `ProcessOrder`: on an error all is given back, else what was not spent.
  unfoldable pub limit_processed :
      PutLimit D → ℕ → List (Trade D) × Option EngineError → M (Checked (PutReply D))
  unfolding unlock_balance order_to_info trades_to_infos
  limit_processed a p (trades, some failure) = do
    _ ← with_balances (unlock_balance a.user a.market (cost a.side a.price a.amount))
    pure (failed "process order failed")
  limit_processed a p (trades, none) = do
    o ← gets (λ e. e.memory p)
    _ ←
        if is_zero o.left
        then pure none
        else with_balances (unlock_balance a.user a.market (unspent a.side a.price a.amount o.left))
    put_reply p trades

  unfoldable pub market_processed :
      PutMarket D → D → ℕ → List (Trade D) × Option EngineError → M (Checked (PutReply D))
  unfolding unlock_balance order_to_info trades_to_infos
  market_processed a price p (trades, some failure) = do
    _ ← with_balances (unlock_balance a.user a.market (cost a.side price a.amount))
    pure (failed "process order failed")
  market_processed a price p (trades, none) = do
    o ← gets (λ e. e.memory p)
    _ ← with_balances (unlock_balance a.user a.market (unspent a.side price a.amount o.left))
    put_reply p trades

  -- The engine gets a copy of the order, so the answer's id is that of the order made here.
  unfoldable pub stop_order_of : PutStop D → Order D
  stop_order_of a = record blank {
    user_id = a.user;
    market = a.market;
    side = a.side;
    type = type_stop_limit;
    price = a.stop_price;
    amount = a.amount;
    left = a.amount;
    taker_fee = a.taker_fee;
    status = status_pending;
    create_time = now;
    update_time = now;
    source = a.source;
  }

  unfoldable pub put_stop : PutStop D → M (Checked StopReply)
  unfolding add_stop stop_order_of
  put_stop a = do
    add_stop now (stop_order_of a) a.stop_price
    pure (ok (record { order_id = (stop_order_of a).id; stop_price = d.to_text a.stop_price }))

  unfoldable pub handle_order_put_stop : ⦃fl : Floats⦄ → Body → M (Checked StopReply)
  unfolding read_put_stop put_stop
  handle_order_put_stop body = with_args (read_put_stop body) put_stop

module _ ⦃d : Decimals⦄ (now fuel : ℕ) where
  open d use {D, mul}

  unfoldable pub limit_funded : PutLimit D → Option BalanceError → M (Checked (PutReply D))
  unfolding process_order next_id alloc limit_processed
  limit_funded a (some failure) = pure (failed "balance not enough")
  limit_funded a none = do
    id ← next_id
    p ← alloc (limit_order_of now a id)
    r ← process_order now fuel p
    limit_processed now a p r

  unfoldable pub put_limit : PutLimit D → M (Checked (PutReply D))
  unfolding lock_balance limit_funded
  put_limit a = do
    failure ← with_balances (lock_balance a.user a.market (cost a.side a.price a.amount))
    limit_funded a failure

  unfoldable pub handle_order_put_limit : ⦃fl : Floats⦄ → Body → M (Checked (PutReply D))
  unfolding read_put_limit put_limit
  handle_order_put_limit body = with_args (read_put_limit body) put_limit

  unfoldable pub market_funded : PutMarket D → D → Option BalanceError → M (Checked (PutReply D))
  unfolding process_order next_id alloc market_processed
  market_funded a price (some failure) = pure (failed "balance not enough")
  market_funded a price none = do
    id ← next_id
    p ← alloc (market_order_of now a price id)
    r ← process_order now fuel p
    market_processed now a price p r

  unfoldable pub market_priced : PutMarket D → Option D → M (Checked (PutReply D))
  unfolding lock_balance market_funded
  market_priced a none = pure (failed "no enough trader")
  market_priced a (some price) = do
    failure ← with_balances (lock_balance a.user a.market (cost a.side price a.amount))
    market_funded a price failure

  unfoldable pub market_in : PutMarket D → Option OrderBook → M (Checked (PutReply D))
  unfolding market_price market_priced
  market_in a none = pure (failed "market not found")
  market_in a (some ob) = do price ← gets (market_price a.side ob); market_priced a price

  unfoldable pub put_market : PutMarket D → M (Checked (PutReply D))
  unfolding market_in get_order_book
  put_market a = do ob ← get_order_book a.market; market_in a ob

  unfoldable pub handle_order_put_market : ⦃fl : Floats⦄ → Body → M (Checked (PutReply D))
  unfolding read_put_market put_market
  handle_order_put_market body = with_args (read_put_market body) put_market

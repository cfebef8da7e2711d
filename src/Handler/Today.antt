-- ===== src/Handler/Today.antt =====
-- internal/matchengine/server/handler/market.go: what a market did since the start of the day.
use exchange_server.Base.{ℕ, ◌+◌, Option, none, some, List, [], ◌∷◌, if◌then◌else◌, ltb, ◌==◌, ◌||◌}
use exchange_server.Text.{Text}
use exchange_server.Decimal.{Decimals, is_zero, greater_than}
use exchange_server.Order.{Order, side_bid, status_finished}
use exchange_server.OrderBook.{OrderBook, get_best_bid, get_best_ask}
use exchange_server.Engine.State.{Engine, M, pure, gets, ◌>>=◌}
use exchange_server.Engine.Queries.{get_order_book}
use exchange_server.Handler.Params.{Floats, Body, Checked, ok}
use exchange_server.Handler.Requests.{read_market}
use exchange_server.Handler.Orders.{with_args}
use exchange_server.Handler.Markets.{
  MarketSummary, blank_summary, parse_market_name, orders_of, is_waiting,
}

-- The variables of the loops of `HandleMarketStatusToday` and `HandleMarketSummary`.
pub record Today (D : Type 0) : Type 0 where
  pub high : D
  pub low : D
  pub close : D
  pub volume : D
  pub deal : D
  pub trade_count : ℕ
  pub buy_orders : ℕ
  pub sell_orders : ℕ

module _ ⦃d : Decimals⦄ where
  open d use {D, zero as nothing, mul, sub}

  abbrev pub no_today : Today D
  no_today = record {
    high = nothing;
    low = nothing;
    close = nothing;
    volume = nothing;
    deal = nothing;
    trade_count = 0;
    buy_orders = 0;
    sell_orders = 0;
  }

  -- A finished order of today adds what it has left, not what it traded.
  unfoldable pub finish_today : ℕ → Order D → Today D → Today D
  finish_today day o t =
      if ltb o.create_time day
      then t
      else if o.status == status_finished
      then record t {
        trade_count = t.trade_count + 1;
        deal = d.add t.deal (mul o.price o.left);
        high = if is_zero t.high || greater_than o.price t.high then o.price else t.high;
        low = if is_zero t.low || d.less_than o.price t.low then o.price else t.low;
        volume = d.add t.volume o.left;
        close = o.price;
      }
      else t

  unfoldable pub count_waiting : Order D → Today D → Today D
  count_waiting o t =
      if is_waiting o
      then (if o.side == side_bid
          then record t { buy_orders = t.buy_orders + 1 }
          else record t { sell_orders = t.sell_orders + 1 })
      else t

  -- Both loops at once: `HandleMarketStatusToday` has no use for the counts of waiting orders, and
  -- `HandleMarketSummary` none for `trade_count`.
  unfoldable pub today_of : ℕ → List (Order D) → Today D → Today D
  unfolding finish_today count_waiting
  today_of day [] t = t
  today_of day (o ∷ orders) t = today_of day orders (finish_today day o (count_waiting o t))

  -- The text of the price of a best order, and of what was traded of it; empty if there is none.
  abbrev pub price_text : Option ℕ → Engine D → Text
  price_text none e = []
  price_text (some p) e = d.to_text (e.memory p).price

  abbrev pub traded_text : Option ℕ → Engine D → Text
  traded_text none e = []
  traded_text (some p) e = d.to_text (sub (e.memory p).amount (e.memory p).left)

  unfoldable pub status_today : ℕ → Text → Option OrderBook → Engine D → MarketSummary
  unfolding today_of
  status_today day market none e = blank_summary market
  status_today day market (some ob) e =
      let t = today_of day (orders_of ob e) no_today in
      record (blank_summary market) {
        open_price = d.to_text nothing;
        close_price = d.to_text t.close;
        high_price = d.to_text t.high;
        low_price = d.to_text t.low;
        volume = d.to_text t.volume;
        deal = d.to_text t.deal;
        trade_count = t.trade_count;
        bid_price = price_text (get_best_bid ob) e;
        ask_price = price_text (get_best_ask ob) e;
      }

  unfoldable pub market_summary : ℕ → Text → Option OrderBook → Engine D → MarketSummary
  unfolding today_of parse_market_name
  market_summary day market none e = blank_summary market
  market_summary day market (some ob) e =
      let t = today_of day (orders_of ob e) no_today in
      let (stock, money) = parse_market_name market in
      record (blank_summary market) {
        stock = stock;
        money = money;
        fee_prec = 8;
        stock_prec = 8;
        money_prec = 8;
        open_price = d.to_text nothing;
        close_price = d.to_text t.close;
        high_price = d.to_text t.high;
        low_price = d.to_text t.low;
        volume = d.to_text t.volume;
        deal = d.to_text t.deal;
        buy_order_count = t.buy_orders;
        sell_order_count = t.sell_orders;
        order_count = t.buy_orders + t.sell_orders;
        bid_price = price_text (get_best_bid ob) e;
        bid_amount = traded_text (get_best_bid ob) e;
        ask_price = price_text (get_best_ask ob) e;
        ask_amount = traded_text (get_best_ask ob) e;
      }

module _ ⦃fl : Floats⦄ ⦃d : Decimals⦄ (now : ℕ) where
  open d use {D}

  -- `day` is the start of the day in the server's zone, which the time package gives.
  unfoldable pub handle_market_status_today : ℕ → Body → M (Checked MarketSummary)
  unfolding read_market get_order_book status_today
  handle_market_status_today day body = with_args (read_market body) λ market. do
    ob ← get_order_book market
    info ← gets (status_today day market ob)
    pure (ok info)

  unfoldable pub handle_market_summary : ℕ → Body → M (Checked MarketSummary)
  unfolding read_market get_order_book market_summary
  handle_market_summary day body = with_args (read_market body) λ market. do
    ob ← get_order_book market
    info ← gets (market_summary day market ob)
    pure (ok info)

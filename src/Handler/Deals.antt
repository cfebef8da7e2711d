-- ===== src/Handler/Deals.antt =====
-- internal/matchengine/server/handler/market.go: the deals of a market, the last one and those of
-- a user, and the candles.
use exchange_server.Base.{
  ℕ, Bool, false, Option, none, some, List, [], ◌∷◌, if◌then◌else◌, ◌==◌, ◌&&◌, ◌||◌, length, map,
  filter,
}
use exchange_server.Int.{ℤ, pos, negsuc, ltb_ℤ, ◌+ℤ◌}
use exchange_server.Text.{Text}
use exchange_server.Decimal.{Decimals}
use exchange_server.Order.{Order, status_finished, unix}
use exchange_server.OrderBook.{OrderBook}
use exchange_server.Engine.State.{Engine, M, pure, gets, ◌>>=◌}
use exchange_server.Engine.Queries.{get_order_book, or_panic, slice}
use exchange_server.Handler.Params.{Floats, Body, Checked, ok}
use exchange_server.Handler.Requests.{
  UserQuery, read_user_query, read_market, read_page_query, read_kline_query,
}
use exchange_server.Handler.Info.{Page, at_most, wrap_int}
use exchange_server.Handler.Orders.{with_args}
use exchange_server.Handler.Markets.{orders_of}

pub record DealInfo (D : Type 0) : Type 0 where
  pub id : ℕ
  pub time : ℤ
  pub amount : D
  pub price : D
  pub side : ℕ
  pub buy_order_id : ℕ
  pub sell_order_id : ℕ

-- A candle of this package, of which no handler makes any.
pub record CandleInfo : Type 0 where
  pub time : ℤ
  pub open_price : Text
  pub high : Text
  pub low : Text
  pub close : Text
  pub volume : Text

pub record LastDeal : Type 0 where
  pub price : Text
  pub amount : Text
  pub time : ℤ

module _ ⦃d : Decimals⦄ where
  open d use {D, zero as nothing, mul, sub}

  -- `o.Status == OrderStatusFinished && o.UpdateTime.IsZero()`
  abbrev pub is_unstamped : Order D → Bool
  is_unstamped o = (o.status == status_finished) && (o.update_time == 0)

  abbrev pub is_zero_ℤ : ℤ → Bool
  is_zero_ℤ (pos n) = n == 0
  is_zero_ℤ (negsuc n) = false

  -- The loop of `HandleMarketLast`: the last time, its price and its amount.
  unfoldable pub last_deal : List (Order D) → ℤ × D × D → ℤ × D × D
  last_deal [] last = last
  last_deal (o ∷ orders) (time, price, amount) =
      let at = unix o.update_time in
      last_deal orders (
        if is_unstamped o && (is_zero_ℤ time || ltb_ℤ time at)
        then (at, o.price, o.left)
        else (time, price, amount))

  unfoldable pub market_last : Option OrderBook → Engine D → Option LastDeal
  unfolding last_deal
  market_last none e = none
  market_last (some ob) e =
      let (time, price, amount) = last_deal (orders_of ob e) (pos 0, nothing, nothing) in
      if is_zero_ℤ time
      then none
      else some (record { price = d.to_text price; amount = d.to_text amount; time = time })

  unfoldable pub deal_info : Order D → DealInfo D
  deal_info o = record {
    id = o.id;
    time = unix o.update_time;
    amount = o.left;
    price = o.price;
    side = o.side;
    buy_order_id = 0;
    sell_order_id = 0;
  }

  -- The page is a slice, which panics where its bounds are out of order.
  unfoldable pub user_deals : UserQuery → Option OrderBook → M (Checked (Page (DealInfo D)))
  unfolding deal_info
  user_deals q none =
      pure (ok (record { limit = q.limit; offset = q.offset; total = 0; records = [] }))
  user_deals q (some ob) = do
    orders ← gets (orders_of ob)
    let deals = map deal_info (filter (λ o. (q.user == o.user_id) && is_unstamped o) orders)
    let start = at_most (length deals) q.offset
    let end = at_most (length deals) (wrap_int (start +ℤ q.limit))
    records ← or_panic (slice deals start end)
    pure (
        ok (record { limit = q.limit; offset = q.offset; total = length deals; records = records }))

module _ ⦃fl : Floats⦄ ⦃d : Decimals⦄ (now : ℕ) where
  open d use {D}

  -- The candles and the deals of a market are always an empty list.
  unfoldable pub handle_market_kline : Body → M (Checked (List CandleInfo))
  unfolding read_kline_query
  handle_market_kline body = with_args (read_kline_query body) λ q. pure (ok [])

  unfoldable pub handle_market_deals : Body → M (Checked (Page (DealInfo D)))
  unfolding read_page_query
  handle_market_deals body =
      with_args (read_page_query body)
        λ q. pure (ok (record { limit = q.limit; offset = q.offset; total = 0; records = [] }))

  unfoldable pub handle_market_last : Body → M (Checked (Option LastDeal))
  unfolding read_market get_order_book market_last
  handle_market_last body =
      with_args (read_market body)
        λ market. do ob ← get_order_book market; last ← gets (market_last ob); pure (ok last)

  unfoldable pub handle_market_user_deals : Body → M (Checked (Page (DealInfo D)))
  unfolding read_user_query get_order_book user_deals
  handle_market_user_deals body =
      with_args (read_user_query body) λ q. do ob ← get_order_book q.market; user_deals q ob

-- ===== src/Handler/Requests.antt =====
-- internal/matchengine/server/handler/order.go: the checks with which the handlers that read and
-- cancel orders begin, and what is left of the request after them.
use exchange_server.Base.{ℕ}
use exchange_server.Int.{ℤ}
use exchange_server.Text.{Text}
use exchange_server.Decimal.{Decimals}
use exchange_server.Handler.Params.{
  Floats, Body, Checked, ok, ◌>>=◌, params_of, number_at, text_at, side_at, decimal_at, capped,
}

-- A user's query of a market, with a page: its limit is at most 100.
pub record UserQuery : Type 0 where
  pub user : ℕ
  pub market : Text
  pub offset : ℤ
  pub limit : ℤ

pub record BookQuery : Type 0 where
  pub market : Text
  pub side : ℕ
  pub offset : ℤ
  pub limit : ℤ

pub record CancelRequest : Type 0 where
  pub user : ℕ
  pub market : Text
  pub order_id : ℕ

pub record DetailQuery : Type 0 where
  pub market : Text
  pub order_id : ℕ

pub record DealsQuery : Type 0 where
  pub order_id : ℕ
  pub offset : ℤ
  pub limit : ℤ

pub record PageQuery : Type 0 where
  pub market : Text
  pub offset : ℤ
  pub limit : ℤ

pub record DepthQuery (D : Type 0) : Type 0 where
  pub market : Text
  pub limit : ℤ
  pub interval : D

module _ ⦃fl : Floats⦄ where
  open fl use {F}

  unfoldable pub read_user_query : Body → Checked UserQuery
  read_user_query body = do
    params ← params_of 4 body "invalid arguments: expected 4 params"
    user ← number_at 0 params "invalid user_id"
    market ← text_at 1 params "invalid market"
    offset ← number_at 2 params "invalid offset"
    limit ← number_at 3 params "invalid limit"
    ok (record {
      user = fl.to_uint32 user;
      market = market;
      offset = fl.to_int offset;
      limit = fl.to_int (capped limit);
    })

  unfoldable pub read_book_query : Body → Checked BookQuery
  read_book_query body = do
    params ← params_of 4 body "invalid arguments: expected 4 params"
    market ← text_at 0 params "invalid market"
    side ← side_at 1 params
    offset ← number_at 2 params "invalid offset"
    limit ← number_at 3 params "invalid limit"
    ok (record {
      market = market;
      side = side;
      offset = fl.to_int offset;
      limit = fl.to_int (capped limit);
    })

  unfoldable pub read_cancel : Body → Checked CancelRequest
  read_cancel body = do
    params ← params_of 3 body "invalid arguments: expected 3 params"
    user ← number_at 0 params "invalid user_id"
    market ← text_at 1 params "invalid market"
    order_id ← number_at 2 params "invalid order_id"
    ok (record { user = fl.to_uint32 user; market = market; order_id = fl.to_uint64 order_id })

  unfoldable pub read_detail : Body → Checked DetailQuery
  read_detail body = do
    params ← params_of 2 body "invalid arguments: expected 2 params"
    market ← text_at 0 params "invalid market"
    order_id ← number_at 1 params "invalid order_id"
    ok (record { market = market; order_id = fl.to_uint64 order_id })

  unfoldable pub read_deals_query : Body → Checked DealsQuery
  read_deals_query body = do
    params ← params_of 3 body "invalid arguments: expected 3 params"
    order_id ← number_at 0 params "invalid order_id"
    offset ← number_at 1 params "invalid offset"
    limit ← number_at 2 params "invalid limit"
    ok (record {
      order_id = fl.to_uint64 order_id;
      offset = fl.to_int offset;
      limit = fl.to_int (capped limit);
    })

  unfoldable pub read_depth_query : ⦃d : Decimals⦄ → Body → Checked (DepthQuery d.D)
  read_depth_query body = do
    params ← params_of 3 body "invalid arguments: expected 3 params"
    market ← text_at 0 params "invalid market"
    limit ← number_at 1 params "invalid limit"
    interval ← decimal_at 2 params "invalid interval" "invalid interval"
    ok (record { market = market; limit = fl.to_int (capped limit); interval = interval })

  -- internal/matchengine/server/handler/market.go
  unfoldable pub read_market : Body → Checked Text
  read_market body = do
    params ← params_of 1 body "invalid arguments: expected 1 param"
    text_at 0 params "invalid market"

  unfoldable pub read_kline_query : Body → Checked (Text × F × F × Text)
  read_kline_query body = do
    params ← params_of 4 body "invalid arguments: expected 4 params"
    market ← text_at 0 params "invalid market"
    start_time ← number_at 1 params "invalid start_time"
    end_time ← number_at 2 params "invalid end_time"
    interval ← text_at 3 params "invalid interval"
    ok (market, start_time, end_time, interval)

  unfoldable pub read_page_query : Body → Checked PageQuery
  read_page_query body = do
    params ← params_of 3 body "invalid arguments: expected 3 params"
    market ← text_at 0 params "invalid market"
    offset ← number_at 1 params "invalid offset"
    limit ← number_at 2 params "invalid limit"
    ok (record { market = market; offset = fl.to_int offset; limit = fl.to_int (capped limit) })

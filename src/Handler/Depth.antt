-- ===== src/Handler/Depth.antt =====
-- internal/matchengine/server/handler/order.go: the depth of a book by steps of price.
use exchange_server.Base.{Option, none, some, ℕ, List, [], ◌∷◌, if◌then◌else◌, map}
use exchange_server.Int.{ℤ}
use exchange_server.Text.{Text, text_eq}
use exchange_server.Dict.{Dict, insert}
use exchange_server.Decimal.{Decimals, is_zero}
use exchange_server.Decimal.Rounding.{Rounding}
use exchange_server.Order.{Order}
use exchange_server.OrderBook.{OrderBook, level_at, read_price}
use exchange_server.Engine.State.{Engine, M, pure, gets, ◌>>=◌}
use exchange_server.Engine.Queries.{get_order_book}
use exchange_server.Handler.Params.{Floats, Body, Checked, ok}
use exchange_server.Handler.Requests.{DepthQuery, read_depth_query}
use exchange_server.Handler.Orders.{with_args}

pub record TextLevel : Type 0 where
  pub price : Text
  pub amount : Text

pub record DepthReply : Type 0 where
  pub asks : List TextLevel
  pub bids : List TextLevel

module _ ⦃d : Decimals⦄ ⦃r : Rounding d⦄ where
  open d use {D, add, sub, mul, div}

  -- A price that is no multiple of the interval is rounded up to the next one.
  unfoldable pub round_price : D → D → D
  round_price interval price =
      let q = r.floor (div price interval) in
      if is_zero interval
      then price
      else if is_zero (r.mod_of price interval)
      then mul q interval
      else mul (add q (r.of_nat 1)) interval

  module _ (memory : ℕ → Order D) (interval : D) where
    -- The loop of `getDepthWithInterval`: at each printed price it adds up what was traded.
    unfoldable pub add_rounded : List ℕ → Dict Text D → Dict Text D
    unfolding round_price
    add_rounded [] levels = levels
    add_rounded (p ∷ q) levels =
        let o = memory p in
        let price = d.to_text (round_price interval o.price) in
        add_rounded q
          (insert price (add (level_at memory price levels) (sub o.amount o.left)) levels)

    -- `getDepthWithInterval`, which does not look at its `limit`.
    unfoldable pub get_depth_with_interval : ℤ → List ℕ → List TextLevel
    unfolding add_rounded
    get_depth_with_interval limit orders =
        map
          (λ (price, amount). record {
            price = d.to_text (read_price memory price);
            amount = d.to_text amount;
          })
          (add_rounded orders [])

  unfoldable pub depth_in : DepthQuery D → Option OrderBook → Engine D → DepthReply
  unfolding get_depth_with_interval
  depth_in q none e = record { asks = []; bids = [] }
  depth_in q (some ob) e = record {
    asks = get_depth_with_interval e.memory q.interval q.limit ob.asks;
    bids = get_depth_with_interval e.memory q.interval q.limit ob.bids;
  }

  unfoldable pub handle_order_book_depth : ⦃fl : Floats⦄ → ℕ → Body → M (Checked DepthReply)
  unfolding read_depth_query get_order_book depth_in
  handle_order_book_depth now body =
      with_args (read_depth_query body)
        λ q. do ob ← get_order_book q.market; reply ← gets (depth_in q ob); pure (ok reply)

-- ===== src/OrderBook.antt =====
-- internal/matchengine/order/orderbook.go: the two queues of a market and its orders by id. Each
-- method holds the book's lock from its first line to its last, so it is one step.
pub mod Depth
pub mod Tests
use exchange_server.Base.{
  ℕ, ◌==◌, if◌then◌else◌, Option, none, some, List, [], ◌∷◌, map, nat_eq, get_or, length,
}
use exchange_server.Text.{Text, text_eq}
use exchange_server.Dict.{Dict, lookup, insert, erase}
use exchange_server.Decimal.{Decimals}
use exchange_server.Order.{Order, side_ask}
use exchange_server.PriceQueue
use exchange_server.PriceQueue.{push}

pub record OrderBook : Type 0 where
  pub bids : List ℕ
  pub asks : List ℕ
  pub orders : Dict ℕ ℕ

-- `NewOrderBook`
abbrev pub new_order_book : OrderBook
new_order_book = record { bids = []; asks = []; orders = [] }

-- `Remove` takes the order out of the map alone: its queue keeps it.
unfoldable pub remove : ℕ → OrderBook → OrderBook
remove order_id ob = record ob { orders = erase order_id ob.orders }

unfoldable pub get_order : ℕ → OrderBook → Option ℕ
get_order order_id ob = lookup order_id ob.orders

-- `pq := ob.Bids; if side == SideAsk { pq = ob.Asks }`
abbrev pub queue_of : ℕ → OrderBook → List ℕ
queue_of side ob = if side == side_ask then ob.asks else ob.bids

abbrev pub set_queue : ℕ → List ℕ → OrderBook → OrderBook
set_queue side q ob = if side == side_ask then record ob { asks = q } else record ob { bids = q }

first_of : List ℕ → Option ℕ
first_of [] = none
first_of (p ∷ q) = some p

unfoldable pub get_best_bid : OrderBook → Option ℕ
unfolding first_of
get_best_bid ob = first_of ob.bids

unfoldable pub get_best_ask : OrderBook → Option ℕ
unfolding first_of
get_best_ask ob = first_of ob.asks

-- `GetOrders`: the pointers of the map, in its order.
unfoldable pub get_orders : OrderBook → List ℕ
get_orders ob = map (λ (order_id, p). p) ob.orders

pub record DepthLevel (D : Type 0) : Type 0 where
  pub price : D
  pub amount : D

module _ ⦃d : Decimals⦄ (memory : ℕ → Order d.D) where
  open d use {D, zero}

  unfoldable pub add : ℕ → OrderBook → OrderBook
  add p ob =
      let o = memory p in
      let pq = push (λ q. (memory q).price) p (queue_of o.side ob) in
      set_queue o.side pq (record ob { orders = insert o.id p ob.orders })

  unfoldable pub put_order : ℕ → OrderBook → OrderBook
  unfolding add
  put_order p ob = add p ob

  -- `levels[priceStr]`, where a missing key reads as the zero value.
  abbrev pub level_at : Text → Dict Text D → D
  level_at price levels = elim (lookup price levels) [ none ↦ zero | some amount ↦ amount ]

  -- The first loop of `GetDepth` adds up what is left at each printed price.
  unfoldable pub add_levels : List ℕ → Dict Text D → Dict Text D
  add_levels [] levels = levels
  add_levels (p ∷ q) levels =
      let price = d.to_text (memory p).price in
      add_levels q (insert price (d.add (level_at price levels) (memory p).left) levels)

  -- A price that does not parse reads as zero; none does here.
  abbrev pub read_price : Text → D
  read_price s = elim (d.from_text s) [ none ↦ zero | some price ↦ price ]

  -- `GetDepth`, which does not look at its `limit`.
  unfoldable pub get_depth : ℕ → ℕ → OrderBook → List (DepthLevel D)
  unfolding add_levels
  get_depth limit side ob =
      map (λ (price, amount). record { price = read_price price; amount = amount })
        (add_levels (queue_of side ob) [])

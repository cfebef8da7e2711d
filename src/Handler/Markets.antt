-- ===== src/Handler/Markets.antt =====
-- internal/matchengine/server/handler/market.go: the list of the markets, and the status of one:
-- its waiting orders, counted and added up from the orders that the book holds by id.
use exchange_server.Base.{
  ℕ, ◌+◌, Bool, Option, none, some, List, [], ◌∷◌, if◌then◌else◌, ◌==◌, ◌||◌, length, map,
}
use exchange_server.Text.{Text, codes, split}
use exchange_server.Decimal.{Decimals}
use exchange_server.Order.{Order, side_bid, status_pending, status_partial}
use exchange_server.OrderBook.{OrderBook, get_orders, get_best_bid, get_best_ask}
use exchange_server.Engine.State.{Engine, M, pure, gets, ◌>>=◌}
use exchange_server.Engine.Queries.{get_order_book, list_markets}
use exchange_server.Handler.Params.{Floats, Body, Checked, ok}
use exchange_server.Handler.Requests.{read_market}
use exchange_server.Handler.Orders.{with_args}

-- `MarketInfo` of this package.
pub record MarketSummary : Type 0 where
  pub name : Text
  pub stock : Text
  pub money : Text
  pub fee_prec : ℕ
  pub stock_prec : ℕ
  pub money_prec : ℕ
  pub min_amount : Text
  pub max_amount : Text
  pub bid_price : Text
  pub ask_price : Text
  pub bid_amount : Text
  pub ask_amount : Text
  pub open_price : Text
  pub close_price : Text
  pub high_price : Text
  pub low_price : Text
  pub volume : Text
  pub deal : Text
  pub trade_count : ℕ
  pub order_count : ℕ
  pub buy_order_count : ℕ
  pub sell_order_count : ℕ

-- `MarketInfo{Name: market}`; the fields that no handler writes are left out.
abbrev pub blank_summary : Text → MarketSummary
blank_summary market = record {
  name = market;
  stock = [];
  money = [];
  fee_prec = 0;
  stock_prec = 0;
  money_prec = 0;
  min_amount = [];
  max_amount = [];
  bid_price = [];
  ask_price = [];
  bid_amount = [];
  ask_amount = [];
  open_price = [];
  close_price = [];
  high_price = [];
  low_price = [];
  volume = [];
  deal = [];
  trade_count = 0;
  order_count = 0;
  buy_order_count = 0;
  sell_order_count = 0;
}

pub record MarketStatus (D : Type 0) : Type 0 where
  pub market : Text
  pub mode : Text
  pub seq : ℕ
  pub order_count : ℕ
  pub pending_order_count : ℕ
  pub bid_price : D
  pub bid_amount : D
  pub bid_count : ℕ
  pub ask_price : D
  pub ask_amount : D
  pub ask_count : ℕ

-- The variables of the loop of `HandleMarketStatus`.
pub record Counts (D : Type 0) : Type 0 where
  pub pending : ℕ
  pub bid_count : ℕ
  pub ask_count : ℕ
  pub bid_amount : D
  pub ask_amount : D

-- `strings.Split(market, "_")`, if it gives two parts
unfoldable pub parse_market_name : Text → Text × Text
unfolding split
parse_market_name market = elim (split b'_' market) [
  | [] ↦ (market, [])
  | one ∷ [] ↦ (market, [])
  | stock ∷ money ∷ [] ↦ (stock, money)
  | stock ∷ money ∷ more ∷ rest ↦ (market, [])
]

unfoldable pub listed_market : Text → MarketSummary
unfolding parse_market_name
listed_market name =
    let (stock, money) = parse_market_name name in
    record (blank_summary name) {
      stock = stock;
      money = money;
      fee_prec = 8;
      stock_prec = 8;
      money_prec = 8;
      min_amount = codes "0.0001";
      max_amount = codes "1000000";
    }

module _ ⦃d : Decimals⦄ where
  open d use {D, zero as nothing, mul, sub}

  abbrev pub orders_of : OrderBook → Engine D → List (Order D)
  orders_of ob e = map e.memory (get_orders ob)

  abbrev pub is_waiting : Order D → Bool
  is_waiting o = (o.status == status_pending) || (o.status == status_partial)

  unfoldable pub handle_market_list : M (Checked (List MarketSummary))
  unfolding list_markets listed_market
  handle_market_list = do markets ← list_markets; pure (ok (map listed_market markets))

  abbrev pub no_counts : Counts D
  no_counts = record {
    pending = 0;
    bid_count = 0;
    ask_count = 0;
    bid_amount = nothing;
    ask_amount = nothing;
  }

  -- One round of the loop of `HandleMarketStatus`.
  unfoldable pub count_order : Order D → Counts D → Counts D
  count_order o c =
      if is_waiting o
      then (if o.side == side_bid
          then record c {
            pending = c.pending + 1;
            bid_count = c.bid_count + 1;
            bid_amount = d.add c.bid_amount o.left;
          }
          else record c {
            pending = c.pending + 1;
            ask_count = c.ask_count + 1;
            ask_amount = d.add c.ask_amount o.left;
          })
      else c

  unfoldable pub count_orders : List (Order D) → Counts D → Counts D
  unfolding count_order
  count_orders [] c = c
  count_orders (o ∷ orders) c = count_orders orders (count_order o c)

  -- The price of a best order, if there is one.
  abbrev pub price_or_zero : Option ℕ → Engine D → D
  price_or_zero none e = nothing
  price_or_zero (some p) e = (e.memory p).price

  unfoldable pub market_status : Text → Option OrderBook → Engine D → MarketStatus D
  unfolding count_orders
  market_status market none e = record {
    market = market;
    mode = [];
    seq = 0;
    order_count = 0;
    pending_order_count = 0;
    bid_price = nothing;
    bid_amount = nothing;
    bid_count = 0;
    ask_price = nothing;
    ask_amount = nothing;
    ask_count = 0;
  }
  market_status market (some ob) e =
      let orders = orders_of ob e in
      let c = count_orders orders no_counts in
      record {
        market = market;
        mode = codes "online";
        seq = length orders;
        order_count = length orders;
        pending_order_count = c.pending;
        bid_price = price_or_zero (get_best_bid ob) e;
        bid_amount = c.bid_amount;
        bid_count = c.bid_count;
        ask_price = price_or_zero (get_best_ask ob) e;
        ask_amount = c.ask_amount;
        ask_count = c.ask_count;
      }

module _ ⦃fl : Floats⦄ ⦃d : Decimals⦄ (now : ℕ) where
  open d use {D}

  unfoldable pub handle_market_status : Body → M (Checked (MarketStatus D))
  unfolding read_market get_order_book market_status
  handle_market_status body = with_args (read_market body) λ market. do
    ob ← get_order_book market
    status ← gets (market_status market ob)
    pure (ok status)

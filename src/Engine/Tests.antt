-- ===== src/Engine/Tests.antt =====
-- Runs of the engine at concrete inputs, over whole numbers.
use mathlib.Core.HLevel.{⊥_prop}
use mathlib.Core.List.{not-mem-nil, eq-or-mem_of_mem-cons}
use mathlib.Core.Logic.Or
use exchange_server.Base.{
  take, ℕ, ◌≡◌, refl, inl, inr, false, Option, none, some, List, [], ◌∷◌, arith, ◌==◌,
  if◌then◌else◌, filter, map, All,
}
use exchange_server.Int.{◌+ℤ◌, ℤ, pos, negsuc, ◌*ℤ◌}
use exchange_server.Text.{Text, codes, print_nat, text_eq}
use exchange_server.Dict.{Dict, lookup, insert}
use exchange_server.Decimal.Integer.{integers}
use exchange_server.Order.{
  Order, blank, type_limit, side_bid, side_ask, status_pending, status_finished,
}
use exchange_server.OrderBook.{queue_of}
use exchange_server.Balance.{Balance, Book, insufficient_balance, lock_balance, freeze, key}
use exchange_server.Engine.State.{
  book_of, Trade, MarketConfig, Engine, returns, deadlock, StopOrder, get_or_create_order_book,
}
use exchange_server.Engine.Stops.{check_list, check_stop_orders, get_stop_orders}
use exchange_server.Engine.Stops.Triggered.{fires, stays, check_stop_orders_lem}
use exchange_server.Engine.Commands.{
  put_order_no_lock, process_order, cancel_order, balance_error, lock_funds,
}
use exchange_server.Engine.Placing.{
  process_order_no_funds, process_order_deadlocks, process_order_unmatched,
}
use exchange_server.Engine.Canceling.{finds_cancelable, cancel_order_outcome}
use exchange_server.Balance.Keyed.{IsKeyed}
use exchange_server.Engine.Queries.{page, load_balances}
use exchange_server.Engine.Loading.{Loadable, load_balances_lem}
use exchange_server.OperLog.{OperLog, new_oper_log, order_deal, max_oper_log_queue_size}
use exchange_server.OperLog.Queue.{write_logs, write_logs-logs}
use exchange_server.Engine.Ended.{Kept}
use exchange_server.Engine.Keeping.{put_order_no_lock_returns}
use exchange_server.Engine.Trading.{
  traded_amount, Allows, Descending, Ready, Result, match_as_taker_trades,
}

abbrev market : Text
market = codes "BTCUSDT"

abbrev config : MarketConfig
config = record {
  name = market;
  stock = codes "BTC";
  money = codes "USDT";
  stock_prec = 8;
  money_prec = 2;
  fee_prec = 4;
  min_amount = codes "1";
}

abbrev limit_order : ℕ → ℕ → ℕ → ℤ → ℤ → Order ℤ
limit_order id user side price amount = record blank {
  id = id;
  user_id = user;
  market = market;
  side = side;
  type = type_limit;
  status = status_pending;
  price = price;
  amount = amount;
  left = amount;
}

-- An ask of 3 at 10 rests at the pointer 1; a bid of 5 at 12 comes in at 2, and one at 9 at 3.
abbrev memory : ℕ → Order ℤ
memory p =
    if p == 1
    then limit_order 101 8 side_ask (pos 10) (pos 3)
    else if p == 2
    then limit_order 102 7 side_bid (pos 12) (pos 5)
    else limit_order 103 7 side_bid (pos 9) (pos 5)

abbrev cash : Balance ℤ
cash = record { user_id = 7; asset = codes "USDT"; available = pos 900; frozen = pos 0 }

abbrev engine : Engine ℤ
engine = record {
  locked = false;
  memory = memory;
  next_address = 4;
  order_books = (market, record { bids = []; asks = 1 ∷ []; orders = (101, 1) ∷ [] }) ∷ [];
  balances = (codes "7:USDT", cash) ∷ [];
  id_value = 5;
  markets = (market, config) ∷ [];
  assets = [];
  order_trades = [];
  stops = [];
  user_orders = (8, (101, 1) ∷ []) ∷ [];
  order_index = (101, 1) ∷ [];
  producer = some [];
  oper_log = none;
  history = some [];
}

-- Both bids can be paid for.
bid_is_funded : (lock_funds 50 config (memory 2) engine).1 ≡ none
unfolding lock_funds lock_balance freeze key print_nat lookup ◌*ℤ◌
bid_is_funded = refl

low_bid_is_funded : (lock_funds 50 config (memory 3) engine).1 ≡ none
unfolding lock_funds lock_balance freeze key print_nat lookup ◌*ℤ◌
low_bid_is_funded = refl

process_order_deadlocks_example : process_order 50 4 2 engine ≡ deadlock
unfolding lookup
process_order_deadlocks_example =
    process_order_deadlocks 50 3 2 engine refl config refl 1 [] bid_is_funded refl
      (refl, refl, refl)

process_order_unmatched_example :
    (f : Engine ℤ) × (process_order 50 1 3 engine ≡ returns (([], none), f))
    × ((f.memory 3).status ≡ status_finished)
    × (f.order_books ≡ (get_or_create_order_book market engine).order_books)
    × (f.balances ≡ (lock_funds 50 config (memory 3) engine).0.balances)
    × (f.order_index ≡ engine.order_index)
    × (f.user_orders ≡ engine.user_orders)
    × (f.locked ≡ false)
unfolding lookup
process_order_unmatched_example =
    process_order_unmatched 50 0 3 engine refl config refl (1 ∷ []) low_bid_is_funded refl refl
      (inr refl)

abbrev no_cash : Engine ℤ
no_cash = record engine { balances = [] }

process_order_no_funds_example :
    process_order 50 4 2 no_cash
    ≡ returns
        (([], some (balance_error insufficient_balance)), get_or_create_order_book market no_cash)
unfolding lookup lock_funds lock_balance freeze key print_nat
process_order_no_funds_example =
    process_order_no_funds 50 4 2 no_cash refl config refl insufficient_balance refl

cancel_order_outcome_example :
    cancel_order 50 101 market engine
    ≡ (if finds_cancelable 101 market engine then deadlock else returns (tt, engine))
cancel_order_outcome_example = cancel_order_outcome 50 101 market engine refl

cancel-engine : cancel_order 50 101 market engine ≡ deadlock
unfolding lookup
cancel-engine = cancel_order_outcome 50 101 market engine refl

engine-Ready : Ready 2 side_ask market engine (1 ∷ [])
unfolding lookup get_stop_orders
engine-Ready = record {
  free = refl;
  calm = refl;
  own_market = refl;
  limit = refl;
  queue = refl;
  sorted = λ c p s. absurd (omega arith);
  outside =
      λ m. absurd (Or.elim ⊥_prop (eq-or-mem_of_mem-cons m) (λ e. omega (arith, e)) not-mem-nil);
}

match_as_taker_trades_example : Result 50 2 side_ask market 2 engine (1 ∷ [])
match_as_taker_trades_example =
    match_as_taker_trades 50 2 side_ask market 2 engine (1 ∷ []) engine-Ready (omega arith)

waiting : Order ℤ → ℤ → StopOrder ℤ
waiting o trigger = record { order = o; trigger_price = trigger; triggered = false }

abbrev stops : Dict Text (List (StopOrder ℤ))
stops =
    (
      market,
      waiting (memory 2) (pos 12) ∷ waiting (memory 1) (pos 15) ∷ waiting (memory 3) (pos 9) ∷ [],
    )
    ∷ []

check_stop_orders_example :
    ((check_stop_orders market (pos 10) stops).0
      ≡ map (λ s. s.order) (filter (fires (pos 10)) (get_stop_orders market stops)))
    × (get_stop_orders market (check_stop_orders market (pos 10) stops).1 ≡ (
        if text_eq.beq market market
        then filter (stays (pos 10)) (get_stop_orders market stops)
        else get_stop_orders market stops))
check_stop_orders_example = check_stop_orders_lem market market (pos 10) stops

check_stop_orders-stops :
    check_stop_orders market (pos 10) stops
    ≡ (memory 2 ∷ [], (market, waiting (memory 1) (pos 15) ∷ waiting (memory 3) (pos 9) ∷ []) ∷ [])
unfolding check_stop_orders check_list get_stop_orders lookup insert waiting
check_stop_orders-stops = refl

-- A start that is negative panics.
page-negative : page {A = ℕ} (7 ∷ []) (negsuc 0) (pos 1) ≡ none
unfolding page
page-negative = refl

abbrev empty : Book ℤ
empty = []

abbrev saved : Book ℤ
saved = (codes "7:USDT", cash) ∷ []

saved-IsKeyed : IsKeyed saved
unfolding key print_nat
saved-IsKeyed = (refl, tt)

saved-Loadable : All Loadable saved
saved-Loadable = (
  (
    omega arith,
    (
      λ e. omega (arith, e),
      (λ e. omega (arith, e), (λ e. omega (arith, e), (λ e. omega (arith, e), tt))),
    ),
  ),
  tt,
)

load_balances_lem_example :
    lookup (codes "7:USDT") (load_balances saved empty)
    ≡ (elim (lookup (codes "7:USDT") saved) as (λ o. Option (Balance ℤ)) [
      | none ↦ lookup (codes "7:USDT") empty
      | some b ↦ some b
    ])
unfolding lookup
load_balances_lem_example =
    load_balances_lem saved [] (codes "7:USDT") saved-IsKeyed saved-Loadable (refl, tt)

put_order_no_lock_returns_example :
    (ts : List (Trade ℤ)) × (f : Engine ℤ) × (put_order_no_lock 50 2 2 engine ≡ returns (ts, f))
    × (traded_amount ts +ℤ (f.memory 2).left ≡ pos 5)
    × All (λ t. Allows (memory 2) t.price) ts
    × Descending ts
    × Kept 2 market (memory 2) (queue_of side_bid (book_of market engine)) f
put_order_no_lock_returns_example =
    put_order_no_lock_returns 50 2 2 side_ask engine (1 ∷ []) (inl (refl, refl)) engine-Ready
      (omega arith)

abbrev log : OperLog
log = new_oper_log order_deal 50

write_logs-logs_example :
    (write_logs (log ∷ log ∷ []) (record { logs = log ∷ []; blocked = false })).logs
    ≡ take max_oper_log_queue_size (log ∷ log ∷ log ∷ [])
write_logs-logs_example =
    write_logs-logs (log ∷ log ∷ []) (record { logs = log ∷ []; blocked = false }) (omega arith)

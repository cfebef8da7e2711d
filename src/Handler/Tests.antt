-- ===== src/Handler/Tests.antt =====
-- Runs of the handlers at concrete inputs, over whole numbers: a float is one that holds an
-- integer, and Redis is a map.
use exchange_server.Base.{
  nat_eq, ℕ, ◌%◌, ◌^◌, ◌≡◌, ◌≢◌, refl, inr, Bool, true, false, Option, none, some, List, [], ◌∷◌,
  arith, ◌==◌, if◌then◌else◌, Bool-cases, inl, ap,
}
use exchange_server.Int.{ℤ, pos, negsuc, ltb_ℤ, ◌*ℤ◌, ◌+ℤ◌, ◌-ℤ◌, ◌≤ℤ◌}
use exchange_server.Text.{Text, codes, print_nat, text_eq, text_beq, text_beq_iff}
use exchange_server.Dict.{Dict, lookup, insert, lookup-insert, beq_self}
use exchange_server.Decimal.Integer.{integers, div_ℤ, print_ℤ}
use exchange_server.Decimal.Rounding.{Rounding}
use exchange_server.Order.{Order, blank, side_bid, side_ask, status_pending, status_finished}
use exchange_server.OrderBook.{OrderBook}
use exchange_server.Balance.{Balance, lock_balance, freeze, key}
use exchange_server.BalanceUpdate.{Redis, update_balance, mark_handled}
use exchange_server.Engine.State.{MarketConfig, Engine, returns, deadlock}
use exchange_server.Engine.Commands.{lock_funds}
use exchange_server.Handler.Params.{Floats, Value, number, text, ok, failed}
use exchange_server.Handler.Puts.{PutLimit}
use exchange_server.Handler.Changes.{BalanceChange}
use exchange_server.Handler.Placing.{PutReply, put_limit}
use exchange_server.Handler.Orders.{handle_order_cancel}
use exchange_server.Handler.Accounts.{change_balance}
use exchange_server.Handler.Frozen.{placed, put_limit_unmatched}
use exchange_server.Handler.Cancels.{cancel_answer, handle_order_cancel_lem}
use exchange_server.Handler.Once.{after_change, change_balance_once}

abbrev to_word : ℕ → ℤ → ℕ
to_word m (pos n) = n % m
to_word m (negsuc n) = 0

abbrev is_zero_number : ℤ → Bool
is_zero_number (pos n) = n == 0
is_zero_number (negsuc n) = false

whole_mono : (a : ℤ) (n : ℕ) → ltb_ℤ (pos n) a ≡ false → a ≤ℤ pos n
whole_mono a n h = ground arith

instance abbrev whole_floats : Floats
whole_floats = record {
  F = ℤ;
  of_nat = pos;
  greater_than = λ a b. ltb_ℤ b a;
  is_zero = is_zero_number;
  to_int = λ a. a;
  to_uint32 = to_word (2 ^ 32);
  to_uint64 = to_word (2 ^ 64);
  format = print_ℤ;
  to_int-of_nat = λ n h. refl;
  to_int_mono = λ a n h k. whole_mono a n k;
}

instance abbrev whole_rounding : Rounding integers
whole_rounding = record { floor = λ a. a; mod_of = λ a b. a -ℤ (div_ℤ a b *ℤ b); of_nat = pos }

abbrev count_of : Option ℕ → ℕ
count_of none = 0
count_of (some v) = 1

lookup-insert_self : (k : Text) (v : ℕ) (m : Dict Text ℕ) → lookup k (insert k v m) ≡ some v
lookup-insert_self k v m = rw (lookup-insert k k v m, beq_self k) refl

lookup-insert_other :
    (k j : Text) (v : ℕ) (m : Dict Text ℕ) → k ≢ j → lookup j (insert k v m) ≡ lookup j m
lookup-insert_other k j v m ne = elim (Bool-cases (text_beq k j)) [
  | inl same ↦ absurd (ne ((text_beq_iff k j).0 same))
  | inr other ↦ rw (lookup-insert k j v m, other) refl
]

instance abbrev map_redis : Redis
map_redis = record {
  R = Dict Text ℕ;
  exists = λ k s. some (count_of (lookup k s));
  set_key = λ k v ttl s. (insert k v s, true);
  exists-set_key = λ k v ttl s h. ap (λ o. some (count_of o)) (lookup-insert_self k v s);
  exists-set_key_other =
      λ k j v ttl s ne. ap (λ o. some (count_of o)) (lookup-insert_other k j v s ne);
}

abbrev market : Text
market = codes "BTCUSDT"

abbrev config : MarketConfig
config = record {
  name = market;
  stock = codes "BTC";
  money = codes "USDT";
  stock_prec = 8;
  money_prec = 2;
  fee_prec = 4;
  min_amount = codes "1";
}

abbrev resting_order : ℕ → ℕ → ℕ → ℤ → Order ℤ
resting_order id user side price = record blank {
  id = id;
  user_id = user;
  market = market;
  side = side;
  status = status_pending;
  price = price;
  amount = pos 3;
  left = pos 2;
}

-- An ask of user 8 rests at 10, and a bid of user 7 at 8.
abbrev memory : ℕ → Order ℤ
memory p =
    if p == 1 then resting_order 101 8 side_ask (pos 10) else resting_order 102 7 side_bid (pos 8)

abbrev book : OrderBook
book = record { bids = 2 ∷ []; asks = 1 ∷ []; orders = (101, 1) ∷ (102, 2) ∷ [] }

abbrev holding : Text → Balance ℤ
holding asset = record { user_id = 7; asset = asset; available = pos 900; frozen = pos 0 }

abbrev engine : Engine ℤ
engine = record {
  locked = false;
  memory = memory;
  next_address = 4;
  order_books = (market, book) ∷ [];
  balances = (codes "7:USDT", holding (codes "USDT")) ∷ (codes "7:BTCUSDT", holding market) ∷ [];
  id_value = 5;
  markets = (market, config) ∷ [];
  assets = [];
  order_trades = [];
  stops = [];
  user_orders = [];
  order_index = (101, 1) ∷ (102, 2) ∷ [];
  producer = some [];
  oper_log = none;
  history = some [];
}

abbrev bid : PutLimit ℤ
bid = record {
  user = 7;
  market = market;
  side = side_bid;
  amount = pos 5;
  price = pos 9;
  taker_fee = pos 0;
}

market_frozen : (lock_balance 7 market (pos 45) engine.balances).1 ≡ none
unfolding lock_balance freeze key print_nat lookup
market_frozen = refl

money_frozen :
    (lock_funds 50 config ((placed 50 bid engine).memory 4) (placed 50 bid engine)).1 ≡ none
unfolding lock_funds lock_balance freeze key print_nat lookup insert ◌*ℤ◌ ◌-ℤ◌ ◌+ℤ◌
money_frozen = refl

put_limit_unmatched_example :
    (reply : PutReply ℤ) × (f : Engine ℤ) × (put_limit 50 2 bid engine ≡ returns (ok reply, f))
    × (reply.trades ≡ [])
    × (reply.order.status ≡ status_finished)
    × (f.balances
        ≡ (lock_funds 50 config
            ((placed 50 bid engine).memory 4)
            (placed 50 bid engine)).0.balances)
unfolding lookup ◌*ℤ◌
put_limit_unmatched_example =
    put_limit_unmatched 50 1 bid engine config (1 ∷ []) refl refl market_frozen money_frozen refl
      (inr refl)

abbrev query : List (Value ℤ)
query = number (pos 7) ∷ text market ∷ number (pos 0) ∷ number (pos 500) ∷ []

handle_order_cancel_lem_example :
    handle_order_cancel 50 (some (number (pos 7) ∷ text market ∷ number (pos 102) ∷ [])) engine
    ≡ cancel_answer 50
        (record { user = 7; market = market; order_id = 102 })
        (lookup 102 engine.order_index)
        engine
handle_order_cancel_lem_example = handle_order_cancel_lem 50 (pos 7) (pos 102) market engine refl

-- The owner's cancellation of a live order never returns.
handle_order_cancel-engine :
    handle_order_cancel 50 (some (number (pos 7) ∷ text market ∷ number (pos 102) ∷ [])) engine
    ≡ deadlock
unfolding lookup
handle_order_cancel-engine = handle_order_cancel_lem 50 (pos 7) (pos 102) market engine refl

abbrev withdrawal : BalanceChange ℤ
withdrawal = record {
  user = 7;
  asset = codes "USDT";
  business = codes "withdraw";
  business_id = codes "1";
  change = negsuc 9;
}

abbrev empty_redis : Dict Text ℕ
empty_redis = []

first_passes :
    (update_balance 50 7 (codes "USDT") (codes "withdraw") (codes "1") empty_redis).1 ≡ none
unfolding update_balance mark_handled lookup
first_passes = refl

change_balance_once_example :
    change_balance 60 withdrawal
      (some (after_change 50 withdrawal (empty_redis, engine.balances)).0)
      (after_change 50 withdrawal (empty_redis, engine.balances)).1
    ≡ (
      failed "duplicate update rejected",
      some (after_change 50 withdrawal (empty_redis, engine.balances)).0,
      (after_change 50 withdrawal (empty_redis, engine.balances)).1,
    )
change_balance_once_example =
    change_balance_once 50 60 withdrawal [] empty_redis engine.balances first_passes

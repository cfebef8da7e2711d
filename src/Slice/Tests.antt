-- ===== src/Slice/Tests.antt =====
-- Runs of slices with concrete orders and balances. The JSON of the runs keeps each struct whole.
use exchange_server.Base.{
  ◌≡◌, refl, Option, none, some, List, [], ◌∷◌, map, All, true, arith, length,
}
use exchange_server.Int.{ℤ, pos}
use exchange_server.Text.{Text, codes, text_eq, print_nat}
use exchange_server.Dict.{Dict, lookup, IsMap}
use exchange_server.Decimal.Integer.{integers}
use exchange_server.Order.{Order}
use exchange_server.Balance.{Balance, Book}
use exchange_server.HistoryReader.{rows}
use exchange_server.Slice.{SavedOrder, SavedBalance, Json}
use exchange_server.Slice.Files.{
  listed, dump_orders_to_file, load_orders_from_file, dump_balances_to_file,
  load_balances_from_file,
}
use exchange_server.Slice.Orders.{kept, AllReadBack, load_orders_lem}
use exchange_server.Slice.Balances.{BalanceReadsBack, lookup-load_balances}
use exchange_server.Slice.Recovery.{Disk, Allows, Answers, make_slice, load_from_slice}
use exchange_server.Slice.Recovery.Unread.{load_from_slice-make_slice}

data Written : Type 0 where
  order_text : SavedOrder → Written
  balance_text : SavedBalance → Written
  line : Text → Written → Written
  other : Text → Written

abbrev order_in : Written → Option SavedOrder
order_in (order_text s) = some s
order_in (balance_text s) = none
order_in (line k w) = none
order_in (other t) = none

abbrev balance_in : Written → Option SavedBalance
balance_in (balance_text s) = some s
balance_in (order_text s) = none
balance_in (line k w) = none
balance_in (other t) = none

abbrev line_in : Written → Option (Text × Written)
line_in (line k w) = some (k, w)
line_in (order_text s) = none
line_in (balance_text s) = none
line_in (other t) = none

instance abbrev whole_json : Json
whole_json = record {
  Bytes = Written;
  write_order = order_text;
  read_order = order_in;
  write_balance = balance_text;
  read_balance = balance_in;
  write_order_line = line;
  read_order_line = line_in;
  write_balance_line = line;
  read_balance_line = line_in;
  raw = other;
  size = λ w. 100;
}

abbrev order : Order ℤ
order = record {
  id = 1;
  type = 1;
  side = 2;
  status = 2;
  user_id = 7;
  market = codes "BTCUSDT";
  price = pos 5;
  amount = pos 9;
  left = pos 4;
  freeze = pos 0;
  taker_fee = pos 1;
  maker_fee = pos 1;
  deal_stock = pos 5;
  deal_money = pos 25;
  deal_fee = pos 0;
  source = codes "web";
  create_time = 63900000000250000000;
  update_time = 0;
}

abbrev orders : Dict Text (List (Order ℤ))
orders =
    (codes "BTCUSDT", order ∷ record order { id = 2 } ∷ [])
    ∷ (codes "ETHUSDT", record order { id = 3 } ∷ [])
    ∷ []

abbrev balance : Balance ℤ
balance = record { user_id = 7; asset = codes "BTC"; available = pos 5; frozen = pos 2 }

abbrev balances : Book ℤ
balances = (codes "7:BTC", balance) ∷ []

orders-IsMap : IsMap orders
unfolding lookup
orders-IsMap = (refl, (refl, tt))

orders-AllReadBack : All AllReadBack orders
orders-AllReadBack = (
  (
    (refl, refl, (λ e. omega (arith, e), omega arith)),
    ((refl, refl, (λ e. omega (arith, e), omega arith)), tt),
  ),
  (((refl, refl, (λ e. omega (arith, e), omega arith)), tt), tt),
)

balances-IsMap : IsMap balances
unfolding lookup
balances-IsMap = (refl, tt)

balances-BalanceReadsBack : All BalanceReadsBack balances
balances-BalanceReadsBack = ((refl, refl, (λ e. omega (arith, e), omega arith)), tt)

load_orders_lem_example :
    listed (codes "BTCUSDT") (load_orders_from_file (some (dump_orders_to_file orders)))
    ≡ map kept (listed (codes "BTCUSDT") orders)
load_orders_lem_example = load_orders_lem (codes "BTCUSDT") orders orders-IsMap orders-AllReadBack

-- A quarter of a second is lost.
times : (kept order).create_time ≡ 63900000000000000000
times = refl

lookup-load_balances_example :
    lookup (codes "7:BTC") (load_balances_from_file (some (dump_balances_to_file balances)))
    ≡ lookup (codes "7:BTC") balances
lookup-load_balances_example =
    lookup-load_balances (codes "7:BTC") balances balances-IsMap balances-BalanceReadsBack

abbrev allows_all : Allows
allows_all = record { directory = true; orders = true; balances = true; insertion = true }

abbrev answers : Answers
answers = record {
  latest = rows (some (pos 1, pos 100));
  balance_table = rows [];
  old_balances = λ table. rows [];
  last_log = λ id. pos 0;
}

abbrev disk : Disk Written
disk = record { files = []; history = [] }

load_from_slice-make_slice_example :
    load_from_slice answers
      (make_slice allows_all (codes "slices") 63900000000250000000 orders balances (pos 0) disk).0
    ≡ load_from_slice answers disk
load_from_slice-make_slice_example =
    load_from_slice-make_slice allows_all (codes "slices") 63900000000250000000 orders balances
      (pos 0) answers disk

two_files :
    length (make_slice allows_all [] 63900000000250000000 orders balances (pos 0) disk).0.files ≡ 2
unfolding make_slice print_nat
two_files = refl

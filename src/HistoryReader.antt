-- ===== src/HistoryReader.antt =====
-- internal/readhistory/model and internal/readhistory/reader: the tables of the history, and the
-- queries that read them. The database that runs a query is a parameter.
pub mod Tables
pub mod Requests
pub mod Commands
pub mod Http
mod Tests
use Prim.Native.String.{String}
use exchange_server.Base.{
  ℕ, ◌%◌, Bool, true, false, Option, none, some, List, [], ◌∷◌, ◌++◌, if◌then◌else◌, ltb, ◌==◌, not,
}
use exchange_server.Int.{ℤ, pos, negsuc}
use exchange_server.Text.{Text, codes, print_nat, text_beq}

abbrev pub history_hash_num : ℕ
history_hash_num = 100

unfoldable pub hash_user_id : ℕ → ℕ
hash_user_id user = user % history_hash_num

abbrev pub numbered : String → ℕ → Text
numbered table n = codes table ++ print_nat n

unfoldable pub balance_history_table : ℕ → Text
unfolding hash_user_id
balance_history_table user = numbered "balance_history_" (hash_user_id user)

unfoldable pub order_history_table : ℕ → Text
unfolding hash_user_id
order_history_table user = numbered "order_history_" (hash_user_id user)

unfoldable pub order_detail_table : ℕ → Text
order_detail_table order_id = numbered "order_detail_" (order_id % history_hash_num)

unfoldable pub deal_history_table : ℕ → Text
deal_history_table order_id = numbered "deal_history_" (order_id % history_hash_num)

unfoldable pub user_deal_history_table : ℕ → Text
unfolding hash_user_id
user_deal_history_table user = numbered "user_deal_history_" (hash_user_id user)

-- A value for a placeholder.
pub data Arg : Type 0 where
  nat : ℕ → Arg
  int : ℤ → Arg
  text : Text → Arg

pub record Query : Type 0 where
  pub sql : Text
  pub args : List Arg

abbrev pub start_query : Text → List Arg → Query
start_query sql args = record { sql = sql; args = args }

-- `if … { query += …; args = append(args, …) }`
abbrev pub also_if : Bool → String → Arg → Query → Query
also_if false clause arg q = q
also_if true clause arg q = record { sql = q.sql ++ codes clause; args = q.args ++ arg ∷ [] }

abbrev pub page_of : ℤ → ℤ → Query → Query
page_of limit offset q = record {
  sql = q.sql ++ codes " ORDER BY id DESC LIMIT ? OFFSET ?";
  args = q.args ++ int limit ∷ int offset ∷ [];
}

abbrev pub is_zero : ℤ → Bool
is_zero (pos n) = n == 0
is_zero (negsuc n) = false

-- The query of `GetBalanceHistory`.
unfoldable pub balance_query : ℕ → Text → Text → ℕ → ℕ → ℤ → ℤ → Query
unfolding balance_history_table
balance_query user asset business start_time end_time offset limit = page_of limit offset (
    also_if (ltb 0 end_time) " AND time < ?" (nat end_time) (
      also_if (ltb 0 start_time) " AND time >= ?" (nat start_time) (
        also_if (not (text_beq business [])) " AND business = ?" (text business) (
          also_if (not (text_beq asset [])) " AND asset = ?" (text asset) (
            start_query
              (codes "SELECT time, asset, business, `change`, balance, detail FROM "
                ++ balance_history_table user
                ++ codes " WHERE user_id = ?")
              (nat user ∷ []))))))

-- The query of `GetFinishedOrders`.
abbrev pub order_columns : String
order_columns =
    "SELECT id, create_time, finish_time, user_id, market, source, t, side, price, amount, \n              taker_fee, maker_fee, deal_stock, deal_money, deal_fee FROM "

unfoldable pub orders_query : ℕ → Text → ℤ → ℕ → ℕ → ℤ → ℤ → Query
unfolding order_history_table
orders_query user market side start_time end_time offset limit = page_of limit offset (
    also_if (ltb 0 end_time) " AND create_time < ?" (nat end_time) (
      also_if (ltb 0 start_time) " AND create_time >= ?" (nat start_time) (
        also_if (not (is_zero side)) " AND side = ?" (int side) (
          start_query
            (codes order_columns
              ++ order_history_table user
              ++ codes " WHERE user_id = ? AND market = ?")
            (nat user ∷ text market ∷ [])))))

-- The query of `GetOrderDeals`.
unfoldable pub deals_query : ℕ → ℤ → ℤ → Query
unfolding deal_history_table
deals_query order_id offset limit = record {
  sql =
      codes "SELECT time, user_id, deal_id, role, price, amount, deal, fee, deal_order_id FROM "
      ++ deal_history_table order_id
      ++ codes " WHERE order_id = ? ORDER BY id DESC LIMIT ? OFFSET ?";
  args = nat order_id ∷ int limit ∷ int offset ∷ [];
}

-- The query of `GetFinishedOrderDetail`.
unfoldable pub detail_query : ℕ → Query
unfolding order_detail_table
detail_query order_id = record {
  sql = codes order_columns ++ order_detail_table order_id ++ codes " WHERE id = ?";
  args = nat order_id ∷ [];
}

-- The query of `GetUserMarketDeals`.
unfoldable pub user_deals_query : ℕ → Text → ℤ → ℤ → Query
unfolding user_deal_history_table
user_deals_query user market offset limit = record {
  sql =
      codes
        "SELECT time, user_id, deal_id, side, role, price, amount, deal, fee, deal_order_id, market FROM "
      ++ user_deal_history_table user
      ++ codes " WHERE user_id = ? AND market = ? ORDER BY id DESC LIMIT ? OFFSET ?";
  args = nat user ∷ text market ∷ int limit ∷ int offset ∷ [];
}

-- The columns that the queries select.
pub record OrderHistory (D : Type 0) : Type 0 where
  pub id : ℤ
  pub create_time : ℤ
  pub finish_time : ℤ
  pub user_id : ℤ
  pub market : Text
  pub source : Text
  pub type : ℤ
  pub side : ℤ
  pub price : D
  pub amount : D
  pub taker_fee : D
  pub maker_fee : D
  pub deal_stock : D
  pub deal_money : D
  pub deal_fee : D

pub record DealHistory (D : Type 0) : Type 0 where
  pub id : ℤ
  pub time : ℤ
  pub user_id : ℤ
  pub deal_id : ℤ
  pub order_id : ℤ
  pub side : ℤ
  pub role : ℤ
  pub price : D
  pub amount : D
  pub deal : D
  pub fee : D
  pub deal_order_id : ℤ
  pub market : Text

pub record BalanceHistory (D : Type 0) : Type 0 where
  pub time : ℤ
  pub asset : Text
  pub business : Text
  pub change : D
  pub balance : D
  pub detail : Text

-- What the database gives: rows, or an error with its message.
pub data Fetched (A : Type 0) : Type 0 where
  rows : A → Fetched A
  db_error : Text → Fetched A

-- The database: `Select` into each kind of row, and `Get` of an order, which may find none.
pub record Database (D : Type 0) : Type 0 where
  pub select_balances : Query → Fetched (List (BalanceHistory D))
  pub select_orders : Query → Fetched (List (OrderHistory D))
  pub select_deals : Query → Fetched (List (DealHistory D))
  pub get_order : Query → Fetched (Option (OrderHistory D))

-- ===== src/HistoryWriter/Appends.antt =====
-- internal/matchengine/history/writer.go: the statements for the five kinds of history table, and
-- the calls that add them.
use Prim.Native.String.{String}
use exchange_server.Base.{ℕ, ◌%◌, List, [], ◌∷◌, ◌++◌}
use exchange_server.Int.{ℤ}
use exchange_server.Text.{Text, codes, print_nat}
use exchange_server.Decimal.{Decimals}
use exchange_server.Decimal.Integer.{print_ℤ}
use exchange_server.Order.{Order, unix}
use exchange_server.HistoryWriter.{
  HistoryWriter, append_sql, history_hash_num, history_type_user_balance, history_type_user_order,
  history_type_user_deal, history_type_order_detail, history_type_order_deal,
}

-- The values of an INSERT, set off by commas.
unfoldable pub commas : List Text → Text
commas [] = []
commas (v ∷ []) = v
commas (v ∷ w ∷ rest) = v ++ codes ", " ++ commas (w ∷ rest)

-- `'%s'`, and `%f` of whole seconds: six zeros follow the point.
abbrev quoted : Text → Text
quoted s = codes "'" ++ s ++ codes "'"

abbrev float_seconds : ℤ → Text
float_seconds t = print_ℤ t ++ codes ".000000"

unfoldable pub insert_into : String → ℕ → String → List Text → Text
unfolding commas
insert_into table hash columns values =
    codes "INSERT INTO `"
    ++ codes table
    ++ print_nat hash
    ++ codes "` ("
    ++ codes columns
    ++ codes ") VALUES ("
    ++ commas values
    ++ codes ")"

-- The table that a user or an order belongs to: `uint32(id % HistoryHashNum)`.
abbrev pub hash_of : ℕ → ℕ
hash_of id = id % history_hash_num

abbrev order_columns : String
order_columns =
    "`id`, `create_time`, `finish_time`, `user_id`, `market`, `source`, `t`, `side`, `price`, `amount`, `taker_fee`, `maker_fee`, `deal_stock`, `deal_money`, `deal_fee`"

pub record DealRecord (D : Type 0) : Type 0 where
  pub id : ℕ
  pub time : ℤ
  pub user_id : ℕ
  pub market : Text
  pub deal_id : ℕ
  pub order_id : ℕ
  pub deal_order : ℕ
  pub side : ℕ
  pub role : ℕ
  pub price : D
  pub amount : D
  pub deal : D
  pub fee : D
  pub deal_fee : D

pub record BalanceChange (D : Type 0) : Type 0 where
  pub time : ℤ
  pub user_id : ℕ
  pub asset : Text
  pub business : Text
  pub change : D
  pub balance : D
  pub detail : Text

module _ ⦃d : Decimals⦄ where
  open d use {D, sub, mul, to_text}

  -- The values of an order. What it dealt is taken as what is left less the amount, so it is
  -- written with the wrong sign.
  unfoldable pub order_values : Order D → List Text
  order_values o =
      print_nat o.id
      ∷ float_seconds (unix o.create_time)
      ∷ float_seconds (unix o.update_time)
      ∷ print_nat o.user_id
      ∷ quoted o.market
      ∷ quoted o.source
      ∷ print_nat o.type
      ∷ print_nat o.side
      ∷ quoted (to_text o.price)
      ∷ quoted (to_text o.amount)
      ∷ quoted (to_text o.taker_fee)
      ∷ quoted (to_text o.maker_fee)
      ∷ quoted (to_text (sub o.left o.amount))
      ∷ quoted (to_text (mul o.price (sub o.left o.amount)))
      ∷ quoted (to_text o.deal_fee)
      ∷ []

  unfoldable pub append_user_order : Order D → HistoryWriter → HistoryWriter
  unfolding append_sql insert_into order_values
  append_user_order o w =
      let hash = hash_of o.user_id in
      append_sql history_type_user_order hash
        (insert_into "order_history_" hash order_columns (order_values o)) w

  unfoldable pub append_order_detail : Order D → HistoryWriter → HistoryWriter
  unfolding append_sql insert_into order_values
  append_order_detail o w =
      let hash = hash_of o.id in
      append_sql history_type_order_detail hash
        (insert_into "order_detail_" hash order_columns (order_values o)) w

  unfoldable pub append_order_deal : DealRecord D → ℕ → HistoryWriter → HistoryWriter
  unfolding append_sql insert_into
  append_order_deal deal hash w =
      append_sql history_type_order_deal hash
        (insert_into "deal_history_" hash
          "`id`, `time`, `user_id`, `deal_id`, `order_id`, `deal_order_id`, `role`, `price`, `amount`, `deal`, `fee`, `deal_fee`"
          (codes "NULL"
            ∷ float_seconds deal.time
            ∷ print_nat deal.user_id
            ∷ print_nat deal.deal_id
            ∷ print_nat deal.order_id
            ∷ print_nat deal.deal_order
            ∷ print_nat deal.role
            ∷ quoted (to_text deal.price)
            ∷ quoted (to_text deal.amount)
            ∷ quoted (to_text deal.deal)
            ∷ quoted (to_text deal.fee)
            ∷ quoted (to_text deal.deal_fee)
            ∷ []))
        w

  unfoldable pub append_user_deal : DealRecord D → ℕ → HistoryWriter → HistoryWriter
  unfolding append_sql insert_into
  append_user_deal deal hash w =
      append_sql history_type_user_deal hash
        (insert_into "user_deal_history_" hash
          "`id`, `time`, `user_id`, `market`, `deal_id`, `order_id`, `deal_order_id`, `side`, `role`, `price`, `amount`, `deal`, `fee`, `deal_fee`"
          (codes "NULL"
            ∷ float_seconds deal.time
            ∷ print_nat deal.user_id
            ∷ quoted deal.market
            ∷ print_nat deal.deal_id
            ∷ print_nat deal.order_id
            ∷ print_nat deal.deal_order
            ∷ print_nat deal.side
            ∷ print_nat deal.role
            ∷ quoted (to_text deal.price)
            ∷ quoted (to_text deal.amount)
            ∷ quoted (to_text deal.deal)
            ∷ quoted (to_text deal.fee)
            ∷ quoted (to_text deal.deal_fee)
            ∷ []))
        w

  unfoldable pub append_balance_change : BalanceChange D → HistoryWriter → HistoryWriter
  unfolding append_sql insert_into
  append_balance_change change w =
      let hash = hash_of change.user_id in
      append_sql history_type_user_balance hash
        (insert_into "balance_history_" hash
          "`id`, `time`, `user_id`, `asset`, `business`, `change`, `balance`, `detail`"
          (codes "NULL"
            ∷ float_seconds change.time
            ∷ print_nat change.user_id
            ∷ quoted change.asset
            ∷ quoted change.business
            ∷ quoted (to_text change.change)
            ∷ quoted (to_text change.balance)
            ∷ quoted change.detail
            ∷ []))
        w

  -- `AppendOrderHistory`
  unfoldable pub append_both_orders : Order D → HistoryWriter → HistoryWriter
  unfolding append_user_order append_order_detail
  append_both_orders o w = append_order_detail o (append_user_order o w)

  -- The record of a deal as one of its two orders sees it.
  abbrev deal_of : ℕ → ℕ → Order D → Order D → ℕ → ℕ → D → D → D → D → D → DealRecord D
  deal_of deal_id t own other side role price amount deal fee deal_fee = record {
    id = own.id;
    time = unix t;
    user_id = own.user_id;
    market = own.market;
    deal_id = deal_id;
    order_id = own.id;
    deal_order = other.id;
    side = side;
    role = role;
    price = price;
    amount = amount;
    deal = deal;
    fee = fee;
    deal_fee = deal_fee;
  }

  -- The side of a record stays 0 where only the order's own table is written.
  unfoldable pub append_order_deal_history :
      ℕ → ℕ → Order D → Order D → ℕ → ℕ → D → D → D → D → D → HistoryWriter → HistoryWriter
  unfolding append_order_deal append_user_deal
  append_order_deal_history deal_id t ask bid ask_role bid_role price amount deal ask_fee bid_fee
        w =
      let asked = deal_of deal_id t ask bid 0 ask_role price amount deal ask_fee bid_fee in
      let bidden = deal_of deal_id t bid ask 0 bid_role price amount deal bid_fee ask_fee in
      append_user_deal (record bidden { side = bid.side }) (hash_of bid.user_id)
        (append_user_deal (record asked { side = ask.side }) (hash_of ask.user_id)
          (append_order_deal bidden (hash_of bid.id) (append_order_deal asked (hash_of ask.id) w)))

  unfoldable pub append_user_balance_history :
      ℕ → ℕ → Text → Text → D → D → Text → HistoryWriter → HistoryWriter
  unfolding append_balance_change
  append_user_balance_history now user asset business change balance detail w =
      append_balance_change
        (record {
          time = unix now;
          user_id = user;
          asset = asset;
          business = business;
          change = change;
          balance = balance;
          detail = detail;
        })
        w

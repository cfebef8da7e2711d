-- ===== src/Order.antt =====
-- internal/matchengine/order/order.go and side.go: an order and its states, and the memory that
-- orders live in. A pointer to an order is an address. A time is its nanoseconds since Go's zero
-- time, the begin of year 1, so that 0 is the time of an order that was never stamped.
use exchange_server.Base.{ℕ, ◌-◌, ◌/◌, Bool, ◌||◌, ◌==◌, ltb, if◌then◌else◌}
use exchange_server.Int.{ℤ, pos, negsuc}
use exchange_server.Text.{Text, codes}
use exchange_server.Decimal.{Decimals}

-- `Type`, `Side` and `Status` are bytes, with these values.
abbrev pub type_limit : ℕ
type_limit = 1

abbrev pub type_market : ℕ
type_market = 2

abbrev pub type_stop_limit : ℕ
type_stop_limit = 4

abbrev pub side_ask : ℕ
side_ask = 1

abbrev pub side_bid : ℕ
side_bid = 2

abbrev pub status_pending : ℕ
status_pending = 1

abbrev pub status_partial : ℕ
status_partial = 2

abbrev pub status_finished : ℕ
status_finished = 3

abbrev pub status_canceled : ℕ
status_canceled = 4

pub record Order (D : Type 0) : Type 0 where
  pub id : ℕ
  pub type : ℕ
  pub side : ℕ
  pub status : ℕ
  pub user_id : ℕ
  pub market : Text
  pub price : D
  pub amount : D
  pub left : D
  pub freeze : D
  pub taker_fee : D
  pub maker_fee : D
  pub deal_stock : D
  pub deal_money : D
  pub deal_fee : D
  pub source : Text
  pub create_time : ℕ
  pub update_time : ℕ

module _ {D : Type 0} where
  unfoldable pub is_buy : Order D → Bool
  is_buy o = o.side == side_bid

  unfoldable pub is_sell : Order D → Bool
  is_sell o = o.side == side_ask

  unfoldable pub is_finished : Order D → Bool
  is_finished o = o.status == status_finished

  unfoldable pub is_canceled : Order D → Bool
  is_canceled o = o.status == status_canceled

  unfoldable pub is_active : Order D → Bool
  is_active o = o.status == status_pending || o.status == status_partial

  -- The memory of orders: what stands at each address.
  abbrev pub write : (ℕ → Order D) → ℕ → Order D → ℕ → Order D
  write memory p o q = if q == p then o else memory q

-- `OrderStatus.String`
unfoldable pub status_text : ℕ → Text
status_text s =
    if s == status_pending
    then codes "pending"
    else if s == status_partial
    then codes "partial"
    else if s == status_finished
    then codes "finished"
    else if s == status_canceled
    then codes "cancelled"
    else codes "unknown"

-- `Side.IsValid`, `Side.Opposite` and `Side.String`
unfoldable pub side_is_valid : ℕ → Bool
side_is_valid s = s == side_ask || s == side_bid

unfoldable pub opposite : ℕ → ℕ
opposite s = if s == side_ask then side_bid else side_ask

unfoldable pub side_text : ℕ → Text
side_text s = if s == side_ask then codes "sell" else codes "buy"

-- The zero value of an order.
abbrev pub blank : ⦃d : Decimals⦄ → Order d.D
blank ⦃d⦄ = record {
  id = 0;
  type = 0;
  side = 0;
  status = 0;
  user_id = 0;
  market = codes "";
  price = d.zero;
  amount = d.zero;
  left = d.zero;
  freeze = d.zero;
  taker_fee = d.zero;
  maker_fee = d.zero;
  deal_stock = d.zero;
  deal_money = d.zero;
  deal_fee = d.zero;
  source = codes "";
  create_time = 0;
  update_time = 0;
}

-- A second, in nanoseconds, and the seconds from the zero time to 1970.
abbrev pub second : ℕ
second = 1000000000

abbrev pub seconds_to_1970 : ℕ
seconds_to_1970 = 62135596800

-- `t.Unix()`: the whole seconds since 1970, which drops what is less than a second.
abbrev pub unix : ℕ → ℤ
unix t =
    if ltb (t / second) seconds_to_1970
    then negsuc (seconds_to_1970 - 1 - t / second)
    else pos (t / second - seconds_to_1970)

-- ===== src/Slice.antt =====
-- internal/matchengine/persist/slice.go: what a slice keeps of an order and of a balance. JSON is a
-- parameter: it writes the fields of a struct, and reads them back or refuses.
pub mod Files
pub mod Recovery
pub mod Orders
pub mod Balances
mod Tests
use exchange_server.Base.{ℕ, ◌+◌, ◌-◌, ◌*◌, Option, none, some}
use exchange_server.Int.{ℤ, pos, negsuc}
use exchange_server.Text.{Text}
use exchange_server.Decimal.{Decimals, number_of}
use exchange_server.Order.{Order, unix, second, seconds_to_1970}
use exchange_server.Balance.{Balance}

-- `orderData`
pub record SavedOrder : Type 0 where
  pub id : ℕ
  pub user_id : ℕ
  pub market : Text
  pub side : ℕ
  pub type : ℕ
  pub price : Text
  pub amount : Text
  pub left : Text
  pub freeze : Text
  pub status : ℕ
  pub source : Text
  pub create_time : ℤ
  pub update_time : ℤ

-- `balanceData`
pub record SavedBalance : Type 0 where
  pub user_id : ℕ
  pub asset : Text
  pub available : Text
  pub frozen : Text

-- `encoding/json` on the structs and on the records of a file's lines, and a line's length.
pub record Json : Type 1 where
  pub Bytes : Type 0
  pub write_order : SavedOrder → Bytes
  pub read_order : Bytes → Option SavedOrder
  pub write_balance : SavedBalance → Bytes
  pub read_balance : Bytes → Option SavedBalance
  -- `{"market": …, "order": …}`
  pub write_order_line : Text → Bytes → Bytes
  pub read_order_line : Bytes → Option (Text × Bytes)
  -- `{"key": …, "balance": …}`
  pub write_balance_line : Text → Bytes → Bytes
  pub read_balance_line : Bytes → Option (Text × Bytes)
  -- The bytes of a text that is put together by hand.
  pub raw : Text → Bytes
  pub size : Bytes → ℕ

-- `time.Unix` of whole seconds since 1970, on the times of the model; none is before year 1.
abbrev pub from_unix : ℤ → ℕ
from_unix (pos t) = (t + seconds_to_1970) * second
from_unix (negsuc t) = (seconds_to_1970 - 1 - t) * second

module _ ⦃d : Decimals⦄ where
  open d use {D, zero, to_text, from_text}

  abbrev pub saved_order : Order D → SavedOrder
  saved_order o = record {
    id = o.id;
    user_id = o.user_id;
    market = o.market;
    side = o.side;
    type = o.type;
    price = to_text o.price;
    amount = to_text o.amount;
    left = to_text o.left;
    freeze = to_text o.freeze;
    status = o.status;
    source = o.source;
    create_time = unix o.create_time;
    update_time = unix o.update_time;
  }

  abbrev pub order_of : SavedOrder → Order D
  order_of s = record {
    id = s.id;
    type = s.type;
    side = s.side;
    status = s.status;
    user_id = s.user_id;
    market = s.market;
    price = number_of s.price;
    amount = number_of s.amount;
    left = number_of s.left;
    freeze = number_of s.freeze;
    taker_fee = zero;
    maker_fee = zero;
    deal_stock = zero;
    deal_money = zero;
    deal_fee = zero;
    source = s.source;
    create_time = from_unix s.create_time;
    update_time = from_unix s.update_time;
  }

  abbrev pub saved_balance : Balance D → SavedBalance
  saved_balance b = record {
    user_id = b.user_id;
    asset = b.asset;
    available = to_text b.available;
    frozen = to_text b.frozen;
  }

  abbrev pub balance_of : SavedBalance → Balance D
  balance_of s = record {
    user_id = s.user_id;
    asset = s.asset;
    available = number_of s.available;
    frozen = number_of s.frozen;
  }

module _ ⦃d : Decimals⦄ ⦃j : Json⦄ where
  open d use {D}
  open j use {Bytes}

  unfoldable pub serialize_order : Order D → Bytes
  serialize_order o = j.write_order (saved_order o)

  unfoldable pub deserialize_order : Bytes → Option (Order D)
  deserialize_order bytes = elim (j.read_order bytes) [ none ↦ none | some s ↦ some (order_of s) ]

  unfoldable pub serialize_balance : Balance D → Bytes
  serialize_balance b = j.write_balance (saved_balance b)

  unfoldable pub deserialize_balance : Bytes → Option (Balance D)
  deserialize_balance bytes = elim (j.read_balance bytes) [
    | none ↦ none
    | some s ↦ some (balance_of s)
  ]

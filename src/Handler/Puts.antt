-- ===== src/Handler/Puts.antt =====
-- internal/matchengine/server/handler/order.go: the checks of the three handlers that place
-- orders.
use exchange_server.Base.{ℕ, get_elem?, Option, none, some}
use exchange_server.Text.{Text, codes}
use exchange_server.Decimal.{Decimals, is_positive}
use exchange_server.Handler.Params.{
  Floats, Body, Value, Checked, ok, ◌>>=◌, ◌>>◌, check, params_of, number_at, text_at, side_at,
  decimal_at, as_text,
}

pub record PutLimit (D : Type 0) : Type 0 where
  pub user : ℕ
  pub market : Text
  pub side : ℕ
  pub amount : D
  pub price : D
  pub taker_fee : D

pub record PutMarket (D : Type 0) : Type 0 where
  pub user : ℕ
  pub market : Text
  pub side : ℕ
  pub amount : D
  pub taker_fee : D

pub record PutStop (D : Type 0) : Type 0 where
  pub user : ℕ
  pub market : Text
  pub side : ℕ
  pub stop_price : D
  pub amount : D
  pub taker_fee : D
  pub source : Text

module _ ⦃fl : Floats⦄ ⦃d : Decimals⦄ where
  open fl use {F}
  open d use {D}

  unfoldable pub read_put_limit : Body → Checked (PutLimit D)
  read_put_limit body = do
    params ← params_of 8 body "invalid arguments: expected 8 params"
    user ← number_at 0 params "invalid user_id"
    market ← text_at 1 params "invalid market"
    side ← side_at 2 params
    amount ← decimal_at 3 params "invalid amount" "invalid amount"
    check (is_positive amount) "invalid amount"
    price ← decimal_at 4 params "invalid price" "invalid price"
    check (is_positive price) "invalid price"
    taker_fee ← decimal_at 5 params "invalid taker_fee" "invalid taker_fee"
    _ ← text_at 6 params "invalid maker_fee"
    ok (record {
      user = fl.to_uint32 user;
      market = market;
      side = side;
      amount = amount;
      price = price;
      taker_fee = taker_fee;
    })

  -- The sixth parameter may be anything.
  unfoldable pub read_put_market : Body → Checked (PutMarket D)
  read_put_market body = do
    params ← params_of 6 body "invalid arguments: expected 6 params"
    user ← number_at 0 params "invalid user_id"
    market ← text_at 1 params "invalid market"
    side ← side_at 2 params
    amount ← decimal_at 3 params "invalid amount" "invalid amount"
    check (is_positive amount) "invalid amount"
    taker_fee ← decimal_at 4 params "invalid taker_fee" "invalid taker_fee"
    ok (record {
      user = fl.to_uint32 user;
      market = market;
      side = side;
      amount = amount;
      taker_fee = taker_fee;
    })

  -- `source, ok := params[6].(string)`, empty if it is no string
  abbrev pub source_of : Option (Value F) → Text
  source_of none = codes ""
  source_of (some v) = elim (as_text v) [ none ↦ codes "" | some s ↦ s ]

  unfoldable pub read_put_stop : Body → Checked (PutStop D)
  read_put_stop body = do
    params ← params_of 9 body "invalid arguments: expected 9 params"
    user ← number_at 0 params "invalid user_id"
    market ← text_at 1 params "invalid market"
    side ← side_at 2 params
    stop_price ← decimal_at 3 params "invalid stop_price" "invalid stop_price format"
    amount ← decimal_at 4 params "invalid amount" "invalid amount format"
    taker_fee ← decimal_at 5 params "invalid taker_fee" "invalid taker_fee format"
    _ ← number_at 7 params "invalid stop_type"
    _ ← text_at 8 params "invalid trigger_price"
    ok (record {
      user = fl.to_uint32 user;
      market = market;
      side = side;
      stop_price = stop_price;
      amount = amount;
      taker_fee = taker_fee;
      source = source_of (get_elem? params 6);
    })

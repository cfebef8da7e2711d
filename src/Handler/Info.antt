-- ===== src/Handler/Info.antt =====
-- internal/matchengine/server/handler/order.go: what the answers show of orders and trades, and
-- the loop that takes a page of a list.
use exchange_server.Base.{
  ℕ, zero, suc, ◌-◌, ◌%◌, ◌^◌, Option, none, some, List, [], ◌∷◌, if◌then◌else◌, ltb, length,
  get_elem?,
}
use exchange_server.Int.{ℤ, pos, negsuc, ◌+ℤ◌, ltb_ℤ}
use exchange_server.Text.{Text, codes}
use exchange_server.Decimal.{Decimals}
use exchange_server.Order.{Order, unix}
use exchange_server.Engine.State.{Trade}

pub record OrderInfo (D : Type 0) : Type 0 where
  pub id : ℕ
  pub market : Text
  pub side : ℕ
  pub type : ℕ
  pub user_id : ℕ
  pub price : D
  pub amount : D
  pub taker_fee : D
  pub maker_fee : D
  pub left : D
  pub deal_stock : D
  pub deal_money : D
  pub deal_fee : D
  pub status : ℕ
  pub create_time : ℤ
  pub update_time : ℤ
  pub source : Text

pub record TradeInfo (D : Type 0) : Type 0 where
  pub id : ℕ
  pub taker_order_id : ℕ
  pub maker_order_id : ℕ
  pub taker_user_id : ℕ
  pub maker_user_id : ℕ
  pub market : Text
  pub side : ℕ
  pub price : D
  pub amount : D
  pub taker_fee : D
  pub maker_fee : D
  pub create_time : ℤ

-- A page of a list, in the shape that the answers give it.
pub record Page (A : Type 0) : Type 0 where
  pub limit : ℤ
  pub offset : ℤ
  pub total : ℕ
  pub records : List A

module _ ⦃d : Decimals⦄ where
  open d use {D, zero as nothing, sub, mul}

  -- The field `left` gets what was traded, and `deal_stock` what is left.
  unfoldable pub order_to_info : ℕ → Order D → OrderInfo D
  order_to_info now o = record {
    id = o.id;
    market = o.market;
    side = o.side;
    type = 1;
    user_id = o.user_id;
    price = o.price;
    amount = o.amount;
    taker_fee = o.deal_fee;
    maker_fee = nothing;
    left = sub o.amount o.left;
    deal_stock = o.left;
    deal_money = mul o.price o.left;
    deal_fee = o.deal_fee;
    status = o.status;
    create_time = unix o.create_time;
    update_time = unix now;
    source = codes "";
  }

  unfoldable pub trade_to_info : Trade D → TradeInfo D
  trade_to_info t = record {
    id = t.id;
    taker_order_id = t.taker_order_id;
    maker_order_id = t.maker_order_id;
    taker_user_id = t.taker_user_id;
    maker_user_id = t.maker_user_id;
    market = t.market;
    side = t.side;
    price = t.price;
    amount = t.amount;
    taker_fee = t.taker_fee;
    maker_fee = t.maker_fee;
    create_time = unix t.created_at;
  }

  unfoldable pub trades_to_infos : List (Trade D) → List (TradeInfo D)
  unfolding trade_to_info
  trades_to_infos [] = []
  trades_to_infos (t ∷ trades) = trade_to_info t ∷ trades_to_infos trades

-- A 64-bit `int` holds a sum modulo 2^64.
abbrev pub wrap_int : ℤ → ℤ
wrap_int (pos n) = let w = n % 2 ^ 64 in if ltb w (2 ^ 63) then pos w else negsuc (2 ^ 64 - w - 1)
wrap_int (negsuc n) =
    let w = n % 2 ^ 64 in if ltb w (2 ^ 63) then negsuc w else pos (2 ^ 64 - w - 1)

-- `if start > total { start = total }`
abbrev pub at_most : ℕ → ℤ → ℤ
at_most total z = if ltb_ℤ (pos total) z then pos total else z

module _ {A : Type 0} where
  -- `for i := start; i < end; i++ { records = append(records, …[i]) }`, of `n` rounds; `none` where
  -- an index is out of range.
  unfoldable pub read_from : ℕ → ℕ → List A → Option (List A)
  read_from zero i xs = some []
  read_from (suc n) i xs =
      let rest = read_from n (suc i) xs in
      elim (get_elem? xs i) [
        | none ↦ none
        | some x ↦ elim rest [ none ↦ none | some l ↦ some (x ∷ l) ]
      ]

  -- The loop between two signed bounds: an index below zero is out of range.
  unfoldable pub read_range : ℤ → ℤ → List A → Option (List A)
  unfolding read_from
  read_range (negsuc i) end xs = if ltb_ℤ (negsuc i) end then none else some []
  read_range (pos i) (negsuc j) xs = some []
  read_range (pos i) (pos j) xs = read_from (j - i) i xs

  unfoldable pub read_page : ℤ → ℤ → List A → Option (List A)
  unfolding read_range
  read_page offset limit xs =
      let total = length xs in
      let start = at_most total offset in
      let end = at_most total (wrap_int (start +ℤ limit)) in read_range start end xs

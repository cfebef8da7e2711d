-- ===== src/HistoryReader/Http.antt =====
-- internal/readhistory/server/server.go: the JSON-RPC calls over HTTP. The id of a request, which
-- its answer repeats, is left out.
use exchange_server.Base.{
  ℕ, Option, none, some, List, [], if◌then◌else◌, ◌==◌, not, length, leb, get_elem?, map,
}
use exchange_server.Int.{ℤ, pos, negsuc}
use exchange_server.Text.{Text, codes, text_eq}
use exchange_server.Decimal.{Decimals}
use exchange_server.Handler.Params.{Floats, Value, as_text}
use exchange_server.HistoryReader.{
  Database, OrderHistory, DealHistory, BalanceHistory, balance_query, orders_query, deals_query,
  detail_query, user_deals_query,
}
use exchange_server.HistoryReader.Requests.{
  Outcome, ok, failed, ◌>>=◌, ◌>>◌, check, fetched, HistoryPage, is_bad_limit, number, text_or,
}

-- The codes of JSON-RPC: -32602, -32603, -32700 and -32601.
abbrev invalid_params : ℤ
invalid_params = negsuc 32601

abbrev internal_error : ℤ
internal_error = negsuc 32602

abbrev parse_error : ℤ
parse_error = negsuc 32699

abbrev method_not_found : ℤ
method_not_found = negsuc 32600

pub record DealRow : Type 0 where
  pub time : ℤ
  pub deal_id : ℤ
  pub order_id : ℤ
  pub deal_order_id : ℤ
  pub role : ℤ
  pub price : Text
  pub amount : Text
  pub deal : Text
  pub fee : Text

pub record UserDealRow : Type 0 where
  pub id : ℤ
  pub time : ℤ
  pub user : ℤ
  pub side : ℤ
  pub role : ℤ
  pub amount : Text
  pub price : Text
  pub deal : Text
  pub fee : Text
  pub deal_order_id : ℤ

pub record BalanceRow : Type 0 where
  pub time : ℤ
  pub asset : Text
  pub business : Text
  pub change : Text
  pub balance : Text
  pub detail : Text

pub record Request (F : Type 0) : Type 0 where
  pub method : Text
  pub params : List (Value F)

pub data Reply (D : Type 0) : Type 0 where
  order_deals : HistoryPage DealRow → Reply D
  order_finished : HistoryPage (OrderHistory D) → Reply D
  order_detail : Option (OrderHistory D) → Reply D
  balance_history : HistoryPage BalanceRow → Reply D
  user_deals : HistoryPage UserDealRow → Reply D

-- `if limit == 0 || limit > 101 { limit = 101 }`
abbrev pub limit_or_101 : ℤ → ℤ
limit_or_101 limit = if is_bad_limit limit then pos 101 else limit

module _ ⦃d : Decimals⦄ where
  open d use {D, to_text}

  unfoldable pub deal_row : DealHistory D → DealRow
  deal_row rec = record {
    time = rec.time;
    deal_id = rec.deal_id;
    order_id = rec.order_id;
    deal_order_id = rec.deal_order_id;
    role = rec.role;
    price = to_text rec.price;
    amount = to_text rec.amount;
    deal = to_text rec.deal;
    fee = to_text rec.fee;
  }

  unfoldable pub user_deal_row : DealHistory D → UserDealRow
  user_deal_row rec = record {
    id = rec.id;
    time = rec.time;
    user = rec.user_id;
    side = rec.side;
    role = rec.role;
    amount = to_text rec.amount;
    price = to_text rec.price;
    deal = to_text rec.deal;
    fee = to_text rec.fee;
    deal_order_id = rec.deal_order_id;
  }

  unfoldable pub balance_row : BalanceHistory D → BalanceRow
  balance_row rec = record {
    time = rec.time;
    asset = rec.asset;
    business = rec.business;
    change = to_text rec.change;
    balance = to_text rec.balance;
    detail = rec.detail;
  }

module _ ⦃fl : Floats⦄ ⦃d : Decimals⦄ (db : Database d.D) where
  open fl use {F}
  open d use {D}

  unfoldable pub order_deals_with_req : List (Value F) → Outcome (HistoryPage DealRow)
  unfolding deals_query deal_row
  order_deals_with_req params = do
    check (length params == 3) invalid_params "Invalid params"
    order_id ← number 0 params
    check (not (fl.to_uint64 order_id == 0)) invalid_params "Invalid order_id"
    offset ← number 1 params
    asked ← number 2 params
    let limit = limit_or_101 (fl.to_int asked)
    records ←
        fetched internal_error
          (db.select_deals (deals_query (fl.to_uint64 order_id) (fl.to_int offset) limit))
    ok (record { offset = fl.to_int offset; limit = limit; records = map deal_row records })

  abbrev side_or_zero : List (Value F) → Outcome ℤ
  side_or_zero params =
      if leb 7 (length params) then (do v ← number 6 params; ok (fl.to_int v)) else ok (pos 0)

  unfoldable pub order_finished_with_req : List (Value F) → Outcome (HistoryPage (OrderHistory D))
  unfolding orders_query
  order_finished_with_req params = do
    check (leb 6 (length params)) invalid_params "Invalid params"
    user ← number 0 params
    check (not (fl.to_uint32 user == 0)) invalid_params "Invalid user_id"
    market ← text_or 1 params invalid_params "Invalid market"
    start_time ← number 2 params
    end_time ← number 3 params
    offset ← number 4 params
    asked ← number 5 params
    let limit = limit_or_101 (fl.to_int asked)
    side ← side_or_zero params
    records ← fetched internal_error (
        db.select_orders (
          orders_query (fl.to_uint32 user) market side (fl.to_uint64 start_time)
            (fl.to_uint64 end_time) (fl.to_int offset) limit))
    ok (record { offset = fl.to_int offset; limit = limit; records = records })

  unfoldable pub order_finished_detail_with_req : List (Value F) → Outcome (Option (OrderHistory D))
  unfolding detail_query
  order_finished_detail_with_req params = do
    check (length params == 1) invalid_params "Invalid params"
    order_id ← number 0 params
    check (not (fl.to_uint64 order_id == 0)) invalid_params "Invalid order_id"
    fetched internal_error (db.get_order (detail_query (fl.to_uint64 order_id)))

  -- `asset, _ := params[i].(string)`
  abbrev text_or_empty : ℕ → List (Value F) → Text
  text_or_empty i params = elim (get_elem? params i) [
    | none ↦ []
    | some v ↦ elim (as_text v) [ none ↦ [] | some s ↦ s ]
  ]

  unfoldable pub balance_history_with_req : List (Value F) → Outcome (HistoryPage BalanceRow)
  unfolding balance_query balance_row
  balance_history_with_req params = do
    check (leb 7 (length params)) invalid_params "invalid params"
    user ← number 0 params
    start_time ← number 3 params
    end_time ← number 4 params
    offset ← number 5 params
    asked ← number 6 params
    let limit = limit_or_101 (fl.to_int asked)
    records ← fetched internal_error (
        db.select_balances (
          balance_query (fl.to_uint32 user) (text_or_empty 1 params) (text_or_empty 2 params)
            (fl.to_uint64 start_time) (fl.to_uint64 end_time) (fl.to_int offset) limit))
    ok (record { offset = fl.to_int offset; limit = limit; records = map balance_row records })

  unfoldable pub user_deals_with_req : List (Value F) → Outcome (HistoryPage UserDealRow)
  unfolding user_deals_query user_deal_row
  user_deals_with_req params = do
    check (leb 4 (length params)) invalid_params "Invalid params"
    user ← number 0 params
    check (not (fl.to_uint32 user == 0)) invalid_params "Invalid user_id"
    market ← text_or 1 params invalid_params "Invalid market"
    offset ← number 2 params
    asked ← number 3 params
    let limit = limit_or_101 (fl.to_int asked)
    records ←
        fetched internal_error
          (db.select_deals (user_deals_query (fl.to_uint32 user) market (fl.to_int offset) limit))
    ok (record { offset = fl.to_int offset; limit = limit; records = map user_deal_row records })

  abbrev as_reply : {A : Type 0} → (A → Reply D) → Outcome A → Outcome (Reply D)
  as_reply wrap m = m >>= λ a. ok (wrap a)

  -- The call by the method's name.
  unfoldable pub dispatch : Request F → Outcome (Reply D)
  unfolding order_deals_with_req order_finished_with_req order_finished_detail_with_req
      balance_history_with_req user_deals_with_req
  dispatch req =
      if text_eq.beq req.method (codes "order.deals")
      then as_reply order_deals (order_deals_with_req req.params)
      else if text_eq.beq req.method (codes "order.finished")
      then as_reply order_finished (order_finished_with_req req.params)
      else if text_eq.beq req.method (codes "order.finished_detail")
      then as_reply order_detail (order_finished_detail_with_req req.params)
      else if text_eq.beq req.method (codes "balance.history")
      then as_reply balance_history (balance_history_with_req req.params)
      else if text_eq.beq req.method (codes "market.user_deals")
      then as_reply user_deals (user_deals_with_req req.params)
      else failed method_not_found "Method not found"

  -- `none` is a body that does not parse.
  unfoldable pub handle_http_json_rpc : Option (Request F) → Outcome (Reply D)
  unfolding dispatch
  handle_http_json_rpc none = failed parse_error "Parse error"
  handle_http_json_rpc (some req) = dispatch req

  -- The routes of their own have the same lines again, on a body that parses.
  unfoldable pub handle_http_order_deals : Option (List (Value F)) → Outcome (HistoryPage DealRow)
  unfolding order_deals_with_req
  handle_http_order_deals none = failed parse_error "Parse error"
  handle_http_order_deals (some params) = order_deals_with_req params

  unfoldable pub handle_http_order_finished :
      Option (List (Value F)) → Outcome (HistoryPage (OrderHistory D))
  unfolding order_finished_with_req
  handle_http_order_finished none = failed parse_error "Parse error"
  handle_http_order_finished (some params) = order_finished_with_req params

  unfoldable pub handle_http_order_finished_detail :
      Option (List (Value F)) → Outcome (Option (OrderHistory D))
  unfolding order_finished_detail_with_req
  handle_http_order_finished_detail none = failed parse_error "Parse error"
  handle_http_order_finished_detail (some params) = order_finished_detail_with_req params

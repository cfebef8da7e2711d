-- ===== src/HistoryReader/Commands.antt =====
-- internal/readhistory/server/handler/order.go: the commands of the history reader. A failure
-- becomes an answer with code 1.
use exchange_server.Base.{
  Bool, false, Option, none, some, List, if◌then◌else◌, ◌==◌, ◌||◌, not, length, leb,
}
use exchange_server.Int.{ℤ, pos, negsuc}
use exchange_server.Handler.Params.{Floats, Value, Body}
use exchange_server.HistoryReader.{
  Database, OrderHistory, DealHistory, orders_query, deals_query, detail_query,
}
use exchange_server.HistoryReader.Requests.{
  Outcome, ok, failed, ◌>>=◌, ◌>>◌, check, fetched, HistoryPage, is_bad_limit, number, text_or,
}

-- `side != 0 && side != 1 && side != 2`
abbrev is_side : ℤ → Bool
is_side (pos n) = (n == 0) || ((n == 1) || (n == 2))
is_side (negsuc n) = false

module _ ⦃fl : Floats⦄ {D : Type 0} (db : Database D) where
  open fl use {F}

  abbrev side_of : List (Value F) → Outcome ℤ
  side_of params =
      if leb 7 (length params)
      then (do
        v ← number 6 params
        check (is_side (fl.to_int v)) (pos 1) "invalid argument"
        ok (fl.to_int v))
      else ok (pos 0)

  abbrev params_of : Body → Outcome (List (Value F))
  params_of none = failed (pos 1) "invalid params"
  params_of (some params) = ok params

  unfoldable pub order_history_command : Body → Outcome (HistoryPage (OrderHistory D))
  unfolding orders_query
  order_history_command body = do
    params ← params_of body
    check (leb 6 (length params)) (pos 1) "invalid argument"
    user ← number 0 params
    check (not (fl.to_uint32 user == 0)) (pos 1) "invalid argument"
    market ← text_or 1 params (pos 1) "invalid argument"
    start_time ← number 2 params
    end_time ← number 3 params
    offset ← number 4 params
    limit ← number 5 params
    check (not (is_bad_limit (fl.to_int limit))) (pos 1) "invalid argument"
    side ← side_of params
    records ← fetched (pos 1) (
        db.select_orders (
          orders_query (fl.to_uint32 user) market side (fl.to_uint64 start_time)
            (fl.to_uint64 end_time) (fl.to_int offset) (fl.to_int limit)))
    ok (record { offset = fl.to_int offset; limit = fl.to_int limit; records = records })

  unfoldable pub order_deals_command : Body → Outcome (HistoryPage (DealHistory D))
  unfolding deals_query
  order_deals_command body = do
    params ← params_of body
    check (length params == 3) (pos 1) "invalid argument"
    order_id ← number 0 params
    check (not (fl.to_uint64 order_id == 0)) (pos 1) "invalid argument"
    offset ← number 1 params
    limit ← number 2 params
    check (not (is_bad_limit (fl.to_int limit))) (pos 1) "invalid argument"
    records ←
        fetched (pos 1) (
          db.select_deals
            (deals_query (fl.to_uint64 order_id) (fl.to_int offset) (fl.to_int limit)))
    ok (record { offset = fl.to_int offset; limit = fl.to_int limit; records = records })

  unfoldable pub order_detail_finished_command : Body → Outcome (Option (OrderHistory D))
  unfolding detail_query
  order_detail_finished_command body = do
    params ← params_of body
    check (length params == 1) (pos 1) "invalid argument"
    order_id ← number 0 params
    check (not (fl.to_uint64 order_id == 0)) (pos 1) "invalid argument"
    fetched (pos 1) (db.get_order (detail_query (fl.to_uint64 order_id)))

-- ===== src/Handler/Orders.antt =====
-- internal/matchengine/server/handler/order.go: the handlers that read and cancel orders.
use exchange_server.Base.{
  ℕ, Bool, true, Option, none, some, List, [], if◌then◌else◌, ◌==◌, ◌&&◌, ◌||◌, not, nat_eq, map,
  filter, length,
}
use exchange_server.Int.{ℤ}
use exchange_server.Text.{Text, text_eq}
use exchange_server.Decimal.{Decimals}
use exchange_server.Order.{Order, side_bid, status_finished, status_canceled, unix}
use exchange_server.OrderBook.{OrderBook, get_orders}
use exchange_server.Engine.State.{Engine, Trade, M, pure, gets, ◌>>=◌, ◌>>◌}
use exchange_server.Engine.Queries.{get_order, get_order_book, get_order_trades, or_panic}
use exchange_server.Engine.Commands.{cancel_order}
use exchange_server.Handler.Params.{Floats, Body, Checked, ok, failed}
use exchange_server.Handler.Requests.{
  CancelRequest, read_user_query, read_book_query, read_cancel, read_detail, read_deals_query,
}
use exchange_server.Handler.Info.{OrderInfo, Page, order_to_info, read_page}

pub record DealRecord (D : Type 0) : Type 0 where
  pub id : ℕ
  pub time : ℤ
  pub user : ℕ
  pub role : ℕ
  pub amount : D
  pub price : D
  pub deal : D
  pub fee : D
  pub deal_order_id : ℕ

module _ ⦃d : Decimals⦄ where
  open d use {D}

  -- The rest of a handler runs on what its checks read, or it answers with their message.
  abbrev pub with_args : {A B : Type 0} → Checked A → (A → M (Checked B)) → M (Checked B)
  with_args (ok a) handle e = handle a e
  with_args (failed message) handle e = pure (failed message) e

  -- The orders of `HandleOrderQuery`, and of `HandleOrderHistory`.
  abbrev pub is_open_of : ℕ → Order D → Bool
  is_open_of user o = (o.user_id == user) && not (o.status == status_canceled)

  abbrev pub is_closed : Order D → Bool
  is_closed o = (o.status == status_finished) || (o.status == status_canceled)

abbrev pub pointers_of : Option OrderBook → Option (List ℕ)
pointers_of none = none
pointers_of (some ob) = some (get_orders ob)

abbrev side_of : ℕ → Option OrderBook → Option (List ℕ)
side_of side none = none
side_of side (some ob) = some (if side == side_bid then ob.bids else ob.asks)

module _ ⦃d : Decimals⦄ (now : ℕ) where
  open d use {D}

  -- The page of the orders that are kept, from the book of the market if it has one.
  unfoldable pub orders_page :
      ℤ → ℤ → Option (List ℕ) → (Order D → Bool) → M (Checked (Page (OrderInfo D)))
  unfolding read_page order_to_info
  orders_page offset limit none keep =
      pure (ok (record { limit = limit; offset = offset; total = 0; records = [] }))
  orders_page offset limit (some pointers) keep = do
    orders ← gets (λ e. filter keep (map e.memory pointers))
    records ← or_panic (read_page offset limit orders)
    pure (
        ok (record {
          limit = limit;
          offset = offset;
          total = length orders;
          records = map (order_to_info now) records;
        }))

  unfoldable pub handle_order_query : ⦃fl : Floats⦄ → Body → M (Checked (Page (OrderInfo D)))
  unfolding read_user_query orders_page get_order_book
  handle_order_query body = with_args (read_user_query body) λ q. do
    ob ← get_order_book q.market
    orders_page q.offset q.limit (pointers_of ob) (is_open_of q.user)

  unfoldable pub handle_order_history : ⦃fl : Floats⦄ → Body → M (Checked (Page (OrderInfo D)))
  unfolding read_user_query orders_page get_order_book
  handle_order_history body = with_args (read_user_query body) λ q. do
    ob ← get_order_book q.market
    orders_page q.offset q.limit (pointers_of ob) (λ o. (o.user_id == q.user) && is_closed o)

  unfoldable pub handle_order_book : ⦃fl : Floats⦄ → Body → M (Checked (Page (OrderInfo D)))
  unfolding read_book_query orders_page get_order_book
  handle_order_book body = with_args (read_book_query body) λ q. do
    ob ← get_order_book q.market
    orders_page q.offset q.limit (side_of q.side ob) (λ o. true)

  -- The order behind a pointer as the answer shows it.
  abbrev info_at : ℕ → Engine D → OrderInfo D
  info_at p e = order_to_info now (e.memory p)

  unfoldable pub cancel_updated : Option ℕ → M (Checked (OrderInfo D))
  unfolding order_to_info
  cancel_updated none = pure (failed "order not found after cancel")
  cancel_updated (some p) = do info ← gets (info_at p); pure (ok info)

  unfoldable pub cancel_own : CancelRequest → Option ℕ → M (Checked (OrderInfo D))
  unfolding cancel_order cancel_updated get_order
  cancel_own a none = pure (failed "order not found")
  cancel_own a (some p) = do
    o ← gets (λ e. e.memory p)
    if o.user_id == a.user
        then (do
          cancel_order now a.order_id a.market
          updated ← get_order a.order_id
          cancel_updated updated)
        else pure (failed "user not match")

  unfoldable pub handle_order_cancel : ⦃fl : Floats⦄ → Body → M (Checked (OrderInfo D))
  unfolding read_cancel cancel_own get_order
  handle_order_cancel body =
      with_args (read_cancel body) λ a. do found ← get_order a.order_id; cancel_own a found

  -- An order of the market that is kept, or null.
  abbrev detail : Text → (Order D → Bool) → Option ℕ → Engine D → Option (OrderInfo D)
  detail market keep none e = none
  detail market keep (some p) e =
      if text_eq.beq (e.memory p).market market && keep (e.memory p)
      then some (info_at p e)
      else none

  unfoldable pub handle_order_detail : ⦃fl : Floats⦄ → Body → M (Checked (Option (OrderInfo D)))
  unfolding read_detail get_order order_to_info
  handle_order_detail body = with_args (read_detail body) λ q. do
    found ← get_order q.order_id
    info ← gets (detail q.market (λ o. true) found)
    pure (ok info)

  unfoldable pub handle_order_detail_finished :
      ⦃fl : Floats⦄ → Body → M (Checked (Option (OrderInfo D)))
  unfolding read_detail get_order order_to_info
  handle_order_detail_finished body = with_args (read_detail body) λ q. do
    found ← get_order q.order_id
    info ← gets (detail q.market is_closed found)
    pure (ok info)

  -- A trade as one of its two orders has seen it: the taker's role is 2, the maker's 1.
  unfoldable pub deal_record : ℕ → Trade D → DealRecord D
  deal_record order_id t =
      if t.taker_order_id == order_id
      then record {
        id = t.id;
        time = unix t.created_at;
        user = t.taker_user_id;
        role = 2;
        amount = t.amount;
        price = t.price;
        deal = t.amount;
        fee = t.taker_fee;
        deal_order_id = t.maker_order_id;
      }
      else record {
        id = t.id;
        time = unix t.created_at;
        user = t.maker_user_id;
        role = 1;
        amount = t.amount;
        price = t.price;
        deal = t.amount;
        fee = t.maker_fee;
        deal_order_id = t.taker_order_id;
      }

  unfoldable pub handle_order_deals : ⦃fl : Floats⦄ → Body → M (Checked (Page (DealRecord D)))
  unfolding read_deals_query deal_record get_order_trades
  handle_order_deals body = with_args (read_deals_query body) λ q. do
    r ← get_order_trades q.order_id q.offset q.limit
    pure (
        ok (record {
          limit = q.limit;
          offset = q.offset;
          total = r.1;
          records = map (deal_record q.order_id) r.0;
        }))

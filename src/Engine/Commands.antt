-- ===== src/Engine/Commands.antt =====
-- internal/matchengine/engine: the commands that the handlers, the start-up and the replay of the
-- operation logs give the engine.

use exchange_server.Base.{
  ℕ, Bool, true, false, Option, none, some, List, [], ◌∷◌, ◌++◌, if◌then◌else◌, ◌==◌, ◌&&◌, ◌||◌,
  not, nat_eq,
}
use exchange_server.Text.{Text, text_eq}
use exchange_server.Dict.{lookup}
use exchange_server.Decimal.{Decimals, is_positive}
use exchange_server.Order.{
  Order, side_bid, status_pending, status_partial, status_finished, status_canceled, is_finished,
}
use exchange_server.OrderBook.{remove, get_order, add}
use exchange_server.OperLog.{OrderLog, CancelLog, order_create, order_cancel}
use exchange_server.Balance.{BalanceError, lock_balance, unlock_balance}
use exchange_server.Engine.State.{
  MarketConfig, Trade, order_event, Engine, Run, returns, deadlock, M, pure, ◌>>=◌, ◌>>◌, lock,
  unlock, modify, gets, next_id, alloc, send, set_order, write_oper_log, append_order_history,
  get_market_locked, get_market, book_of, set_book, get_or_create_order_book, add_to_user_index,
  remove_from_user_index,
}
use exchange_server.Engine.Stops.{add_stop_order, remove_stop_order, check_stop_orders}
use exchange_server.Engine.Matching.{Matcher, match_with, match_as_taker}

pub data EngineError : Type 0 where
  market_not_found : EngineError
  balance_error : BalanceError → EngineError
  invalid_log unknown_log_type : EngineError

abbrev pub order_event_put : ℕ
order_event_put = 1

-- Which orders `CancelOrder` cancels.
abbrev pub is_cancelable : {D : Type 0} → Order D → Bool
is_cancelable o = o.status == status_pending || o.status == status_partial

module _ ⦃d : Decimals⦄ (now : ℕ) where
  open d use {D, zero as zero_amount, mul, to_text, from_text}

  -- What `ProcessOrder` writes in the log of an order.
  abbrev pub log_of : Order D → OrderLog
  log_of o = record {
    order_id = o.id;
    user_id = o.user_id;
    market = o.market;
    side = o.side;
    type = o.type;
    price = to_text o.price;
    amount = to_text o.amount;
    left = to_text o.left;
    taker_fee = to_text o.taker_fee;
  }

  -- What `CancelOrder` writes in the log.
  abbrev pub cancel_log_of : Order D → CancelLog
  cancel_log_of o = record {
    order_id = o.id;
    user_id = o.user_id;
    market = o.market;
    side = o.side;
    price = to_text o.price;
    amount = to_text o.amount;
    left = to_text o.left;
  }

  -- The freeze of `ProcessOrder`: the cost of a bid, the amount of an ask.
  unfoldable pub lock_funds : MarketConfig → Order D → Engine D → Engine D × Option BalanceError
  unfolding lock_balance
  lock_funds market o e =
      let (balances, failed) =
        (if o.side == side_bid
          then lock_balance o.user_id market.money (mul o.price o.amount) e.balances
          else lock_balance o.user_id market.stock o.amount e.balances) in
      (record e { balances = balances }, failed)

  -- A finished or cancelled order goes to the history.
  unfoldable pub record_closed : ℕ → Engine D → Engine D
  unfolding append_order_history
  record_closed p e =
      let status = (e.memory p).status in
      if (status == status_finished) || (status == status_canceled)
      then append_order_history p e
      else e

  -- `ProcessOrder` behind its guards, the lock held.
  unfoldable pub admit_order : Matcher → ℕ → M (List (Trade D))
  unfolding send write_oper_log match_with record_closed
  admit_order matcher p = do
    modify (send (order_event order_event_put p))
    o ← gets (λ e. e.memory p)
    modify (write_oper_log (order_create (log_of o)) now)
    trades ← match_with now matcher p o.market
    modify (record_closed p)
    pure trades

  -- `ProcessOrder`, on the order at `p`: its guards one by one, each with what `defer` does.
  unfoldable pub admit_funded :
      ℕ
      → ℕ
      → Engine D × Option BalanceError
      → Run ((List (Trade D) × Option EngineError) × Engine D)
  admit_funded fuel p (e, some failed) = (unlock >> pure ([], some (balance_error failed))) e
  admit_funded fuel p (e, none) =
      (do trades ← admit_order (match_as_taker now fuel) p; unlock; pure (trades, none)) e

  unfoldable pub admit_in : ℕ → ℕ → Option MarketConfig → M (List (Trade D) × Option EngineError)
  admit_in fuel p none e = (unlock >> pure ([], some market_not_found)) e
  admit_in fuel p (some market) e =
      admit_funded fuel p
        (lock_funds market (e.memory p) (get_or_create_order_book (e.memory p).market e))

  unfoldable pub process_order : ℕ → ℕ → M (List (Trade D) × Option EngineError)
  process_order fuel p e =
      if e.locked
      then deadlock
      else admit_in fuel p (get_market_locked (e.memory p).market e) (record e { locked = true })

  -- `PutOrderNoLock`, which the replay calls
  unfoldable pub keep_order : ℕ → Text → Engine D → Engine D
  unfolding add_to_user_index
  keep_order p market e =
      let o = e.memory p in
      if is_positive o.left && not (is_finished o)
      then (let resting = set_order p (record o { status = status_partial }) e in
          add_to_user_index p
            (set_book market (add resting.memory p (book_of market resting)) resting))
      else e

  unfoldable pub put_order_no_lock : ℕ → ℕ → M (List (Trade D))
  unfolding keep_order get_or_create_order_book match_with match_as_taker
  put_order_no_lock fuel p = do
    o ← gets (λ e. e.memory p)
    modify (get_or_create_order_book o.market)
    trades ← match_with now (match_as_taker now fuel) p o.market
    modify (keep_order p o.market)
    pure trades

  -- `CancelOrder` behind its guards: the order at `p` leaves the book and gets its freeze back.
  unfoldable pub unlock_rest : MarketConfig → Order D → Engine D → Engine D
  unlock_rest config o e = record e {
    balances =
        (if o.side == side_bid
          then unlock_balance o.user_id config.money (mul o.price o.left) e.balances
          else unlock_balance o.user_id config.stock o.left e.balances).0;
  }

  unfoldable pub cancel_in : ℕ → Order D → Option MarketConfig → M (Unit {0})
  cancel_in p o none e = returns (tt, e)
  cancel_in p o (some config) e =
      let given_back = unlock_rest config o e in
      let canceled =
        set_order p (record o { status = status_canceled; update_time = now }) given_back in
      returns
        (tt, append_order_history p (write_oper_log (order_cancel (cancel_log_of o)) now canceled))

  unfoldable pub cancel_found : ℕ → ℕ → Text → M (Unit {0})
  cancel_found order_id p market = do
    o ← gets (λ e. e.memory p)
    modify (λ e. set_book market (remove order_id (book_of market e)) e)
    modify (remove_from_user_index o.user_id order_id)
    found ← get_market o.market
    cancel_in p o found

  -- `CancelOrder`: every branch returns a nil error.
  unfoldable pub cancel_in_book : ℕ → Text → Option ℕ → M (Unit {0})
  cancel_in_book order_id market none e = unlock e
  cancel_in_book order_id market (some p) e =
      if is_cancelable (e.memory p) then (cancel_found order_id p market >> unlock) e else unlock e

  unfoldable pub cancel_order : ℕ → Text → M (Unit {0})
  cancel_order order_id market e =
      if e.locked then deadlock else (elim (lookup market e.order_books) [
        | none ↦ returns (tt, e)
        | some ob ↦
            cancel_in_book order_id market (get_order order_id ob) (record e { locked = true })
      ])

  -- `AddStopOrder` and `CancelStopOrder`
  unfoldable pub add_stop : Order D → D → M (Unit {0})
  unfolding add_stop_order
  add_stop o trigger_price = do
    lock
    modify (λ e. record e {
      stops =
          add_stop_order (record { order = o; trigger_price = trigger_price; triggered = false })
            now e.stops;
    })
    unlock

  unfoldable pub cancel_stop : Text → ℕ → M Bool
  unfolding remove_stop_order
  cancel_stop market order_id = do
    lock
    r ← gets (λ e. remove_stop_order market order_id e.stops)
    modify (λ e. record e { stops = r.0 })
    unlock
    pure r.1

  -- The loop of `ProcessTriggeredStopOrders`: as `match` never fails, no order is skipped.
  unfoldable pub process_each : Matcher → List (Order D) → M (List (Trade D))
  unfolding match_with next_id alloc get_or_create_order_book
  process_each matcher [] = pure []
  process_each matcher (o ∷ l) =
      (do
        modify (get_or_create_order_book o.market)
        id ← next_id
        p ←
            alloc
              (record o { id = id; status = status_pending; create_time = now; update_time = now })
        match_with now matcher p o.market)
      >>= λ trades. process_each matcher l >>= λ more. pure (trades ++ more)

  unfoldable pub process_triggered_stop_orders : ℕ → Text → D → M (List (Trade D))
  unfolding process_each check_stop_orders match_as_taker
  process_triggered_stop_orders fuel market last_price = do
    lock
    r ← gets (λ e. check_stop_orders market last_price e.stops)
    modify (λ e. record e { stops = r.1 })
    trades ← process_each (match_as_taker now fuel) r.0
    unlock
    pure trades

-- ===== src/Engine/Replay.antt =====
-- internal/matchengine/persist/operlog.go: the replay of the operation logs at the start.
use exchange_server.Base.{ℕ, Option, none, some, List, [], ◌∷◌, nat_eq}
use exchange_server.Text.{Text, text_eq}
use exchange_server.Dict.{lookup}
use exchange_server.Decimal.{Decimals}
use exchange_server.Order.{Order, blank, status_pending, status_canceled}
use exchange_server.OrderBook.{remove, get_order}
use exchange_server.OperLog.{
  OrderLog, CancelLog, LogData, order_create, order_cancel, order_deal, balance_change, unknown,
}
use exchange_server.Engine.State.{
  M, pure, ◌>>=◌, ◌>>◌, lock, unlock, modify, gets, alloc, set_order, set_book,
}
use exchange_server.Engine.Commands.{EngineError, unknown_log_type, put_order_no_lock}

module _ ⦃d : Decimals⦄ (now : ℕ) where
  open d use {D, zero as zero_amount, from_text}

  -- A text that does not parse reads as zero: the error is dropped.
  abbrev pub read_decimal : Text → D
  read_decimal s = elim (from_text s) [ none ↦ zero_amount | some v ↦ v ]

  -- `HandleOrderCreate` of the replay
  abbrev pub replayed_order : OrderLog → Order D
  replayed_order l = record blank {
    id = l.order_id;
    user_id = l.user_id;
    market = l.market;
    side = l.side;
    type = l.type;
    price = read_decimal l.price;
    amount = read_decimal l.amount;
    left = read_decimal l.left;
    taker_fee = read_decimal l.taker_fee;
    status = status_pending;
  }

  unfoldable pub handle_order_create : ℕ → OrderLog → M (Unit {0})
  unfolding put_order_no_lock alloc
  handle_order_create fuel l = do
    p ← alloc (replayed_order l)
    put_order_no_lock now fuel p >>= λ trades. pure tt

  -- `HandleOrderCancel` of the replay: the balance and the user's index are left alone.
  unfoldable pub handle_order_cancel : CancelLog → M (Unit {0})
  handle_order_cancel l =
      lock
      >> (gets (λ e. lookup l.market e.order_books) >>= λ book. elim book [
        | none ↦ unlock
        | some ob ↦ elim (get_order l.order_id ob) [
          | none ↦ unlock
          | some p ↦ do
            modify (set_book l.market (remove l.order_id ob))
            modify (λ e. set_order p (record (e.memory p) { status = status_canceled }) e)
            unlock
        ]
      ])

  -- `processLog`: the kinds of log without a handler's body change nothing.
  unfoldable pub process_log : ℕ → LogData → M (Option EngineError)
  unfolding handle_order_create handle_order_cancel
  process_log fuel (order_create l) = handle_order_create fuel l >> pure none
  process_log fuel (order_cancel l) = handle_order_cancel l >> pure none
  process_log fuel order_deal = pure none
  process_log fuel balance_change = pure none
  process_log fuel (unknown type) = pure (some unknown_log_type)

  -- The loop of `Replay`: a log that fails is printed, and the loop goes on.
  unfoldable pub replay : ℕ → List LogData → M (Unit {0})
  unfolding process_log
  replay fuel [] = pure tt
  replay fuel (l ∷ logs) = process_log fuel l >>= λ failed. replay fuel logs

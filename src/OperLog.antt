-- ===== src/OperLog.antt =====
-- internal/matchengine/persist/operlog.go: the queue of operation logs. A log's data is the
-- record that its JSON text stands for; the database is outside.
pub mod Queue
use exchange_server.Base.{ℕ, Bool, true, false, List, [], ◌∷◌, ◌++◌, if◌then◌else◌, leb, length}
use exchange_server.Text.{Text}

-- The fields that a log of type order-create carries, as texts where the source prints them.
pub record OrderLog : Type 0 where
  pub order_id : ℕ
  pub user_id : ℕ
  pub market : Text
  pub side : ℕ
  pub type : ℕ
  pub price : Text
  pub amount : Text
  pub left : Text
  pub taker_fee : Text

-- The fields that a log of type order-cancel carries.
pub record CancelLog : Type 0 where
  pub order_id : ℕ
  pub user_id : ℕ
  pub market : Text
  pub side : ℕ
  pub price : Text
  pub amount : Text
  pub left : Text

pub data LogData : Type 0 where
  order_create : OrderLog → LogData
  order_cancel : CancelLog → LogData
  order_deal balance_change : LogData
  -- A type that the writer does not know.
  unknown : ℕ → LogData

-- `OperLog`: `NewOperLog` leaves the id at its zero value.
pub record OperLog : Type 0 where
  pub id : ℕ
  pub content : LogData
  pub created_at : ℕ

abbrev pub new_oper_log : LogData → ℕ → OperLog
new_oper_log content now = record { id = 0; content = content; created_at = now }

pub record OperLogWriter : Type 0 where
  pub logs : List OperLog
  pub blocked : Bool

abbrev pub max_oper_log_queue_size : ℕ
max_oper_log_queue_size = 10000

-- `Write`: a log that finds the queue full is dropped.
unfoldable pub write_log : OperLog → OperLogWriter → OperLogWriter
write_log log w =
    if leb max_oper_log_queue_size (length w.logs)
    then record w { blocked = true }
    else record { logs = w.logs ++ log ∷ []; blocked = false }

pub is_blocked : OperLogWriter → Bool
is_blocked w = w.blocked

pub queue_length : OperLogWriter → ℕ
queue_length w = length w.logs

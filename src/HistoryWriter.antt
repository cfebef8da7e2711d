-- ===== src/HistoryWriter.antt =====
-- internal/matchengine/history/writer.go: the statements that wait to be written to the history
-- tables, joined by kind and by table. Each method holds the lock, so it is one step.
pub mod Appends
pub mod Joined
mod Tests
use exchange_server.Base.{
  ℕ, ◌+◌, Bool, true, false, Option, none, some, List, [], ◌∷◌, ◌++◌, if◌then◌else◌, leb, length,
}
use exchange_server.Text.{Text, codes, print_nat, text_eq, text_beq}
use exchange_server.Dict.{Dict, lookup, insert}

abbrev pub history_type_user_balance : ℕ
history_type_user_balance = 0

abbrev pub history_type_user_order : ℕ
history_type_user_order = 1

abbrev pub history_type_user_deal : ℕ
history_type_user_deal = 2

abbrev pub history_type_order_detail : ℕ
history_type_order_detail = 3

abbrev pub history_type_order_deal : ℕ
history_type_order_deal = 4

abbrev pub history_hash_num : ℕ
history_hash_num = 16

abbrev pub max_history_pending_size : ℕ
max_history_pending_size = 5000

pub record HistoryRecord : Type 0 where
  pub type : ℕ
  pub hash : ℕ
  pub sql : Text

pub record HistoryWriter : Type 0 where
  pub pending : Dict Text HistoryRecord
  pub blocked : Bool

abbrev pub new_history_writer : HistoryWriter
new_history_writer = record { pending = []; blocked = false }

unfoldable pub is_blocked : HistoryWriter → Bool
is_blocked w = w.blocked

unfoldable pub pending_count : HistoryWriter → ℕ
pending_count w = length w.pending

abbrev pub underscore : ℕ
underscore = b'_'

-- `fmt.Sprintf("%d_%d", histType, hash)`
unfoldable pub get_key : ℕ → ℕ → Text
get_key type hash = print_nat type ++ underscore ∷ print_nat hash

-- `rec.SQL + ", " + sql`
abbrev pub join_sql : Text → Text → Text
join_sql old sql = old ++ codes ", " ++ sql

-- The record once a statement has been added.
abbrev pub joined : ℕ → ℕ → Text → Option HistoryRecord → HistoryRecord
joined type hash sql none = record { type = type; hash = hash; sql = sql }
joined type hash sql (some r) = record r { sql = join_sql r.sql sql }

unfoldable pub append_sql : ℕ → ℕ → Text → HistoryWriter → HistoryWriter
unfolding get_key
append_sql type hash sql w =
    let key = get_key type hash in
    if leb max_history_pending_size (length w.pending)
    then record w { blocked = true }
    else record {
      pending = insert key (joined type hash sql (lookup key w.pending)) w.pending;
      blocked = false;
    }

-- The statements that `flushPending` executes: the empty ones are passed over, and what the
-- database answers is only logged.
unfoldable pub statements_of : Dict Text HistoryRecord → List Text
statements_of [] = []
statements_of ((key, r) ∷ pending) =
    let rest = statements_of pending in if text_beq r.sql [] then rest else r.sql ∷ rest

unfoldable pub flush_pending : HistoryWriter → List Text × HistoryWriter
unfolding statements_of
flush_pending w = (statements_of w.pending, record w { pending = [] })

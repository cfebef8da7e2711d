-- ===== src/DealsBuffer.antt =====
-- internal/accessws/model/types.go: the buffer of a market's latest deals. Each method holds the
-- buffer's lock throughout; ids and times are numbers from 0 on.
pub mod Ordered
use exchange_server.Base.{
  ℕ, ◌+◌, ◌-◌, ◌≤◌, ◌<◌, Bool, List, [], ◌∷◌, ◌++◌, if◌then◌else◌, leb, ltb, length, drop, filter,
}
use exchange_server.Text.{Text}

pub record DealRecord : Type 0 where
  pub id : ℕ
  pub time : ℕ
  pub type : Text
  pub amount : Text
  pub price : Text

pub record DealsBuffer : Type 0 where
  pub records : List DealRecord
  pub last_id : ℕ
  pub max_size : ℕ

unfoldable pub new_deals_buffer : ℕ → DealsBuffer
new_deals_buffer max_size = record { records = []; last_id = 0; max_size = max_size }

-- `Add`: a deal that is not new is passed over, the oldest deals go.
unfoldable pub add_record : DealRecord → DealsBuffer → DealsBuffer
add_record deal b =
    let grown = b.records ++ deal ∷ [] in
    if leb deal.id b.last_id then b else record b {
      records =
          if ltb b.max_size (length grown) then drop (length grown - b.max_size) grown else grown;
      last_id = deal.id;
    }

unfoldable pub get_since : ℕ → DealsBuffer → List DealRecord
get_since since_id b = filter (λ d. ltb since_id d.id) b.records

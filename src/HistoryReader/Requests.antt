-- ===== src/HistoryReader/Requests.antt =====
-- internal/readhistory/server: how the handlers of the history reader read their parameters. A
-- type assertion without `ok` panics.
use Prim.Native.String.{String}
use exchange_server.Base.{ℕ, Bool, true, false, none, some, List, get_elem?, ◌||◌}
use exchange_server.Int.{ℤ, pos, ltb_ℤ}
use exchange_server.Text.{Text}
use exchange_server.Handler.Params.{Floats, Value, as_number, as_text}
use exchange_server.HistoryReader.{Fetched, rows, db_error, is_zero}

-- An answer, an error with its code and message, an error of the database with its code, or a
-- panic.
pub data Outcome (A : Type 0) : Type 0 where
  ok : A → Outcome A
  failed : ℤ → String → Outcome A
  failed_db : ℤ → Text → Outcome A
  panics : Outcome A

infixl 5 ◌>>=◌ ◌>>◌
abbrev pub ◌>>=◌ : {A B : Type 0} → Outcome A → (A → Outcome B) → Outcome B
ok a >>= f = f a
failed code message >>= f = failed code message
failed_db code message >>= f = failed_db code message
panics >>= f = panics

abbrev pub ◌>>◌ : {B : Type 0} → Outcome (Unit {0}) → Outcome B → Outcome B
m >> k = m >>= λ _. k

abbrev pub check : Bool → ℤ → String → Outcome (Unit {0})
check true code message = ok tt
check false code message = failed code message

abbrev pub fetched : {A : Type 0} → ℤ → Fetched A → Outcome A
fetched code (rows a) = ok a
fetched code (db_error message) = failed_db code message

-- A page of records as the answers show it.
pub record HistoryPage (A : Type 0) : Type 0 where
  pub offset : ℤ
  pub limit : ℤ
  pub records : List A

-- `limit == 0 || limit > 101`
abbrev pub is_bad_limit : ℤ → Bool
is_bad_limit limit = is_zero limit || ltb_ℤ (pos 101) limit

module _ ⦃fl : Floats⦄ where
  open fl use {F}

  -- `params[i].(float64)`
  abbrev pub number : ℕ → List (Value F) → Outcome F
  number i params = elim (get_elem? params i) [
    | none ↦ panics
    | some v ↦ elim (as_number v) [ none ↦ panics | some x ↦ ok x ]
  ]

  -- `market, ok := params[i].(string)`
  abbrev pub text_or : ℕ → List (Value F) → ℤ → String → Outcome Text
  text_or i params code message = elim (get_elem? params i) [
    | none ↦ panics
    | some v ↦ elim (as_text v) [ none ↦ failed code message | some s ↦ ok s ]
  ]

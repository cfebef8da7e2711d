-- ===== src/Handler/Params.antt =====
-- internal/matchengine/server/handler: what a handler reads from a request. `json.Unmarshal` gives
-- the values of the body, `none` where it fails; the handlers check them one by one, and answer
-- with the message of the first check that fails.
use Prim.Native.String.{String}
use exchange_server.Base.{
  ℕ, ◌-◌, ◌%◌, ◌^◌, ◌≤◌, ◌≡◌, Bool, true, false, Option, none, some, List, ◌==◌, ◌||◌,
  if◌then◌else◌, length, get_elem?,
}
use exchange_server.Int.{ℤ, pos, negsuc, ◌≤ℤ◌}
use exchange_server.Text.{Text}
use exchange_server.Decimal.{Decimals}
use exchange_server.Order.{side_bid, side_ask}

-- float64, with what the conversions to integers give: exact on the whole numbers that it holds,
-- and keeping the order. JSON has no NaN; out of range they are up to Go's implementation.
pub record Floats : Type 1 where
  pub F : Type 0
  pub of_nat : ℕ → F
  -- `>`, and `==` with zero
  pub greater_than : F → F → Bool
  pub is_zero : F → Bool
  -- `int`, `uint32` and `uint64`
  pub to_int : F → ℤ
  pub to_uint32 : F → ℕ
  pub to_uint64 : F → ℕ
  -- `strconv.FormatFloat(v, 'f', 0, 64)`
  pub format : F → Text
  pub to_int-of_nat : (n : ℕ) → n ≤ 2 ^ 53 → to_int (of_nat n) ≡ pos n
  pub to_int_mono :
      (a : F) (n : ℕ) → n ≤ 2 ^ 53 → greater_than a (of_nat n) ≡ false → to_int a ≤ℤ pos n

-- A value of `interface{}`: what the type assertions tell apart.
pub data Value (F : Type 0) : Type 0 where
  number : F → Value F
  text : Text → Value F
  object other : Value F

-- `(…, error)`, with the error's message.
pub data Checked (A : Type 0) : Type 0 where
  ok : A → Checked A
  failed : String → Checked A

infixl 5 ◌>>=◌ ◌>>◌
abbrev pub ◌>>=◌ : {A B : Type 0} → Checked A → (A → Checked B) → Checked B
ok a >>= f = f a
failed message >>= f = failed message

abbrev pub ◌>>◌ : {B : Type 0} → Checked (Unit {0}) → Checked B → Checked B
m >> k = m >>= λ _. k

abbrev pub check : Bool → String → Checked (Unit {0})
check true message = ok tt
check false message = failed message

abbrev pub or_fail : {A : Type 0} → Option A → String → Checked A
or_fail none message = failed message
or_fail (some a) message = ok a

-- `order.Side(int(v))`, a conversion to a byte.
abbrev pub to_byte : ℤ → ℕ
to_byte (pos n) = n % 256
to_byte (negsuc n) = 255 - n % 256

module _ ⦃fl : Floats⦄ where
  open fl use {F}

  abbrev pub Body : Type 0
  Body = Option (List (Value F))

  abbrev pub as_number : Value F → Option F
  as_number (number x) = some x
  as_number (text s) = none
  as_number object = none
  as_number other = none

  abbrev pub as_text : Value F → Option Text
  as_text (number x) = none
  as_text (text s) = some s
  as_text object = none
  as_text other = none

  abbrev pub is_object : Value F → Bool
  is_object (number x) = false
  is_object (text s) = false
  is_object object = true
  is_object other = false

  -- `params[i].(float64)` and `params[i].(string)`; the count is checked before, so `i` is in range.
  abbrev pub number_at : ℕ → List (Value F) → String → Checked F
  number_at i params message = elim (get_elem? params i) [
    | none ↦ failed message
    | some v ↦ or_fail (as_number v) message
  ]

  abbrev pub text_at : ℕ → List (Value F) → String → Checked Text
  text_at i params message = elim (get_elem? params i) [
    | none ↦ failed message
    | some v ↦ or_fail (as_text v) message
  ]

  abbrev pub object_at : ℕ → List (Value F) → String → Checked (Unit {0})
  object_at i params message = elim (get_elem? params i) [
    | none ↦ failed message
    | some v ↦ check (is_object v) message
  ]

  -- The parameters, if the body parses and has so many of them.
  abbrev pub params_of : ℕ → Body → String → Checked (List (Value F))
  params_of n body message = do
    params ← or_fail body "invalid params"
    check (length params == n) message
    ok params

  abbrev pub side_at : ℕ → List (Value F) → Checked ℕ
  side_at i params = do
    v ← number_at i params "invalid side"
    let side = to_byte (fl.to_int v)
    check (side == side_bid || side == side_ask) "invalid side value"
    ok side

  -- `if limit > 100 { limit = 100 }`
  abbrev pub capped : F → F
  capped limit = if fl.greater_than limit (fl.of_nat 100) then fl.of_nat 100 else limit

  abbrev pub decimal_at : ⦃d : Decimals⦄ → ℕ → List (Value F) → String → String → Checked d.D
  decimal_at ⦃d⦄ i params missing malformed = do
    s ← text_at i params missing
    or_fail (d.from_text s) malformed

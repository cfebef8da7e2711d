-- ===== src/Decimal.antt =====
-- github.com/shopspring/decimal as the program uses it: a record of operations and of the laws
-- that its documentation gives for exact fixed-point numbers, taken up to the number that a
-- value stands for. The tests and `Min`, `Max`, `Abs` are read off the order.
pub mod Laws
pub mod Integer
pub mod Rounding
use exchange_server.Base.{
  Bool, true, false, Option, none, some, ◌≡◌, refl, not, ◌&&◌, if◌then◌else◌,
}
use exchange_server.Text.{Text}

pub record Decimals : Type 1 where
  pub D : Type 0
  pub zero : D
  pub add : D → D → D
  pub sub : D → D → D
  pub neg : D → D
  pub mul : D → D → D
  -- `Div`, to the package's precision; the package panics where the divisor is zero.
  pub div : D → D → D
  -- `NewFromFloat(0.001)`
  pub thousandth : D
  -- `LessThan`
  pub less_than : D → D → Bool
  -- `String` and `NewFromString`
  pub to_text : D → Text
  pub from_text : Text → Option D
  -- Sums are exact: the numbers are a commutative group.
  pub add_comm : (a b : D) → add a b ≡ add b a
  pub add_assoc : (a b c : D) → add (add a b) c ≡ add a (add b c)
  pub add_zero : (a : D) → add a zero ≡ a
  pub add_neg : (a : D) → add a (neg a) ≡ zero
  pub sub_eq : (a b : D) → sub a b ≡ add a (neg b)
  -- The order is total, and sums keep it.
  pub lt_asymm : (a b : D) → less_than a b ≡ true → less_than b a ≡ false
  pub le_trans : (a b c : D) → less_than b a ≡ false → less_than c b ≡ false → less_than c a ≡ false
  pub le_antisymm : (a b : D) → less_than a b ≡ false → less_than b a ≡ false → a ≡ b
  pub add_le : (a b c : D) → less_than b a ≡ false → less_than (add b c) (add a c) ≡ false
  -- A product of numbers that are not negative is not negative.
  pub mul_nonneg :
      (a b : D)
      → less_than a zero ≡ false
      → less_than b zero ≡ false
      → less_than (mul a b) zero ≡ false
  pub thousandth_nonneg : less_than thousandth zero ≡ false
  -- A printed number reads back.
  pub from_text-to_text : (a : D) → from_text (to_text a) ≡ some a

module _ ⦃d : Decimals⦄ where
  open d use {D, zero, less_than, neg}

  -- `x, _ := decimal.NewFromString(s)`: a zero where the text is no number.
  abbrev pub number_of : Text → D
  number_of s = elim (d.from_text s) [ none ↦ zero | some x ↦ x ]

  pub number-to_text : (x : D) → number_of (d.to_text x) ≡ x
  number-to_text x = rw (d.from_text-to_text x, number_of) refl

  abbrev pub greater_than : D → D → Bool
  greater_than a b = less_than b a

  abbrev pub less_than_or_equal : D → D → Bool
  less_than_or_equal a b = not (less_than b a)

  abbrev pub greater_than_or_equal : D → D → Bool
  greater_than_or_equal a b = not (less_than a b)

  abbrev pub equal : D → D → Bool
  equal a b = not (less_than a b) && not (less_than b a)

  abbrev pub is_positive : D → Bool
  is_positive a = less_than zero a

  abbrev pub is_negative : D → Bool
  is_negative a = less_than a zero

  abbrev pub is_zero : D → Bool
  is_zero a = equal a zero

  abbrev pub min : D → D → D
  min a b = if less_than b a then b else a

  abbrev pub max : D → D → D
  max a b = if less_than a b then b else a

  abbrev pub abs : D → D
  abs a = if less_than a zero then neg a else a

  -- `a` is at most `b`.
  abbrev pub Le : D → D → Type 0
  Le a b = less_than b a ≡ false

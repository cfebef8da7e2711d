-- ===== src/Decimal/Integer.antt =====
-- Whole numbers as an instance of the interface. Concrete runs are over these, with the division
-- of naturals on the absolute values.
use mathlib.Core.Option
use exchange_server.Base.{
  ℕ, suc, ◌+◌, ◌/◌, ◌≡◌, refl, sym, ap, ◌∙◌, true, false, Option, none, some, [], ◌∷◌, arith, ◌==◌,
  if◌then◌else◌, All, subst, ◌*◌, ◌-◌,
}
use exchange_server.Int.{ℤ, pos, negsuc, sub_ℕ, ◌+ℤ◌, ◌-ℤ◌, ◌*ℤ◌, ltb_ℤ, int_laws, +ℤ_parts}
use exchange_server.Text.{
  Text, print_nat, value_from, value-print_nat, IsDigit, is_digit, print_nat-IsDigit,
  print_nat_cons,
}
use exchange_server.Decimal.{Decimals}

abbrev pub div_ℤ : ℤ → ℤ → ℤ
div_ℤ (pos a) (pos b) = pos (a / b)
div_ℤ (pos a) (negsuc b) = sub_ℕ 0 (a / (b + 1))
div_ℤ (negsuc a) (pos b) = sub_ℕ 0 ((a + 1) / b)
div_ℤ (negsuc a) (negsuc b) = pos ((a + 1) / (b + 1))

abbrev pub print_ℤ : ℤ → Text
print_ℤ (pos n) = print_nat n
print_ℤ (negsuc n) = b'-' ∷ print_nat (suc n)

read_from : ℕ → Text → Option ℕ
read_from acc [] = some acc
read_from acc (c ∷ s) =
    let rest = read_from (acc * 10 + (c - 48)) s in if is_digit c then rest else none

read_digits : Text → Option ℕ
unfolding read_from
read_digits [] = none
read_digits (c ∷ s) = read_from 0 (c ∷ s)

-- An optional sign, then at least one digit.
pub read_ℤ : Text → Option ℤ
unfolding read_digits
read_ℤ [] = none
read_ℤ (c ∷ s) =
    if c == b'-' then Option.map (sub_ℕ 0) (read_digits s) else Option.map pos (read_digits (c ∷ s))

read_from-value : (acc : ℕ) (s : Text) → All IsDigit s → read_from acc s ≡ some (value_from acc s)
unfolding read_from
read_from-value acc [] h = refl
read_from-value acc (c ∷ s) h = ground (arith, read_from-value (acc * 10 + (c - 48)) s h.1)

read_digits-print_nat : (n : ℕ) → read_digits (print_nat n) ≡ some n
unfolding read_digits
read_digits-print_nat n =
    let (c, s, e) = print_nat_cons n in
    rw e (
      read_from-value 0 (c ∷ s) (subst (All IsDigit) e (print_nat-IsDigit n))
      ∙ ap (λ t. some (value_from 0 t)) (sym e)
      ∙ ap some (value-print_nat n))

pub read_ℤ-print_ℤ : (a : ℤ) → read_ℤ (print_ℤ a) ≡ some a
unfolding read_ℤ
read_ℤ-print_ℤ (pos n) =
    let (c, s, e) = print_nat_cons n in
    let d : IsDigit c = (subst (All IsDigit) e (print_nat-IsDigit n)).0 in
    let r = read_digits-print_nat n in rw e (ground (arith, rw e at r))
read_ℤ-print_ℤ (negsuc n) = rw (read_digits-print_nat (suc n)) (ground arith)

pub *ℤ_nonneg :
    (a b : ℤ) → ltb_ℤ a (pos 0) ≡ false → ltb_ℤ b (pos 0) ≡ false → ltb_ℤ (a *ℤ b) (pos 0) ≡ false
unfolding ◌*ℤ◌
*ℤ_nonneg (pos a) (pos b) h k = ground arith
*ℤ_nonneg (pos a) (negsuc b) h k = ground arith
*ℤ_nonneg (negsuc a) b h k = ground arith

pub ℤ_add_comm : (a b : ℤ) → a +ℤ b ≡ b +ℤ a
ℤ_add_comm a b = omega int_laws

pub ℤ_add_assoc : (a b c : ℤ) → a +ℤ b +ℤ c ≡ a +ℤ (b +ℤ c)
ℤ_add_assoc a b c = omega int_laws

pub ℤ_add_zero : (a : ℤ) → a +ℤ pos 0 ≡ a
ℤ_add_zero a = omega int_laws

pub ℤ_add_neg : (a : ℤ) → a +ℤ (pos 0 -ℤ a) ≡ pos 0
ℤ_add_neg a = omega int_laws

pub ℤ_sub_eq : (a b : ℤ) → a -ℤ b ≡ a +ℤ (pos 0 -ℤ b)
ℤ_sub_eq a b = omega int_laws

pub ℤ_lt_asymm : (a b : ℤ) → ltb_ℤ a b ≡ true → ltb_ℤ b a ≡ false
ℤ_lt_asymm a b h = ground arith

pub ℤ_le_trans : (a b c : ℤ) → ltb_ℤ b a ≡ false → ltb_ℤ c b ≡ false → ltb_ℤ c a ≡ false
ℤ_le_trans a b c h k = ground arith

pub ℤ_le_antisymm : (a b : ℤ) → ltb_ℤ a b ≡ false → ltb_ℤ b a ≡ false → a ≡ b
ℤ_le_antisymm a b h k = ground arith

pub ℤ_add_le : (a b c : ℤ) → ltb_ℤ b a ≡ false → ltb_ℤ (b +ℤ c) (a +ℤ c) ≡ false
ℤ_add_le a b c h = ground (arith, +ℤ_parts a c, +ℤ_parts b c)

instance abbrev pub integers : Decimals
integers = record {
  D = ℤ;
  zero = pos 0;
  add = ◌+ℤ◌;
  sub = ◌-ℤ◌;
  neg = λ a. pos 0 -ℤ a;
  mul = ◌*ℤ◌;
  div = div_ℤ;
  thousandth = pos 1;
  less_than = ltb_ℤ;
  to_text = print_ℤ;
  from_text = read_ℤ;
  add_comm = ℤ_add_comm;
  add_assoc = ℤ_add_assoc;
  add_zero = ℤ_add_zero;
  add_neg = ℤ_add_neg;
  sub_eq = ℤ_sub_eq;
  lt_asymm = ℤ_lt_asymm;
  le_trans = ℤ_le_trans;
  le_antisymm = ℤ_le_antisymm;
  add_le = ℤ_add_le;
  mul_nonneg = *ℤ_nonneg;
  thousandth_nonneg = refl;
  from_text-to_text = read_ℤ-print_ℤ;
}

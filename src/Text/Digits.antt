-- ===== src/Text/Digits.antt =====
-- `fmt.Sprintf("%d", n)` and `strconv.ParseUint(s, 10, bits)` on unsigned numbers.
use native.Mathlib.Numerals.{add-one}
use exchange_server.Base.{
  ℕ, zero, suc, ◌+◌, ◌-◌, ◌*◌, ◌/◌, ◌%◌, ◌≤◌, ◌<◌, ◌≡◌, refl, sym, ap, ◌∙◌, Bool, true, false, ◌&&◌,
  [], ◌∷◌, ◌++◌, arith, if◌then◌else◌, ltb, leb, All, All-append, Bool-cases, inl, inr, subst,
}
use exchange_server.Text.Defs.{Text}

-- The decimal digits of a number, most significant first; `print_nat_enough` gives the fuel.
pub print_fuel : ℕ → ℕ → Text
print_fuel zero n = []
print_fuel (suc f) n = elim (ltb n 10) [
  | true ↦ (48 + n) ∷ []
  | false ↦ print_fuel f (n / 10) ++ (48 + n % 10) ∷ []
]

unfoldable pub print_nat : ℕ → Text
unfolding print_fuel
print_nat n = print_fuel (n + 1) n

abbrev pub IsDigit : ℕ → Type 0
IsDigit c = (48 ≤ c) × (c ≤ 57)

abbrev pub is_digit : ℕ → Bool
is_digit c = leb 48 c && leb c 57

-- What `ParseUint` returns: the value, and whether the error is nil. A bad byte gives 0, and a
-- value above `limit` gives `limit`.
pub parse_from : ℕ → ℕ → Text → ℕ × Bool
parse_from limit acc [] = (acc, true)
parse_from limit acc (c ∷ s) =
    let rest = parse_from limit (acc * 10 + (c - 48)) s in
    if is_digit c
    then (if ltb limit (acc * 10 + (c - 48)) then (limit, false) else rest)
    else (0, false)

unfoldable pub parse_uint : ℕ → Text → ℕ × Bool
unfolding parse_from
parse_uint limit [] = (0, false)
parse_uint limit (c ∷ s) = parse_from limit 0 (c ∷ s)

-- The value of a row of digits, with no bound.
abbrev pub value_from : ℕ → Text → ℕ
value_from acc [] = acc
value_from acc (c ∷ s) = value_from (acc * 10 + (c - 48)) s

value_from-append :
    (acc : ℕ) (s : Text) (c : ℕ) → value_from acc (s ++ c ∷ []) ≡ value_from acc s * 10 + (c - 48)
value_from-append acc [] c = refl
value_from-append acc (x ∷ s) c = value_from-append (acc * 10 + (x - 48)) s c

value-print : (f n : ℕ) → n < f → value_from 0 (print_fuel f n) ≡ n
unfolding print_fuel
value-print zero n h = absurd (omega arith)
value-print (suc f) n h = elim (Bool-cases (ltb n 10)) [
  | inl e ↦ rw (e, print_fuel) (ground arith)
  | inr e ↦
      rw (e, print_fuel, value_from-append 0 (print_fuel f (n / 10)) (48 + n % 10))
        (ground (arith, value-print f (n / 10)))
]

pub print_fuel-IsDigit : (f n : ℕ) → All IsDigit (print_fuel f n)
unfolding print_fuel
print_fuel-IsDigit zero n = tt
print_fuel-IsDigit (suc f) n = ground (
  arith,
  All-append IsDigit (print_fuel f (n / 10)) ((48 + n % 10) ∷ []) (print_fuel-IsDigit f (n / 10)),
)

-- Every byte of a printed number is a digit.
pub print_nat-IsDigit : (n : ℕ) → All IsDigit (print_nat n)
unfolding print_nat
print_nat-IsDigit n = print_fuel-IsDigit (n + 1) n

pub value-print_nat : (n : ℕ) → value_from 0 (print_nat n) ≡ n
unfolding print_nat
value-print_nat n = value-print (n + 1) n (omega arith)

append_cons : (s : Text) (c : ℕ) → (b : ℕ) × (t : Text) × (s ++ c ∷ [] ≡ b ∷ t)
append_cons [] c = (c, [], refl)
append_cons (b ∷ s) c = (b, s ++ c ∷ [], refl)

print_fuel_cons : (f n : ℕ) → (c : ℕ) × (s : Text) × (print_fuel (suc f) n ≡ c ∷ s)
unfolding print_fuel
print_fuel_cons f n =
    elim (ltb n 10)
      as (λ b.
        (c : ℕ) × (s : Text) × (elim b [
          | true ↦ (48 + n) ∷ []
          | false ↦ print_fuel f (n / 10) ++ (48 + n % 10) ∷ []
        ]
          ≡ c ∷ s)) [
            | true ↦ (48 + n, [], refl)
            | false ↦ append_cons (print_fuel f (n / 10)) (48 + n % 10)
          ]

-- A printed number has a first byte.
pub print_nat_cons : (n : ℕ) → (c : ℕ) × (s : Text) × (print_nat n ≡ c ∷ s)
unfolding print_nat
print_nat_cons n = rw add-one (print_fuel_cons n n)

-- Two numbers that print alike are equal.
pub print_nat_injective : (m n : ℕ) → print_nat m ≡ print_nat n → m ≡ n
print_nat_injective m n e = sym (value-print_nat m) ∙ ap (value_from 0) e ∙ value-print_nat n

value_from-le : (acc : ℕ) (s : Text) → acc ≤ value_from acc s
value_from-le acc [] = omega arith
value_from-le acc (c ∷ s) = omega (arith, value_from-le (acc * 10 + (c - 48)) s)

parse_from-value :
    (limit acc : ℕ) (s : Text)
    → All IsDigit s
    → value_from acc s ≤ limit
    → parse_from limit acc s ≡ (value_from acc s, true)
unfolding parse_from
parse_from-value limit acc [] d h = refl
parse_from-value limit acc (c ∷ s) d h = ground (
  arith,
  value_from-le (acc * 10 + (c - 48)) s,
  parse_from-value limit (acc * 10 + (c - 48)) s d.1 h,
)

-- `ParseUint` reads back what `Sprintf` printed, up to the limit.
pub parse_uint-print_nat : (limit n : ℕ) → n ≤ limit → parse_uint limit (print_nat n) ≡ (n, true)
unfolding parse_uint
parse_uint-print_nat limit n h =
    let (c, s, e) = print_nat_cons n in
    rw e (
      parse_from-value limit 0 (c ∷ s) (subst (All IsDigit) e (print_nat-IsDigit n))
        (rw (← e, value-print_nat n) h)
      ∙ ap (λ t. (value_from 0 t, true)) (sym e)
      ∙ ap (λ v. (v, true)) (value-print_nat n))

-- A row of digits ends at the first byte that is none, so what follows it is determined.
pub digits_end :
    (sep : ℕ) (s t a b : Text)
    → ¬ IsDigit sep
    → All IsDigit s
    → All IsDigit t
    → s ++ sep ∷ a ≡ t ++ sep ∷ b
    → (s ≡ t) × (a ≡ b)
digits_end sep [] [] a b ends h k e = (refl, cc)
digits_end sep [] (y ∷ t) a b ends h k e =
    let same : y ≡ sep = cc in absurd (ends (subst IsDigit same k.0))
digits_end sep (x ∷ s) [] a b ends h k e =
    let same : x ≡ sep = cc in absurd (ends (subst IsDigit same h.0))
digits_end sep (x ∷ s) (y ∷ t) a b ends h k e =
    let r = digits_end sep s t a b ends h.1 k.1 (cc) in (cc, r.1)

-- ===== src/Engine/Loading.antt =====
-- What a page of an order's trades holds, and what the loading of saved balances restores.
use mathlib.Core.Option
use exchange_server.Base.{
  ℕ, zero, suc, ◌+◌, ◌-◌, ◌^◌, ◌≤◌, ◌<◌, ◌≡◌, ◌≢◌, refl, sym, ap, subst, ◌∙◌, Option, none, some,
  List, [], ◌∷◌, ltb, length, length-drop, take, drop, All, arith, Bool-cases, inl, inr,
}
use exchange_server.Int.{pos, ◌+ℤ◌, ltb_ℤ}
use exchange_server.Text.{
  Text, text_eq, text_beq, text_beq_iff, split, split_from_end, split_from_at, colon,
  parse_uint-print_nat, print_nat, print_nat-IsDigit, IsDigit,
}
use exchange_server.Dict.{lookup, insert, lookup-insert, IsMap}
use exchange_server.Decimal.{Decimals}
use exchange_server.Balance.{Balance, Book, set_balance, key}
use exchange_server.Balance.Keyed.{IsKeyed}
use exchange_server.Engine.Queries.{page, slice, load_balance, load_balances}

sum_of : (a b : ℕ) → pos a +ℤ pos b ≡ pos (a + b)
unfolding ◌+ℤ◌
sum_of a b = ground arith

below_of : (a b : ℕ) → ltb_ℤ (pos a) (pos b) ≡ ltb a b
below_of a b = ground arith

take_all : {A : Type 0} (n : ℕ) (l : List A) → length l ≤ n → take n l ≡ l
take_all zero [] h = refl
take_all zero (x ∷ l) h = absurd (omega arith)
take_all (suc n) [] h = refl
take_all (suc n) (x ∷ l) h = ap (◌∷◌ x) (take_all n l (omega arith))

drop_all : {A : Type 0} (n : ℕ) (l : List A) → length l ≤ n → drop n l ≡ []
drop_all zero [] h = refl
drop_all zero (x ∷ l) h = absurd (omega arith)
drop_all (suc n) [] h = refl
drop_all (suc n) (x ∷ l) h = drop_all n l (omega arith)

take_nothing : {A : Type 0} (n : ℕ) → take {A = A} n [] ≡ []
take_nothing zero = refl
take_nothing (suc n) = refl

slice_of :
    {A : Type 0} (l : List A) (i j : ℕ)
    → i ≤ j
    → slice l (pos i) (pos j) ≡ some (take (j - i) (drop i l))
slice_of l i j h = ground arith

-- A page with a start and a size that are not negative holds the trades from the start on, as many
-- as the size says, beside the number of all the trades; it is empty past their end.
pub page_lem :
    {A : Type 0} (trades : List A) (offset limit : ℕ)
    → page trades (pos offset) (pos limit) ≡ some (take limit (drop offset trades), length trades)
unfolding page
page_lem trades offset limit =
    let total = length trades in
    rw (sum_of offset limit, below_of offset total, below_of total (offset + limit))
      (elim (Bool-cases (ltb offset total)) [
        | inr past ↦ rw (past, drop_all offset trades (ground arith), take_nothing limit)
        | inl inside ↦ elim (Bool-cases (ltb total (offset + limit))) [
          | inl longer ↦
              rw (inside, longer)
                (ap (Option.map (λ l. (l, total))) (
                  slice_of trades offset total (ground arith)
                  ∙ ap some (
                      take_all (total - offset) (drop offset trades)
                        (omega (arith, length-drop offset trades))
                      ∙ sym (
                          take_all limit (drop offset trades)
                            (ground (arith, length-drop offset trades))))))
          | inr within ↦
              rw (inside, within)
                (ap (Option.map (λ l. (l, total))) (
                  slice_of trades offset (offset + limit) (omega arith)
                  ∙ ap (λ n. some (take n (drop offset trades))) (omega arith)))
        ]
      ])

module _ ⦃d : Decimals⦄ where
  open d use {D}

  -- A saved entry that the loading can read: its user id has 32 bits, its asset has no colon.
  abbrev pub Loadable : Text × Balance D → Type 0
  Loadable (k, b) = (b.user_id < 2 ^ 32) × All (λ c. c ≢ colon) b.asset

  no_colon : (s : Text) → All IsDigit s → All (λ c. c ≢ colon) s
  no_colon [] h = tt
  no_colon (c ∷ s) h = (λ e. omega (arith, h.0, e), no_colon s h.1)

  split-key :
      (user : ℕ) (asset : Text)
      → All (λ c. c ≢ colon) asset
      → split colon (key user asset) ≡ print_nat user ∷ asset ∷ []
  unfolding split key
  split-key user asset h =
      split_from_at colon [] (print_nat user) asset
        (no_colon (print_nat user) (print_nat-IsDigit user))
      ∙ ap (◌∷◌ (print_nat user)) (split_from_end colon [] asset h)

  load_balance-key :
      (b : Balance D) (bm : Book D)
      → Loadable (key b.user_id b.asset, b)
      → load_balance (key b.user_id b.asset) b bm ≡ insert (key b.user_id b.asset) b bm
  unfolding load_balance set_balance
  load_balance-key b bm h =
      rw (split-key b.user_id b.asset h.1, load_balance)
        (rw (parse_uint-print_nat (2 ^ 32 - 1) b.user_id (omega (arith, h.0)))
          (ap (λ u. insert (key u b.asset) (record b { user_id = u }) bm) (omega (arith, h.0))))

  -- Loading saved balances, each once under the key of its user and asset, with a user id of 32
  -- bits and an asset name that has no colon, restores each of them, and leaves the balance under
  -- every other key as it was.
  pub load_balances_lem :
      (saved bm : Book D) (k : Text)
      → IsKeyed saved
      → All Loadable saved
      → IsMap saved
      → lookup k (load_balances saved bm)
        ≡ (elim (lookup k saved) [ none ↦ lookup k bm | some b ↦ some b ])
  unfolding load_balances lookup
  load_balances_lem [] bm k keyed loadable map = refl
  load_balances_lem ((own, b) ∷ saved) bm k keyed loadable map =
      ap (λ m. lookup k (load_balances saved m))
        (subst (λ o. Loadable (o, b) → load_balance o b bm ≡ insert o b bm) (sym keyed.0)
          (load_balance-key b bm) loadable.0)
      ∙ load_balances_lem saved (insert own b bm) k keyed.1 loadable.1 map.1
      ∙ elim (Bool-cases (text_beq own k)) [
        | inl same ↦
            let absent : lookup k saved ≡ none =
              subst (λ j. lookup j saved ≡ none) ((text_beq_iff own k).0 same) map.0 in
            rw (same, absent) (lookup-insert own k b bm ∙ rw same)
        | inr other ↦ rw other (
            ap
              (λ found. elim (lookup k saved) as (λ x. Option (Balance D)) [
                | none ↦ found
                | some c ↦ some c
              ])
              (lookup-insert own k b bm ∙ rw other))
      ]

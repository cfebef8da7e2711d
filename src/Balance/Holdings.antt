-- ===== src/Balance/Holdings.antt =====
-- The funds of one asset over all users, available and frozen, under the balance methods.
use exchange_server.Base.{
  ℕ, ◌≡◌, sym, ap, ◌∙◌, inl, inr, Option, none, some, List, [], ◌∷◌, arith, Option-cases,
  Bool-cases, if◌then◌else◌,
}
use exchange_server.Text.{Text, text_eq}
use exchange_server.Dict.{lookup, insert}
use exchange_server.Decimal.{Decimals}
use exchange_server.Decimal.Laws.{add_right_comm, sub_add_add, sub_zero, add_sub_total, add_sub_sub}
use exchange_server.Balance.{
  Balance, BalanceError, Book, key, get_balance, freeze, unfreeze, sub, add, change, set_balance,
  opened, Op, freezes, unfreezes, subtracts, adds, changes, sets, apply, run, asset_of,
}
use exchange_server.Balance.Keyed.{IsKeyed, found-asset, apply-IsKeyed}

module _ ⦃d : Decimals⦄ where
  open d use {D, zero, neg, add_assoc, add_zero, add_neg, sub_eq, add_comm}

  -- What one entry holds of an asset.
  abbrev pub part : Text → Balance D → D
  part a b = if text_eq.beq b.asset a then d.add b.available b.frozen else zero

  pub total : Text → Book D → D
  total a [] = zero
  total a ((k, b) ∷ bm) = d.add (part a b) (total a bm)

  -- A write over an entry changes the total as it changes the entry.
  pub total-update :
      (a k : Text) (old new : Balance D) (delta : D) (bm : Book D)
      → lookup k bm ≡ some old
      → part a new ≡ d.add (part a old) delta
      → total a (insert k new bm) ≡ d.add (total a bm) delta
  unfolding total lookup insert
  total-update a k old new delta [] e p = cc
  total-update a k old new delta ((j, b) ∷ bm) e p = elim (Bool-cases (text_eq.beq j k)) [
    | inl same ↦
        let read : some b ≡ some old = rw same at e in
        let found : b ≡ old = cc in
        rw (same, insert, p, found) (add_right_comm (part a old) delta (total a bm))
    | inr other ↦
        rw (other, insert, total-update a k old new delta bm (rw other at e) p)
          (sym (add_assoc (part a b) (total a bm) delta))
  ]

  pub total-new :
      (a k : Text) (new : Balance D) (bm : Book D)
      → lookup k bm ≡ none
      → total a (insert k new bm) ≡ d.add (total a bm) (part a new)
  unfolding total lookup insert
  total-new a k new [] e = add_comm (part a new) zero
  total-new a k new ((j, b) ∷ bm) e = elim (Bool-cases (text_eq.beq j k)) [
    | inl same ↦ let read : some b ≡ none = rw same at e in cc
    | inr other ↦
        rw (other, insert, total-new a k new bm (rw other at e))
          (sym (add_assoc (part a b) (total a bm) (part a new)))
  ]

  -- What a call that did not fail brings in of its asset.
  abbrev amount : Op D → Book D → D
  amount (freezes u a x) bm = zero
  amount (unfreezes u a x) bm = zero
  amount (subtracts u a x) bm = neg x
  amount (adds u a x) bm = x
  amount (changes u a x) bm = x
  amount (sets u a x y) bm =
      let held = get_balance u a bm in d.sub (d.add x y) (d.add held.0 held.1)

  -- What a call brings in of the asset `a`, by how it ended.
  abbrev pub inflow : Text → Op D → Book D → Option BalanceError → D
  inflow a op bm none = if text_eq.beq (asset_of op) a then amount op bm else zero
  inflow a op bm (some e) = zero

  -- That a call moves what `inflow` says.
  abbrev Moves : Text → Op D → Book D → Type 0
  Moves a op bm = total a (apply op bm).0 ≡ d.add (total a bm) (inflow a op bm (apply op bm).1)

  freeze-Moves : (a : Text) (u : ℕ) (s : Text) (x : D) (bm : Book D) → Moves a (freezes u s x) bm
  unfolding apply freeze
  freeze-Moves a u s x bm = elim (Option-cases (lookup (key u s) bm)) [
    | inl e ↦ ground (arith, add_zero (total a bm))
    | inr (b, e) ↦ ground (
      arith,
      add_zero (total a bm),
      add_zero (part a b),
      sub_add_add b.available b.frozen x,
      total-update a (key u s) b
          (record b { available = d.sub b.available x; frozen = d.add b.frozen x }) zero bm e,
    )
  ]

  unfreeze-Moves :
      (a : Text) (u : ℕ) (s : Text) (x : D) (bm : Book D) → Moves a (unfreezes u s x) bm
  unfolding apply unfreeze
  unfreeze-Moves a u s x bm = elim (Option-cases (lookup (key u s) bm)) [
    | inl e ↦ ground (arith, add_zero (total a bm))
    | inr (b, e) ↦ ground (
      arith,
      add_zero (total a bm),
      add_zero (part a b),
      add_sub_sub b.available b.frozen x,
      total-update a (key u s) b
          (record b { frozen = d.sub b.frozen x; available = d.add b.available x }) zero bm e,
    )
  ]

  sub-Moves :
      (a : Text) (u : ℕ) (s : Text) (x : D) (bm : Book D)
      → IsKeyed bm
      → Moves a (subtracts u s x) bm
  unfolding apply sub
  sub-Moves a u s x bm h = elim (Option-cases (lookup (key u s) bm)) [
    | inl e ↦
        ground (arith, add_zero (total a bm), add_zero x, total-new a (key u s) (opened u s x) bm e)
    | inr (b, e) ↦ ground (
      arith,
      found-asset u s b bm h e,
      add_zero (total a bm),
      add_zero (part a b),
      sub_eq b.available x,
      add_right_comm b.available (neg x) b.frozen,
      total-update a (key u s) b (record b { available = d.sub b.available x })
          (if text_eq.beq s a then neg x else zero) bm e,
    )
  ]

  add-Moves :
      (a : Text) (u : ℕ) (s : Text) (x : D) (bm : Book D) → IsKeyed bm → Moves a (adds u s x) bm
  unfolding apply add
  add-Moves a u s x bm h = elim (Option-cases (lookup (key u s) bm)) [
    | inl e ↦
        ground (arith, add_zero (total a bm), add_zero x, total-new a (key u s) (opened u s x) bm e)
    | inr (b, e) ↦ ground (
      arith,
      found-asset u s b bm h e,
      add_zero (total a bm),
      add_zero (part a b),
      add_right_comm b.available x b.frozen,
      total-update a (key u s) b (record b { available = d.add b.available x })
          (if text_eq.beq s a then x else zero) bm e,
    )
  ]

  change-Moves :
      (a : Text) (u : ℕ) (s : Text) (x : D) (bm : Book D) → IsKeyed bm → Moves a (changes u s x) bm
  unfolding apply change
  change-Moves a u s x bm h = elim (Option-cases (lookup (key u s) bm)) [
    | inl e ↦
        ground (arith, add_zero (total a bm), add_zero x, total-new a (key u s) (opened u s x) bm e)
    | inr (b, e) ↦ ground (
      arith,
      found-asset u s b bm h e,
      add_zero (total a bm),
      add_zero (part a b),
      add_right_comm b.available x b.frozen,
      total-update a (key u s) b (record b { available = d.add b.available x })
          (if text_eq.beq s a then x else zero) bm e,
    )
  ]

  set-Moves :
      (a : Text) (u : ℕ) (s : Text) (x y : D) (bm : Book D) → IsKeyed bm → Moves a (sets u s x y) bm
  unfolding apply set_balance get_balance
  set-Moves a u s x y bm h = elim (Option-cases (lookup (key u s) bm)) [
    | inl e ↦ ground (
      arith,
      add_zero zero,
      sub_zero (d.add x y),
      total-new a (key u s) (record { user_id = u; asset = s; available = x; frozen = y }) bm e,
    )
    | inr (b, e) ↦ ground (
      arith,
      found-asset u s b bm h e,
      add_zero zero,
      add_sub_total (d.add b.available b.frozen) (d.add x y),
      total-update a (key u s) b (record { user_id = u; asset = s; available = x; frozen = y })
          (if text_eq.beq s a then d.sub (d.add x y) (d.add b.available b.frozen) else zero) bm e,
    )
  ]

  -- One call of any method changes the funds of each asset by what it brings in: a freeze or an
  -- unfreeze by nothing, a credit or a debit of the asset by its amount, a set by the difference
  -- to what the user held, and a call that fails or is about another asset by nothing.
  pub total-apply :
      (a : Text) (op : Op D) (bm : Book D)
      → IsKeyed bm
      → total a (apply op bm).0 ≡ d.add (total a bm) (inflow a op bm (apply op bm).1)
  total-apply a (freezes u s x) bm h = freeze-Moves a u s x bm
  total-apply a (unfreezes u s x) bm h = unfreeze-Moves a u s x bm
  total-apply a (subtracts u s x) bm h = sub-Moves a u s x bm h
  total-apply a (adds u s x) bm h = add-Moves a u s x bm h
  total-apply a (changes u s x) bm h = change-Moves a u s x bm h
  total-apply a (sets u s x y) bm h = set-Moves a u s x y bm h

  -- What a sequence of calls brings in of an asset, one after the other.
  pub inflows : Text → List (Op D) → Book D → D
  inflows a [] bm = zero
  inflows a (op ∷ ops) bm = d.add (inflow a op bm (apply op bm).1) (inflows a ops (apply op bm).0)

  -- After any sequence of calls on a book that is keyed by user and asset, the funds of each
  -- asset are those at the start and what the calls brought in.
  pub total-run :
      (a : Text) (ops : List (Op D)) (bm : Book D)
      → IsKeyed bm
      → total a (run ops bm) ≡ d.add (total a bm) (inflows a ops bm)
  unfolding run inflows
  total-run a [] bm h = sym (add_zero (total a bm))
  total-run a (op ∷ ops) bm h =
      total-run a ops (apply op bm).0 (apply-IsKeyed op bm h)
      ∙ ap (λ t. d.add t (inflows a ops (apply op bm).0)) (total-apply a op bm h)
      ∙ add_assoc (total a bm) (inflow a op bm (apply op bm).1) (inflows a ops (apply op bm).0)

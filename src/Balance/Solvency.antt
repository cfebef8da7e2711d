-- ===== src/Balance/Solvency.antt =====
-- The signs of the available and the frozen amounts under the balance methods.
use exchange_server.Base.{ℕ, inl, inr, List, [], ◌∷◌, arith, All, Option-cases}
use exchange_server.Text.{Text, text_eq}
use exchange_server.Dict.{lookup, All-insert, All-lookup}
use exchange_server.Decimal.{Decimals, Le}
use exchange_server.Decimal.Laws.{sub_nonneg, add_nonneg, le_refl, add_neg_nonneg}
use exchange_server.Balance.{
  Balance, Book, key, freeze, unfreeze, sub, add, change, set_balance, opened, Op, freezes,
  unfreezes, subtracts, adds, changes, sets, apply, run,
}

module _ ⦃d : Decimals⦄ where
  open d use {D, zero}

  abbrev pub Solvent : Text × Balance D → Type 0
  Solvent (k, b) = Le zero b.available × Le zero b.frozen

  abbrev pub IsSolvent : Book D → Type 0
  IsSolvent bm = All Solvent bm

  -- The amounts that a call hands over are not negative; a change may have either sign.
  abbrev pub NonNeg : Op D → Type 0
  NonNeg (freezes u a x) = Le zero x
  NonNeg (unfreezes u a x) = Le zero x
  NonNeg (subtracts u a x) = Unit
  NonNeg (adds u a x) = Le zero x
  NonNeg (changes u a x) = Unit
  NonNeg (sets u a x y) = Le zero x × Le zero y

  freeze-IsSolvent :
      (u : ℕ) (a : Text) (x : D) (bm : Book D)
      → Le zero x
      → IsSolvent bm
      → IsSolvent (freeze u a x bm).0
  unfolding freeze
  freeze-IsSolvent u a x bm p h = elim (Option-cases (lookup (key u a) bm)) [
    | inl e ↦ ground arith
    | inr (b, e) ↦ ground (
      arith,
      All-insert Solvent (key u a)
          (record b { available = d.sub b.available x; frozen = d.add b.frozen x }) bm,
      All-lookup Solvent (key u a) b bm h e,
      sub_nonneg b.available x,
      add_nonneg b.frozen x,
    )
  ]

  unfreeze-IsSolvent :
      (u : ℕ) (a : Text) (x : D) (bm : Book D)
      → Le zero x
      → IsSolvent bm
      → IsSolvent (unfreeze u a x bm).0
  unfolding unfreeze
  unfreeze-IsSolvent u a x bm p h = elim (Option-cases (lookup (key u a) bm)) [
    | inl e ↦ ground (arith, All-insert Solvent (key u a) (opened u a x) bm, le_refl zero)
    | inr (b, e) ↦ ground (
      arith,
      All-insert Solvent (key u a)
          (record b { frozen = d.sub b.frozen x; available = d.add b.available x }) bm,
      All-lookup Solvent (key u a) b bm h e,
      sub_nonneg b.frozen x,
      add_nonneg b.available x,
    )
  ]

  sub-IsSolvent :
      (u : ℕ) (a : Text) (x : D) (bm : Book D) → IsSolvent bm → IsSolvent (sub u a x bm).0
  unfolding sub
  sub-IsSolvent u a x bm h = elim (Option-cases (lookup (key u a) bm)) [
    | inl e ↦ ground (arith, All-insert Solvent (key u a) (opened u a x) bm, le_refl zero)
    | inr (b, e) ↦ ground (
      arith,
      All-insert Solvent (key u a) (record b { available = d.sub b.available x }) bm,
      All-lookup Solvent (key u a) b bm h e,
      sub_nonneg b.available x,
    )
  ]

  add-IsSolvent :
      (u : ℕ) (a : Text) (x : D) (bm : Book D)
      → Le zero x
      → IsSolvent bm
      → IsSolvent (add u a x bm).0
  unfolding add
  add-IsSolvent u a x bm p h = elim (Option-cases (lookup (key u a) bm)) [
    | inl e ↦ ground (arith, All-insert Solvent (key u a) (opened u a x) bm, le_refl zero)
    | inr (b, e) ↦ ground (
      arith,
      All-insert Solvent (key u a) (record b { available = d.add b.available x }) bm,
      All-lookup Solvent (key u a) b bm h e,
      add_nonneg b.available x,
    )
  ]

  change-IsSolvent :
      (u : ℕ) (a : Text) (x : D) (bm : Book D) → IsSolvent bm → IsSolvent (change u a x bm).0
  unfolding change
  change-IsSolvent u a x bm h = elim (Option-cases (lookup (key u a) bm)) [
    | inl e ↦ ground (arith, All-insert Solvent (key u a) (opened u a x) bm, le_refl zero)
    | inr (b, e) ↦ ground (
      arith,
      All-insert Solvent (key u a) (record b { available = d.add b.available x }) bm,
      All-lookup Solvent (key u a) b bm h e,
      add_nonneg b.available x,
      add_neg_nonneg b.available x,
    )
  ]

  -- One call of any method on a solvent book, whether it fails or not, leaves a solvent book.
  pub apply-IsSolvent :
      (op : Op D) (bm : Book D) → NonNeg op → IsSolvent bm → IsSolvent (apply op bm).0
  unfolding apply set_balance
  apply-IsSolvent (freezes u a x) bm p h = freeze-IsSolvent u a x bm p h
  apply-IsSolvent (unfreezes u a x) bm p h = unfreeze-IsSolvent u a x bm p h
  apply-IsSolvent (subtracts u a x) bm p h = sub-IsSolvent u a x bm h
  apply-IsSolvent (adds u a x) bm p h = add-IsSolvent u a x bm p h
  apply-IsSolvent (changes u a x) bm p h = change-IsSolvent u a x bm h
  apply-IsSolvent (sets u a x y) bm p h = All-insert Solvent (key u a) _ bm p h

  -- After any sequence of calls, failed ones included, whose amounts are not negative (those of
  -- `Change` may have either sign), no balance that began without a negative part has one.
  pub run-IsSolvent :
      (ops : List (Op D)) (bm : Book D) → All NonNeg ops → IsSolvent bm → IsSolvent (run ops bm)
  unfolding run
  run-IsSolvent [] bm p h = h
  run-IsSolvent (op ∷ ops) bm p h =
      run-IsSolvent ops (apply op bm).0 p.1 (apply-IsSolvent op bm p.0 h)

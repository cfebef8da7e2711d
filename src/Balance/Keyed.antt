-- ===== src/Balance/Keyed.antt =====
-- The keys under which the balance methods write their entries.
use exchange_server.Base.{ℕ, ◌≡◌, refl, sym, inl, inr, some, arith, All, Option-cases}
use exchange_server.Text.{Text, text_eq}
use exchange_server.Dict.{lookup, All-insert, All-lookup}
use exchange_server.Decimal.{Decimals}
use exchange_server.Balance.{
  Balance, Book, key, freeze, unfreeze, sub, add, change, set_balance, opened, Op, freezes,
  unfreezes, subtracts, adds, changes, sets, apply,
}
use exchange_server.Balance.Key.{key_injective}

module _ ⦃d : Decimals⦄ where
  open d use {D}

  -- Every entry stands under the key of its own user and asset.
  abbrev pub Keyed : Text × Balance D → Type 0
  Keyed (k, b) = k ≡ key b.user_id b.asset

  abbrev pub IsKeyed : Book D → Type 0
  IsKeyed bm = All Keyed bm

  -- An entry that is found has the asset that it was looked up under.
  pub found-asset :
      (u : ℕ) (a : Text) (b : Balance D) (bm : Book D)
      → IsKeyed bm
      → lookup (key u a) bm ≡ some b
      → (b.asset ≡ a) × (b.user_id ≡ u)
  found-asset u a b bm h e =
      let r = key_injective u b.user_id a b.asset (All-lookup Keyed (key u a) b bm h e) in
      (sym r.1, sym r.0)

  freeze-IsKeyed :
      (u : ℕ) (a : Text) (x : D) (bm : Book D) → IsKeyed bm → IsKeyed (freeze u a x bm).0
  unfolding freeze
  freeze-IsKeyed u a x bm h = elim (Option-cases (lookup (key u a) bm)) [
    | inl e ↦ ground (arith, All-insert Keyed (key u a) (opened u a x) bm)
    | inr (b, e) ↦ ground (
      arith,
      All-lookup Keyed (key u a) b bm h e,
      All-insert Keyed (key u a)
          (record b { available = d.sub b.available x; frozen = d.add b.frozen x }) bm,
    )
  ]

  unfreeze-IsKeyed :
      (u : ℕ) (a : Text) (x : D) (bm : Book D) → IsKeyed bm → IsKeyed (unfreeze u a x bm).0
  unfolding unfreeze
  unfreeze-IsKeyed u a x bm h = elim (Option-cases (lookup (key u a) bm)) [
    | inl e ↦ ground (arith, All-insert Keyed (key u a) (opened u a x) bm)
    | inr (b, e) ↦ ground (
      arith,
      All-lookup Keyed (key u a) b bm h e,
      All-insert Keyed (key u a)
          (record b { frozen = d.sub b.frozen x; available = d.add b.available x }) bm,
    )
  ]

  sub-IsKeyed : (u : ℕ) (a : Text) (x : D) (bm : Book D) → IsKeyed bm → IsKeyed (sub u a x bm).0
  unfolding sub
  sub-IsKeyed u a x bm h = elim (Option-cases (lookup (key u a) bm)) [
    | inl e ↦ ground (arith, All-insert Keyed (key u a) (opened u a x) bm)
    | inr (b, e) ↦ ground (
      arith,
      All-lookup Keyed (key u a) b bm h e,
      All-insert Keyed (key u a) (record b { available = d.sub b.available x }) bm,
    )
  ]

  add-IsKeyed : (u : ℕ) (a : Text) (x : D) (bm : Book D) → IsKeyed bm → IsKeyed (add u a x bm).0
  unfolding add
  add-IsKeyed u a x bm h = elim (Option-cases (lookup (key u a) bm)) [
    | inl e ↦ ground (arith, All-insert Keyed (key u a) (opened u a x) bm)
    | inr (b, e) ↦ ground (
      arith,
      All-lookup Keyed (key u a) b bm h e,
      All-insert Keyed (key u a) (record b { available = d.add b.available x }) bm,
    )
  ]

  change-IsKeyed :
      (u : ℕ) (a : Text) (x : D) (bm : Book D) → IsKeyed bm → IsKeyed (change u a x bm).0
  unfolding change
  change-IsKeyed u a x bm h = elim (Option-cases (lookup (key u a) bm)) [
    | inl e ↦ ground (arith, All-insert Keyed (key u a) (opened u a x) bm)
    | inr (b, e) ↦ ground (
      arith,
      All-lookup Keyed (key u a) b bm h e,
      All-insert Keyed (key u a) (record b { available = d.add b.available x }) bm,
    )
  ]

  -- Every call keeps the book keyed by user and asset.
  pub apply-IsKeyed : (op : Op D) (bm : Book D) → IsKeyed bm → IsKeyed (apply op bm).0
  unfolding apply set_balance
  apply-IsKeyed (freezes u a x) bm h = freeze-IsKeyed u a x bm h
  apply-IsKeyed (unfreezes u a x) bm h = unfreeze-IsKeyed u a x bm h
  apply-IsKeyed (subtracts u a x) bm h = sub-IsKeyed u a x bm h
  apply-IsKeyed (adds u a x) bm h = add-IsKeyed u a x bm h
  apply-IsKeyed (changes u a x) bm h = change-IsKeyed u a x bm h
  apply-IsKeyed (sets u a x y) bm h = All-insert Keyed (key u a) _ bm refl h

-- ===== src/Balance/Accounts.antt =====
-- What one call of a balance method does to its own account and to the others.
use exchange_server.Base.{ℕ, ◌≡◌, ◌≢◌, ◌⊎◌, inl, inr, none, some, arith, Bool-cases, Option-cases}
use exchange_server.Text.{Text, text_eq, text_beq_iff}
use exchange_server.Dict.{
  lookup, insert, lookup-insert, insert-insert, insert-lookup, beq_self, All-lookup,
}
use exchange_server.Decimal.{Decimals}
use exchange_server.Decimal.Laws.{sub_add, add_sub, add_zero_le}
use exchange_server.Balance.{
  Balance, BalanceError, Book, key, get_balance, freeze, unfreeze, sub, add, change, set_balance,
  opened, Op, freezes, unfreezes, subtracts, adds, changes, sets, apply, user_of, asset_of,
}
use exchange_server.Balance.Key.{key_injective}
use exchange_server.Balance.Solvency.{Solvent, IsSolvent}

module _ ⦃d : Decimals⦄ where
  open d use {D, zero, less_than}

  -- A call that reports an error leaves the book exactly as it was.
  pub apply_atomic :
      (op : Op D) (bm : Book D) (e : BalanceError) → (apply op bm).1 ≡ some e → (apply op bm).0 ≡ bm
  unfolding apply freeze unfreeze sub add change
  apply_atomic (freezes u a x) bm e h = ground arith
  apply_atomic (unfreezes u a x) bm e h = ground arith
  apply_atomic (subtracts u a x) bm e h = ground arith
  apply_atomic (adds u a x) bm e h = ground arith
  apply_atomic (changes u a x) bm e h = ground arith
  apply_atomic (sets u a x y) bm e h = cc

  -- A freeze that succeeds on a solvent book is undone by an unfreeze of the same amount, which
  -- then cannot fail: the whole book is as it was.
  pub unfreeze-freeze :
      (u : ℕ) (a : Text) (x : D) (bm : Book D)
      → IsSolvent bm
      → (freeze u a x bm).1 ≡ none
      → unfreeze u a x (freeze u a x bm).0 ≡ (bm, none)
  unfolding freeze unfreeze
  unfreeze-freeze u a x bm h k = elim (Option-cases (lookup (key u a) bm)) [
    | inl e ↦ ground arith
    | inr (b, e) ↦
        let after = record b { available = d.sub b.available x; frozen = d.add b.frozen x } in
        ground (
          arith,
          lookup-insert (key u a) (key u a) after bm,
          beq_self (key u a),
          insert-insert (key u a) after b bm,
          insert-lookup (key u a) b bm e,
          add_sub b.frozen x,
          sub_add b.available x,
          add_zero_le b.frozen x,
          All-lookup Solvent (key u a) b bm h e,
        )
  ]

  -- A write under the key of one balance leaves the entry of another alone.
  write_other :
      (u v : ℕ) (a s : Text) (b : Balance D) (bm : Book D)
      → (u ≢ v) ⊎ (a ≢ s)
      → lookup (key v s) (insert (key u a) b bm) ≡ lookup (key v s) bm
  write_other u v a s b bm h = elim (Bool-cases (text_eq.beq (key u a) (key v s))) [
    | inl same ↦
        let r = key_injective u v a s ((text_beq_iff (key u a) (key v s)).0 same) in
        absurd (elim h [ inl ne ↦ ne r.0 | inr ne ↦ ne r.1 ])
    | inr other ↦ rw (lookup-insert (key u a) (key v s) b bm, other)
  ]

  lookup-freeze :
      (u v : ℕ) (a s : Text) (x : D) (bm : Book D)
      → (u ≢ v) ⊎ (a ≢ s)
      → lookup (key v s) (freeze u a x bm).0 ≡ lookup (key v s) bm
  unfolding freeze
  lookup-freeze u v a s x bm h = elim (Option-cases (lookup (key u a) bm)) [
    | inl e ↦ ground (arith, write_other u v a s (opened u a x) bm h)
    | inr (b, e) ↦ ground (
      arith,
      write_other u v a s (record b { available = d.sub b.available x; frozen = d.add b.frozen x })
          bm h,
    )
  ]

  lookup-unfreeze :
      (u v : ℕ) (a s : Text) (x : D) (bm : Book D)
      → (u ≢ v) ⊎ (a ≢ s)
      → lookup (key v s) (unfreeze u a x bm).0 ≡ lookup (key v s) bm
  unfolding unfreeze
  lookup-unfreeze u v a s x bm h = elim (Option-cases (lookup (key u a) bm)) [
    | inl e ↦ ground (arith, write_other u v a s (opened u a x) bm h)
    | inr (b, e) ↦ ground (
      arith,
      write_other u v a s (record b { frozen = d.sub b.frozen x; available = d.add b.available x })
          bm h,
    )
  ]

  lookup-sub :
      (u v : ℕ) (a s : Text) (x : D) (bm : Book D)
      → (u ≢ v) ⊎ (a ≢ s)
      → lookup (key v s) (sub u a x bm).0 ≡ lookup (key v s) bm
  unfolding sub
  lookup-sub u v a s x bm h = elim (Option-cases (lookup (key u a) bm)) [
    | inl e ↦ ground (arith, write_other u v a s (opened u a x) bm h)
    | inr (b, e) ↦
        ground (arith, write_other u v a s (record b { available = d.sub b.available x }) bm h)
  ]

  lookup-add :
      (u v : ℕ) (a s : Text) (x : D) (bm : Book D)
      → (u ≢ v) ⊎ (a ≢ s)
      → lookup (key v s) (add u a x bm).0 ≡ lookup (key v s) bm
  unfolding add
  lookup-add u v a s x bm h = elim (Option-cases (lookup (key u a) bm)) [
    | inl e ↦ ground (arith, write_other u v a s (opened u a x) bm h)
    | inr (b, e) ↦
        ground (arith, write_other u v a s (record b { available = d.add b.available x }) bm h)
  ]

  lookup-change :
      (u v : ℕ) (a s : Text) (x : D) (bm : Book D)
      → (u ≢ v) ⊎ (a ≢ s)
      → lookup (key v s) (change u a x bm).0 ≡ lookup (key v s) bm
  unfolding change
  lookup-change u v a s x bm h = elim (Option-cases (lookup (key u a) bm)) [
    | inl e ↦ ground (arith, write_other u v a s (opened u a x) bm h)
    | inr (b, e) ↦
        ground (arith, write_other u v a s (record b { available = d.add b.available x }) bm h)
  ]

  lookup-apply :
      (op : Op D) (v : ℕ) (s : Text) (bm : Book D)
      → (user_of op ≢ v) ⊎ (asset_of op ≢ s)
      → lookup (key v s) (apply op bm).0 ≡ lookup (key v s) bm
  unfolding apply set_balance
  lookup-apply (freezes u a x) v s bm h = lookup-freeze u v a s x bm h
  lookup-apply (unfreezes u a x) v s bm h = lookup-unfreeze u v a s x bm h
  lookup-apply (subtracts u a x) v s bm h = lookup-sub u v a s x bm h
  lookup-apply (adds u a x) v s bm h = lookup-add u v a s x bm h
  lookup-apply (changes u a x) v s bm h = lookup-change u v a s x bm h
  lookup-apply (sets u a x y) v s bm h = write_other u v a s _ bm h

  -- No call touches the balance of another user or of another asset.
  pub apply_others :
      (op : Op D) (v : ℕ) (s : Text) (bm : Book D)
      → (user_of op ≢ v) ⊎ (asset_of op ≢ s)
      → get_balance v s (apply op bm).0 ≡ get_balance v s bm
  unfolding get_balance
  apply_others op v s bm h = rw (lookup-apply op v s bm h, get_balance)

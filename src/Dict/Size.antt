-- ===== src/Dict/Size.antt =====
-- How large a map can grow.
use exchange_server.Base.{
  suc, ◌≤◌, ◌≡◌, ◌≢◌, refl, ap, subst, none, some, inl, inr, [], ◌∷◌, arith, Eq, All, Bool-cases,
  length,
}
use exchange_server.Dict.{Dict, lookup, erase, lookup-erase, IsMap}

module _ {ℓ κ} {K : Type ℓ} {V : Type κ} ⦃e : Eq K⦄ where
  erase-absent : (k : K) (m : Dict K V) → lookup k m ≡ none → erase k m ≡ m
  unfolding lookup erase
  erase-absent k [] h = refl
  erase-absent k ((j, v) ∷ m) h = elim (Bool-cases (e.beq j k)) [
    | inl same ↦ let found : some v ≡ none = rw same at h in cc
    | inr other ↦ rw (other, erase) (ap (◌∷◌ (j, v)) (erase-absent k m (rw other at h)))
  ]

  pub erase-IsMap : (k : K) (m : Dict K V) → IsMap m → IsMap (erase k m)
  unfolding erase
  erase-IsMap k [] h = tt
  erase-IsMap k ((j, v) ∷ m) h = elim (Bool-cases (e.beq j k)) [
    | inl same ↦ rw (same, erase) (erase-IsMap k m h.1)
    | inr other ↦ rw (other, erase) (ground (arith, lookup-erase k j m), erase-IsMap k m h.1)
  ]

  -- A map has at most one entry under a key.
  pub length-erase : (k : K) (m : Dict K V) → IsMap m → length m ≤ suc (length (erase k m))
  unfolding erase
  length-erase k [] h = omega arith
  length-erase k ((j, v) ∷ m) h = elim (Bool-cases (e.beq j k)) [
    | inl same ↦
        let absent = subst (λ i. lookup i m ≡ none) ((e.beq_iff j k).0 same) h.0 in
        rw (same, erase) (rw (erase-absent k m absent) (omega arith))
    | inr other ↦ rw (other, erase) (omega (arith, length-erase k m h.1))
  ]

  -- What is left under other keys.
  pub All-erase_other {κ'} :
      (P Q : K × V → Type κ') (k : K) (m : Dict K V)
      → ((j : K) (v : V) → j ≢ k → P (j, v) → Q (j, v))
      → All P m
      → All Q (erase k m)
  unfolding erase
  All-erase_other P Q k [] f h = tt
  All-erase_other P Q k ((j, v) ∷ m) f h = elim (Bool-cases (e.beq j k)) [
    | inl same ↦ rw (same, erase) (All-erase_other P Q k m f h.1)
    | inr other ↦
        let apart : j ≢ k = λ q. cc ((e.beq_iff j k).1 q) in
        rw (other, erase) (f j v apart h.0, All-erase_other P Q k m f h.1)
  ]

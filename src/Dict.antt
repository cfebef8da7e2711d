-- ===== src/Dict.antt =====
-- A Go map as an association list: a write replaces the value of a key that is there, in place,
-- or adds the key at the end. What ranges over a map takes its pairs in this order.
pub mod Size
use exchange_server.Base.{
  true, Option, none, some, List, [], ◌∷◌, ◌≡◌, refl, arith, if◌then◌else◌, Eq, All, Bool-cases,
  inl, inr, sym, subst,
}
use mathlib.Core.Path.{subst₂}

abbrev pub Dict {ℓ κ} : Type ℓ → Type κ → Type (ℓ ⊔ κ)
Dict K V = List (K × V)

module _ {ℓ κ} {K : Type ℓ} {V : Type κ} ⦃e : Eq K⦄ where
  -- `v, ok := m[k]`
  unfoldable pub lookup : K → Dict K V → Option V
  lookup k [] = none
  lookup k ((j, v) ∷ m) = if e.beq j k then some v else lookup k m

  -- `m[k] = v`
  unfoldable pub insert : K → V → Dict K V → Dict K V
  insert k v [] = (k, v) ∷ []
  insert k v ((j, w) ∷ m) = if e.beq j k then (j, v) ∷ m else (j, w) ∷ insert k v m

  -- `delete(m, k)`
  unfoldable pub erase : K → Dict K V → Dict K V
  erase k [] = []
  erase k ((j, w) ∷ m) = if e.beq j k then erase k m else (j, w) ∷ erase k m

  pub lookup-insert :
      (k j : K) (v : V) (m : Dict K V)
      → lookup j (insert k v m) ≡ (if e.beq k j then some v else lookup j m)
  unfolding lookup insert
  lookup-insert k j v [] = refl
  lookup-insert k j v ((i, w) ∷ m) =
      ground (arith, e.beq_iff k j, e.beq_iff i k, e.beq_iff i j, lookup-insert k j v m)

  -- The second write under a key is the one that stays, and a value written back changes nothing.
  pub insert-insert : (k : K) (v w : V) (m : Dict K V) → insert k w (insert k v m) ≡ insert k w m
  unfolding insert
  insert-insert k v w [] = ground (arith, e.beq_iff k k)
  insert-insert k v w ((i, u) ∷ m) = ground (arith, e.beq_iff i k, insert-insert k v w m)

  pub insert-lookup : (k : K) (v : V) (m : Dict K V) → lookup k m ≡ some v → insert k v m ≡ m
  unfolding insert lookup
  insert-lookup k v [] h = cc
  insert-lookup k v ((i, u) ∷ m) h = ground (arith, e.beq_iff i k, insert-lookup k v m)

  -- No key stands twice, as in a map.
  abbrev pub IsMap : Dict K V → Type κ
  IsMap [] = Unit
  IsMap ((k, v) ∷ m) = (lookup k m ≡ none) × IsMap m

  pub insert-IsMap : (k : K) (v : V) (m : Dict K V) → IsMap m → IsMap (insert k v m)
  unfolding insert lookup
  insert-IsMap k v [] h = (refl, tt)
  insert-IsMap k v ((i, u) ∷ m) h = elim (Bool-cases (e.beq i k)) [
    | inl same ↦ rw (same, insert) h
    | inr other ↦
        rw (other, insert)
          (
            ground (arith, e.beq_iff k i, e.beq_iff i k, lookup-insert k i v m),
            insert-IsMap k v m h.1,
          )
  ]

  pub lookup-erase :
      (k j : K) (m : Dict K V) → lookup j (erase k m) ≡ (if e.beq k j then none else lookup j m)
  unfolding lookup erase
  lookup-erase k j [] = ground arith
  lookup-erase k j ((i, w) ∷ m) =
      ground (arith, e.beq_iff k j, e.beq_iff i k, e.beq_iff i j, lookup-erase k j m)

  module _ {κ'} (P : K × V → Type κ') where
    pub All-insert : (k : K) (v : V) (m : Dict K V) → P (k, v) → All P m → All P (insert k v m)
    unfolding insert
    All-insert k v [] p h = (p, tt)
    All-insert k v ((j, w) ∷ m) p h = elim (Bool-cases (e.beq j k)) [
      | inl same ↦ rw (same, insert) (subst (λ i. P (i, v)) (sym ((e.beq_iff j k).0 same)) p, h.1)
      | inr other ↦ rw (other, insert) (h.0, All-insert k v m p h.1)
    ]

    pub All-erase : (k : K) (m : Dict K V) → All P m → All P (erase k m)
    unfolding erase
    All-erase k [] h = tt
    All-erase k ((j, w) ∷ m) h = elim (Bool-cases (e.beq j k)) [
      | inl same ↦ rw (same, erase) (All-erase k m h.1)
      | inr other ↦ rw (other, erase) (h.0, All-erase k m h.1)
    ]

    pub All-lookup : (k : K) (v : V) (m : Dict K V) → All P m → lookup k m ≡ some v → P (k, v)
    unfolding lookup
    All-lookup k v [] h q = cc
    All-lookup k v ((j, w) ∷ m) h q = elim (Bool-cases (e.beq j k)) [
      | inl same ↦
          let read : some w ≡ some v = rw same at q in
          let found : w ≡ v = cc in subst₂ (λ i u. P (i, u)) ((e.beq_iff j k).0 same) found h.0
      | inr other ↦ All-lookup k v m h.1 (rw other at q)
    ]

pub beq_self {ℓ} : {K : Type ℓ} ⦃e : Eq K⦄ (k : K) → e.beq k k ≡ true
beq_self ⦃e⦄ k = (e.beq_iff k k).1 refl

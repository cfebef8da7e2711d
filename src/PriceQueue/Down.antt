-- ===== src/PriceQueue/Down.antt =====
-- `down` of container/heap on the first `n` entries, after one was put at the root.
use mathlib.Core.List.{Perm}
use mathlib.Core.List.Perm
use exchange_server.Base.{
  ℕ, zero, suc, ◌+◌, ◌*◌, ◌<◌, ◌≤◌, ◌≡◌, ◌≢◌, refl, ◌∙◌, true, List, length, get_or, ◌||◌, not,
  arith, Bool-cases, inl, inr, leb,
}
use exchange_server.Decimal.{Decimals, Le}
use exchange_server.Decimal.Laws.{le_refl}
use exchange_server.PriceQueue.{swap, parent, less, first_child, down_fuel}
use exchange_server.PriceQueue.Swap.{length-swap, get_or-swap, swap-perm}
use exchange_server.PriceQueue.Up.{key}

module _ ⦃d : Decimals⦄ (price : ℕ → d.D) (n : ℕ) where
  open d use {D, le_trans, lt_asymm}

  -- Among the first `n` entries none has a higher price than its parent.
  abbrev pub IsHeapTo : List ℕ → Type 0
  IsHeapTo q = (c : ℕ) → 0 < c → c < n → Le (key price q c) (key price q (parent c))

  -- Only the edges below `i` may be out of order.
  pub record DownInv (q : List ℕ) (i : ℕ) : Type 0 where
    pub inside : n ≤ length q
    pub edges : (c : ℕ) → 0 < c → c < n → parent c ≢ i → Le (key price q c) (key price q (parent c))
    pub bridged :
        (c : ℕ) → 0 < c → c < n → parent c ≡ i → 0 < i → Le (key price q c) (key price q (parent i))

  -- The first child is a child, and the other child does not come before it.
  record Chosen (q : List ℕ) (i j : ℕ) : Type 0 where
    below : parent j ≡ i
    above : i < j
    within : j < n
    first : (c : ℕ) → 0 < c → c < n → parent c ≡ i → Le (key price q c) (key price q j)

  first_child-Chosen : (q : List ℕ) (i : ℕ) → 2 * i + 1 < n → Chosen q i (first_child price i n q)
  unfolding first_child less
  first_child-Chosen q i h = record {
    below = ground arith;
    above = ground arith;
    within = ground arith;
    first = λ c p r e. ground (
      arith,
      le_refl (key price q (2 * i + 1)),
      le_refl (key price q (2 * i + 2)),
      lt_asymm (key price q (2 * i + 1)) (key price q (2 * i + 2)),
    );
  }

  swap-DownInv :
      (q : List ℕ) (i j : ℕ)
      → DownInv q i
      → Chosen q i j
      → less price j i q ≡ true
      → DownInv (swap i j q) j
  unfolding less
  swap-DownInv q i j v w above = record {
    inside = omega (arith, v.inside, length-swap i j q);
    edges = λ c p r ne. ground (
      arith,
      v.inside,
      w.below,
      w.above,
      w.within,
      get_or-swap i j q c,
      get_or-swap i j q (parent c),
      v.edges c,
      v.bridged c,
      v.bridged j,
      w.first c,
      lt_asymm (key price q i) (key price q j),
    );
    bridged = λ c p r e pp. ground (
      arith,
      v.inside,
      w.below,
      w.above,
      w.within,
      get_or-swap i j q c,
      get_or-swap i j q i,
      v.edges c,
    );
  }

  -- `down` leaves the first `n` entries in order, and permutes the slice.
  pub down_fuel_restores :
      (f i : ℕ) (q : List ℕ)
      → n ≤ f + i
      → DownInv q i
      → IsHeapTo (down_fuel price f i n q) × Perm (down_fuel price f i n q) q
  unfolding down_fuel less
  down_fuel_restores zero i q h v = (λ c p r. ground (arith, v.edges c), Perm.refl q)
  down_fuel_restores (suc f) i q h v =
      let j = first_child price i n q in
      elim (Bool-cases (leb n (2 * i + 1) || not (less price j i q))) [
        | inl stop ↦
            rw (stop, down_fuel)
              (
                λ c p r. ground (
                  arith,
                  v.edges c,
                  λ (inside : 2 * i + 1 < n). (first_child-Chosen q i inside).first c p r,
                  le_trans (key price q c) (key price q j) (key price q i),
                ),
                Perm.refl q,
              )
        | inr go ↦
            let w = first_child-Chosen q i (ground arith) in
            let above : less price j i q ≡ true = ground arith in
            let next = swap i j q in
            let r =
              down_fuel_restores f j next (omega (arith, w.above)) (swap-DownInv q i j v w above) in
            rw (go, down_fuel)
              (
                r.0,
                Perm.trans r.1 (
                    swap-perm i j q (omega (arith, w.above, w.within, v.inside))
                      (omega (arith, w.within, v.inside))),
              )
      ]

  -- `down` leaves the entries from `n` on alone.
  pub down_fuel-outside :
      (f i k : ℕ) (q : List ℕ)
      → n ≤ length q
      → n ≤ k
      → get_or (down_fuel price f i n q) k ≡ get_or q k
  unfolding down_fuel
  down_fuel-outside zero i k q h out = refl
  down_fuel-outside (suc f) i k q h out =
      let j = first_child price i n q in
      elim (Bool-cases (leb n (2 * i + 1) || not (less price j i q))) [
        | inl stop ↦ rw (stop, down_fuel)
        | inr go ↦
            let w = first_child-Chosen q i (ground arith) in
            rw (go, down_fuel)
              (ground (
                arith,
                w.above,
                w.within,
                length-swap i j q,
                down_fuel-outside f j k (swap i j q),
                get_or-swap i j q k,
              ))
      ]

  pub length-down_fuel : (f i : ℕ) (q : List ℕ) → length (down_fuel price f i n q) ≡ length q
  unfolding down_fuel
  length-down_fuel zero i q = refl
  length-down_fuel (suc f) i q =
      let j = first_child price i n q in
      elim (Bool-cases (leb n (2 * i + 1) || not (less price j i q))) [
        | inl stop ↦ rw (stop, down_fuel)
        | inr go ↦ rw (go, down_fuel) (length-down_fuel f j (swap i j q) ∙ length-swap i j q)
      ]

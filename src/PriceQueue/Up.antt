-- ===== src/PriceQueue/Up.antt =====
-- `up` of container/heap, after an entry was added at the end.
use mathlib.Core.List.{Perm}
use mathlib.Core.List.Perm
use exchange_server.Base.{
  ℕ, zero, suc, ◌<◌, ◌≡◌, ◌≢◌, true, List, length, get_or, ◌==◌, ◌||◌, not, arith, Bool-cases, inl,
  inr,
}
use exchange_server.Decimal.{Decimals, Le}
use exchange_server.PriceQueue.{swap, parent, less, up_fuel}
use exchange_server.PriceQueue.Swap.{length-swap, get_or-swap, swap-perm}

module _ ⦃d : Decimals⦄ (price : ℕ → d.D) where
  open d use {D, le_trans, lt_asymm}

  -- The price of the entry at an index.
  abbrev pub key : List ℕ → ℕ → D
  key q i = price (get_or q i)

  -- No entry has a higher price than its parent.
  abbrev pub IsHeap : List ℕ → Type 0
  IsHeap q = (c : ℕ) → 0 < c → c < length q → Le (key q c) (key q (parent c))

  -- Only the edge above `j` may be out of order.
  pub record UpInv (q : List ℕ) (j : ℕ) : Type 0 where
    pub inside : j < length q
    pub edges : (c : ℕ) → 0 < c → c < length q → c ≢ j → Le (key q c) (key q (parent c))
    pub bridged :
        (c : ℕ) → 0 < c → c < length q → parent c ≡ j → 0 < j → Le (key q c) (key q (parent j))

  swap-UpInv :
      (q : List ℕ) (j : ℕ)
      → UpInv q j
      → 0 < j
      → less price j (parent j) q ≡ true
      → UpInv (swap (parent j) j q) (parent j)
  unfolding less
  swap-UpInv q j v pos above = record {
    inside = omega (arith, v.inside, length-swap (parent j) j q);
    edges = λ c p r ne. ground (
      arith,
      v.inside,
      length-swap (parent j) j q,
      get_or-swap (parent j) j q c,
      get_or-swap (parent j) j q (parent c),
      v.edges c,
      v.bridged c,
      lt_asymm (key q (parent j)) (key q j),
      le_trans (key q c) (key q (parent j)) (key q j),
    );
    bridged = λ c p r e pp. ground (
      arith,
      v.inside,
      length-swap (parent j) j q,
      get_or-swap (parent j) j q c,
      get_or-swap (parent j) j q (parent (parent j)),
      v.edges c,
      v.edges (parent j),
      le_trans (key q c) (key q (parent j)) (key q (parent (parent j))),
    );
  }

  -- `up` leaves a heap of the same entries.
  pub up_fuel_restores :
      (f j : ℕ) (q : List ℕ)
      → j < f
      → UpInv q j
      → IsHeap (up_fuel price f j q) × Perm (up_fuel price f j q) q
  unfolding up_fuel less
  up_fuel_restores zero j q h v = absurd (omega arith)
  up_fuel_restores (suc f) j q h v =
      elim (Bool-cases ((parent j == j) || not (less price j (parent j) q))) [
        | inl stop ↦ rw (stop, up_fuel) (λ c p r. ground (arith, v.edges c), Perm.refl q)
        | inr go ↦
            let pos : 0 < j = ground arith in
            let above : less price j (parent j) q ≡ true = ground arith in
            let next = swap (parent j) j q in
            let r = up_fuel_restores f (parent j) next (omega arith) (swap-UpInv q j v pos above) in
            rw (go, up_fuel)
              (r.0, Perm.trans r.1 (swap-perm (parent j) j q (omega (arith, v.inside)) v.inside))
      ]

  -- `up` keeps the entries, whatever their order.
  pub up_fuel_perm : (f j : ℕ) (q : List ℕ) → j < length q → Perm (up_fuel price f j q) q
  unfolding up_fuel
  up_fuel_perm zero j q inside = Perm.refl q
  up_fuel_perm (suc f) j q inside =
      elim (Bool-cases ((parent j == j) || not (less price j (parent j) q))) [
        | inl stop ↦ rw (stop, up_fuel) (Perm.refl q)
        | inr go ↦
            let next = swap (parent j) j q in
            let above : parent j < length next = omega (arith, length-swap (parent j) j q) in
            rw (go, up_fuel)
              (Perm.trans (up_fuel_perm f (parent j) next above)
                (swap-perm (parent j) j q (omega arith) inside))
      ]

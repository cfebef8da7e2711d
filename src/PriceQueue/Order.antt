-- ===== src/PriceQueue/Order.antt =====
-- `heap.Push` and `heap.Pop` on one side of the book: its order, and which orders it holds.
use mathlib.Core.List.{Mem, not-mem-nil, eq-or-mem_of_mem-cons, Perm, perm_append_singleton}
use mathlib.Core.List.Perm
use mathlib.Core.Logic.Or
use exchange_server.Base.{
  ℕ, zero, suc, ◌-◌, ◌<◌, ◌≤◌, ◌≡◌, refl, subst, ap, ◌∙◌, sym, List, [], ◌∷◌, ◌++◌, length, take,
  get_or, arith, length-append,
}
use exchange_server.Decimal.{Decimals, Le}
use exchange_server.Decimal.Laws.{le_refl}
use exchange_server.PriceQueue.{swap, parent, down_fuel, push_last, pop_last, push, pop}
use exchange_server.PriceQueue.Swap.{length-swap, get_or-swap, swap-perm}
use exchange_server.PriceQueue.Up.{key, IsHeap, up_fuel_restores, up_fuel_perm}
use exchange_server.PriceQueue.Down.{down_fuel_restores, down_fuel-outside, length-down_fuel}

get_or-append : (q r : List ℕ) (k : ℕ) → k < length q → get_or (q ++ r) k ≡ get_or q k
get_or-append [] r k h = absurd (omega arith)
get_or-append (x ∷ q) r zero h = refl
get_or-append (x ∷ q) r (suc k) h = get_or-append q r k (omega arith)

get_or-take : (n : ℕ) (q : List ℕ) (k : ℕ) → k < n → get_or (take n q) k ≡ get_or q k
get_or-take zero q k h = absurd (omega arith)
get_or-take (suc n) [] k h = refl
get_or-take (suc n) (x ∷ q) zero h = refl
get_or-take (suc n) (x ∷ q) (suc k) h = get_or-take n q k (omega arith)

length-take_of : (n : ℕ) (q : List ℕ) → length q ≡ suc n → length (take n q) ≡ n
length-take_of zero q h = refl
length-take_of (suc n) [] h = absurd (omega arith)
length-take_of (suc n) (x ∷ q) h = ap suc (length-take_of n q (omega arith))

-- The last entry and the others are the slice.
take-perm : (n : ℕ) (q : List ℕ) → length q ≡ suc n → Perm (get_or q n ∷ take n q) q
take-perm n [] h = absurd (omega arith)
take-perm zero (x ∷ []) h = Perm.refl (x ∷ [])
take-perm zero (x ∷ y ∷ q) h = absurd (omega arith)
take-perm (suc n) (x ∷ q) h =
    Perm.trans (Perm.swap x (get_or q n) (take n q)) (Perm.cons x (take-perm n q (omega arith)))

module _ ⦃d : Decimals⦄ (price : ℕ → d.D) where
  open d use {D, le_trans}

  -- The root of a heap has the highest price.
  root_best_below :
      (f i : ℕ) (q : List ℕ)
      → i < f
      → IsHeap price q
      → i < length q
      → Le (key price q i) (key price q 0)
  root_best_below zero i q f h r = absurd (omega arith)
  root_best_below (suc f) zero q k h r = le_refl (key price q 0)
  root_best_below (suc f) (suc i) q k h r =
      le_trans (key price q (suc i)) (key price q (parent (suc i))) (key price q 0)
        (h (suc i) (omega arith) r)
        (root_best_below f (parent (suc i)) q (omega arith) h (omega arith))

  pub root_best :
      (i : ℕ) (q : List ℕ) → IsHeap price q → i < length q → Le (key price q i) (key price q 0)
  root_best i q h r = root_best_below (suc i) i q (omega arith) h r

  -- What holds at every index holds of every member.
  member_at :
      (limit : D) (q : List ℕ) (x : ℕ)
      → ((i : ℕ) → i < length q → Le (key price q i) limit)
      → Mem x q
      → Le (price x) limit
  member_at limit [] x h m = absurd (not-mem-nil m)
  member_at limit (y ∷ q) x h m =
      let either : IsProp (Le (price x) limit) = hlevel in
      Or.elim either (eq-or-mem_of_mem-cons m)
        (λ e. subst (λ z. Le (price z) limit) (sym e) (h zero (omega arith)))
        (λ m. member_at limit q x (λ i r. h (suc i) (omega (arith, r))) m)

  -- No order of a queue has a higher price than its first.
  pub first_best :
      (first : ℕ) (q : List ℕ)
      → IsHeap price (first ∷ q)
      → (x : ℕ) → Mem x (first ∷ q)
      → Le (price x) (price first)
  first_best first q h x m =
      member_at (price first) (first ∷ q) x (λ i r. root_best i (first ∷ q) h r) m

  -- A push on a queue in order leaves a queue in order, of the same orders and the new one.
  pub push_restores :
      (x : ℕ) (q : List ℕ)
      → IsHeap price q
      → IsHeap price (push price x q) × Perm (push price x q) (x ∷ q)
  unfolding push push_last
  push_restores x q h =
      let grown = q ++ x ∷ [] in
      let size = length-append q (x ∷ []) in
      let r =
        up_fuel_restores price (length grown) (length grown - 1) grown (omega (arith, size))
          (record {
            inside = omega (arith, size);
            edges = λ c p s ne.
                ground (
                  arith,
                  size,
                  h c,
                  get_or-append q (x ∷ []) c,
                  get_or-append q (x ∷ []) (parent c),
                );
            bridged = λ c p s e pp. absurd (omega (arith, size));
          }) in
      (r.0, Perm.trans r.1 (perm_append_singleton x q))

  -- A push keeps the orders of any queue.
  pub push-perm : (x : ℕ) (q : List ℕ) → Perm (push price x q) (x ∷ q)
  unfolding push push_last
  push-perm x q =
      let grown = q ++ x ∷ [] in
      Perm.trans
        (up_fuel_perm price (length grown) (length grown - 1) grown
          (omega (arith, length-append q (x ∷ []))))
        (perm_append_singleton x q)

  -- What `heap.Pop` returns and leaves of a slice of `n + 1` entries.
  pop_at :
      (n : ℕ) (q : List ℕ)
      → length q ≡ suc n
      → IsHeap price q
      → let sunk = down_fuel price n 0 n (swap 0 n q) in
        (get_or sunk n ≡ get_or q 0)
        × IsHeap price (take n sunk)
        × Perm (get_or sunk n ∷ take n sunk) q
  pop_at n q size h =
      let swapped = swap 0 n q in
      let sunk = down_fuel price n 0 n swapped in
      let kept = length-swap 0 n q in
      let long : n ≤ length swapped = omega (arith, kept) in
      let r = down_fuel_restores price n n 0 swapped (omega arith) (record {
        inside = long;
        edges = λ c p s ne. ground (arith, h c, get_or-swap 0 n q c, get_or-swap 0 n q (parent c));
        bridged = λ c p s e pp. absurd (omega arith);
      }) in
      let same : length sunk ≡ suc n = length-down_fuel price n n 0 swapped ∙ kept ∙ size in
      (
        down_fuel-outside price n n 0 n swapped long (omega arith)
            ∙ ground (arith, get_or-swap 0 n q n),
        λ c p s. ground (
          arith,
          r.0 c,
          length-take_of n sunk same,
          get_or-take n sunk c,
          get_or-take n sunk (parent c),
        ),
        Perm.trans (take-perm n sunk same)
            (Perm.trans r.1 (swap-perm 0 n q (omega arith) (omega arith))),
      )

  -- No order of a queue that is not empty has a higher price than its first.
  best_first :
      (q : List ℕ)
      → IsHeap price q
      → 0 < length q
      → (x : ℕ) → Mem x q
      → Le (price x) (price (get_or q 0))
  best_first [] h pos x m = absurd (omega arith)
  best_first (first ∷ q) h pos x m = first_best first q h x m

  pop_sorts :
      (q : List ℕ)
      → IsHeap price q
      → 0 < length q
      → ((pop price q).0 ≡ get_or q 0)
        × IsHeap price (pop price q).1
        × Perm ((pop price q).0 ∷ (pop price q).1) q
  unfolding pop pop_last
  pop_sorts q h pos =
      let n = length q - 1 in
      let size : length q ≡ suc n = omega arith in
      let last : length (down_fuel price n 0 n (swap 0 n q)) - 1 ≡ n =
        omega (arith, length-down_fuel price n n 0 (swap 0 n q), length-swap 0 n q) in
      rw last (pop_at n q size h)

  -- A pop of a queue in order that is not empty returns its first order, leaves a queue in order of
  -- the others, and no order of the queue has a higher price than the one it returns.
  pub pop_restores :
      (q : List ℕ)
      → IsHeap price q
      → 0 < length q
      → ((pop price q).0 ≡ get_or q 0)
        × IsHeap price (pop price q).1
        × Perm ((pop price q).0 ∷ (pop price q).1) q
        × ((x : ℕ) → Mem x q → Le (price x) (price (pop price q).0))
  pop_restores q h pos =
      let sorted = pop_sorts q h pos in
      (
        sorted.0,
        sorted.1,
        sorted.2,
        λ x m. subst (λ y. Le (price x) (price y)) (sym sorted.0) (best_first q h pos x m),
      )

  pub length-pop : (n : ℕ) (q : List ℕ) → length q ≡ suc n → length (pop price q).1 ≡ n
  unfolding pop pop_last
  length-pop n q size =
      let less_one : length q - 1 ≡ n = omega arith in
      let sunk = down_fuel price n 0 n (swap 0 n q) in
      let same : length sunk ≡ suc n =
        length-down_fuel price n n 0 (swap 0 n q) ∙ length-swap 0 n q ∙ size in
      let last : length sunk - 1 ≡ n = omega (arith, same) in
      rw (less_one, last) (length-take_of n sunk same)

-- ===== src/PriceQueue.antt =====
-- internal/matchengine/order/pricequeue.go: one side of an order book, a slice of pointers to
-- orders, under the functions of Go's container/heap. `price` reads the price behind a pointer.
-- An index that a call here uses lies in the slice; a read elsewhere would give the pointer 0.
pub mod Swap
pub mod Up
pub mod Down
pub mod Order
pub mod Tests
use exchange_server.Base.{
  ℕ, zero, suc, ◌+◌, ◌-◌, ◌*◌, ◌/◌, Bool, true, false, List, [], ◌∷◌, ◌++◌, ◌||◌, ◌&&◌, length, set,
  take, get_or, leb, ltb, ◌==◌, not, Option, none, some, if◌then◌else◌,
}
use exchange_server.Decimal.{Decimals, greater_than}

-- `Swap`
pub swap : ℕ → ℕ → List ℕ → List ℕ
swap i j q = set (set q i (get_or q j)) j (get_or q i)

-- `Push` and `Pop` of the slice itself: they work at its end.
pub push_last : ℕ → List ℕ → List ℕ
push_last x q = q ++ x ∷ []

pub pop_last : List ℕ → ℕ × List ℕ
pop_last q = let n = length q in (get_or q (n - 1), take (n - 1) q)

abbrev pub parent : ℕ → ℕ
parent j = (j - 1) / 2

module _ ⦃d : Decimals⦄ (price : ℕ → d.D) where
  -- `Less`: the higher price comes first.
  pub less : ℕ → ℕ → List ℕ → Bool
  less i j q = greater_than (price (get_or q i)) (price (get_or q j))

  -- `up` of container/heap; `j + 1` rounds are enough, since `j` falls with each.
  pub up_fuel : ℕ → ℕ → List ℕ → List ℕ
  unfolding less swap
  up_fuel zero j q = q
  up_fuel (suc f) j q = elim ((parent j == j) || not (less j (parent j) q)) [
    | true ↦ q
    | false ↦ up_fuel f (parent j) (swap (parent j) j q)
  ]

  -- The child that `down` compares with: the right one if it is there and comes first.
  pub first_child : ℕ → ℕ → List ℕ → ℕ
  unfolding less
  first_child i n q =
      if ltb (2 * i + 2) n && less (2 * i + 2) (2 * i + 1) q then 2 * i + 2 else 2 * i + 1

  -- `down` of container/heap on the first `n` entries; `n` rounds are enough, since `i` grows.
  pub down_fuel : ℕ → ℕ → ℕ → List ℕ → List ℕ
  unfolding less swap first_child
  down_fuel zero i n q = q
  down_fuel (suc f) i n q =
      let j = first_child i n q in
      elim (leb n (2 * i + 1) || not (less j i q)) [
        | true ↦ q
        | false ↦ down_fuel f j n (swap i j q)
      ]

  -- `heap.Push`
  unfoldable pub push : ℕ → List ℕ → List ℕ
  unfolding push_last up_fuel
  push x q = let grown = push_last x q in up_fuel (length grown) (length grown - 1) grown

  -- `heap.Pop`, of a slice that is not empty.
  unfoldable pub pop : List ℕ → ℕ × List ℕ
  unfolding pop_last down_fuel
  pop q = let n = length q - 1 in pop_last (down_fuel n 0 n (swap 0 n q))

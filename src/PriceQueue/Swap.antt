-- ===== src/PriceQueue/Swap.antt =====
-- What a swap does to the entries of a slice.
use mathlib.Core.List.{Perm}
use mathlib.Core.List.Perm
use exchange_server.Base.{
  ℕ, zero, suc, ◌<◌, ◌≡◌, refl, List, [], ◌∷◌, length, set, get_or, ◌==◌, if◌then◌else◌, arith, ap,
  ◌∙◌,
}
use exchange_server.PriceQueue.{swap}

pub length-set : (q : List ℕ) (i v : ℕ) → length (set q i v) ≡ length q
length-set [] i v = refl
length-set (x ∷ q) zero v = refl
length-set (x ∷ q) (suc i) v = ap suc (length-set q i v)

pub get_or-set :
    (q : List ℕ) (i v k : ℕ)
    → i < length q
    → get_or (set q i v) k ≡ (if k == i then v else get_or q k)
get_or-set [] i v k h = absurd (omega arith)
get_or-set (x ∷ q) zero v zero h = refl
get_or-set (x ∷ q) zero v (suc k) h = ground arith
get_or-set (x ∷ q) (suc i) v zero h = ground arith
get_or-set (x ∷ q) (suc i) v (suc k) h = ground (arith, get_or-set q i v k)

pub length-swap : (i j : ℕ) (q : List ℕ) → length (swap i j q) ≡ length q
unfolding swap
length-swap i j q = length-set (set q i (get_or q j)) j (get_or q i) ∙ length-set q i (get_or q j)

pub get_or-swap :
    (i j : ℕ) (q : List ℕ) (k : ℕ)
    → i < length q
    → j < length q
    → get_or (swap i j q) k
      ≡ (if k == i then get_or q j else if k == j then get_or q i else get_or q k)
unfolding swap
get_or-swap i j q k hi hj = ground (
  arith,
  get_or-set (set q i (get_or q j)) j (get_or q i) k,
  get_or-set q i (get_or q j) k,
  length-set q i (get_or q j),
)

set-perm : (q : List ℕ) (i v : ℕ) → i < length q → Perm (get_or q i ∷ set q i v) (v ∷ q)
set-perm [] i v h = absurd (omega arith)
set-perm (x ∷ q) zero v h = Perm.swap v x q
set-perm (x ∷ q) (suc i) v h =
    Perm.trans (Perm.swap x (get_or q i) (set q i v))
      (Perm.trans (Perm.cons x (set-perm q i v (omega arith))) (Perm.swap v x q))

-- A swap permutes the slice.
pub swap-perm : (i j : ℕ) (q : List ℕ) → i < length q → j < length q → Perm (swap i j q) q
unfolding swap
swap-perm i j q hi hj =
    let once = set q i (get_or q j) in
    let inside : j < length once = rw (length-set q i (get_or q j)) hj in
    let back : get_or once j ≡ get_or q j = ground (arith, get_or-set q i (get_or q j) j) in
    let first = rw back at (set-perm once j (get_or q i) inside) in
    Perm.cons_inv (Perm.trans first (set-perm q i (get_or q j) hi))

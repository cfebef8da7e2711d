-- ===== src/Balance/Key.antt =====
-- The key of a balance, `fmt.Sprintf("%d:%s", userID, asset)`.
use exchange_server.Base.{ℕ, ◌≡◌, arith}
use exchange_server.Text.{Text, colon, digits_end, print_nat-IsDigit, print_nat_injective}
use exchange_server.Balance.{key}

-- Two balances with one key have the same user and the same asset, whatever bytes the asset's
-- name holds: no two balances share an entry of the map.
pub key_injective : (u v : ℕ) (a b : Text) → key u a ≡ key v b → (u ≡ v) × (a ≡ b)
unfolding key
key_injective u v a b e =
    let r =
      digits_end colon _ _ a b (λ d. omega (arith, d)) (print_nat-IsDigit u) (print_nat-IsDigit v)
        e in
    (print_nat_injective u v r.0, r.1)

-- ===== src/Handler/Once.antt =====
-- How often a change of a balance is made.
use exchange_server.Base.{ℕ, ◌≡◌, ap, none, some, List, [], ◌∷◌, arith}
use exchange_server.Text.{Text}
use exchange_server.Decimal.{Decimals}
use exchange_server.Decimal.Rounding.{Rounding}
use exchange_server.Balance.{Book}
use exchange_server.BalanceUpdate.{Redis, update_key, update_balance}
use exchange_server.BalanceUpdate.Once.{
  IsHandled, update_balance_marks, update_balance_refuses, update_balance_keeps,
}
use exchange_server.Handler.Params.{failed}
use exchange_server.Handler.Changes.{BalanceChange}
use exchange_server.Handler.Accounts.{change_balance}

module _ ⦃d : Decimals⦄ ⦃r : Rounding d⦄ ⦃rd : Redis⦄ where
  open d use {D}
  open rd use {R}

  abbrev pub key_of : BalanceChange D → Text
  key_of c = update_key c.user c.asset c.business c.business_id

  -- Redis after one request, and after a list of requests, each with its time.
  abbrev pub after_change : ℕ → BalanceChange D → R × Book D → R × Book D
  after_change now c (s, bm) =
      let next = change_balance now c (some s) bm in (elim next.1 [ none ↦ s | some t ↦ t ], next.2)

  abbrev pub after_changes : List (ℕ × BalanceChange D) → R × Book D → R × Book D
  after_changes [] state = state
  after_changes ((now, c) ∷ requests) state = after_changes requests (after_change now c state)

  after_change_redis :
      (now : ℕ) (c : BalanceChange D) (s : R) (bm : Book D)
      → (after_change now c (s, bm)).0
        ≡ (update_balance now c.user c.asset c.business c.business_id s).0
  unfolding change_balance
  after_change_redis now c s bm = ground arith

  after_changes_keep :
      (k : Text) (requests : List (ℕ × BalanceChange D)) (s : R) (bm : Book D)
      → IsHandled k s
      → IsHandled k (after_changes requests (s, bm)).0
  after_changes_keep k [] s bm h = h
  after_changes_keep k ((now, c) ∷ requests) s bm h =
      after_changes_keep k requests (after_change now c (s, bm)).0 (after_change now c (s, bm)).1 (
        rw (after_change_redis now c s bm)
          (update_balance_keeps k now c.user c.asset c.business c.business_id s h))

  -- With an update manager, a change that passed its check is made at most once: after any further
  -- requests, as long as Redis keeps its key, the same request is refused as a duplicate, and
  -- neither the balances nor Redis change. This holds whether the first request was applied or
  -- was itself refused for want of funds.
  pub change_balance_once :
      (now later : ℕ) (c : BalanceChange D) (requests : List (ℕ × BalanceChange D)) (s : R)
      (bm : Book D)
      → (update_balance now c.user c.asset c.business c.business_id s).1 ≡ none
      → change_balance later c
          (some (after_changes requests (after_change now c (s, bm))).0)
          (after_changes requests (after_change now c (s, bm))).1
        ≡ (
          failed "duplicate update rejected",
          some (after_changes requests (after_change now c (s, bm))).0,
          (after_changes requests (after_change now c (s, bm))).1,
        )
  unfolding change_balance
  change_balance_once now later c requests s bm h =
      let first = after_change now c (s, bm) in
      let end = after_changes requests first in
      let marked : IsHandled (key_of c) first.0 =
        rw (after_change_redis now c s bm)
          (update_balance_marks now c.user c.asset c.business c.business_id s h) in
      let handled : IsHandled (key_of c) end.0 =
        after_changes_keep (key_of c) requests first.0 first.1 marked in
      let refused =
        update_balance_refuses later c.user c.asset c.business c.business_id end.0 handled in
      rw (refused, change_balance)
        (ap (λ u. (failed "duplicate update rejected", some u.0, end.1)) refused)

-- ===== src/BalanceUpdate.antt =====
-- internal/matchengine/balance/update.go: which updates of balances have been handled, kept in
-- Redis for a day.
pub mod Once
use exchange_server.Base.{
  ℕ, ◌*◌, ◌≡◌, ◌≢◌, Bool, true, false, Option, none, some, ◌∷◌, ◌++◌, if◌then◌else◌, ltb,
}
use exchange_server.Text.{Text, codes, colon, print_nat}

-- The client of Redis, on the server's state. `exists` counts the keys that are there, or fails;
-- `set_key` takes a key, a value and a time to live, and tells whether it went well. A key that was
-- set is there until its time is over, which the states here are taken not to reach, and a write
-- to it leaves the other keys alone.
pub record Redis : Type 1 where
  pub R : Type 0
  pub exists : Text → R → Option ℕ
  pub set_key : Text → ℕ → ℕ → R → R × Bool
  pub exists-set_key :
      (k : Text) (v ttl : ℕ) (s : R)
      → (set_key k v ttl s).1 ≡ true
      → exists k (set_key k v ttl s).0 ≡ some 1
  pub exists-set_key_other :
      (k j : Text) (v ttl : ℕ) (s : R) → k ≢ j → exists j (set_key k v ttl s).0 ≡ exists j s

pub data UpdateError : Type 0 where
  duplicate_update redis_error : UpdateError

-- 24 hours, in seconds
abbrev pub update_ttl : ℕ
update_ttl = 24 * 3600

-- `fmt.Sprintf("update:%d:%s:%s:%s", …)`
unfoldable pub update_key : ℕ → Text → Text → Text → Text
update_key user asset business id =
    codes "update:" ++ print_nat user ++ colon ∷ asset ++ colon ∷ business ++ colon ∷ id

module _ ⦃rd : Redis⦄ (now : ℕ) where
  open rd use {R}

  -- `Set`, once `Exists` has given its count or its error.
  unfoldable pub mark_handled : Text → R → Option ℕ → R × Option UpdateError
  mark_handled k s none = (s, some redis_error)
  mark_handled k s (some count) =
      let (t, done) = rd.set_key k now update_ttl s in
      if ltb 0 count
      then (s, some duplicate_update)
      else if done
      then (t, none)
      else (t, some redis_error)

  -- `UpdateBalance`; the change is not looked at.
  unfoldable pub update_balance : ℕ → Text → Text → Text → R → R × Option UpdateError
  unfolding mark_handled update_key
  update_balance user asset business id s =
      let k = update_key user asset business id in mark_handled k s (rd.exists k s)

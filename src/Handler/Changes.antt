-- ===== src/Handler/Changes.antt =====
-- internal/matchengine/server/handler/balance.go: the checks of the handlers that query and change
-- balances.
use exchange_server.Base.{ℕ, List, drop, not, length, ◌==◌}
use exchange_server.Text.{Text}
use exchange_server.Decimal.{Decimals}
use exchange_server.Handler.Params.{
  Floats, Body, Value, Checked, ok, ◌>>=◌, ◌>>◌, check, or_fail, params_of, number_at, text_at,
  object_at, decimal_at,
}

pub record BalanceQuery (F : Type 0) : Type 0 where
  pub user : ℕ
  pub assets : List (Value F)

pub record BalanceChange (D : Type 0) : Type 0 where
  pub user : ℕ
  pub asset : Text
  pub business : Text
  pub business_id : Text
  pub change : D

module _ ⦃fl : Floats⦄ where
  open fl use {F}

  unfoldable pub read_balance_query : Body → Checked (BalanceQuery F)
  read_balance_query body = do
    params ← or_fail body "invalid params"
    check (not (length params == 0)) "invalid arguments"
    user ← number_at 0 params "invalid user_id"
    check (not (fl.is_zero user)) "invalid user_id"
    ok (record { user = fl.to_uint32 user; assets = drop 1 params })

  unfoldable pub read_change : ⦃d : Decimals⦄ → Body → Checked (BalanceChange d.D)
  read_change body = do
    params ← params_of 6 body "invalid arguments: expected 6 params"
    user ← number_at 0 params "invalid user_id"
    asset ← text_at 1 params "invalid asset"
    business ← text_at 2 params "invalid business"
    business_id ← number_at 3 params "invalid business_id"
    change ← decimal_at 4 params "invalid change" "invalid change amount"
    object_at 5 params "invalid detail"
    ok (record {
      user = fl.to_uint32 user;
      asset = asset;
      business = business;
      business_id = fl.format business_id;
      change = change;
    })

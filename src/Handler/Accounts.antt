-- ===== src/Handler/Accounts.antt =====
-- internal/matchengine/server/handler/balance.go: the handlers of balances and assets.
use Prim.Native.String.{String}
use exchange_server.Base.{
  ℕ, zero, suc, Option, none, some, List, [], ◌∷◌, if◌then◌else◌, map, ◌==◌, nat_eq,
}
use exchange_server.Text.{Text, codes, text_eq}
use exchange_server.Dict.{Dict, lookup, insert}
use exchange_server.Decimal.{Decimals, is_positive, is_negative, abs}
use exchange_server.Decimal.Rounding.{Rounding}
use exchange_server.Balance.{Balance, Book, get_balance, add, sub, get_all_balances_for_user}
use exchange_server.BalanceUpdate.{
  Redis, UpdateError, duplicate_update, redis_error, update_balance,
}
use exchange_server.Engine.State.{AssetConfig, M, pure, gets, ◌>>=◌}
use exchange_server.Engine.Queries.{get_all_assets}
use exchange_server.Handler.Params.{Floats, Body, Value, Checked, ok, failed, as_text}
use exchange_server.Handler.Changes.{BalanceQuery, BalanceChange, read_balance_query, read_change}
use exchange_server.Handler.Orders.{with_args}

pub record BalanceInfo : Type 0 where
  pub available : Text
  pub freeze : Text

pub record AssetInfo : Type 0 where
  pub name : Text
  pub prec : ℕ

abbrev pub known_assets : List Text
known_assets = codes "BTC" ∷ codes "ETH" ∷ codes "USDT" ∷ []

-- `AssetPrec`: every branch gives 8.
unfoldable pub asset_prec : Text → ℕ
asset_prec asset =
    if text_eq.beq asset (codes "BTC")
    then 8
    else if text_eq.beq asset (codes "ETH")
    then 8
    else if text_eq.beq asset (codes "USDT")
    then 8
    else 8

module _ ⦃d : Decimals⦄ ⦃r : Rounding d⦄ where
  open d use {D, zero as nothing, mul, div}

  -- The loop of `adjustPrecision`, from a multiplier of ten.
  unfoldable pub multiplied : ℕ → D → D
  multiplied zero m = m
  multiplied (suc n) m = multiplied n (mul m (r.of_nat 10))

  unfoldable pub adjust_precision : D → ℕ → D
  unfolding multiplied
  adjust_precision v prec =
      let m = multiplied prec (r.of_nat 10) in if prec == 0 then v else div (r.floor (mul v m)) m

  -- `HandleBalanceQuery`, all assets of the user: first what the user has, then the known ones.
  unfoldable pub shown_balances :
      Dict Text (Balance D) → Dict Text BalanceInfo → Dict Text BalanceInfo
  shown_balances [] shown = shown
  shown_balances ((asset, b) ∷ balances) shown = shown_balances balances (
      insert asset (record { available = d.to_text b.available; freeze = d.to_text b.frozen })
        shown)

  unfoldable pub known_balances :
      Dict Text (Balance D) → List Text → Dict Text BalanceInfo → Dict Text BalanceInfo
  known_balances balances [] shown = shown
  known_balances balances (asset ∷ assets) shown =
      known_balances balances assets (elim (lookup asset balances) [
        | none ↦ insert asset (record { available = codes "0"; freeze = codes "0" }) shown
        | some b ↦ shown
      ])

  -- The assets that the request names, up to the first that is no text.
  unfoldable pub named_balances :
      ⦃fl : Floats⦄
      → ℕ
      → List (Value fl.F)
      → Book D
      → Dict Text BalanceInfo
      → Checked (Dict Text BalanceInfo)
  unfolding get_balance adjust_precision asset_prec
  named_balances user [] bm shown = ok shown
  named_balances user (v ∷ params) bm shown = elim (as_text v) [
    | none ↦ failed "invalid asset name"
    | some asset ↦
        let (available, frozen) = get_balance user asset bm in
        named_balances user params bm (
          insert asset
            (record {
              available = d.to_text (adjust_precision (d.sub available frozen) (asset_prec asset));
              freeze = d.to_text (adjust_precision frozen (asset_prec asset));
            })
            shown)
  ]

  unfoldable pub query_balances :
      ⦃fl : Floats⦄ → BalanceQuery fl.F → Book D → Checked (Dict Text BalanceInfo)
  unfolding shown_balances known_balances named_balances get_all_balances_for_user
  query_balances q bm = elim q.assets [
    | [] ↦
        let balances = get_all_balances_for_user q.user bm in
        ok (known_balances balances known_assets (shown_balances balances []))
    | v ∷ assets ↦ named_balances q.user (v ∷ assets) bm []
  ]

  unfoldable pub handle_balance_query :
      ⦃fl : Floats⦄ → ℕ → Body → M (Checked (Dict Text BalanceInfo))
  unfolding read_balance_query query_balances
  handle_balance_query now body =
      with_args (read_balance_query body) λ q. gets (λ e. query_balances q e.balances)

  -- `HandleBalanceUpdate` once the update manager, if there is one, has let it pass.
  unfoldable pub apply_change : BalanceChange D → Book D → Checked (Unit {0}) × Book D
  unfolding add sub adjust_precision asset_prec
  apply_change c bm =
      let amount = adjust_precision c.change (asset_prec c.asset) in
      let (added, failure) = add c.user c.asset amount bm in
      let (left, refused) =
        sub c.user c.asset (adjust_precision (abs c.change) (asset_prec c.asset)) bm in
      if is_positive c.change
      then (ok tt, added)
      else if is_negative c.change
      then (elim refused [ none ↦ (ok tt, left) | some e ↦ (failed "balance not enough", left) ])
      else (ok tt, bm)

  -- An error of the client is passed on; its own text is left out.
  abbrev pub update_message : UpdateError → String
  update_message duplicate_update = "duplicate update rejected"
  update_message redis_error = "redis"

  unfoldable pub change_balance :
      ⦃rd : Redis⦄
      → ℕ
      → BalanceChange D
      → Option rd.R
      → Book D
      → Checked (Unit {0}) × Option rd.R × Book D
  unfolding apply_change update_balance
  change_balance now c none bm = let (answer, after) = apply_change c bm in (answer, none, after)
  change_balance now c (some s) bm =
      let (t, refused) = update_balance now c.user c.asset c.business c.business_id s in
      let (answer, after) = apply_change c bm in
      elim refused [
        | none ↦ (answer, some t, after)
        | some e ↦ (failed (update_message e), some t, bm)
      ]

  unfoldable pub handle_balance_update :
      ⦃fl : Floats⦄ ⦃rd : Redis⦄
      → ℕ
      → Body
      → Option rd.R
      → Book D
      → Checked (Unit {0}) × Option rd.R × Book D
  unfolding read_change change_balance
  handle_balance_update now body redis bm = elim (read_change body) [
    | failed message ↦ (failed message, redis, bm)
    | ok c ↦ change_balance now c redis bm
  ]

  unfoldable pub asset_info : AssetConfig → AssetInfo
  asset_info asset = record { name = asset.name; prec = asset.prec }

  unfoldable pub handle_asset_list : M (Checked (List AssetInfo))
  unfolding get_all_assets asset_info
  handle_asset_list = do assets ← get_all_assets; pure (ok (map asset_info assets))

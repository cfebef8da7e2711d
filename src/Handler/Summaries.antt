-- ===== src/Handler/Summaries.antt =====
-- internal/matchengine/server/handler/balance.go: the totals of each asset over all users.
use exchange_server.Base.{ℕ, ◌+◌, Option, none, some, List, [], ◌∷◌, if◌then◌else◌, map}
use exchange_server.Text.{Text}
use exchange_server.Decimal.{Decimals, is_zero}
use exchange_server.Decimal.Rounding.{Rounding}
use exchange_server.Balance.{Balance, Book, get_all_balances_for_asset}
use exchange_server.Engine.State.{AssetConfig, M, pure, gets, ◌>>=◌, get_asset}
use exchange_server.Engine.Queries.{get_all_assets}
use exchange_server.Handler.Params.{Checked, ok, failed}
use exchange_server.Handler.Accounts.{adjust_precision}

pub record AssetSummary : Type 0 where
  pub name : Text
  pub total_balance : Text
  pub available_count : ℕ
  pub available_balance : Text
  pub freeze_count : ℕ
  pub freeze_balance : Text

-- The variables of the inner loop of `HandleAssetSummary`.
pub record Totals (D : Type 0) : Type 0 where
  pub total : D
  pub available : D
  pub freeze : D
  pub available_count : ℕ
  pub freeze_count : ℕ

module _ ⦃d : Decimals⦄ where
  open d use {D, zero as nothing}

  abbrev pub no_totals : Totals D
  no_totals = record {
    total = nothing;
    available = nothing;
    freeze = nothing;
    available_count = 0;
    freeze_count = 0;
  }

  -- One round of it: a balance counts as available or as frozen, never as both.
  unfoldable pub add_to_totals : Balance D → Totals D → Totals D
  add_to_totals b t =
      let total = d.add (d.add t.total b.available) b.frozen in
      if is_zero b.frozen
      then record t {
        total = total;
        available_count = t.available_count + 1;
        available = d.add t.available b.available;
      }
      else record t {
        total = total;
        freeze_count = t.freeze_count + 1;
        freeze = d.add t.freeze b.frozen;
      }

  unfoldable pub sum_balances : List (Balance D) → Totals D → Totals D
  unfolding add_to_totals
  sum_balances [] t = t
  sum_balances (b ∷ balances) t = sum_balances balances (add_to_totals b t)

  unfoldable pub asset_totals : Text → Book D → Totals D
  unfolding sum_balances get_all_balances_for_asset
  asset_totals asset bm = sum_balances (get_all_balances_for_asset asset bm) no_totals

  unfoldable pub asset_summary : ⦃r : Rounding d⦄ → Book D → AssetConfig → AssetSummary
  unfolding asset_totals adjust_precision
  asset_summary bm asset =
      let t = asset_totals asset.name bm in
      record {
        name = asset.name;
        total_balance = d.to_text (adjust_precision t.total asset.prec);
        available_count = t.available_count;
        available_balance = d.to_text (adjust_precision t.available asset.prec);
        freeze_count = t.freeze_count;
        freeze_balance = d.to_text (adjust_precision t.freeze asset.prec);
      }

  -- The assets of the names that are configured.
  unfoldable pub find_assets : List Text → M (List AssetConfig)
  unfolding get_asset
  find_assets [] = pure []
  find_assets (name ∷ names) = get_asset name >>= λ found.
      find_assets names >>= λ more. pure (elim found [ none ↦ more | some asset ↦ asset ∷ more ])

  unfoldable pub chosen_assets : List Text → M (List AssetConfig)
  unfolding find_assets get_all_assets
  chosen_assets [] = get_all_assets
  chosen_assets (name ∷ names) = find_assets (name ∷ names)

  -- The names that the body lists: none if it is empty, `none` if it does not parse.
  unfoldable pub handle_asset_summary :
      ⦃r : Rounding d⦄ → Option (List Text) → M (Checked (List AssetSummary))
  unfolding chosen_assets asset_summary
  handle_asset_summary none = pure (failed "invalid params")
  handle_asset_summary (some names) = do
    assets ← chosen_assets names
    summaries ← gets (λ e. map (asset_summary e.balances) assets)
    pure (ok summaries)

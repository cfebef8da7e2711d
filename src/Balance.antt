-- ===== src/Balance.antt =====
-- internal/matchengine/balance/balance.go: the balances of all users. A lock is held for the whole
-- of each method, so a method is one step; a balance behind a pointer is changed in its map.
pub mod Key
pub mod Keyed
pub mod Solvency
pub mod Holdings
pub mod Views
pub mod Accounts
mod Tests
use exchange_server.Base.{
  ℕ, ◌≡◌, Bool, true, Option, none, some, List, [], ◌∷◌, ◌++◌, if◌then◌else◌, filter, map,
}
use exchange_server.Text.{Text, colon, print_nat, extends, text_eq}
use exchange_server.Dict.{Dict, lookup, insert}
use exchange_server.Decimal.{Decimals, is_negative, abs}

pub record Balance (D : Type 0) : Type 0 where
  pub user_id : ℕ
  pub asset : Text
  pub available : D
  pub frozen : D

-- `BalanceManager.balances`
abbrev pub Book : Type 0 → Type 0
Book D = Dict Text (Balance D)

pub data BalanceError : Type 0 where
  insufficient_balance balance_not_found invalid_amount : BalanceError

-- A method that returns an error: the book afterwards, and `none` for a nil error.
abbrev pub Outcome : Type 0 → Type 0
Outcome D = Book D × Option BalanceError

-- `fmt.Sprintf("%d:%s", userID, asset)`
unfoldable pub key : ℕ → Text → Text
key user asset = print_nat user ++ colon ∷ asset

module _ ⦃d : Decimals⦄ where
  open d use {D, zero, less_than}

  unfoldable pub get_balance : ℕ → Text → Book D → D × D
  get_balance user asset bm = elim (lookup (key user asset) bm) [
    | none ↦ (zero, zero)
    | some b ↦ (b.available, b.frozen)
  ]

  unfoldable pub freeze : ℕ → Text → D → Book D → Outcome D
  freeze user asset amount bm = elim (lookup (key user asset) bm) [
    | none ↦ (bm, some insufficient_balance)
    | some b ↦ if less_than b.available amount then (bm, some insufficient_balance) else (
      insert (key user asset)
          (record b { available = d.sub b.available amount; frozen = d.add b.frozen amount }) bm,
      none,
    )
  ]

  unfoldable pub unfreeze : ℕ → Text → D → Book D → Outcome D
  unfreeze user asset amount bm = elim (lookup (key user asset) bm) [
    | none ↦ (bm, some balance_not_found)
    | some b ↦ if less_than b.frozen amount then (bm, some invalid_amount) else (
      insert (key user asset)
          (record b { frozen = d.sub b.frozen amount; available = d.add b.available amount }) bm,
      none,
    )
  ]

  unfoldable pub lock_balance : ℕ → Text → D → Book D → Outcome D
  unfolding freeze
  lock_balance user asset amount bm = freeze user asset amount bm

  unfoldable pub unlock_balance : ℕ → Text → D → Book D → Outcome D
  unfolding unfreeze
  unlock_balance user asset amount bm = unfreeze user asset amount bm

  unfoldable pub sub : ℕ → Text → D → Book D → Outcome D
  sub user asset amount bm = elim (lookup (key user asset) bm) [
    | none ↦ (bm, some balance_not_found)
    | some b ↦
        if less_than b.available amount
        then (bm, some insufficient_balance)
        else (insert (key user asset) (record b { available = d.sub b.available amount }) bm, none)
  ]

  -- A balance that is written for the first time.
  abbrev opened : ℕ → Text → D → Balance D
  opened user asset amount = record {
    user_id = user;
    asset = asset;
    available = amount;
    frozen = zero;
  }

  unfoldable pub add : ℕ → Text → D → Book D → Outcome D
  add user asset amount bm = elim (lookup (key user asset) bm) [
    | none ↦ (insert (key user asset) (opened user asset amount) bm, none)
    | some b ↦
        (insert (key user asset) (record b { available = d.add b.available amount }) bm, none)
  ]

  unfoldable pub change : ℕ → Text → D → Book D → Outcome D
  change user asset delta bm = elim (lookup (key user asset) bm) [
    | none ↦
        if is_negative delta
        then (bm, some balance_not_found)
        else (insert (key user asset) (opened user asset delta) bm, none)
    | some b ↦
        let changed =
          insert (key user asset) (record b { available = d.add b.available delta }) bm in
        if is_negative delta
        then (if less_than b.available (abs delta)
            then (bm, some insufficient_balance)
            else (changed, none))
        else (changed, none)
  ]

  unfoldable pub deduct_balance : ℕ → Text → D → Book D → Outcome D
  unfolding sub
  deduct_balance user asset amount bm = sub user asset amount bm

  -- The error of `Add` is dropped.
  unfoldable pub add_balance : ℕ → Text → D → Book D → Book D
  unfolding add
  add_balance user asset amount bm = (add user asset amount bm).0

  unfoldable pub set_balance : ℕ → Text → D → D → Book D → Book D
  set_balance user asset available frozen bm =
      insert (key user asset)
        (record { user_id = user; asset = asset; available = available; frozen = frozen }) bm

  -- The loop of `GetAllBalancesForUser` over the map's pairs.
  pub collect_user : Text → Book D → Dict Text (Balance D) → Dict Text (Balance D)
  collect_user prefix [] result = result
  collect_user prefix ((k, b) ∷ bm) result =
      collect_user prefix bm (if extends k prefix then insert b.asset b result else result)

  unfoldable pub get_all_balances_for_user : ℕ → Book D → Dict Text (Balance D)
  unfolding collect_user
  get_all_balances_for_user user bm = collect_user (print_nat user ++ colon ∷ []) bm []

  unfoldable pub get_all_balances_for_asset : Text → Book D → List (Balance D)
  get_all_balances_for_asset asset bm =
      filter (λ b. text_eq.beq b.asset asset) (map (λ (k, b). b) bm)

  -- `ListAssets`: the keys of the set that the loop fills.
  pub collect_assets : Book D → Dict Text (Unit {0}) → Dict Text (Unit {0})
  collect_assets [] assets = assets
  collect_assets ((k, b) ∷ bm) assets = collect_assets bm (insert b.asset tt assets)

  unfoldable pub list_assets : Book D → List Text
  unfolding collect_assets
  list_assets bm = map (λ (asset, u). asset) (collect_assets bm [])

-- One call of a method that writes.
pub data Op (D : Type 0) : Type 0 where
  freezes unfreezes subtracts adds changes : ℕ → Text → D → Op D
  sets : ℕ → Text → D → D → Op D

-- The user and the asset that a call is about.
abbrev pub user_of : {D : Type 0} → Op D → ℕ
user_of (freezes u a x) = u
user_of (unfreezes u a x) = u
user_of (subtracts u a x) = u
user_of (adds u a x) = u
user_of (changes u a x) = u
user_of (sets u a x y) = u

abbrev pub asset_of : {D : Type 0} → Op D → Text
asset_of (freezes u a x) = a
asset_of (unfreezes u a x) = a
asset_of (subtracts u a x) = a
asset_of (adds u a x) = a
asset_of (changes u a x) = a
asset_of (sets u a x y) = a

module _ ⦃d : Decimals⦄ where
  open d use {D}

  unfoldable pub apply : Op D → Book D → Outcome D
  apply (freezes u a x) bm = freeze u a x bm
  apply (unfreezes u a x) bm = unfreeze u a x bm
  apply (subtracts u a x) bm = sub u a x bm
  apply (adds u a x) bm = add u a x bm
  apply (changes u a x) bm = change u a x bm
  apply (sets u a x y) bm = (set_balance u a x y bm, none)

  unfoldable pub run : List (Op D) → Book D → Book D
  run [] bm = bm
  run (op ∷ ops) bm = run ops (apply op bm).0

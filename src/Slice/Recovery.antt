-- ===== src/Slice/Recovery.antt =====
-- internal/matchengine/persist/slice.go and persister.go: the making of a slice, and what the start
-- of the matching engine loads. What the database answers is a parameter.
pub mod Unread
use Prim.Native.String.{String}
use exchange_server.Base.{
  ℕ, Bool, true, false, Option, none, some, List, [], ◌∷◌, ◌++◌, if◌then◌else◌, not,
}
use exchange_server.Int.{ℤ, pos}
use exchange_server.Text.{Text, codes, text_eq, text_beq}
use exchange_server.Decimal.Integer.{print_ℤ}
use exchange_server.Dict.{Dict, lookup, insert}
use exchange_server.Decimal.{Decimals}
use exchange_server.Order.{Order, unix}
use exchange_server.Balance.{Balance, Book, key}
use exchange_server.HistoryReader.{Fetched, rows, db_error}
use exchange_server.Slice.{Json, deserialize_balance, from_unix}
use exchange_server.Slice.Files.{dump_orders_to_file, dump_balances_to_file, load_orders_from_file}

-- `filepath.Join` of a directory that is clean already, or empty, and a name.
abbrev pub join : Text → Text → Text
join [] name = name
join (c ∷ dir) name = c ∷ dir ++ b'/' ∷ name

-- A row of `slice_history`.
pub record SliceRow : Type 0 where
  pub timestamp : ℕ
  pub path : Text
  pub end_oper_id : ℤ

pub record Disk (Bytes : Type 0) : Type 0 where
  pub files : Dict Text (List Bytes)
  pub history : List SliceRow

-- Whether each call of the file system and of the database succeeds.
pub record Allows : Type 0 where
  pub directory : Bool
  pub orders : Bool
  pub balances : Bool
  pub insertion : Bool

-- The answers of the database to a load: the latest slice with its time, the name of the latest
-- table of balances, its rows, and the last log of a slice, 0 if that query fails.
pub record Answers : Type 0 where
  pub latest : Fetched (Option (ℤ × ℤ))
  pub balance_table : Fetched Text
  pub old_balances : Text → Fetched (List (ℕ × Text × Text))
  pub last_log : ℤ → ℤ

pub record LoadedSlice (D : Type 0) : Type 0 where
  pub slice_id : ℤ
  pub timestamp : ℕ
  pub orders : Dict Text (List (Order D))
  pub balances : Book D
  pub last_oper_log_id : ℤ

pub data Recovered (D : Type 0) : Type 0 where
  no_slice panics : Recovered D
  not_loaded : String → Text → Recovered D
  loaded : LoadedSlice D → Recovered D

-- `fmt.Sprintf("slice_%d", timestamp.Unix())`
abbrev pub slice_path : Text → ℕ → Text
slice_path dir now = join dir (codes "slice_" ++ print_ℤ (unix now))

module _ ⦃d : Decimals⦄ ⦃j : Json⦄ where
  open d use {D}
  open j use {Bytes}

  unfoldable pub make_slice :
      Allows
      → Text
      → ℕ
      → Dict Text (List (Order D))
      → Book D
      → ℤ
      → Disk Bytes
      → Disk Bytes × Option String
  unfolding dump_orders_to_file dump_balances_to_file insert
  make_slice allows dir now orders balances last_log disk =
      let path = slice_path dir now in
      let with_orders = record disk {
        files = insert (join path (codes "orders")) (dump_orders_to_file orders) disk.files;
      } in
      let with_balances = record with_orders {
        files =
            insert (join path (codes "balances")) (dump_balances_to_file balances)
              with_orders.files;
      } in
      let row : SliceRow = record { timestamp = now; path = path; end_oper_id = last_log } in
      if not allows.directory
      then (disk, some "failed to create slice directory")
      else if not allows.orders
      then (disk, some "failed to dump orders")
      else if not allows.balances
      then (with_orders, some "failed to dump balances")
      else if not allows.insertion
      then (with_balances, some "failed to record slice")
      else (record with_balances { history = disk.history ++ row ∷ [] }, none)

  -- One row of `loadBalancesFromOldTable`. A balance that does not parse is nil, and the write to
  -- its fields panics: `none`.
  unfoldable pub load_old_balance : ℕ × Text × Text → Book D → Option (Book D)
  unfolding deserialize_balance
  load_old_balance (user, asset, text) result =
      let written = codes "{\"available\":\"" ++ text ++ codes "\",\"frozen\":\"0\"}" in
      elim (deserialize_balance (j.raw written)) [
        | none ↦ none
        | some b ↦
            some (insert (key user asset) (record b { user_id = user; asset = asset }) result)
      ]

  unfoldable pub load_balances_from_old_table : List (ℕ × Text × Text) → Book D → Option (Book D)
  unfolding load_old_balance
  load_balances_from_old_table [] result = some result
  load_balances_from_old_table (row ∷ more) result = elim (load_old_balance row result) [
    | none ↦ none
    | some grown ↦ load_balances_from_old_table more grown
  ]

  -- `LoadBalances`: without a table there are no balances.
  abbrev pub load_saved_balances : Answers → Fetched (Option (Book D))
  load_saved_balances answers = elim answers.balance_table [
    | db_error message ↦ rows (some [])
    | rows table ↦ if text_beq table [] then rows (some []) else elim (answers.old_balances table) [
      | db_error message ↦ db_error message
      | rows found ↦ rows (load_balances_from_old_table found [])
    ]
  ]

  -- `LoadFromSlice`, from the file of the orders that it opens.
  unfoldable pub load_slice : Answers → Option (List Bytes) → Recovered D
  unfolding load_orders_from_file load_balances_from_old_table
  load_slice answers file = elim answers.latest [
    | db_error message ↦ not_loaded "failed to find latest slice" message
    | rows none ↦ no_slice
    | rows (some (id, time)) ↦
        let orders = load_orders_from_file file in
        elim (load_saved_balances answers) [
          | db_error message ↦ not_loaded "failed to load balances" message
          | rows none ↦ panics
          | rows (some balances) ↦ loaded (record {
            slice_id = id;
            timestamp = from_unix time;
            orders = orders;
            balances = balances;
            last_oper_log_id = answers.last_log id;
          })
        ]
  ]

  -- The query of the latest slice has an empty text in the place of its path.
  unfoldable pub load_from_slice : Answers → Disk Bytes → Recovered D
  unfolding load_slice lookup
  load_from_slice answers disk = load_slice answers (lookup (join [] (codes "orders")) disk.files)

-- ===== src/Slice/Files.antt =====
-- internal/matchengine/persist/slice.go: the two files of a slice, one JSON record to a line. A
-- file is the list of its lines.
use exchange_server.Base.{ℕ, Option, none, some, List, [], ◌∷◌, ◌++◌, map, if◌then◌else◌, ◌==◌, ltb}
use exchange_server.Text.{Text, text_eq}
use exchange_server.Dict.{Dict, lookup, insert}
use exchange_server.Decimal.{Decimals}
use exchange_server.Order.{Order}
use exchange_server.Balance.{Book}
use exchange_server.Slice.{
  Json, serialize_order, deserialize_order, serialize_balance, deserialize_balance,
}

-- `bufio.MaxScanTokenSize`: a scanner gives up at a line that does not fit with its end.
abbrev pub max_scan_token_size : ℕ
max_scan_token_size = 65536

-- `result[market]`, a nil slice where there is none.
abbrev pub listed : {A : Type 0} → Text → Dict Text (List A) → List A
listed market m = elim (lookup market m) [ none ↦ [] | some l ↦ l ]

module _ ⦃d : Decimals⦄ ⦃j : Json⦄ where
  open d use {D}
  open j use {Bytes}

  -- The lines that `for scanner.Scan()` sees.
  unfoldable pub scanned : List Bytes → List Bytes
  scanned [] = []
  scanned (line ∷ lines) =
      let rest = scanned lines in if ltb (j.size line) max_scan_token_size then line ∷ rest else []

  abbrev pub line_of_order : Text → Order D → Bytes
  line_of_order market o = j.write_order_line market (serialize_order o)

  unfoldable pub dump_orders_to_file : Dict Text (List (Order D)) → List Bytes
  unfolding serialize_order
  dump_orders_to_file [] = []
  dump_orders_to_file ((market, orders) ∷ rest) =
      map (line_of_order market) orders ++ dump_orders_to_file rest

  unfoldable pub dump_balances_to_file : Book D → List Bytes
  unfolding serialize_balance
  dump_balances_to_file [] = []
  dump_balances_to_file ((key, b) ∷ rest) =
      j.write_balance_line key (serialize_balance b) ∷ dump_balances_to_file rest

  -- One round of the loop of `LoadOrdersFromFile`.
  unfoldable pub load_order_line : Bytes → Dict Text (List (Order D)) → Dict Text (List (Order D))
  unfolding deserialize_order
  load_order_line line result = if j.size line == 0 then result else elim (j.read_order_line line) [
    | none ↦ result
    | some (market, bytes) ↦ elim (deserialize_order bytes) [
      | none ↦ result
      | some o ↦ insert market (listed market result ++ o ∷ []) result
    ]
  ]

  unfoldable pub load_order_lines :
      List Bytes → Dict Text (List (Order D)) → Dict Text (List (Order D))
  unfolding load_order_line
  load_order_lines [] result = result
  load_order_lines (line ∷ lines) result = load_order_lines lines (load_order_line line result)

  -- `none` is a file that does not open.
  unfoldable pub load_orders_from_file : Option (List Bytes) → Dict Text (List (Order D))
  unfolding scanned load_order_lines
  load_orders_from_file none = []
  load_orders_from_file (some lines) = load_order_lines (scanned lines) []

  unfoldable pub load_balance_line : Bytes → Book D → Book D
  unfolding deserialize_balance
  load_balance_line line result =
      if j.size line == 0 then result else elim (j.read_balance_line line) [
        | none ↦ result
        | some (key, bytes) ↦ elim (deserialize_balance bytes) [
          | none ↦ result
          | some b ↦ insert key b result
        ]
      ]

  unfoldable pub load_balance_lines : List Bytes → Book D → Book D
  unfolding load_balance_line
  load_balance_lines [] result = result
  load_balance_lines (line ∷ lines) result =
      load_balance_lines lines (load_balance_line line result)

  unfoldable pub load_balances_from_file : Option (List Bytes) → Book D
  unfolding scanned load_balance_lines
  load_balances_from_file none = []
  load_balances_from_file (some lines) = load_balance_lines (scanned lines) []

-- ===== src/Slice/Orders.antt =====
-- What the orders file of a slice gives back.
use mathlib.Core.List.{append-nil, append_assoc}
use exchange_server.Base.{
  ℕ, ◌<◌, ◌/◌, ◌*◌, ◌≡◌, ◌≢◌, refl, sym, ap, subst, ◌∙◌, Option, none, some, List, [], ◌∷◌, ◌++◌,
  map, All, arith, ltb, ◌==◌, Bool-cases, inl, inr, true, false,
}
use exchange_server.Text.{Text, text_eq, text_beq, text_beq_iff}
use exchange_server.Dict.{Dict, lookup, insert, lookup-insert, IsMap}
use exchange_server.Decimal.{Decimals, number-to_text}
use exchange_server.Order.{Order, unix, second, seconds_to_1970}
use exchange_server.Slice.{
  Json, saved_order, order_of, serialize_order, deserialize_order, from_unix,
}
use exchange_server.Slice.Files.{
  max_scan_token_size, listed, scanned, line_of_order, dump_orders_to_file, load_order_line,
  load_order_lines, load_orders_from_file,
}

abbrev all_listed : {A : Type 0} → Option (List A) → List A
all_listed none = []
all_listed (some l) = l

module _ {A : Type 0} where
  listed_same :
      (k market : Text) (v : List A) (r : Dict Text (List A))
      → text_beq k market ≡ true
      → listed market (insert k v r) ≡ v
  listed_same k market v r e =
      let found : lookup market (insert k v r) ≡ some v = lookup-insert k market v r ∙ rw e refl in
      ap all_listed found

  listed_other :
      (k market : Text) (v : List A) (r : Dict Text (List A))
      → text_beq k market ≡ false
      → listed market (insert k v r) ≡ listed market r
  listed_other k market v r e =
      let found : lookup market (insert k v r) ≡ lookup market r =
        lookup-insert k market v r ∙ rw e refl in
      ap all_listed found

  listed_head :
      (k market : Text) (v : List A) (r : Dict Text (List A))
      → text_beq k market ≡ true
      → listed market ((k, v) ∷ r) ≡ v
  unfolding lookup
  listed_head k market v r e =
      let found : lookup market ((k, v) ∷ r) ≡ some v = rw e refl in ap all_listed found

  listed_tail :
      (k market : Text) (v : List A) (r : Dict Text (List A))
      → text_beq k market ≡ false
      → listed market ((k, v) ∷ r) ≡ listed market r
  unfolding lookup
  listed_tail k market v r e =
      let found : lookup market ((k, v) ∷ r) ≡ lookup market r = rw e refl in ap all_listed found

module _ ⦃d : Decimals⦄ where
  open d use {D, zero}

  -- A time without what is less than a second.
  abbrev pub whole_seconds : ℕ → ℕ
  whole_seconds t = t / 1000000000 * 1000000000

  -- An order without its fees and what it has dealt, its times cut to whole seconds.
  abbrev pub kept : Order D → Order D
  kept o = record o {
    taker_fee = zero;
    maker_fee = zero;
    deal_stock = zero;
    deal_money = zero;
    deal_fee = zero;
    create_time = whole_seconds o.create_time;
    update_time = whole_seconds o.update_time;
  }

  from_unix-unix : (t : ℕ) → from_unix (unix t) ≡ whole_seconds t
  from_unix-unix t = elim (Bool-cases (ltb (t / second) seconds_to_1970)) [
    | inl early ↦ rw early (ground arith)
    | inr late ↦ rw late (ground arith)
  ]

  order_of-saved_order : (o : Order D) → order_of (saved_order o) ≡ kept o
  order_of-saved_order o =
      rw
        (
          number-to_text o.price,
          number-to_text o.amount,
          number-to_text o.left,
          number-to_text o.freeze,
          from_unix-unix o.create_time,
          from_unix-unix o.update_time,
          order_of,
        )
        refl

module _ ⦃d : Decimals⦄ ⦃j : Json⦄ where
  open d use {D}
  open j use {Bytes}

  abbrev pub Fits : Bytes → Type 0
  Fits line = (j.size line ≢ 0) × (j.size line < max_scan_token_size)

  -- JSON gives back the order and the line that it wrote, and the line fits into the scanner.
  abbrev pub ReadsBack : Text → Order D → Type 0
  ReadsBack market o =
      (j.read_order (j.write_order (saved_order o)) ≡ some (saved_order o))
      × (j.read_order_line (line_of_order market o) ≡ some (market, serialize_order o))
      × Fits (line_of_order market o)

  abbrev pub AllReadBack : Text × List (Order D) → Type 0
  AllReadBack (market, orders) = All (ReadsBack market) orders

  pub scanned_whole : (lines : List Bytes) → All Fits lines → scanned lines ≡ lines
  unfolding scanned
  scanned_whole [] h = refl
  scanned_whole (line ∷ lines) h =
      let short : ltb (j.size line) max_scan_token_size ≡ true = ground (arith, h.0.1) in
      rw short (ap (◌∷◌ line) (scanned_whole lines h.1))

  load_order_line-serialize :
      (market : Text) (o : Order D) (r : Dict Text (List (Order D)))
      → ReadsBack market o
      → load_order_line (line_of_order market o) r
        ≡ insert market (listed market r ++ kept o ∷ []) r
  unfolding load_order_line deserialize_order serialize_order
  load_order_line-serialize market o r h =
      let some_size : (j.size (line_of_order market o) == 0) ≡ false = ground (arith, h.2.0) in
      rw (some_size, h.1, h.0)
        (ap (λ x. insert market (listed market r ++ x ∷ []) r) (order_of-saved_order o))

  load_order_lines-append :
      (xs ys : List Bytes) (r : Dict Text (List (Order D)))
      → load_order_lines (xs ++ ys) r ≡ load_order_lines ys (load_order_lines xs r)
  unfolding load_order_lines
  load_order_lines-append [] ys r = refl
  load_order_lines-append (x ∷ xs) ys r = load_order_lines-append xs ys (load_order_line x r)

  load_order_lines-same :
      (m market : Text) (orders : List (Order D)) (r : Dict Text (List (Order D)))
      → text_beq m market ≡ true
      → All (ReadsBack m) orders
      → listed market (load_order_lines (map (line_of_order m) orders) r)
        ≡ listed market r ++ map kept orders
  unfolding load_order_lines
  load_order_lines-same m market [] r e h = sym (append-nil (listed market r))
  load_order_lines-same m market (o ∷ orders) r e h =
      let grown : Dict Text (List (Order D)) = insert m (listed m r ++ kept o ∷ []) r in
      let same : m ≡ market = (text_beq_iff m market).0 e in
      ap (λ x. listed market (load_order_lines (map (line_of_order m) orders) x))
        (load_order_line-serialize m o r h.0)
      ∙ load_order_lines-same m market orders grown e h.1
      ∙ ap (λ x. x ++ map kept orders)
          (listed_same m market (listed m r ++ kept o ∷ []) r e
            ∙ ap (λ k. listed k r ++ kept o ∷ []) same)
      ∙ append_assoc (listed market r) (kept o ∷ []) (map kept orders)

  load_order_lines-other :
      (m market : Text) (orders : List (Order D)) (r : Dict Text (List (Order D)))
      → text_beq m market ≡ false
      → All (ReadsBack m) orders
      → listed market (load_order_lines (map (line_of_order m) orders) r) ≡ listed market r
  unfolding load_order_lines
  load_order_lines-other m market [] r e h = refl
  load_order_lines-other m market (o ∷ orders) r e h =
      let grown : Dict Text (List (Order D)) = insert m (listed m r ++ kept o ∷ []) r in
      ap (λ x. listed market (load_order_lines (map (line_of_order m) orders) x))
        (load_order_line-serialize m o r h.0)
      ∙ load_order_lines-other m market orders grown e h.1
      ∙ listed_other m market (listed m r ++ kept o ∷ []) r e

  listed_more :
      (market : Text) (orders : Dict Text (List (Order D))) (r : Dict Text (List (Order D)))
      → IsMap orders
      → All AllReadBack orders
      → listed market (load_order_lines (dump_orders_to_file orders) r)
        ≡ listed market r ++ map kept (listed market orders)
  unfolding load_order_lines dump_orders_to_file lookup
  listed_more market [] r u h = sym (append-nil (listed market r))
  listed_more market ((m, l) ∷ orders) r u h =
      let stored : List (Order D) = listed market (load_order_lines (map (line_of_order m) l) r) in
      ap (listed market)
        (load_order_lines-append (map (line_of_order m) l) (dump_orders_to_file orders) r)
      ∙ listed_more market orders (load_order_lines (map (line_of_order m) l) r) u.1 h.1
      ∙ (elim (Bool-cases (text_beq m market)) [
        | inl e ↦
            let same : m ≡ market = (text_beq_iff m market).0 e in
            let absent : lookup market orders ≡ none =
              subst (λ k. lookup k orders ≡ none) same u.0 in
            let nothing : listed market orders ≡ [] = ap all_listed absent in
            ap (λ x. stored ++ map kept x) nothing
            ∙ append-nil stored
            ∙ load_order_lines-same m market l r e h.0
            ∙ ap (λ x. listed market r ++ map kept x) (sym (listed_head m market l orders e))
        | inr e ↦
            ap (λ x. x ++ map kept (listed market orders))
              (load_order_lines-other m market l r e h.0)
            ∙ ap (λ x. listed market r ++ map kept x) (sym (listed_tail m market l orders e))
      ])

  lines_fit :
      (m : Text) (l : List (Order D)) (rest : List Bytes)
      → All (ReadsBack m) l
      → All Fits rest
      → All Fits (map (line_of_order m) l ++ rest)
  lines_fit m [] rest h k = k
  lines_fit m (o ∷ l) rest h k = (h.0.2, lines_fit m l rest h.1 k)

  dump_orders_fit :
      (orders : Dict Text (List (Order D)))
      → All AllReadBack orders
      → All Fits (dump_orders_to_file orders)
  unfolding dump_orders_to_file
  dump_orders_fit [] h = tt
  dump_orders_fit ((m, l) ∷ orders) h =
      lines_fit m l (dump_orders_to_file orders) h.0 (dump_orders_fit orders h.1)

  -- The orders of each market come back from the file that they were written to, all of them and in
  -- their order, but each without its fees and without what it has dealt, and with its times cut to
  -- whole seconds. JSON has to give back what it wrote, and each line has to fit into the scanner.
  pub load_orders_lem :
      (market : Text) (orders : Dict Text (List (Order D)))
      → IsMap orders
      → All AllReadBack orders
      → listed market (load_orders_from_file (some (dump_orders_to_file orders)))
        ≡ map kept (listed market orders)
  unfolding load_orders_from_file lookup
  load_orders_lem market orders u h =
      ap (λ lines. listed market (load_order_lines lines []))
        (scanned_whole (dump_orders_to_file orders) (dump_orders_fit orders h))
      ∙ listed_more market orders [] u h

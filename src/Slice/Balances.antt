-- ===== src/Slice/Balances.antt =====
-- What the balances file of a slice gives back.
use exchange_server.Base.{
  ◌≡◌, refl, ap, subst, ◌∙◌, Option, none, some, [], ◌∷◌, All, arith, ◌==◌, Bool-cases, inl, inr,
  false,
}
use exchange_server.Text.{Text, text_eq, text_beq, text_beq_iff}
use exchange_server.Dict.{lookup, insert, lookup-insert, IsMap}
use exchange_server.Decimal.{Decimals, number-to_text}
use exchange_server.Balance.{Balance, Book}
use exchange_server.Slice.{Json, saved_balance, balance_of, serialize_balance, deserialize_balance}
use exchange_server.Slice.Files.{
  dump_balances_to_file, load_balance_line, load_balance_lines, load_balances_from_file,
}
use exchange_server.Slice.Orders.{Fits, scanned_whole}

module _ ⦃d : Decimals⦄ ⦃j : Json⦄ where
  open d use {D}
  open j use {Bytes}

  abbrev pub line_of_balance : Text → Balance D → Bytes
  line_of_balance key b = j.write_balance_line key (serialize_balance b)

  -- As for orders: JSON gives back what it wrote, and the line fits.
  abbrev pub BalanceReadsBack : Text × Balance D → Type 0
  BalanceReadsBack (key, b) =
      (j.read_balance (j.write_balance (saved_balance b)) ≡ some (saved_balance b))
      × (j.read_balance_line (line_of_balance key b) ≡ some (key, serialize_balance b))
      × Fits (line_of_balance key b)

  balance_of-saved_balance : (b : Balance D) → balance_of (saved_balance b) ≡ b
  balance_of-saved_balance b =
      rw (number-to_text b.available, number-to_text b.frozen, balance_of) refl

  load_balance_line-serialize :
      (key : Text) (b : Balance D) (r : Book D)
      → BalanceReadsBack (key, b)
      → load_balance_line (line_of_balance key b) r ≡ insert key b r
  unfolding load_balance_line deserialize_balance serialize_balance
  load_balance_line-serialize key b r h =
      let some_size : (j.size (line_of_balance key b) == 0) ≡ false = ground (arith, h.2.0) in
      rw (some_size, h.1, h.0) (ap (λ x. insert key x r) (balance_of-saved_balance b))

  dump_balances_fit :
      (balances : Book D)
      → All BalanceReadsBack balances
      → All Fits (dump_balances_to_file balances)
  unfolding dump_balances_to_file
  dump_balances_fit [] h = tt
  dump_balances_fit ((key, b) ∷ balances) h = (h.0.2, dump_balances_fit balances h.1)

  -- A balance that is not in the file is the one that was there before.
  abbrev or_else : Option (Balance D) → Option (Balance D) → Option (Balance D)
  or_else none before = before
  or_else (some b) before = some b

  lookup-load_balance_lines :
      (k : Text) (balances : Book D) (r : Book D)
      → IsMap balances
      → All BalanceReadsBack balances
      → lookup k (load_balance_lines (dump_balances_to_file balances) r)
        ≡ or_else (lookup k balances) (lookup k r)
  unfolding load_balance_lines dump_balances_to_file lookup
  lookup-load_balance_lines k [] r u h = refl
  lookup-load_balance_lines k ((own, b) ∷ balances) r u h =
      ap (λ x. lookup k (load_balance_lines (dump_balances_to_file balances) x))
        (load_balance_line-serialize own b r h.0)
      ∙ lookup-load_balance_lines k balances (insert own b r) u.1 h.1
      ∙ (elim (Bool-cases (text_beq own k)) [
        | inl e ↦
            let same : own ≡ k = (text_beq_iff own k).0 e in
            let absent : lookup k balances ≡ none =
              subst (λ i. lookup i balances ≡ none) same u.0 in
            let found : lookup k (insert own b r) ≡ some b = lookup-insert own k b r ∙ rw e refl in
            rw (e, absent, found) refl
        | inr e ↦
            let found : lookup k (insert own b r) ≡ lookup k r =
              lookup-insert own k b r ∙ rw e refl in
            rw (e, found) refl
      ])

  or_else-none : (x : Option (Balance D)) → or_else x none ≡ x
  or_else-none none = refl
  or_else-none (some b) = refl

  -- Each balance comes back as it was from the file that the balances were written to, if JSON gives
  -- back what it wrote and each line fits into the scanner, and no other balance comes with them.
  pub lookup-load_balances :
      (k : Text) (balances : Book D)
      → IsMap balances
      → All BalanceReadsBack balances
      → lookup k (load_balances_from_file (some (dump_balances_to_file balances)))
        ≡ lookup k balances
  unfolding load_balances_from_file lookup
  lookup-load_balances k balances u h =
      ap (λ lines. lookup k (load_balance_lines lines []))
        (scanned_whole (dump_balances_to_file balances) (dump_balances_fit balances h))
      ∙ lookup-load_balance_lines k balances [] u h
      ∙ or_else-none (lookup k balances)

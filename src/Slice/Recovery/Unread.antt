-- ===== src/Slice/Recovery/Unread.antt =====
-- What the start of the matching engine sees of a slice.
use exchange_server.Base.{
  ℕ, ◌≡◌, ◌≢◌, refl, sym, ap, subst, ◌∙◌, List, [], ◌∷◌, ◌++◌, All, arith, Bool-cases, inl, inr,
  false,
}
use exchange_server.Int.{ℤ}
use exchange_server.Text.{Text, codes, text_eq, text_beq, text_beq_iff}
use exchange_server.Decimal.Integer.{print_ℤ}
use exchange_server.Dict.{Dict, lookup, insert, lookup-insert}
use exchange_server.Decimal.{Decimals}
use exchange_server.Order.{Order, unix}
use exchange_server.Balance.{Book}
use exchange_server.Slice.{Json}
use exchange_server.Slice.Files.{dump_orders_to_file, dump_balances_to_file}
use exchange_server.Slice.Recovery.{
  join, Disk, Allows, Answers, slice_path, make_slice, load_from_slice, load_slice,
}

has_slash : (s t : Text) → ¬ All (λ c. c ≢ b'/') (s ++ b'/' ∷ t)
has_slash [] t h = h.0 refl
has_slash (c ∷ s) t h = has_slash s t h.1

abbrev Plain : Text → Type 0
Plain = All (λ c. c ≢ b'/')

orders-Plain : Plain (codes "orders")
orders-Plain = (
  λ e. omega (arith, e),
  (
    λ e. omega (arith, e),
    (
      λ e. omega (arith, e),
      (λ e. omega (arith, e), (λ e. omega (arith, e), (λ e. omega (arith, e), tt))),
    ),
  ),
)

with_slash : (s t : Text) → text_beq (s ++ b'/' ∷ t) (codes "orders") ≡ false
with_slash s t = elim (Bool-cases (text_beq (s ++ b'/' ∷ t) (codes "orders"))) [
  | inr h ↦ h
  | inl h ↦
      let e : s ++ b'/' ∷ t ≡ codes "orders" =
        (text_beq_iff (s ++ b'/' ∷ t) (codes "orders")).0 h in
      absurd (has_slash s t (subst Plain (sym e) orders-Plain))
]

-- A file of a slice has a slash in its path.
below_slice :
    (dir : Text) (now : ℕ) (name : Text)
    → text_beq (join (slice_path dir now) name) (codes "orders") ≡ false
below_slice [] now name = with_slash (codes "slice_" ++ print_ℤ (unix now)) name
below_slice (c ∷ dir) now name =
    with_slash (c ∷ dir ++ b'/' ∷ (codes "slice_" ++ print_ℤ (unix now))) name

module _ ⦃d : Decimals⦄ ⦃j : Json⦄ where
  open d use {D}
  open j use {Bytes}

  lookup_below :
      (dir : Text) (now : ℕ) (name : Text) (lines : List Bytes) (files : Dict Text (List Bytes))
      → lookup (codes "orders") (insert (join (slice_path dir now) name) lines files)
        ≡ lookup (codes "orders") files
  lookup_below dir now name lines files =
      lookup-insert (join (slice_path dir now) name) (codes "orders") lines files
      ∙ rw (below_slice dir now name) refl

  orders-make_slice :
      (allows : Allows) (dir : Text) (now : ℕ) (orders : Dict Text (List (Order D)))
      (balances : Book D) (last_log : ℤ) (disk : Disk Bytes)
      → lookup (codes "orders") (make_slice allows dir now orders balances last_log disk).0.files
        ≡ lookup (codes "orders") disk.files
  unfolding make_slice
  orders-make_slice allows dir now orders balances last_log disk =
      let path : Text = slice_path dir now in
      let dumped : List Bytes = dump_orders_to_file orders in
      let one = lookup_below dir now (codes "orders") dumped disk.files in
      let two =
        lookup_below dir now (codes "balances") (dump_balances_to_file balances)
          (insert (join path (codes "orders")) dumped disk.files) in
      elim (Bool-cases allows.directory) [
        | inr h ↦ rw (h, make_slice) refl
        | inl h ↦ elim (Bool-cases allows.orders) [
          | inr k ↦ rw (h, k, make_slice) refl
          | inl k ↦ elim (Bool-cases allows.balances) [
            | inr l ↦ rw (h, k, l, make_slice) one
            | inl l ↦ elim (Bool-cases allows.insertion) [
              | inr m ↦ rw (h, k, l, m, make_slice) (two ∙ one)
              | inl m ↦ rw (h, k, l, m, make_slice) (two ∙ one)
            ]
          ]
        ]
      ]

  -- With the same answers of the database the start of the matching engine loads the same orders and
  -- balances after a slice as before it, whatever the slice holds and wherever it is: no file of a
  -- slice is the one that is read.
  pub load_from_slice-make_slice :
      (allows : Allows) (dir : Text) (now : ℕ) (orders : Dict Text (List (Order D)))
      (balances : Book D) (last_log : ℤ) (answers : Answers) (disk : Disk Bytes)
      → load_from_slice answers (make_slice allows dir now orders balances last_log disk).0
        ≡ load_from_slice answers disk
  unfolding load_from_slice
  load_from_slice-make_slice allows dir now orders balances last_log answers disk =
      ap (load_slice answers) (orders-make_slice allows dir now orders balances last_log disk)

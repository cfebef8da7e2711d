-- ===== src/OrderBook/Depth.antt =====
-- What `GetDepth` adds up.
use exchange_server.Base.{
  ℕ, ◌≡◌, sym, ap, ◌∙◌, inl, inr, List, [], ◌∷◌, arith, Bool-cases, if◌then◌else◌,
}
use exchange_server.Text.{Text, text_eq, text_beq, text_beq_iff}
use exchange_server.Dict.{Dict, lookup, insert, lookup-insert}
use exchange_server.Decimal.{Decimals}
use exchange_server.Decimal.Laws.{zero_add}
use exchange_server.Order.{Order}
use exchange_server.OrderBook.{level_at, add_levels}

module _ ⦃d : Decimals⦄ (memory : ℕ → Order d.D) where
  open d use {D, zero, add_assoc, add_zero}

  -- What the orders of a queue have left at one printed price.
  pub left_at : Text → List ℕ → D
  left_at price [] = zero
  left_at price (p ∷ q) =
      d.add (if text_eq.beq (d.to_text (memory p).price) price then (memory p).left else zero)
        (left_at price q)

  level_at-insert :
      (own price : Text) (v : D) (levels : Dict Text D)
      → level_at memory price (insert own v levels)
        ≡ (if text_eq.beq own price then v else level_at memory price levels)
  level_at-insert own price v levels = ground (arith, lookup-insert own price v levels)

  level_at-add_levels :
      (price : Text) (q : List ℕ) (levels : Dict Text D)
      → level_at memory price (add_levels memory q levels)
        ≡ d.add (level_at memory price levels) (left_at price q)
  unfolding add_levels left_at
  level_at-add_levels price [] levels = sym (add_zero _)
  level_at-add_levels price (p ∷ q) levels =
      let own = d.to_text (memory p).price in
      let more = d.add (level_at memory own levels) (memory p).left in
      level_at-add_levels price q (insert own more levels)
      ∙ ap (λ t. d.add t (left_at price q)) (level_at-insert own price more levels)
      ∙ elim (Bool-cases (text_beq own price)) [
        | inl same ↦
            let e = (text_beq_iff own price).0 same in
            rw (same, left_at)
              (ap (λ k. d.add (d.add (level_at memory k levels) (memory p).left) (left_at price q))
                  e
                ∙ add_assoc (level_at memory price levels) (memory p).left (left_at price q))
        | inr other ↦ rw (other, left_at, zero_add (left_at price q))
      ]

  -- The depth of a side shows, at every price, exactly what the orders of that side's queue with
  -- that printed price have left, and nothing at any other price.
  pub depth_levels :
      (price : Text) (q : List ℕ) → level_at memory price (add_levels memory q []) ≡ left_at price q
  unfolding lookup
  depth_levels price q = level_at-add_levels price q [] ∙ zero_add (left_at price q)

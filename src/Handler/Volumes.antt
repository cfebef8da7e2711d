-- ===== src/Handler/Volumes.antt =====
-- What the depth by steps of price adds up to.
use exchange_server.Base.{
  ℕ, ◌≡◌, refl, sym, ap, ◌∙◌, Bool-cases, inl, inr, List, [], ◌∷◌, arith, if◌then◌else◌,
}
use exchange_server.Text.{Text, text_eq, text_beq}
use exchange_server.Dict.{Dict, lookup, insert}
use exchange_server.Decimal.{Decimals}
use exchange_server.Decimal.Laws.{zero_add, add_right_comm}
use exchange_server.Decimal.Rounding.{Rounding}
use exchange_server.Order.{Order}
use exchange_server.OrderBook.{level_at}
use exchange_server.Handler.Depth.{add_rounded, round_price}

module _ ⦃d : Decimals⦄ where
  open d use {D, zero, add, sub, add_zero, add_assoc, add_comm}

  -- The sum over all levels.
  pub volume : Dict Text D → D
  volume [] = zero
  volume ((price, amount) ∷ levels) = add amount (volume levels)

  level_at-cons :
      (memory : ℕ → Order D) (own price : Text) (amount : D) (levels : Dict Text D)
      → level_at memory price ((own, amount) ∷ levels)
        ≡ (if text_beq own price then amount else level_at memory price levels)
  unfolding lookup
  level_at-cons memory own price amount levels = ground arith

  volume-insert :
      (memory : ℕ → Order D) (price : Text) (x : D) (levels : Dict Text D)
      → volume (insert price (add (level_at memory price levels) x) levels) ≡ add (volume levels) x
  unfolding volume insert lookup
  volume-insert memory price x [] = add_zero (add zero x)
  volume-insert memory price x ((own, amount) ∷ levels) =
      let put : D → D = λ v. volume (insert price (add v x) ((own, amount) ∷ levels)) in
      let level = level_at-cons memory own price amount levels in
      elim (Bool-cases (text_beq own price)) [
        | inl same ↦
            let e : level_at memory price ((own, amount) ∷ levels) ≡ amount =
              level ∙ rw same refl in
            ap put e ∙ rw (same, insert) (add_right_comm amount x (volume levels))
        | inr other ↦
            let e : level_at memory price ((own, amount) ∷ levels) ≡ level_at memory price levels =
              level ∙ rw other refl in
            ap put e
            ∙ rw (other, insert)
                (ap (add amount) (volume-insert memory price x levels)
                  ∙ sym (add_assoc amount (volume levels) x))
      ]

  -- What the orders of a queue have traded.
  pub traded : (ℕ → Order D) → List ℕ → D
  traded memory [] = zero
  traded memory (p ∷ q) = add (sub (memory p).amount (memory p).left) (traded memory q)

  module _ ⦃r : Rounding d⦄ (memory : ℕ → Order D) (interval : D) where
    volume-add_rounded :
        (q : List ℕ) (levels : Dict Text D)
        → volume (add_rounded memory interval q levels) ≡ add (volume levels) (traded memory q)
    unfolding add_rounded traded
    volume-add_rounded [] levels = sym (add_zero (volume levels))
    volume-add_rounded (p ∷ q) levels =
        let o = memory p in
        let price = d.to_text (round_price interval o.price) in
        let x = sub o.amount o.left in
        volume-add_rounded q (insert price (add (level_at memory price levels) x) levels)
        ∙ ap (λ v. add v (traded memory q)) (volume-insert memory price x levels)
        ∙ add_assoc (volume levels) x (traded memory q)

    -- Whatever the interval and its rounding, the levels of the depth of a side together show
    -- exactly what the orders of the side's queue have traded, not what they have left.
    pub depth_volume : (q : List ℕ) → volume (add_rounded memory interval q []) ≡ traded memory q
    unfolding volume
    depth_volume q = volume-add_rounded q [] ∙ zero_add (traded memory q)

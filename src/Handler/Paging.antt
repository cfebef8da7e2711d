-- ===== src/Handler/Paging.antt =====
-- The pages of orders that the handlers answer with.
use exchange_server.Base.{
  ℕ, ◌≤◌, ◌≡◌, none, some, inl, inr, Bool-cases, List, [], arith, map, filter,
}
use exchange_server.Int.{pos}
use exchange_server.Text.{Text, text_eq}
use exchange_server.Dict.{lookup}
use exchange_server.Decimal.{Decimals}
use exchange_server.Order.{Order}
use exchange_server.OrderBook.{get_orders}
use exchange_server.Engine.State.{Engine}
use exchange_server.Handler.Params.{Floats, capped}
use exchange_server.Handler.Orders.{is_open_of}

module _ ⦃d : Decimals⦄ where
  open d use {D}

  -- The user's orders in the book of a market that are not cancelled.
  abbrev pub own_orders : ℕ → Text → Engine D → List (Order D)
  own_orders user market e = elim (lookup market e.order_books) [
    | none ↦ []
    | some ob ↦ filter (is_open_of user) (map e.memory (get_orders ob))
  ]

module _ ⦃d : Decimals⦄ (now : ℕ) where
  open d use {D}

  module _ ⦃fl : Floats⦄ where
    open fl use {F}

    -- A limit is at most 100 once it is capped.
    pub capped_le : (limit : F) (n : ℕ) → fl.to_int (capped limit) ≡ pos n → n ≤ 100
    capped_le limit n h = elim (Bool-cases (fl.greater_than limit (fl.of_nat 100))) [
      | inl more ↦
          let e : fl.to_int (fl.of_nat 100) ≡ pos n = rw more at h in
          ground (arith, fl.to_int-of_nat 100 (omega arith))
      | inr less ↦
          let e : fl.to_int limit ≡ pos n = rw less at h in
          let b = fl.to_int_mono limit 100 (omega arith) less in ground arith
    ]

-- ===== src/Engine/Canceling.antt =====
-- What `CancelOrder` comes to on each of its branches.
use exchange_server.Base.{
  ℕ, ◌≡◌, sym, ap, ◌∙◌, Bool, true, false, none, some, Bool-cases, Option-cases, inl, inr, nat_eq,
  if◌then◌else◌,
}
use exchange_server.Text.{Text, text_eq}
use exchange_server.Dict.{lookup}
use exchange_server.Decimal.{Decimals}
use exchange_server.OrderBook.{get_order}
use exchange_server.Engine.State.{
  remove_from_user_index, Engine, Run, returns, deadlock, get_market,
}
use exchange_server.Engine.Commands.{cancel_order, cancel_in_book, cancel_found, is_cancelable}

module _ ⦃d : Decimals⦄ where
  open d use {D}

  -- Whether a market has a book that holds the order, still pending or partly filled.
  abbrev pub finds_cancelable : ℕ → Text → Engine D → Bool
  finds_cancelable order_id market e = elim (lookup market e.order_books) [
    | none ↦ false
    | some ob ↦ elim (lookup order_id ob.orders) [
      | none ↦ false
      | some p ↦ is_cancelable (e.memory p)
    ]
  ]

module _ ⦃d : Decimals⦄ (now order_id : ℕ) (market : Text) (e : Engine d.D) where
  open d use {D}

  released :
      e.locked ≡ false
      → Path
          (Run (Unit {0} × Engine D))
          (returns (tt, record e { locked = false }))
          (returns (tt, e))
  released free = ap (λ b. returns (tt, record e { locked = b })) (sym free)

  unlocked_lookup :
      e.locked ≡ false
      → cancel_order now order_id market e ≡ (elim (lookup market e.order_books) [
        | none ↦ returns (tt, e)
        | some ob ↦
            cancel_in_book now order_id market (get_order order_id ob) (record e { locked = true })
      ])
  unfolding cancel_order
  unlocked_lookup free = rw (free, cancel_order)

  -- `CancelOrder` on an engine whose lock is free never cancels anything. An order that it finds
  -- pending or partly filled makes it wait for ever for the lock that it holds itself; in every
  -- other case it returns, and the engine is as it was.
  pub cancel_order_outcome :
      e.locked ≡ false
      → cancel_order now order_id market e
        ≡ (if finds_cancelable order_id market e then deadlock else returns (tt, e))
  unfolding cancel_in_book get_order cancel_found get_market remove_from_user_index
  cancel_order_outcome free =
      unlocked_lookup free ∙ elim (Option-cases (lookup market e.order_books)) [
        | inl no_book ↦ rw (no_book, finds_cancelable)
        | inr (ob, book) ↦ elim (Option-cases (lookup order_id ob.orders)) [
          | inl no_order ↦
              rw (book, finds_cancelable) (rw (no_order, cancel_in_book) (released free))
          | inr (p, found) ↦
              rw (book, finds_cancelable)
                (rw (found, cancel_in_book)
                  (elim (Bool-cases (is_cancelable (e.memory p))) [
                    | inl live ↦ rw live
                    | inr closed ↦ rw closed (released free)
                  ]))
        ]
      ]

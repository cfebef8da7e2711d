-- ===== src/Handler/Cancels.antt =====
-- What the handler that cancels an order comes to.
use exchange_server.Base.{
  ℕ, ◌≡◌, refl, Bool-cases, Option-cases, false, Option, none, some, inl, inr, [], ◌∷◌, ◌==◌,
  if◌then◌else◌, nat_eq,
}
use exchange_server.Text.{Text}
use exchange_server.Dict.{lookup}
use exchange_server.Decimal.{Decimals}
use exchange_server.Engine.State.{Engine, Run, returns, deadlock, ◌>>=◌}
use exchange_server.Engine.Queries.{get_order}
use exchange_server.Engine.Canceling.{finds_cancelable, cancel_order_outcome}
use exchange_server.Handler.Params.{Floats, Checked, number, text, ok, failed}
use exchange_server.Handler.Requests.{CancelRequest, read_cancel}
use exchange_server.Handler.Info.{OrderInfo, order_to_info}
use exchange_server.Handler.Orders.{cancel_own, cancel_updated, handle_order_cancel}

module _ ⦃d : Decimals⦄ (now : ℕ) where
  open d use {D}

  get_order-free :
      (order_id : ℕ) (e : Engine D)
      → e.locked ≡ false
      → get_order order_id e ≡ returns (lookup order_id e.order_index, e)
  unfolding get_order
  get_order-free order_id e free = rw free refl

  -- The answer to the owner of an order, and to another user.
  abbrev pub cancel_answer :
      CancelRequest → Option ℕ → Engine D → Run (Checked (OrderInfo D) × Engine D)
  cancel_answer a none e = returns (failed "order not found", e)
  cancel_answer a (some p) e =
      if (e.memory p).user_id == a.user
      then (if finds_cancelable a.order_id a.market e
          then deadlock
          else returns (ok (order_to_info now (e.memory p)), e))
      else returns (failed "user not match", e)

  cancel_own_lem :
      (a : CancelRequest) (p : ℕ) (e : Engine D)
      → e.locked ≡ false
      → lookup a.order_id e.order_index ≡ some p
      → cancel_own now a (some p) e ≡ cancel_answer a (some p) e
  unfolding cancel_own cancel_updated
  cancel_own_lem a p e free found = elim (Bool-cases ((e.memory p).user_id == a.user)) [
    | inr other ↦ rw other refl
    | inl own ↦ rw own (
        rw (cancel_order_outcome now a.order_id a.market e free, ◌>>=◌)
          (elim (Bool-cases (finds_cancelable a.order_id a.market e)) [
            | inl live ↦ rw live refl
            | inr closed ↦
                rw closed
                  (rw (get_order-free a.order_id e free, ◌>>=◌) (rw (found, cancel_updated) refl))
          ]))
  ]

  module _ ⦃fl : Floats⦄ where
    open fl use {F}

    -- `HandleOrderCancel`, on an engine whose lock is free, never cancels an order. It refuses an
    -- id that is not in the index, and an order of another user; for the user's own order it waits
    -- for ever if the market's book holds it pending or partly filled, and else answers with the
    -- order as it stands. Whenever it returns, the engine is as it was.
    pub handle_order_cancel_lem :
        (user order_id : F) (market : Text) (e : Engine D)
        → e.locked ≡ false
        → handle_order_cancel now (some (number user ∷ text market ∷ number order_id ∷ [])) e
          ≡ cancel_answer
              (record {
                user = fl.to_uint32 user;
                market = market;
                order_id = fl.to_uint64 order_id;
              })
              (lookup (fl.to_uint64 order_id) e.order_index)
              e
    unfolding handle_order_cancel read_cancel
    handle_order_cancel_lem user order_id market e free =
        rw (get_order-free (fl.to_uint64 order_id) e free, ◌>>=◌)
          (elim (Option-cases (lookup (fl.to_uint64 order_id) e.order_index)) [
            | inl absent ↦ rw (absent, cancel_own) refl
            | inr (p, found) ↦ rw found (
                cancel_own_lem
                  (record {
                    user = fl.to_uint32 user;
                    market = market;
                    order_id = fl.to_uint64 order_id;
                  })
                  p e free found)
          ])

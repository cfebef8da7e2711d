-- ===== src/WsServer/Deals.antt =====
-- internal/accessws/server/server.go, `pollDeals`: which deals reach the sessions that subscribed to
-- a market's deals.
pub mod Once
pub mod Resent
pub mod Reached
use exchange_server.Base.{
  ℕ, ◌≤◌, ◌<◌, ◌≡◌, refl, Bool, true, false, Option, none, some, List, [], ◌∷◌, ◌++◌, if◌then◌else◌,
  ltb, leb, filter, All, arith, Bool-cases, Option-cases, inl, inr,
}
use exchange_server.Text.{Text, text_eq}
use exchange_server.Dict.{insert}
use exchange_server.DealsBuffer.{DealRecord, DealsBuffer, add_record}
use exchange_server.Subscription.{Manager, subscribers, get_deals_buffer}

-- What a session gets of new deals.
pub record DealsNotice : Type 0 where
  pub session : ℕ
  pub deals : List DealRecord

unfoldable pub add_deals : List DealRecord → DealsBuffer → DealsBuffer
unfolding add_record
add_deals [] b = b
add_deals (deal ∷ deals) b = add_deals deals (add_record deal b)

-- `BroadcastToSessions` with the new deals.
unfoldable pub broadcast_deals : (ℕ → Bool) → List DealRecord → List ℕ → List DealsNotice
broadcast_deals is_dead deals [] = []
broadcast_deals is_dead deals (s ∷ sessions) =
    let rest = broadcast_deals is_dead deals sessions in
    if is_dead s then rest else record { session = s; deals = deals } ∷ rest

abbrev pub new_deals : ℕ → List DealRecord → List DealRecord
new_deals last_id deals = filter (λ d. ltb last_id d.id) deals

-- `if len(newDeals) > 0`
abbrev pub send_deals : (ℕ → Bool) → List ℕ → List DealRecord → List DealsNotice
send_deals is_dead sessions [] = []
send_deals is_dead sessions (deal ∷ deals) = broadcast_deals is_dead (deal ∷ deals) sessions

-- A round that has its answer; the buffer is behind a pointer, so the deals go into the one that
-- the manager has.
unfoldable pub take_deals :
    (ℕ → Bool) → Text → DealsBuffer → Manager → List DealRecord → List DealsNotice × Manager
unfolding add_deals broadcast_deals subscribers
take_deals is_dead market b m [] = ([], m)
take_deals is_dead market b m (deal ∷ deals) = (
  send_deals is_dead (subscribers market m.deals_subs) (new_deals b.last_id (deal ∷ deals)),
  record m { deals_buffers = insert market (add_deals (deal ∷ deals) b) m.deals_buffers },
)

-- One round of the loop; `ask` is the query of a market's deals after an id, `none` its failure.
module _ (is_dead : ℕ → Bool) (ask : Text → ℕ → Option (List DealRecord)) where
  unfoldable pub poll_deals_market : Text → Manager → List DealsNotice × Manager
  unfolding get_deals_buffer take_deals
  poll_deals_market market m =
      let opened = get_deals_buffer market m in
      elim (ask market opened.0.last_id) [
        | none ↦ ([], opened.1)
        | some deals ↦ take_deals is_dead market opened.0 opened.1 deals
      ]

  unfoldable pub poll_deals : List Text → Manager → List DealsNotice × Manager
  unfolding poll_deals_market
  poll_deals [] m = ([], m)
  poll_deals (market ∷ markets) m =
      let r = poll_deals_market market m in
      let later = poll_deals markets r.1 in (r.0 ++ later.0, later.1)

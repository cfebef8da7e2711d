-- ===== src/Engine/Stops.antt =====
-- internal/matchengine/engine/stop_order.go: the stop orders that wait, by market.
pub mod Triggered
use exchange_server.Base.{
  ℕ, Bool, true, false, Option, none, some, List, [], ◌∷◌, ◌++◌, if◌then◌else◌, ◌==◌, ◌&&◌, ◌||◌,
  not,
}
use exchange_server.Text.{Text, text_eq}
use exchange_server.Dict.{Dict, lookup, insert, erase}
use exchange_server.Decimal.{Decimals, less_than_or_equal, greater_than_or_equal}
use exchange_server.Order.{Order, side_bid, side_ask, status_pending}
use exchange_server.Engine.State.{StopOrder}

abbrev pub Stops : Type 0 → Type 0
Stops D = Dict Text (List (StopOrder D))

module _ {D : Type 0} where
  -- `sm.stops[market]`, and `GetStopOrders`
  unfoldable pub get_stop_orders : Text → Stops D → List (StopOrder D)
  get_stop_orders market stops = elim (lookup market stops) [ none ↦ [] | some l ↦ l ]

  unfoldable pub add_stop_order : StopOrder D → ℕ → Stops D → Stops D
  unfolding get_stop_orders
  add_stop_order stop now stops =
      let o = stop.order in
      let ready = record o { status = status_pending; create_time = now; update_time = now } in
      let waiting = record stop { triggered = false; order = ready } in
      insert o.market (get_stop_orders o.market stops ++ waiting ∷ []) stops

  -- The list without the first stop order of the id, or `none` if there is none.
  unfoldable pub without : ℕ → List (StopOrder D) → Option (List (StopOrder D))
  without order_id [] = none
  without order_id (stop ∷ l) =
      let rest = without order_id l in
      if stop.order.id == order_id
      then some l
      else elim rest [ none ↦ none | some r ↦ some (stop ∷ r) ]

  unfoldable pub remove_stop_order : Text → ℕ → Stops D → Stops D × Bool
  unfolding without get_stop_orders
  remove_stop_order market order_id stops = elim (without order_id (get_stop_orders market stops)) [
    | none ↦ (stops, false)
    | some l ↦ (insert market l stops, true)
  ]

  unfoldable pub clear_market : Text → Stops D → Stops D
  clear_market market stops = erase market stops

module _ ⦃d : Decimals⦄ where
  open d use {D}

  -- The test of `CheckStopOrders`.
  abbrev pub should_trigger : D → StopOrder D → Bool
  should_trigger last_price stop =
      (stop.order.side == side_bid && less_than_or_equal last_price stop.trigger_price)
      || (stop.order.side == side_ask && greater_than_or_equal last_price stop.trigger_price)

  -- Its loop: the triggered orders, and the stop orders that remain.
  unfoldable pub check_list : D → List (StopOrder D) → List (Order D) × List (StopOrder D)
  check_list last_price [] = ([], [])
  check_list last_price (stop ∷ l) =
      let (triggered, remaining) = check_list last_price l in
      if stop.triggered
      then (triggered, remaining)
      else if should_trigger last_price stop
      then (stop.order ∷ triggered, remaining)
      else (triggered, stop ∷ remaining)

  unfoldable pub check_stop_orders : Text → D → Stops D → List (Order D) × Stops D
  unfolding check_list get_stop_orders
  check_stop_orders market last_price stops =
      let (triggered, remaining) = check_list last_price (get_stop_orders market stops) in
      (triggered, insert market remaining stops)

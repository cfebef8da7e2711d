-- ===== src/Engine/Stops/Triggered.antt =====
-- What `CheckStopOrders`, `AddStopOrder` and `RemoveStopOrder` do to the waiting stop orders.
use exchange_server.Base.{
  ◌≡◌, refl, ap, Bool, List, [], ◌∷◌, arith, not, ◌&&◌, if◌then◌else◌, filter, map,
}
use exchange_server.Text.{Text, text_eq}
use exchange_server.Dict.{lookup-insert}
use exchange_server.Decimal.{Decimals}
use exchange_server.Engine.State.{StopOrder}
use exchange_server.Engine.Stops.{
  Stops, get_stop_orders, check_stop_orders, check_list, should_trigger,
}

module _ ⦃d : Decimals⦄ where
  open d use {D}

  -- A stop order that has not been triggered yet and whose condition the price meets.
  abbrev pub fires : D → StopOrder D → Bool
  fires last_price stop = not stop.triggered && should_trigger last_price stop

  abbrev pub stays : D → StopOrder D → Bool
  stays last_price stop = not stop.triggered && not (should_trigger last_price stop)

  check_list_lem :
      (last_price : D) (l : List (StopOrder D))
      → check_list last_price l
        ≡ (map (λ s. s.order) (filter (fires last_price) l), filter (stays last_price) l)
  unfolding check_list
  check_list_lem last_price [] = refl
  check_list_lem last_price (stop ∷ l) = ground (arith, check_list_lem last_price l)

  -- A check of a market's stop orders at a price returns, in their order, the orders of exactly
  -- those that wait and whose condition the price meets; the others that wait stay, in their
  -- order; and the stop orders of every other market are as they were.
  pub check_stop_orders_lem :
      (market other : Text) (last_price : D) (stops : Stops D)
      → ((check_stop_orders market last_price stops).0
          ≡ map (λ s. s.order) (filter (fires last_price) (get_stop_orders market stops)))
        × (get_stop_orders other (check_stop_orders market last_price stops).1 ≡ (
            if text_eq.beq market other
            then filter (stays last_price) (get_stop_orders market stops)
            else get_stop_orders other stops))
  unfolding check_stop_orders get_stop_orders
  check_stop_orders_lem market other last_price stops =
      let l = get_stop_orders market stops in
      let r = check_list_lem last_price l in
      (
        ap (λ r. r.0) r,
        ground (arith, r, lookup-insert market other (check_list last_price l).1 stops),
      )

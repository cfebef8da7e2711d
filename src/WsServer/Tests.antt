-- ===== src/WsServer/Tests.antt =====
-- Runs of the websocket service with concrete sessions, depths and deals.
use mathlib.Core.List.{mem-cons_self, mem-cons_of_mem}
use exchange_server.Base.{
  arith, ℕ, ◌<◌, ◌≡◌, refl, ap, true, false, Option, some, List, [], ◌∷◌, length, map, All,
}
use exchange_server.Text.{Text, codes, text_eq}
use exchange_server.Dict.{lookup, insert}
use exchange_server.DealsBuffer.{DealRecord, new_deals_buffer, add_record}
use exchange_server.Subscription.{
  Manager, subscribers, DepthSnapshot, get_depth_snapshot, get_deals_buffer, get_depth_last_clean,
}
use exchange_server.WsServer.{WsServer, new_session, create_session, remove_session}
use exchange_server.WsServer.Sessions.{Leaves, HasMaps, remove_session_lem}
use exchange_server.WsServer.Depth.{
  DepthAnswer, levels_of, snapshot_of, changed_levels, gone_levels, compute_depth_diff_model,
  split_key, poll_answer, only,
}
use exchange_server.WsServer.Depth.Applied.{
  HasAmounts, SameLevels, Holds, held_after, poll_answer_lem,
}
use exchange_server.WsServer.Deals.{poll_deals_market, take_deals, add_deals, broadcast_deals}
use exchange_server.WsServer.Deals.Reached.{reaches, reaches-poll_deals_market}
use exchange_server.WsServer.Deals.Resent.{Step, poll, resubscribe, run, sent, run_resends_none}

abbrev key : Text
key = codes "BTC:0:50"

abbrev before : DepthSnapshot
before = record {
  bids = (codes "5", codes "1") ∷ (codes "4", codes "2") ∷ [];
  asks = [];
  last_update = 0;
}

abbrev manager : Manager
manager = record {
  order_subs = [];
  asset_subs = [];
  depth_subs = (key, 1 ∷ 2 ∷ []) ∷ [];
  kline_subs = [];
  price_subs = [];
  deals_subs = (codes "BTC", 1 ∷ []) ∷ [];
  state_subs = [];
  today_subs = [];
  depth_snapshots = (key, before) ∷ [];
  depth_last_clean = (key, 100) ∷ [];
  deals_buffers = [];
}

abbrev answer : DepthAnswer
answer = record {
  body = codes "{}";
  bids = (codes "5" ∷ codes "3" ∷ []) ∷ (codes "6" ∷ codes "1" ∷ []) ∷ [];
  asks = [];
}

has_bids : HasAmounts (snapshot_of answer).bids
unfolding snapshot_of levels_of insert
has_bids = (refl, (refl, tt))

has_asks : HasAmounts (snapshot_of answer).asks
unfolding snapshot_of levels_of
has_asks = tt

before-Holds : Holds before key manager
unfolding get_depth_snapshot lookup
before-Holds last found =
    let stored : some before ≡ some last = found in
    let e : before ≡ last = cc in
    (λ p. ap (λ s. lookup p s.bids) e, λ p. ap (λ s. lookup p s.asks) e)

poll_answer_lem_example :
    (get_depth_snapshot key (poll_answer 60 110 key answer manager).1 ≡ some (snapshot_of answer))
    × SameLevels
        (held_after (poll_answer 60 110 key answer manager).0 before).bids
        (snapshot_of answer).bids
    × SameLevels
        (held_after (poll_answer 60 110 key answer manager).0 before).asks
        (snapshot_of answer).asks
poll_answer_lem_example =
    poll_answer_lem 60 110 key answer manager before has_bids has_asks before-Holds

-- Ten seconds after the last whole answer only the difference goes out.
difference :
    (poll_answer 60 110 key answer manager).0
    ≡ only (record {
      bids = (codes "5", codes "3") ∷ (codes "6", codes "1") ∷ (codes "4", codes "0") ∷ [];
      asks = [];
    })
unfolding poll_answer snapshot_of levels_of compute_depth_diff_model changed_levels gone_levels
    get_depth_snapshot get_depth_last_clean lookup insert
difference = refl

fields : split_key key ≡ codes "BTC" ∷ codes "0" ∷ codes "50" ∷ []
unfolding split_key
fields = refl

abbrev server : WsServer
server = record {
  memory = λ x. new_session;
  sessions = 1 ∷ 2 ∷ [];
  next_ses_id = 2;
  sub_mgr = manager;
}

server-HasMaps : HasMaps server.sub_mgr
unfolding lookup
server-HasMaps = ((refl, tt), tt, tt, (refl, tt), tt, tt)

remove_session_lem_example :
    Leaves 1 manager.depth_subs (remove_session 1 server).sub_mgr.depth_subs
    × Leaves 1 manager.kline_subs (remove_session 1 server).sub_mgr.kline_subs
    × Leaves 1 manager.price_subs (remove_session 1 server).sub_mgr.price_subs
    × Leaves 1 manager.deals_subs (remove_session 1 server).sub_mgr.deals_subs
    × Leaves 1 manager.state_subs (remove_session 1 server).sub_mgr.state_subs
    × Leaves 1 manager.today_subs (remove_session 1 server).sub_mgr.today_subs
    × ((remove_session 1 server).sub_mgr.asset_subs ≡ manager.asset_subs)
    × (((remove_session 1 server).memory 1).dead ≡ true)
remove_session_lem_example = remove_session_lem 1 server server-HasMaps

next_session : (create_session server).0 ≡ 3
unfolding create_session
next_session = refl

abbrev deal : ℕ → DealRecord
deal id = record { id = id; time = 5; type = codes "buy"; amount = codes "1"; price = codes "9" }

abbrev ask : Text → ℕ → Option (List DealRecord)
ask market last_id = some (deal 1 ∷ deal 2 ∷ [])

-- A round that has nothing new, and one with an old deal and a new one, for another session.
abbrev round_with : List DealRecord → Step
round_with deals = poll (λ s. false) (λ market last_id. some deals) (codes "BTC")

abbrev first_rounds : List Step
first_rounds = round_with (deal 1 ∷ deal 2 ∷ []) ∷ []

abbrev later_rounds : List Step
later_rounds =
    round_with []
    ∷ resubscribe ((codes "BTC", 1 ∷ 2 ∷ []) ∷ [])
    ∷ round_with (deal 2 ∷ deal 3 ∷ [])
    ∷ []

run_resends_none_example :
    let first = run first_rounds manager in
    All
      (λ d. All (λ again. d.id < again.id) (sent (codes "BTC") (run later_rounds first.1).0))
      (sent (codes "BTC") first.0)
run_resends_none_example = run_resends_none first_rounds later_rounds (codes "BTC") manager

reaches-poll_deals_market_example :
    reaches 1 2 (poll_deals_market (λ s. false) ask (codes "BTC") manager).0 ≡ true
unfolding lookup subscribers
reaches-poll_deals_market_example =
    reaches-poll_deals_market (λ s. false) ask (codes "BTC") manager (deal 1 ∷ deal 2 ∷ []) 1
      (deal 2) refl refl mem-cons_self (mem-cons_of_mem (deal 1) mem-cons_self) (omega arith)

new_deal_alone :
    map (λ d. d.id) (sent (codes "BTC") (run later_rounds (run first_rounds manager).1).0)
    ≡ 3 ∷ 3 ∷ []
unfolding run poll_deals_market take_deals get_deals_buffer lookup insert new_deals_buffer add_deals
    add_record broadcast_deals subscribers
new_deal_alone = refl

both_deals :
    map (λ n. length n.deals) (poll_deals_market (λ s. false) ask (codes "BTC") manager).0 ≡ 2 ∷ []
unfolding poll_deals_market lookup new_deals_buffer
both_deals = refl

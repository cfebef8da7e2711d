-- ===== src/WsServer/Sessions.antt =====
-- What a session that has gone still hears of.
use exchange_server.Base.{ℕ, ◌≡◌, refl, true, ◌==◌, ◌&&◌, not, nat_eq}
use exchange_server.Text.{Text, text_eq}
use exchange_server.Dict.{IsMap}
use exchange_server.Subscription.{
  Topics, Manager, listens, subscribers, order_unsubscribe_all, depth_unsubscribe,
  kline_unsubscribe, price_unsubscribe, deals_unsubscribe, state_unsubscribe, today_unsubscribe,
}
use exchange_server.Subscription.Members.{listens-unsubscribe_all}
use exchange_server.WsServer.{WsServer, remove_session}

-- One session hears of no topic any more, all others of what they did.
abbrev pub Leaves : ℕ → Topics → Topics → Type 0
Leaves x before after =
    (s : ℕ) (name : Text)
    → listens s (subscribers name after) ≡ (not (x == s) && listens s (subscribers name before))

-- Each topic stands once.
abbrev pub HasMaps : Manager → Type 0
HasMaps m =
    IsMap m.depth_subs
    × IsMap m.kline_subs
    × IsMap m.price_subs
    × IsMap m.deals_subs
    × IsMap m.state_subs
    × IsMap m.today_subs

-- A session that is removed is dead and hears of no depth, candle, price, deal, state or day any
-- more, and every other session hears of what it did; what it asked to hear of its assets stays.
pub remove_session_lem :
    (x : ℕ) (s : WsServer)
    → HasMaps s.sub_mgr
    → let r = remove_session x s in
      Leaves x s.sub_mgr.depth_subs r.sub_mgr.depth_subs
      × Leaves x s.sub_mgr.kline_subs r.sub_mgr.kline_subs
      × Leaves x s.sub_mgr.price_subs r.sub_mgr.price_subs
      × Leaves x s.sub_mgr.deals_subs r.sub_mgr.deals_subs
      × Leaves x s.sub_mgr.state_subs r.sub_mgr.state_subs
      × Leaves x s.sub_mgr.today_subs r.sub_mgr.today_subs
      × (r.sub_mgr.asset_subs ≡ s.sub_mgr.asset_subs)
      × ((r.memory x).dead ≡ true)
unfolding remove_session order_unsubscribe_all depth_unsubscribe kline_unsubscribe price_unsubscribe
    deals_unsubscribe state_unsubscribe today_unsubscribe
remove_session_lem x s h = (
  λ y name. listens-unsubscribe_all name x y s.sub_mgr.depth_subs h.0,
  λ y name. listens-unsubscribe_all name x y s.sub_mgr.kline_subs h.1,
  λ y name. listens-unsubscribe_all name x y s.sub_mgr.price_subs h.2,
  λ y name. listens-unsubscribe_all name x y s.sub_mgr.deals_subs h.3,
  λ y name. listens-unsubscribe_all name x y s.sub_mgr.state_subs h.4,
  λ y name. listens-unsubscribe_all name x y s.sub_mgr.today_subs h.5,
  refl,
  rw ((nat_eq.beq_iff x x).1 refl) refl,
)

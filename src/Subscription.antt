-- ===== src/Subscription.antt =====
-- internal/accessws/subscription/manager.go: who listens to what. A session is the pointer to it, a
-- set of sessions a list without repeats. Each method holds the manager's lock throughout.
pub mod Members
pub mod Tests
use exchange_server.Base.{
  ℕ, Bool, true, false, Option, none, some, List, [], ◌∷◌, ◌++◌, if◌then◌else◌, ◌==◌, ◌||◌, not,
  nat_eq, filter, map,
}
use exchange_server.Text.{Text, text_eq, print_nat, colon}
use exchange_server.DealsBuffer.{DealRecord, DealsBuffer, new_deals_buffer, add_record}
use exchange_server.Dict.{Dict, lookup, insert, erase}

-- `map[string]map[*model.ClientSession]bool`
abbrev pub Topics : Type 0
Topics = Dict Text (List ℕ)

abbrev pub listens : ℕ → List ℕ → Bool
listens session [] = false
listens session (s ∷ l) = s == session || listens session l

-- `subs[sess] = true` and `delete(subs, sess)`
abbrev pub with_session : ℕ → List ℕ → List ℕ
with_session session l = if listens session l then l else l ++ session ∷ []

abbrev pub without_session : ℕ → List ℕ → List ℕ
without_session session l = filter (λ s. not (s == session)) l

-- `GetAssetSubscribers` and its like.
unfoldable pub subscribers : Text → Topics → List ℕ
subscribers key topics = elim (lookup key topics) [ none ↦ [] | some l ↦ l ]

-- `AssetSubscribe` and its like, under the key.
unfoldable pub subscribe : Text → ℕ → Topics → Topics
subscribe key session topics =
    insert key (with_session session (elim (lookup key topics) [ none ↦ [] | some l ↦ l ])) topics

-- A topic that nobody listens to any more goes.
abbrev pub keep : Text → List ℕ → Topics → Topics
keep key [] topics = erase key topics
keep key (s ∷ l) topics = insert key (s ∷ l) topics

-- `AssetUnsubscribe`, under the key.
unfoldable pub unsubscribe : Text → ℕ → Topics → Topics
unsubscribe key session topics = elim (lookup key topics) [
  | none ↦ topics
  | some l ↦ keep key (without_session session l) topics
]

abbrev pub cons_topic : Text → List ℕ → Topics → Topics
cons_topic key [] topics = topics
cons_topic key (s ∷ l) topics = (key, s ∷ l) ∷ topics

-- `DepthUnsubscribe` and its like: the session leaves every topic.
unfoldable pub unsubscribe_all : ℕ → Topics → Topics
unsubscribe_all session [] = []
unsubscribe_all session ((key, l) ∷ topics) =
    cons_topic key (without_session session l) (unsubscribe_all session topics)

-- `assetKey` and `orderKey`, `klineKey`, `depthKey`
unfoldable pub user_key : ℕ → Text → Text
user_key user name = print_nat user ++ colon ∷ name

unfoldable pub kline_key : Text → Text → Text
kline_key market interval = market ++ colon ∷ interval

unfoldable pub depth_key : Text → Text → ℕ → Text
depth_key market interval limit = market ++ colon ∷ (interval ++ colon ∷ print_nat limit)

pub record DepthSnapshot : Type 0 where
  pub bids : Dict Text Text
  pub asks : Dict Text Text
  pub last_update : ℕ

pub record Manager : Type 0 where
  pub order_subs : Dict ℕ Topics
  pub asset_subs : Topics
  pub depth_subs : Topics
  pub kline_subs : Topics
  pub price_subs : Topics
  pub deals_subs : Topics
  pub state_subs : Topics
  pub today_subs : Topics
  pub depth_snapshots : Dict Text DepthSnapshot
  pub depth_last_clean : Dict Text ℕ
  pub deals_buffers : Dict Text DealsBuffer

-- The user of a session is read off its pointer.
module _ (user_of : ℕ → ℕ) where
  unfoldable pub order_subscribe : ℕ → Text → Manager → Manager
  unfolding user_key subscribe
  order_subscribe session market m =
      let user = user_of session in
      let own = elim (lookup user m.order_subs) as (λ o. Topics) [ none ↦ [] | some t ↦ t ] in
      record m {
        order_subs = insert user (subscribe (user_key user market) session own) m.order_subs;
      }

  abbrev keep_user : ℕ → Topics → Dict ℕ Topics → Dict ℕ Topics
  keep_user user [] subs = erase user subs
  keep_user user (topic ∷ topics) subs = insert user (topic ∷ topics) subs

  -- The user goes with the last topic, looked at only where the topic was there.
  unfoldable pub order_unsubscribe : ℕ → Text → Manager → Manager
  unfolding user_key unsubscribe
  order_unsubscribe session market m =
      let user = user_of session in
      let key = user_key user market in
      record m {
        order_subs = elim (lookup user m.order_subs) [
          | none ↦ m.order_subs
          | some own ↦ elim (lookup key own) [
            | none ↦ m.order_subs
            | some l ↦ keep_user user (unsubscribe key session own) m.order_subs
          ]
        ];
      }

  unfoldable pub order_unsubscribe_all : ℕ → Manager → Manager
  unfolding unsubscribe_all
  order_unsubscribe_all session m =
      let user = user_of session in
      record m {
        order_subs = elim (lookup user m.order_subs) [
          | none ↦ m.order_subs
          | some own ↦ keep_user user (unsubscribe_all session own) m.order_subs
        ];
      }

  unfoldable pub asset_subscribe : ℕ → Text → Manager → Manager
  unfolding user_key subscribe
  asset_subscribe session asset m = record m {
    asset_subs = subscribe (user_key (user_of session) asset) session m.asset_subs;
  }

  unfoldable pub asset_unsubscribe : ℕ → Text → Manager → Manager
  unfolding user_key unsubscribe
  asset_unsubscribe session asset m = record m {
    asset_subs = unsubscribe (user_key (user_of session) asset) session m.asset_subs;
  }

unfoldable pub get_order_subscribers : ℕ → Text → Manager → List ℕ
unfolding subscribers user_key
get_order_subscribers user market m = elim (lookup user m.order_subs) [
  | none ↦ []
  | some own ↦ subscribers (user_key user market) own
]

unfoldable pub get_asset_subscribers : ℕ → Text → Manager → List ℕ
unfolding subscribers user_key
get_asset_subscribers user asset m = subscribers (user_key user asset) m.asset_subs

unfoldable pub depth_subscribe : ℕ → Text → Text → ℕ → Manager → Manager
unfolding subscribe depth_key
depth_subscribe session market interval limit m = record m {
  depth_subs = subscribe (depth_key market interval limit) session m.depth_subs;
}

unfoldable pub kline_subscribe : ℕ → Text → Text → Manager → Manager
unfolding subscribe kline_key
kline_subscribe session market interval m = record m {
  kline_subs = subscribe (kline_key market interval) session m.kline_subs;
}

unfoldable pub price_subscribe : ℕ → Text → Manager → Manager
unfolding subscribe
price_subscribe session market m = record m { price_subs = subscribe market session m.price_subs }

unfoldable pub deals_subscribe : ℕ → Text → Manager → Manager
unfolding subscribe
deals_subscribe session market m = record m { deals_subs = subscribe market session m.deals_subs }

unfoldable pub state_subscribe : ℕ → Text → Manager → Manager
unfolding subscribe
state_subscribe session market m = record m { state_subs = subscribe market session m.state_subs }

unfoldable pub today_subscribe : ℕ → Text → Manager → Manager
unfolding subscribe
today_subscribe session market m = record m { today_subs = subscribe market session m.today_subs }

unfoldable pub depth_unsubscribe : ℕ → Manager → Manager
unfolding unsubscribe_all
depth_unsubscribe session m = record m { depth_subs = unsubscribe_all session m.depth_subs }

unfoldable pub kline_unsubscribe : ℕ → Manager → Manager
unfolding unsubscribe_all
kline_unsubscribe session m = record m { kline_subs = unsubscribe_all session m.kline_subs }

unfoldable pub price_unsubscribe : ℕ → Manager → Manager
unfolding unsubscribe_all
price_unsubscribe session m = record m { price_subs = unsubscribe_all session m.price_subs }

unfoldable pub deals_unsubscribe : ℕ → Manager → Manager
unfolding unsubscribe_all
deals_unsubscribe session m = record m { deals_subs = unsubscribe_all session m.deals_subs }

unfoldable pub state_unsubscribe : ℕ → Manager → Manager
unfolding unsubscribe_all
state_unsubscribe session m = record m { state_subs = unsubscribe_all session m.state_subs }

unfoldable pub today_unsubscribe : ℕ → Manager → Manager
unfolding unsubscribe_all
today_unsubscribe session m = record m { today_subs = unsubscribe_all session m.today_subs }

-- A missing time of the last cleaning reads as zero.
unfoldable pub get_depth_snapshot : Text → Manager → Option DepthSnapshot
get_depth_snapshot key m = lookup key m.depth_snapshots

unfoldable pub set_depth_snapshot : Text → DepthSnapshot → Manager → Manager
set_depth_snapshot key snap m = record m { depth_snapshots = insert key snap m.depth_snapshots }

unfoldable pub get_depth_last_clean : Text → Manager → ℕ
get_depth_last_clean key m = elim (lookup key m.depth_last_clean) [ none ↦ 0 | some ts ↦ ts ]

unfoldable pub set_depth_last_clean : Text → ℕ → Manager → Manager
set_depth_last_clean key timestamp m = record m {
  depth_last_clean = insert key timestamp m.depth_last_clean;
}

-- `GetDealsBuffer` makes the buffer that is missing.
unfoldable pub get_deals_buffer : Text → Manager → DealsBuffer × Manager
get_deals_buffer market m = elim (lookup market m.deals_buffers) [
  | some b ↦ (b, m)
  | none ↦ (
    new_deals_buffer 100,
    record m { deals_buffers = insert market (new_deals_buffer 100) m.deals_buffers },
  )
]

unfoldable pub update_deals_buffer : Text → DealRecord → Manager → Manager
unfolding get_deals_buffer
update_deals_buffer market deal m =
    let (b, opened) = get_deals_buffer market m in
    record opened { deals_buffers = insert market (add_record deal b) opened.deals_buffers }

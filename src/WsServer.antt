-- ===== src/WsServer.antt =====
-- internal/accessws/server/server.go: the sessions of the websocket service, and what it sends them
-- each time that a timer fires. A session is a pointer, and the memory holds what it points to.
pub mod Depth
pub mod Deals
pub mod Sessions
mod Tests
use exchange_server.Base.{ℕ, ◌+◌, ◌%◌, ◌^◌, ◌==◌, Bool, true, false, List, [], ◌∷◌, if◌then◌else◌}
use exchange_server.Text.{Text}
use exchange_server.Dict.{Dict}
use exchange_server.Subscription.{
  Manager, with_session, without_session, order_unsubscribe_all, depth_unsubscribe,
  kline_unsubscribe, price_unsubscribe, deals_unsubscribe, state_unsubscribe, today_unsubscribe,
}

-- `ClientSession`, without its connection.
pub record ClientSession : Type 0 where
  pub auth : Bool
  pub user_id : ℕ
  pub source : Text
  pub markets : Dict Text Bool
  pub assets : Dict Text Bool
  pub dead : Bool

pub record WsServer : Type 0 where
  pub memory : ℕ → ClientSession
  pub sessions : List ℕ
  pub next_ses_id : ℕ
  pub sub_mgr : Manager

abbrev pub set_session : (ℕ → ClientSession) → ℕ → ClientSession → ℕ → ClientSession
set_session memory x session y = if x == y then session else memory y

abbrev pub new_session : ClientSession
new_session = record {
  auth = false;
  user_id = 0;
  source = [];
  markets = [];
  assets = [];
  dead = false;
}

-- The new session stands under its id.
unfoldable pub create_session : WsServer → ℕ × WsServer
create_session s =
    let id = (s.next_ses_id + 1) % 2 ^ 64 in
    (
      id,
      record s {
        memory = set_session s.memory id new_session;
        sessions = with_session id s.sessions;
        next_ses_id = id;
      },
    )

unfoldable pub remove_session : ℕ → WsServer → WsServer
unfolding order_unsubscribe_all depth_unsubscribe kline_unsubscribe price_unsubscribe
    deals_unsubscribe state_unsubscribe today_unsubscribe
remove_session x s = record s {
  memory = set_session s.memory x (record (s.memory x) { dead = true });
  sessions = without_session x s.sessions;
  sub_mgr = today_unsubscribe x (
      state_unsubscribe x (
        deals_unsubscribe x (
          price_unsubscribe x (
            kline_unsubscribe x (
              depth_unsubscribe x
                (order_unsubscribe_all (λ y. (s.memory y).user_id) x s.sub_mgr))))));
}

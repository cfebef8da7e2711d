-- ===== src/WsServer/Depth.antt =====
-- internal/accessws/server/server.go: how the changes of an order book's depth reach the sessions
-- that subscribed to it.
pub mod Applied
use exchange_server.Base.{
  ℕ, ◌-◌, Bool, true, false, Option, none, some, List, [], ◌∷◌, ◌++◌, if◌then◌else◌, ◌==◌, ◌&&◌,
  ◌||◌, not, ltb, leb,
}
use exchange_server.Int.{ℤ, pos}
use exchange_server.Text.{Text, codes, colon, text_eq, text_beq}
use exchange_server.Dict.{Dict, lookup, insert}
use exchange_server.Decimal.Integer.{read_ℤ}
use exchange_server.Subscription.{
  Manager, DepthSnapshot, subscribers, get_depth_snapshot, set_depth_snapshot, get_depth_last_clean,
  set_depth_last_clean,
}

-- `splitKey`: a last field that is empty is left out.
unfoldable pub split_key_from : Text → Text → List Text
split_key_from current [] = elim current [ [] ↦ [] | c ∷ s ↦ (c ∷ s) ∷ [] ]
split_key_from current (c ∷ s) =
    let ended = current ∷ split_key_from [] s in
    let longer = split_key_from (current ++ c ∷ []) s in if c == colon then ended else longer

unfoldable pub split_key : Text → List Text
unfolding split_key_from
split_key key = split_key_from [] key

-- The answer of the matching engine: its body, and the lists of the JSON object in it.
pub record DepthAnswer : Type 0 where
  pub body : Text
  pub bids : List (List Text)
  pub asks : List (List Text)

-- A price with its amount, or with the amount 0 if the price has gone.
pub record DepthDiff : Type 0 where
  pub bids : List (Text × Text)
  pub asks : List (Text × Text)

-- The levels of one side, as `newSnapshot` takes them.
unfoldable pub levels_of : List (List Text) → Dict Text Text → Dict Text Text
levels_of [] side = side
levels_of ([] ∷ rows) side = levels_of rows side
levels_of ((price ∷ []) ∷ rows) side = levels_of rows side
levels_of ((price ∷ amount ∷ more) ∷ rows) side = levels_of rows (insert price amount side)

unfoldable pub snapshot_of : DepthAnswer → DepthSnapshot
unfolding levels_of
snapshot_of answer = record {
  bids = levels_of answer.bids [];
  asks = levels_of answer.asks [];
  last_update = 0;
}

-- `exists && oldAmount == amount`
abbrev pub is_same : Option Text → Text → Bool
is_same none amount = false
is_same (some old) amount = text_beq old amount

abbrev pub is_there : Option Text → Bool
is_there none = false
is_there (some amount) = true

-- The two loops of `computeDepthDiffModel` on one side.
unfoldable pub changed_levels : Dict Text Text → Dict Text Text → List (Text × Text)
changed_levels before [] = []
changed_levels before ((price, amount) ∷ after) =
    let rest = changed_levels before after in
    if is_same (lookup price before) amount then rest else (price, amount) ∷ rest

unfoldable pub gone_levels : Dict Text Text → Dict Text Text → List (Text × Text)
gone_levels after [] = []
gone_levels after ((price, amount) ∷ before) =
    let rest = gone_levels after before in
    if is_there (lookup price after) then rest else (price, codes "0") ∷ rest

abbrev pub side_diff : Dict Text Text → Dict Text Text → List (Text × Text)
side_diff before after = changed_levels before after ++ gone_levels after before

unfoldable pub compute_depth_diff_model : DepthSnapshot → DepthSnapshot → DepthDiff
unfolding changed_levels gone_levels
compute_depth_diff_model before after = record {
  bids = side_diff before.bids after.bids;
  asks = side_diff before.asks after.asks;
}

-- The parameters of a `depth.update`.
pub data Update : Type 0 where
  whole : DepthAnswer → Update
  only : DepthDiff → Update

-- What a session gets.
pub record Notice : Type 0 where
  pub session : ℕ
  pub update : Update

-- `BroadcastToSessions`: a session that is dead gets nothing.
unfoldable pub broadcast : (ℕ → Bool) → List ℕ → Update → List Notice
broadcast is_dead [] update = []
broadcast is_dead (s ∷ sessions) update =
    let rest = broadcast is_dead sessions update in
    if is_dead s then rest else record { session = s; update = update } ∷ rest

abbrev pub needs_clean : ℕ → ℕ → ℕ → Bool
needs_clean clean_interval now last_clean =
    ltb 0 clean_interval && leb clean_interval (now - last_clean)

abbrev pub is_none : Option DepthSnapshot → Bool
is_none none = true
is_none (some snap) = false

-- What is sent for a key whose query has an answer, and the manager afterwards.
unfoldable pub poll_answer : ℕ → ℕ → Text → DepthAnswer → Manager → Update × Manager
unfolding snapshot_of compute_depth_diff_model get_depth_snapshot get_depth_last_clean
    set_depth_snapshot set_depth_last_clean
poll_answer clean_interval now key answer m =
    let fresh = snapshot_of answer in
    let clean = needs_clean clean_interval now (get_depth_last_clean key m) in
    let all : Update × Manager =
      (whole answer, set_depth_snapshot key fresh (set_depth_last_clean key now m)) in
    elim (get_depth_snapshot key m) [
      | none ↦ all
      | some old ↦
          if clean
          then all
          else (only (compute_depth_diff_model old fresh), set_depth_snapshot key fresh m)
    ]

-- One round of the loop of `pollDepth`; `ask` is the query of a market with a limit, `none` its
-- failure. The limit stands at the end of a key as a number.
module _ (is_dead : ℕ → Bool) (ask : Text → ℤ → Option DepthAnswer) (clean_interval now : ℕ) where
  unfoldable pub poll_depth_key : Text → Manager → List Notice × Manager
  unfolding split_key broadcast poll_answer subscribers
  poll_depth_key key m = elim (split_key key) [
    | [] ↦ ([], m)
    | market ∷ [] ↦ ([], m)
    | market ∷ interval ∷ [] ↦ ([], m)
    | market ∷ interval ∷ limit_text ∷ [] ↦
        let limit = elim (read_ℤ limit_text) as (λ o. ℤ) [ none ↦ pos 50 | some n ↦ n ] in
        elim (ask market limit) [
          | none ↦ ([], m)
          | some answer ↦
              let r = poll_answer clean_interval now key answer m in
              (broadcast is_dead (subscribers key m.depth_subs) r.0, r.1)
        ]
    | market ∷ interval ∷ limit_text ∷ more ∷ rest ↦ ([], m)
  ]

  unfoldable pub poll_depth : List Text → Manager → List Notice × Manager
  unfolding poll_depth_key
  poll_depth [] m = ([], m)
  poll_depth (key ∷ keys) m =
      let r = poll_depth_key key m in let later = poll_depth keys r.1 in (r.0 ++ later.0, later.1)

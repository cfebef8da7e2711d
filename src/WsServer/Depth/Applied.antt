-- ===== src/WsServer/Depth/Applied.antt =====
-- What a session holds that applies each update of a depth.
use exchange_server.Base.{
  ℕ, ◌≡◌, refl, ap, subst, ◌∙◌, true, false, Option, none, some, List, [], ◌∷◌, ◌++◌, if◌then◌else◌,
  All, arith, Bool-cases, Option-cases, inl, inr,
}
use exchange_server.Text.{Text, codes, text_eq, text_beq, text_beq_iff}
use exchange_server.Dict.{
  Dict, lookup, insert, erase, lookup-insert, lookup-erase, IsMap, insert-IsMap,
}
use exchange_server.Subscription.{
  Manager, DepthSnapshot, get_depth_snapshot, set_depth_snapshot, get_depth_last_clean,
  set_depth_last_clean,
}
use exchange_server.WsServer.Depth.{
  DepthAnswer, Update, whole, only, levels_of, snapshot_of, changed_levels, gone_levels, side_diff,
  compute_depth_diff_model, is_same, is_there, poll_answer, needs_clean,
}

-- A session that reads a list of levels: the amount 0 takes a price out.
pub apply_levels : List (Text × Text) → Dict Text Text → Dict Text Text
apply_levels [] side = side
apply_levels ((price, amount) ∷ levels) side =
    apply_levels levels
      (if text_beq amount (codes "0") then erase price side else insert price amount side)

-- What a session holds after an update.
pub held_after : Update → DepthSnapshot → DepthSnapshot
held_after (whole answer) held = snapshot_of answer
held_after (only diff) held = record held {
  bids = apply_levels diff.bids held.bids;
  asks = apply_levels diff.asks held.asks;
}

-- Two sides with the same amount at every price.
abbrev pub SameLevels : Dict Text Text → Dict Text Text → Type 0
SameLevels a b = (price : Text) → lookup price a ≡ lookup price b

-- No level has the amount 0.
abbrev pub HasAmounts : Dict Text Text → Type 0
HasAmounts = All (λ (price, amount). text_beq amount (codes "0") ≡ false)

apply_levels-append :
    (xs ys : List (Text × Text)) (side : Dict Text Text)
    → apply_levels (xs ++ ys) side ≡ apply_levels ys (apply_levels xs side)
unfolding apply_levels
apply_levels-append [] ys side = refl
apply_levels-append ((price, amount) ∷ xs) ys side =
    apply_levels-append xs ys
      (if text_beq amount (codes "0") then erase price side else insert price amount side)

apply_levels-write :
    (price amount : Text) (levels : List (Text × Text)) (side : Dict Text Text)
    → text_beq amount (codes "0") ≡ false
    → apply_levels ((price, amount) ∷ levels) side ≡ apply_levels levels (insert price amount side)
unfolding apply_levels
apply_levels-write price amount levels side h =
    let written : (if text_beq amount (codes "0")
          then erase price side
          else insert price amount side)
        ≡ insert price amount side =
      rw h refl in
    ap (apply_levels levels) written

abbrev changed_or : Option Text → Option Text → Option Text → Option Text
changed_or before none held = held
changed_or before (some amount) held = if is_same before amount then held else some amount

lookup-changed :
    (p : Text) (before after side : Dict Text Text)
    → IsMap after
    → HasAmounts after
    → lookup p (apply_levels (changed_levels before after) side)
      ≡ changed_or (lookup p before) (lookup p after) (lookup p side)
unfolding apply_levels changed_levels lookup
lookup-changed p before [] side u h = refl
lookup-changed p before ((price, amount) ∷ after) side u h =
    let ih = lookup-changed p before after side u.1 h.1 in
    let grown : Dict Text Text = insert price amount side in
    let ih_grown = lookup-changed p before after grown u.1 h.1 in
    let put = lookup-insert price p amount side in
    elim (Bool-cases (text_beq price p)) [
      | inl here ↦
          let equal : price ≡ p = (text_beq_iff price p).0 here in
          let absent : lookup p after ≡ none = subst (λ k. lookup k after ≡ none) equal u.0 in
          elim (Bool-cases (is_same (lookup price before) amount)) [
            | inl same ↦
                let old : is_same (lookup p before) amount ≡ true =
                  subst (λ k. is_same (lookup k before) amount ≡ true) equal same in
                rw (same, here, old) (ih ∙ rw absent refl)
            | inr other ↦
                let old : is_same (lookup p before) amount ≡ false =
                  subst (λ k. is_same (lookup k before) amount ≡ false) equal other in
                let found : lookup p grown ≡ some amount = put ∙ rw here refl in
                let wrote =
                  apply_levels-write price amount (changed_levels before after) side h.0 in
                rw (other, here, old) (ap (lookup p) wrote ∙ ih_grown ∙ rw (absent, found) refl)
          ]
      | inr there ↦ elim (Bool-cases (is_same (lookup price before) amount)) [
        | inl same ↦ rw (same, there) ih
        | inr other ↦
            let found : lookup p grown ≡ lookup p side = put ∙ rw there refl in
            let wrote = apply_levels-write price amount (changed_levels before after) side h.0 in
            rw (other, there) (ap (lookup p) wrote ∙ ih_grown ∙ rw found refl)
      ]
    ]

abbrev gone_or : Option Text → Option Text → Option Text → Option Text
gone_or none after held = held
gone_or (some amount) after held = if is_there after then held else none

gone_or-stays :
    (before after held : Option Text) → is_there after ≡ true → gone_or before after held ≡ held
gone_or-stays none after held h = refl
gone_or-stays (some amount) after held h = rw h refl

gone_or-none : (before after : Option Text) → gone_or before after none ≡ none
gone_or-none none after = refl
gone_or-none (some amount) after = ground arith

both_steps :
    (before after : Option Text) → gone_or before after (changed_or before after before) ≡ after
both_steps none none = refl
both_steps none (some amount) = refl
both_steps (some old) none = refl
both_steps (some old) (some amount) = elim (Bool-cases (text_beq old amount)) [
  | inl same ↦ rw same (ap some ((text_beq_iff old amount).0 same))
  | inr other ↦ rw other refl
]

lookup-gone :
    (p : Text) (after before side : Dict Text Text)
    → lookup p (apply_levels (gone_levels after before) side)
      ≡ gone_or (lookup p before) (lookup p after) (lookup p side)
unfolding apply_levels gone_levels lookup
lookup-gone p after [] side = refl
lookup-gone p after ((price, amount) ∷ before) side =
    let ih = lookup-gone p after before side in
    let cut : Dict Text Text = erase price side in
    let ih_cut = lookup-gone p after before cut in
    let taken = lookup-erase price p side in
    elim (Bool-cases (text_beq price p)) [
      | inl here ↦
          let equal : price ≡ p = (text_beq_iff price p).0 here in
          elim (Bool-cases (is_there (lookup price after))) [
            | inl stays ↦
                let now : is_there (lookup p after) ≡ true =
                  subst (λ k. is_there (lookup k after) ≡ true) equal stays in
                rw (stays, here, now)
                  (ih ∙ gone_or-stays (lookup p before) (lookup p after) (lookup p side) now)
            | inr goes ↦
                let now : is_there (lookup p after) ≡ false =
                  subst (λ k. is_there (lookup k after) ≡ false) equal goes in
                let found : lookup p cut ≡ none = taken ∙ rw here refl in
                rw (goes, here, now)
                  (ih_cut ∙ rw found (gone_or-none (lookup p before) (lookup p after)))
          ]
      | inr there ↦ elim (Bool-cases (is_there (lookup price after))) [
        | inl stays ↦ rw (stays, there) ih
        | inr goes ↦
            let found : lookup p cut ≡ lookup p side = taken ∙ rw there refl in
            rw (goes, there) (ih_cut ∙ rw found refl)
      ]
    ]

-- Applied to the side that it starts from, a difference gives the side that it leads to.
side_diff-applied :
    (before after held : Dict Text Text)
    → IsMap after
    → HasAmounts after
    → SameLevels held before
    → SameLevels (apply_levels (side_diff before after) held) after
side_diff-applied before after held u h same p =
    let changed : Dict Text Text = apply_levels (changed_levels before after) held in
    ap (lookup p)
      (apply_levels-append (changed_levels before after) (gone_levels after before) held)
    ∙ lookup-gone p after before changed
    ∙ ap (gone_or (lookup p before) (lookup p after)) (
        lookup-changed p before after held u h
        ∙ ap (changed_or (lookup p before) (lookup p after)) (same p))
    ∙ both_steps (lookup p before) (lookup p after)

levels_of-IsMap :
    (rows : List (List Text)) (side : Dict Text Text) → IsMap side → IsMap (levels_of rows side)
unfolding levels_of
levels_of-IsMap [] side h = h
levels_of-IsMap ([] ∷ rows) side h = levels_of-IsMap rows side h
levels_of-IsMap ((price ∷ []) ∷ rows) side h = levels_of-IsMap rows side h
levels_of-IsMap ((price ∷ amount ∷ more) ∷ rows) side h =
    levels_of-IsMap rows (insert price amount side) (insert-IsMap price amount side h)

-- A session holds what the service took last for a key.
abbrev pub Holds : DepthSnapshot → Text → Manager → Type 0
Holds held key m =
    (last : DepthSnapshot)
    → get_depth_snapshot key m ≡ some last
    → SameLevels held.bids last.bids × SameLevels held.asks last.asks

stored :
    (key : Text) (fresh : DepthSnapshot) (m : Manager)
    → get_depth_snapshot key (set_depth_snapshot key fresh m) ≡ some fresh
unfolding get_depth_snapshot set_depth_snapshot
stored key fresh m =
    lookup-insert key key fresh m.depth_snapshots ∙ rw ((text_beq_iff key key).1 refl) refl

-- A session that holds the depth that the service took last, and applies what it is sent for the
-- next answer, holds the levels of that answer, whether it is sent the whole answer or only the
-- difference: a price with the amount 0 is one to take out, and the answer itself has no amount 0.
pub poll_answer_lem :
    (clean_interval now : ℕ) (key : Text) (answer : DepthAnswer) (m : Manager)
    (held : DepthSnapshot)
    → HasAmounts (snapshot_of answer).bids
    → HasAmounts (snapshot_of answer).asks
    → Holds held key m
    → let r = poll_answer clean_interval now key answer m in
      (get_depth_snapshot key r.1 ≡ some (snapshot_of answer))
      × SameLevels (held_after r.0 held).bids (snapshot_of answer).bids
      × SameLevels (held_after r.0 held).asks (snapshot_of answer).asks
unfolding poll_answer held_after compute_depth_diff_model
poll_answer_lem clean_interval now key answer m held hb ha holds =
    let fresh : DepthSnapshot = snapshot_of answer in
    let cleaned : Manager = set_depth_last_clean key now m in
    elim (Option-cases (get_depth_snapshot key m)) [
      | inl absent ↦ rw (absent, poll_answer) (stored key fresh cleaned, λ p. refl, λ p. refl)
      | inr (old, found) ↦
          elim (Bool-cases (needs_clean clean_interval now (get_depth_last_clean key m))) [
            | inl clean ↦
                rw (found, clean, poll_answer) (stored key fresh cleaned, λ p. refl, λ p. refl)
            | inr dirty ↦
                let same = holds old found in
                rw (found, dirty, poll_answer)
                  (
                    stored key fresh m,
                    side_diff-applied old.bids fresh.bids held.bids
                        (levels_of-IsMap answer.bids [] tt) hb same.0,
                    side_diff-applied old.asks fresh.asks held.asks
                        (levels_of-IsMap answer.asks [] tt) ha same.1,
                  )
          ]
    ]

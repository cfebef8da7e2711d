-- ===== src/WsServer/Deals/Once.antt =====
-- Between which ids the deals lie that one round of `pollDeals` sends.
use exchange_server.Base.{
  ℕ, ◌≤◌, ◌<◌, ◌≡◌, refl, sym, subst, ◌∙◌, Bool, Option, some, List, [], ◌∷◌, ltb, ltb→lt,
  filter_keeps, filter_skips, All, arith, Bool-cases, Option-cases, inl, inr,
}
use exchange_server.Text.{Text, text_eq, text_beq_iff}
use exchange_server.Dict.{lookup, insert, lookup-insert}
use exchange_server.DealsBuffer.{DealRecord, DealsBuffer, add_record}
use exchange_server.Subscription.{Manager, subscribers, get_deals_buffer}
use exchange_server.WsServer.Deals.{
  DealsNotice, add_deals, broadcast_deals, new_deals, send_deals, take_deals, poll_deals_market,
}

pub last_id_grows : (d : DealRecord) (b : DealsBuffer) → b.last_id ≤ (add_record d b).last_id
unfolding add_record
last_id_grows d b = ground arith

last_id_covers : (d : DealRecord) (b : DealsBuffer) → d.id ≤ (add_record d b).last_id
unfolding add_record
last_id_covers d b = ground arith

pub add_deals_grows : (l : List DealRecord) (b : DealsBuffer) → b.last_id ≤ (add_deals l b).last_id
unfolding add_deals
add_deals_grows [] b = omega arith
add_deals_grows (d ∷ l) b = omega (arith, last_id_grows d b, add_deals_grows l (add_record d b))

-- A deal of the answer that is later than the last one before, and not later than the last one
-- afterwards.
abbrev pub IsBetween : ℕ → ℕ → DealRecord → Type 0
IsBetween before after d = (before < d.id) × (d.id ≤ after)

new_deals-IsBetween :
    (l : List DealRecord) (b : DealsBuffer) (before : ℕ)
    → All (IsBetween before (add_deals l b).last_id) (new_deals before l)
unfolding add_deals
new_deals-IsBetween [] b before = tt
new_deals-IsBetween (d ∷ l) b before =
    let covered : d.id ≤ (add_deals l (add_record d b)).last_id =
      omega (arith, last_id_covers d b, add_deals_grows l (add_record d b)) in
    let rest = new_deals-IsBetween l (add_record d b) before in
    let later_than : DealRecord → Bool = λ x. ltb before x.id in
    let Between : List DealRecord → Type 0 =
      All (IsBetween before (add_deals l (add_record d b)).last_id) in
    elim (Bool-cases (ltb before d.id)) [
      | inl later ↦
          subst Between (sym (filter_keeps later_than d l later))
            ((ltb→lt before d.id later, covered), rest)
      | inr known ↦ subst Between (sym (filter_skips later_than d l known)) rest
    ]

abbrev pub AllSent : ℕ → ℕ → List DealsNotice → Type 0
AllSent before after = All (λ n. All (IsBetween before after) n.deals)

broadcast_deals-AllSent :
    (is_dead : ℕ → Bool) (before after : ℕ) (deals : List DealRecord) (sessions : List ℕ)
    → All (IsBetween before after) deals
    → AllSent before after (broadcast_deals is_dead deals sessions)
unfolding broadcast_deals
broadcast_deals-AllSent is_dead before after deals [] h = tt
broadcast_deals-AllSent is_dead before after deals (s ∷ sessions) h =
    let rest = broadcast_deals-AllSent is_dead before after deals sessions h in
    elim (Bool-cases (is_dead s)) [ inl dead ↦ rw dead rest | inr live ↦ rw live (h, rest) ]

send_deals-AllSent :
    (is_dead : ℕ → Bool) (before after : ℕ) (sessions : List ℕ) (deals : List DealRecord)
    → All (IsBetween before after) deals
    → AllSent before after (send_deals is_dead sessions deals)
send_deals-AllSent is_dead before after sessions [] h = tt
send_deals-AllSent is_dead before after sessions (d ∷ deals) h =
    broadcast_deals-AllSent is_dead before after (d ∷ deals) sessions h

buffer_of-insert :
    (market : Text) (b : DealsBuffer) (m : Manager)
    → (get_deals_buffer market (record m { deals_buffers = insert market b m.deals_buffers })).0 ≡ b
unfolding get_deals_buffer
buffer_of-insert market b m =
    let e : lookup market (insert market b m.deals_buffers) ≡ some b =
      lookup-insert market market b m.deals_buffers
      ∙ rw ((text_beq_iff market market).1 refl) refl in
    rw (e, get_deals_buffer) refl

take_deals-AllSent :
    (is_dead : ℕ → Bool) (market : Text) (b : DealsBuffer) (m : Manager) (deals : List DealRecord)
    → let r = take_deals is_dead market b m deals in
      AllSent b.last_id (get_deals_buffer market r.1).0.last_id r.0
unfolding take_deals
take_deals-AllSent is_dead market b m [] = tt
take_deals-AllSent is_dead market b m (d ∷ deals) =
    let after : DealsBuffer = add_deals (d ∷ deals) b in
    let sessions : List ℕ = subscribers market m.deals_subs in
    let new : List DealRecord = new_deals b.last_id (d ∷ deals) in
    subst (λ buffer. AllSent b.last_id buffer.last_id (send_deals is_dead sessions new))
      (sym (buffer_of-insert market after m))
      (send_deals-AllSent is_dead b.last_id after.last_id sessions new
        (new_deals-IsBetween (d ∷ deals) b b.last_id))

-- Each deal that a poll of a market sends is later than the last one of the buffer before the poll,
-- and not later than the last one of the buffer afterwards.
pub poll_deals_market_lem :
    (is_dead : ℕ → Bool) (ask : Text → ℕ → Option (List DealRecord)) (market : Text) (m : Manager)
    → let r = poll_deals_market is_dead ask market m in
      AllSent (get_deals_buffer market m).0.last_id (get_deals_buffer market r.1).0.last_id r.0
unfolding poll_deals_market
poll_deals_market_lem is_dead ask market m =
    let opened : DealsBuffer × Manager = get_deals_buffer market m in
    elim (Option-cases (ask market opened.0.last_id)) [
      | inl failed ↦ rw (failed, poll_deals_market) tt
      | inr (deals, answered) ↦
          rw (answered, poll_deals_market)
            (take_deals-AllSent is_dead market opened.0 opened.1 deals)
    ]

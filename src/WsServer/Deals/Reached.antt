-- ===== src/WsServer/Deals/Reached.antt =====
-- Whom the deals reach that one round of `pollDeals` sends.
use mathlib.Core.List.{Mem, not-mem-nil, eq-or-mem_of_mem-cons}
use mathlib.Core.Logic.Or
use exchange_server.Base.{
  ℕ, ◌<◌, ◌≡◌, sym, subst, ap, ◌∙◌, Bool, true, false, Option, some, List, [], ◌∷◌, ◌==◌, ◌&&◌,
  ◌||◌, nat_eq, ltb, filter_keeps, filter_skips, arith, Bool-cases, inl, inr,
}
use exchange_server.Text.{Text, text_eq}
use exchange_server.DealsBuffer.{DealRecord, DealsBuffer}
use exchange_server.Subscription.{Manager, subscribers, get_deals_buffer}
use exchange_server.WsServer.Deals.{
  DealsNotice, broadcast_deals, new_deals, send_deals, take_deals, poll_deals_market,
}
use exchange_server.WsServer.Deals.Resent.{last_of, opened_last}

-- Whether a deal of an id is among some deals, and among those that a session gets.
abbrev pub has_id : ℕ → List DealRecord → Bool
has_id id [] = false
has_id id (d ∷ deals) = (d.id == id) || has_id id deals

abbrev pub reaches : ℕ → ℕ → List DealsNotice → Bool
reaches session id [] = false
reaches session id (n ∷ notices) =
    ((n.session == session) && has_id id n.deals) || reaches session id notices

has_id-filter :
    (before : ℕ) (d : DealRecord) (deals : List DealRecord)
    → before < d.id
    → Mem d deals
    → has_id d.id (new_deals before deals) ≡ true
has_id-filter before d [] new m = absurd (not-mem-nil m)
has_id-filter before d (x ∷ deals) new m =
    let goal : IsProp (has_id d.id (new_deals before (x ∷ deals)) ≡ true) = hlevel in
    let later_than : DealRecord → Bool = λ r. ltb before r.id in
    Or.elim goal (eq-or-mem_of_mem-cons m)
      (λ same.
        let own : later_than x ≡ true =
          subst (λ r. later_than r ≡ true) same (ground (arith, new)) in
        let equal : (x.id == d.id) ≡ true =
          (nat_eq.beq_iff x.id d.id).1 (ap (λ r. r.id) (sym same)) in
        ap (has_id d.id) (filter_keeps later_than x deals own) ∙ rw equal)
      (λ rest.
        let found = has_id-filter before d deals new rest in
        elim (Bool-cases (later_than x)) [
          | inl keeps ↦
              ap (has_id d.id) (filter_keeps later_than x deals keeps) ∙ ground (arith, found)
          | inr skips ↦ ap (has_id d.id) (filter_skips later_than x deals skips) ∙ found
        ])

reaches-broadcast_deals :
    (is_dead : ℕ → Bool) (session id : ℕ) (deals : List DealRecord) (sessions : List ℕ)
    → is_dead session ≡ false
    → has_id id deals ≡ true
    → Mem session sessions
    → reaches session id (broadcast_deals is_dead deals sessions) ≡ true
unfolding broadcast_deals
reaches-broadcast_deals is_dead session id deals [] live has m = absurd (not-mem-nil m)
reaches-broadcast_deals is_dead session id deals (s ∷ sessions) live has m =
    let goal : IsProp (reaches session id (broadcast_deals is_dead deals (s ∷ sessions)) ≡ true) =
      hlevel in
    Or.elim goal (eq-or-mem_of_mem-cons m)
      (λ same.
        let own : is_dead s ≡ false = subst (λ x. is_dead x ≡ false) same live in
        let equal : (s == session) ≡ true = (nat_eq.beq_iff s session).1 (sym same) in
        rw own (rw (equal, has)))
      (λ rest.
        let found = reaches-broadcast_deals is_dead session id deals sessions live has rest in
        elim (Bool-cases (is_dead s)) [
          | inl dead ↦ rw dead found
          | inr alive ↦ rw alive (ground (arith, found))
        ])

reaches-send_deals :
    (is_dead : ℕ → Bool) (session id : ℕ) (deals : List DealRecord) (sessions : List ℕ)
    → is_dead session ≡ false
    → has_id id deals ≡ true
    → Mem session sessions
    → reaches session id (send_deals is_dead sessions deals) ≡ true
reaches-send_deals is_dead session id [] sessions live has m = ground (arith, has)
reaches-send_deals is_dead session id (d ∷ deals) sessions live has m =
    reaches-broadcast_deals is_dead session id (d ∷ deals) sessions live has m

opened_subs :
    (market : Text) (m : Manager) → (get_deals_buffer market m).1.deals_subs ≡ m.deals_subs
unfolding get_deals_buffer
opened_subs market m = ground arith

reaches-take_deals :
    (is_dead : ℕ → Bool) (market : Text) (b : DealsBuffer) (m : Manager) (deals : List DealRecord)
    (session : ℕ) (d : DealRecord)
    → is_dead session ≡ false
    → Mem session (subscribers market m.deals_subs)
    → Mem d deals
    → b.last_id < d.id
    → reaches session d.id (take_deals is_dead market b m deals).0 ≡ true
unfolding take_deals
reaches-take_deals is_dead market b m [] session d live listens found new =
    absurd (not-mem-nil found)
reaches-take_deals is_dead market b m (x ∷ deals) session d live listens found new =
    reaches-send_deals is_dead session d.id (new_deals b.last_id (x ∷ deals))
      (subscribers market m.deals_subs) live (has_id-filter b.last_id d (x ∷ deals) new found)
      listens

-- When the query of a round is answered, each session that lives and subscribed to the market's
-- deals is sent, for each deal of the answer with a higher id than the last one of the market's
-- buffer, a deal of that id.
pub reaches-poll_deals_market :
    (is_dead : ℕ → Bool) (ask : Text → ℕ → Option (List DealRecord)) (market : Text) (m : Manager)
    (deals : List DealRecord) (session : ℕ) (d : DealRecord)
    → ask market (last_of market m) ≡ some deals
    → is_dead session ≡ false
    → Mem session (subscribers market m.deals_subs)
    → Mem d deals
    → last_of market m < d.id
    → reaches session d.id (poll_deals_market is_dead ask market m).0 ≡ true
unfolding poll_deals_market
reaches-poll_deals_market is_dead ask market m deals session d answered live listens found new =
    let opened : DealsBuffer × Manager = get_deals_buffer market m in
    let asked : ask market opened.0.last_id ≡ some deals =
      ap (ask market) (opened_last market m) ∙ answered in
    rw (asked, poll_deals_market)
      (reaches-take_deals is_dead market opened.0 opened.1 deals session d live
        (subst (λ subs. Mem session (subscribers market subs)) (sym (opened_subs market m)) listens)
        found (subst (λ last. last < d.id) (sym (opened_last market m)) new))

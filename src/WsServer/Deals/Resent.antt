-- ===== src/WsServer/Deals/Resent.antt =====
-- The rounds of `pollDeals`, of any markets and in any order, with what other calls do to the
-- manager in between: which deals reach the subscribers of a market.
use exchange_server.Base.{
  ℕ, ◌≤◌, ◌<◌, ◌≡◌, subst, Bool, Option, none, some, List, [], ◌∷◌, ◌++◌, if◌then◌else◌, All,
  All-append, arith, Bool-cases, Option-cases, inl, inr,
}
use exchange_server.Text.{Text, text_eq, text_beq, text_beq_iff}
use exchange_server.Dict.{lookup, insert, lookup-insert}
use exchange_server.DealsBuffer.{DealRecord, DealsBuffer, add_record, new_deals_buffer}
use exchange_server.DealsBuffer.Ordered.{All-map}
use exchange_server.Subscription.{Topics, Manager, get_deals_buffer, update_deals_buffer}
use exchange_server.WsServer.Deals.{DealsNotice, add_deals, take_deals, poll_deals_market}
use exchange_server.WsServer.Deals.Once.{
  IsBetween, AllSent, add_deals_grows, last_id_grows, poll_deals_market_lem,
}

-- A round for a market, with what the sessions and the query are at that moment; a deal that goes
-- into a market's buffer; a change of who subscribes to deals.
pub data Step : Type 0 where
  poll : (ℕ → Bool) → (Text → ℕ → Option (List DealRecord)) → Text → Step
  update : Text → DealRecord → Step
  resubscribe : Topics → Step

-- What the rounds send, each with its market, and the manager afterwards.
unfoldable pub run : List Step → Manager → List (Text × List DealsNotice) × Manager
unfolding poll_deals_market update_deals_buffer
run [] m = ([], m)
run (poll is_dead ask market ∷ steps) m =
    let r = poll_deals_market is_dead ask market m in
    let later = run steps r.1 in ((market, r.0) ∷ later.0, later.1)
run (update market deal ∷ steps) m = run steps (update_deals_buffer market deal m)
run (resubscribe subs ∷ steps) m = run steps (record m { deals_subs = subs })

abbrev pub noticed : List DealsNotice → List DealRecord
noticed [] = []
noticed (n ∷ notices) = n.deals ++ noticed notices

-- The deals that sessions got of a market.
abbrev pub sent : Text → List (Text × List DealsNotice) → List DealRecord
sent market [] = []
sent market ((other, notices) ∷ out) =
    if text_beq other market then noticed notices ++ sent market out else sent market out

-- The last id of a market's buffer, 0 where it has none.
abbrev pub last_of : Text → Manager → ℕ
last_of market m = elim (lookup market m.deals_buffers) [ none ↦ 0 | some b ↦ b.last_id ]

pub opened_last :
    (market : Text) (m : Manager) → (get_deals_buffer market m).0.last_id ≡ last_of market m
unfolding get_deals_buffer new_deals_buffer
opened_last market m = ground arith

insert_grows :
    (market other : Text) (b : DealsBuffer) (m : Manager)
    → last_of market m ≤ b.last_id
    → last_of other m ≤ last_of other (record m { deals_buffers = insert market b m.deals_buffers })
insert_grows market other b m h =
    ground (arith, lookup-insert market other b m.deals_buffers, text_beq_iff market other)

-- To ask for a market's buffer makes none with a lower last id.
open_grows :
    (market other : Text) (m : Manager)
    → last_of other m ≤ last_of other (get_deals_buffer market m).1
unfolding get_deals_buffer new_deals_buffer
open_grows market other m = ground (
  arith,
  lookup-insert market other (new_deals_buffer 100) m.deals_buffers,
  text_beq_iff market other,
)

open_keeps :
    (market : Text) (m : Manager) → last_of market (get_deals_buffer market m).1 ≡ last_of market m
unfolding get_deals_buffer new_deals_buffer
open_keeps market m = ground (
  arith,
  lookup-insert market market (new_deals_buffer 100) m.deals_buffers,
  text_beq_iff market market,
)

take_grows :
    (is_dead : ℕ → Bool) (market other : Text) (b : DealsBuffer) (m : Manager)
    (deals : List DealRecord)
    → last_of market m ≤ b.last_id
    → last_of other m ≤ last_of other (take_deals is_dead market b m deals).1
unfolding take_deals
take_grows is_dead market other b m [] h = omega arith
take_grows is_dead market other b m (d ∷ deals) h =
    insert_grows market other (add_deals (d ∷ deals) b) m
      (omega (arith, h, add_deals_grows (d ∷ deals) b))

poll_grows :
    (is_dead : ℕ → Bool) (ask : Text → ℕ → Option (List DealRecord)) (market other : Text)
    (m : Manager)
    → last_of other m ≤ last_of other (poll_deals_market is_dead ask market m).1
unfolding poll_deals_market
poll_grows is_dead ask market other m =
    let opened : DealsBuffer × Manager = get_deals_buffer market m in
    let grown = open_grows market other m in
    elim (Option-cases (ask market opened.0.last_id)) [
      | inl failed ↦ rw (failed, poll_deals_market) grown
      | inr (deals, answered) ↦
          let covered : last_of market opened.1 ≤ opened.0.last_id =
            omega (arith, open_keeps market m, opened_last market m) in
          let taken = take_grows is_dead market other opened.0 opened.1 deals covered in
          rw (answered, poll_deals_market) (omega (arith, grown, taken))
    ]

update_grows :
    (market other : Text) (deal : DealRecord) (m : Manager)
    → last_of other m ≤ last_of other (update_deals_buffer market deal m)
unfolding update_deals_buffer
update_grows market other deal m =
    let opened : DealsBuffer × Manager = get_deals_buffer market m in
    let grown = open_grows market other m in
    let covered : last_of market opened.1 ≤ (add_record deal opened.0).last_id =
      omega (arith, open_keeps market m, opened_last market m, last_id_grows deal opened.0) in
    let added = insert_grows market other (add_record deal opened.0) opened.1 covered in
    omega (arith, grown, added)

-- No step lets the last id of a market's buffer fall.
run_grows :
    (steps : List Step) (market : Text) (m : Manager)
    → last_of market m ≤ last_of market (run steps m).1
unfolding run
run_grows [] market m = omega arith
run_grows (poll is_dead ask other ∷ steps) market m =
    let polled = poll_deals_market is_dead ask other m in
    omega (arith, poll_grows is_dead ask other market m, run_grows steps market polled.1)
run_grows (update other deal ∷ steps) market m = omega (
  arith,
  update_grows other market deal m,
  run_grows steps market (update_deals_buffer other deal m),
)
run_grows (resubscribe subs ∷ steps) market m =
    run_grows steps market (record m { deals_subs = subs })

noticed-IsBetween :
    (before after : ℕ) (notices : List DealsNotice)
    → AllSent before after notices
    → All (IsBetween before after) (noticed notices)
noticed-IsBetween before after [] h = tt
noticed-IsBetween before after (n ∷ notices) h =
    All-append (IsBetween before after) n.deals (noticed notices) h.0
      (noticed-IsBetween before after notices h.1)

-- Wider bounds hold as well.
IsBetween-widen :
    (a b c f : ℕ) (deals : List DealRecord)
    → c ≤ a
    → b ≤ f
    → All (IsBetween a b) deals
    → All (IsBetween c f) deals
IsBetween-widen a b c f deals low high h =
    All-map (IsBetween a b) (IsBetween c f) deals
      (λ d r. (omega (arith, r.0, low), omega (arith, r.1, high))) h

poll-IsBetween :
    (is_dead : ℕ → Bool) (ask : Text → ℕ → Option (List DealRecord)) (market : Text) (m : Manager)
    → let r = poll_deals_market is_dead ask market m in
      All (IsBetween (last_of market m) (last_of market r.1)) (noticed r.0)
poll-IsBetween is_dead ask market m =
    let r = poll_deals_market is_dead ask market m in
    noticed-IsBetween (last_of market m) (last_of market r.1) r.0 (
      subst (λ b. AllSent b (last_of market r.1) r.0) (opened_last market m)
        (subst (λ b. AllSent (get_deals_buffer market m).0.last_id b r.0) (opened_last market r.1)
          (poll_deals_market_lem is_dead ask market m)))

-- What a run sends of a market lies between the last ids before and after it.
run-IsBetween :
    (steps : List Step) (market : Text) (m : Manager)
    → let r = run steps m in
      All (IsBetween (last_of market m) (last_of market r.1)) (sent market r.0)
unfolding run
run-IsBetween [] market m = tt
run-IsBetween (poll is_dead ask other ∷ steps) market m =
    let polled = poll_deals_market is_dead ask other m in
    let later = run steps polled.1 in
    let before = last_of market m in
    let between = last_of market polled.1 in
    let after = last_of market later.1 in
    let first = poll_grows is_dead ask other market m in
    let rest =
      IsBetween-widen between after before after (sent market later.0) first (omega arith)
        (run-IsBetween steps market polled.1) in
    elim (Bool-cases (text_beq other market)) [
      | inr apart ↦ rw apart rest
      | inl same ↦
          let own : All (IsBetween before between) (noticed polled.0) =
            subst (λ k. All (IsBetween (last_of k m) (last_of k polled.1)) (noticed polled.0))
              ((text_beq_iff other market).0 same) (poll-IsBetween is_dead ask other m) in
          rw same (
            All-append (IsBetween before after) (noticed polled.0) (sent market later.0)
              (IsBetween-widen before between before after (noticed polled.0) (omega arith)
                (run_grows steps market polled.1) own)
              rest)
    ]
run-IsBetween (update other deal ∷ steps) market m =
    let updated = update_deals_buffer other deal m in
    IsBetween-widen (last_of market updated) (last_of market (run steps updated).1)
      (last_of market m) (last_of market (run steps updated).1) (sent market (run steps updated).0)
      (update_grows other market deal m) (omega arith) (run-IsBetween steps market updated)
run-IsBetween (resubscribe subs ∷ steps) market m =
    run-IsBetween steps market (record m { deals_subs = subs })

-- Whatever rounds, of any markets, new deals and changes of the subscribers come before and
-- after: each deal of a market that the earlier rounds send has a lower id than each deal of that
-- market that the later rounds send, so no round sends again what one before it sent.
pub run_resends_none :
    (earlier later : List Step) (market : Text) (m : Manager)
    → let r = run earlier m in
      All (λ d. All (λ again. d.id < again.id) (sent market (run later r.1).0)) (sent market r.0)
run_resends_none earlier later market m =
    let r = run earlier m in
    let next = run later r.1 in
    All-map (IsBetween (last_of market m) (last_of market r.1))
      (λ d. All (λ again. d.id < again.id) (sent market next.0)) (sent market r.0)
      (λ d old.
        All-map (IsBetween (last_of market r.1) (last_of market next.1)) (λ again. d.id < again.id)
          (sent market next.0) (λ again new. omega (arith, old.1, new.0))
          (run-IsBetween later market r.1))
      (run-IsBetween earlier market m)

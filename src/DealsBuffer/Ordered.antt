-- ===== src/DealsBuffer/Ordered.antt =====
-- The ids and the number of the deals that `Add` of the buffer keeps.
use exchange_server.Base.{
  ℕ, zero, suc, ◌-◌, ◌≤◌, ◌<◌, List, [], ◌∷◌, ◌++◌, leb, ltb, length, drop, length-drop, All,
  All-drop, All-append, arith, Bool-cases, inl, inr,
}
use exchange_server.DealsBuffer.{DealRecord, DealsBuffer, new_deals_buffer, add_record}

-- Each id is below every later one.
pub Ascending : List DealRecord → Type 0
Ascending [] = Unit
Ascending (r ∷ l) = All (λ later. r.id < later.id) l × Ascending l

pub record IsOrdered (b : DealsBuffer) : Type 0 where
  pub ascending : Ascending b.records
  pub seen : All (λ r. r.id ≤ b.last_id) b.records
  pub bounded : length b.records ≤ b.max_size

pub add_records : List DealRecord → DealsBuffer → DealsBuffer
add_records [] b = b
add_records (deal ∷ deals) b = add_records deals (add_record deal b)

pub All-map :
    (P Q : DealRecord → Type 0) (l : List DealRecord)
    → ((r : DealRecord) → P r → Q r)
    → All P l
    → All Q l
All-map P Q [] f h = tt
All-map P Q (r ∷ l) f h = (f r h.0, All-map P Q l f h.1)

Ascending-append :
    (l : List DealRecord) (deal : DealRecord)
    → All (λ r. r.id < deal.id) l
    → Ascending l
    → Ascending (l ++ deal ∷ [])
unfolding Ascending
Ascending-append [] deal h k = (tt, tt)
Ascending-append (r ∷ l) deal h k = (
  All-append (λ later. r.id < later.id) l (deal ∷ []) k.0 (h.0, tt),
  Ascending-append l deal h.1 k.1,
)

Ascending-drop : (n : ℕ) (l : List DealRecord) → Ascending l → Ascending (drop n l)
unfolding Ascending
Ascending-drop zero l h = h
Ascending-drop (suc n) [] h = tt
Ascending-drop (suc n) (r ∷ l) h = Ascending-drop n l h.1

add_record-IsOrdered :
    (deal : DealRecord) (b : DealsBuffer) → IsOrdered b → IsOrdered (add_record deal b)
unfolding add_record
add_record-IsOrdered deal b h = elim (Bool-cases (leb deal.id b.last_id)) [
  | inl old ↦ rw old h
  | inr new ↦
      let grown = b.records ++ deal ∷ [] in
      let later : b.last_id < deal.id = ground arith in
      let up =
        Ascending-append b.records deal
          (All-map (λ r. r.id ≤ b.last_id) (λ r. r.id < deal.id) b.records
            (λ r k. omega (arith, k, later)) h.seen)
          h.ascending in
      let seen : All (λ r. r.id ≤ deal.id) grown =
        All-append (λ r. r.id ≤ deal.id) b.records (deal ∷ [])
          (All-map (λ r. r.id ≤ b.last_id) (λ r. r.id ≤ deal.id) b.records
            (λ r k. omega (arith, k, later)) h.seen)
          (omega arith, tt) in
      elim (Bool-cases (ltb b.max_size (length grown))) [
        | inl full ↦
            rw (new, full)
              (record {
                ascending = Ascending-drop (length grown - b.max_size) grown up;
                seen = All-drop (λ r. r.id ≤ deal.id) (length grown - b.max_size) grown seen;
                bounded = omega (arith, length-drop (length grown - b.max_size) grown);
              })
        | inr room ↦ rw (new, room) (record { ascending = up; seen = seen; bounded = ground arith })
      ]
]

add_records-from :
    (deals : List DealRecord) (b : DealsBuffer) → IsOrdered b → IsOrdered (add_records deals b)
unfolding add_records
add_records-from [] b h = h
add_records-from (deal ∷ deals) b h =
    add_records-from deals (add_record deal b) (add_record-IsOrdered deal b h)

-- Whatever deals come in, a buffer that starts empty holds deals in the strict order of their ids,
-- none of them newer than its last id, and no more of them than its size.
pub add_records-IsOrdered :
    (deals : List DealRecord) (max_size : ℕ)
    → IsOrdered (add_records deals (new_deals_buffer max_size))
unfolding new_deals_buffer Ascending
add_records-IsOrdered deals max_size =
    add_records-from deals (new_deals_buffer max_size)
      (record { ascending = tt; seen = tt; bounded = omega arith })

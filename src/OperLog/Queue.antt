-- ===== src/OperLog/Queue.antt =====
-- What the queue of the operation logs holds after any writes, with no flush between them.
use mathlib.Core.List.{append_assoc, append-nil}
use exchange_server.Base.{
  ℕ, zero, suc, ◌≤◌, ◌≡◌, refl, sym, ap, ◌∙◌, true, false, List, [], ◌∷◌, ◌++◌, leb, length,
  length-append, take, arith, Bool-cases, inl, inr,
}
use exchange_server.OperLog.{OperLog, OperLogWriter, write_log, max_oper_log_queue_size}

pub write_logs : List OperLog → OperLogWriter → OperLogWriter
write_logs [] w = w
write_logs (log ∷ logs) w = write_logs logs (write_log log w)

take-first : {A : Type 0} (n : ℕ) (l r : List A) → length l ≡ n → take n (l ++ r) ≡ l
take-first zero [] r h = refl
take-first zero (x ∷ l) r h = absurd (omega arith)
take-first (suc n) [] r h = absurd (omega arith)
take-first (suc n) (x ∷ l) r h = ap (◌∷◌ x) (take-first n l r (omega arith))

take-few : {A : Type 0} (n : ℕ) (l : List A) → length l ≤ n → take n l ≡ l
take-few zero [] h = refl
take-few zero (x ∷ l) h = absurd (omega arith)
take-few (suc n) [] h = refl
take-few (suc n) (x ∷ l) h = ap (◌∷◌ x) (take-few n l (omega arith))

write_log-full :
    (log : OperLog) (w : OperLogWriter)
    → leb max_oper_log_queue_size (length w.logs) ≡ true
    → write_log log w ≡ record w { blocked = true }
unfolding write_log
write_log-full log w full = rw full

write_log-room :
    (log : OperLog) (w : OperLogWriter)
    → leb max_oper_log_queue_size (length w.logs) ≡ false
    → write_log log w ≡ record { logs = w.logs ++ log ∷ []; blocked = false }
unfolding write_log
write_log-room log w room = rw room

-- Logs are written with no flush between them: a queue that is not over its limit of ten thousand
-- logs keeps the logs it has and the first of those written, up to the limit; the logs written
-- after that are lost.
pub write_logs-logs :
    (logs : List OperLog) (w : OperLogWriter)
    → length w.logs ≤ max_oper_log_queue_size
    → (write_logs logs w).logs ≡ take max_oper_log_queue_size (w.logs ++ logs)
unfolding write_logs
write_logs-logs [] w h = sym (
    ap (take max_oper_log_queue_size) (append-nil w.logs)
    ∙ take-few max_oper_log_queue_size w.logs h)
write_logs-logs (log ∷ logs) w h =
    let max = max_oper_log_queue_size in
    elim (Bool-cases (leb max (length w.logs))) [
      | inl full ↦
          let size : length w.logs ≡ max = ground arith in
          ap (λ v. (write_logs logs v).logs) (write_log-full log w full)
          ∙ write_logs-logs logs (record w { blocked = true }) h
          ∙ take-first max w.logs logs size
          ∙ sym (take-first max w.logs (log ∷ logs) size)
      | inr room ↦
          let more : length (w.logs ++ log ∷ []) ≤ max =
            ground (arith, length-append w.logs (log ∷ [])) in
          ap (λ v. (write_logs logs v).logs) (write_log-room log w room)
          ∙ write_logs-logs logs (record { logs = w.logs ++ log ∷ []; blocked = false }) more
          ∙ ap (take max) (append_assoc w.logs (log ∷ []) logs)
    ]

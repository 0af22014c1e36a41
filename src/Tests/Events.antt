-- ===== src/Tests/Events.antt =====
-- Event rows and their leases at concrete tables.
use ai_ops.Store.Table.{update_row, find_row}
use ai_ops.Prelude.{
  is_blank, ℕ, ◌+◌, ◌≡◌, refl, true, false, Option, none, some, List, [], ◌∷◌, String, arith, leb,
  if◌then◌else◌, ◌*◌, ◌^◌, ◌-◌,
}
use ai_ops.Result.{require_aware, ok, err, Moment, aware, lease_held}
use ai_ops.Store.Rows.{EventState, admitted, running, retryable_failed, completed, EventRow, Db}
use ai_ops.Store.Events.{
  retry_target, validate_lease_fence, find_event, set_event, log_attempt, acquire_lease, leased,
  lease_reason, transition, schedule_retry, retried, renew_lease, failures, RetryRecord,
}
use ai_ops.Store.Run.{Op, create, move, acquire, run, step}
use ai_ops.Store.Lifecycle.Rules.{RowStep, step-RowStep}
use ai_ops.Store.Lifecycle.Invariant.{IsConsistent, OnRow, run-IsConsistent}
use ai_ops.Store.Lease.Exclusion.{is_ok, acquire_lease_exclusive, schedule_retry-acquire_lease}
use ai_ops.Store.Lease.Fencing.{stale_worker_fenced}
use ai_ops.Store.Lease.Unowned.{renew_lease_unowned}
use ai_ops.Store.Trail.{HasTrail}
use ai_ops.Store.Trail.Steps.{run-HasTrail}
use ai_ops.Tests.Data.{alarm, row_in, empty_db, db_in}

abbrev life : List Op
life =
    create 10 "e1" "PE1" alarm true
    ∷ move 11 none "e1" admitted none none none none
    ∷ acquire 20 none "e1" "w1" 50
    ∷ move 30 none "e1" completed none none (some "w1") (some 1)
    ∷ []

step-RowStep_example :
    RowStep
      (find_event "e1" (db_in admitted))
      (find_event "e1" (step (acquire 20 none "e1" "w1" 50) (db_in admitted)))
step-RowStep_example = step-RowStep (acquire 20 none "e1" "w1" 50) (db_in admitted) "e1"

run-IsConsistent_example : OnRow IsConsistent (find_event "e1" (run life empty_db))
unfolding find_row
run-IsConsistent_example = run-IsConsistent life empty_db "e1" (tt)

closed_found : find_event "e1" (db_in completed) ≡ some (row_in completed)
unfolding find_row
closed_found = refl

empty_trail : HasTrail "e1" empty_db
unfolding find_row
empty_trail = record { ends = refl; edges = refl }

run-HasTrail_example : HasTrail "e1" (run life empty_db)
run-HasTrail_example = run-HasTrail life empty_db "e1" empty_trail

abbrev held : Db
held =
    log_attempt "e1" running 20 (some (lease_reason "w1"))
      (set_event "e1" (leased "w1" 20 70) (db_in admitted))

took :
    acquire_lease 5 (some (aware 20)) "e1" "w1" 50 (db_in admitted)
    ≡ ok (leased "w1" 20 70 (row_in admitted), held)
unfolding acquire_lease is_blank require_aware find_row update_row leased
took = refl

acquire_lease_exclusive_example :
    is_ok (acquire_lease 5 (some (aware 60)) "e1" "w2" 10 held) ≡ leb (20 + 50) 60
unfolding is_blank
acquire_lease_exclusive_example =
    acquire_lease_exclusive 5 20 "e1" "w1" 50 (db_in admitted) 5 60 "w2" 10 took refl (omega arith)

abbrev failed_row : EventRow
failed_row = retried retryable_failed 20 (some 25) none "timeout" (row_in running)

abbrev failed : Db
failed =
    log_attempt "e1" retryable_failed 20 (some "timeout")
      (set_event "e1" (retried retryable_failed 20 (some 25) none "timeout") (db_in running))

abbrev first_failure : RetryRecord
first_failure = record { event_id = "e1"; attempts = 1; retry_at = some 25; dead_letter = false }

failed_once :
    schedule_retry 5 (some (aware 20)) "e1" "timeout" none 5 3 none none (db_in running)
    ≡ ok (first_failure, failed)
unfolding schedule_retry require_aware find_row validate_lease_fence failures retry_target
failed_once = refl

schedule_retry-acquire_lease_example :
    is_ok (acquire_lease 5 (some (aware 30)) "e1" "w2" 10 failed) ≡ (
      if leb 3 (failures "e1" (db_in running) + 1)
      then false
      else leb (20 + 5 * 2 ^ (failures "e1" (db_in running) + 1 - 1)) 30)
unfolding is_blank
schedule_retry-acquire_lease_example =
    schedule_retry-acquire_lease 5 20 "e1" "timeout" none 5 3 none none (db_in running) 5 30 "w2" 10
      failed_once refl (omega arith)

renew_lease_unowned_example :
    (r : EventRow) × (db' : Db) × (renew_lease 5 (some (aware 20)) "e1" "w1" 0 50 (db_in running)
      ≡ ok (r, db'))
    × (r.lease_owner ≡ none)
    × (r.lease_expires_at ≡ some (20 + 50))
    × (acquire_lease 5 (some (aware 30)) "e1" "w2" 10 db' ≡ err lease_held)
unfolding find_row is_blank
renew_lease_unowned_example =
    renew_lease_unowned 5 20 "e1" "w1" 0 50 (db_in running) {row = row_in running} 5 30 "w2" 10
      (refl) refl refl refl (omega arith) refl (omega arith) (omega arith)

abbrev taken_over : Db
taken_over =
    log_attempt "e1" running 80 (some (lease_reason "w2"))
      (set_event "e1" (leased "w2" 80 100) held)

took_over :
    acquire_lease 5 (some (aware 80)) "e1" "w2" 20 (run [] held)
    ≡ ok (leased "w2" 80 100 (leased "w1" 20 70 (row_in admitted)), taken_over)
unfolding acquire_lease run is_blank require_aware find_row update_row leased
took_over = refl

still_held :
    find_event "e1" (run [] taken_over)
    ≡ some (leased "w2" 80 100 (leased "w1" 20 70 (row_in admitted)))
unfolding run find_row update_row leased
still_held = refl

abbrev w1_row : EventRow
w1_row = leased "w1" 20 70 (row_in admitted)

stale_worker_fenced_example :
    ((c : ℕ) (n : Option Moment) (state : EventState) (reason ticket : Option String)
      → is_ok (
          transition c n "e1" state reason ticket
            (some "w1")
            (some w1_row.lease_epoch)
            (run [] taken_over))
        ≡ false)
    × ((c : ℕ) (n : Option Moment) (reason : String) (ticket : Option String) (base max : ℕ)
        → is_ok (
            schedule_retry c n "e1" reason ticket base max
              (some "w1")
              (some w1_row.lease_epoch)
              (run [] taken_over))
          ≡ false)
    × ((c : ℕ) (n : Option Moment) (d : ℕ)
        → is_ok (renew_lease c n "e1" "w1" w1_row.lease_epoch d (run [] taken_over)) ≡ false)
stale_worker_fenced_example =
    stale_worker_fenced 5 5 (some (aware 20)) (some (aware 80)) "e1" "w1" "w2" 50 20
      (db_in admitted) {r = w1_row} [] [] {holder = "w2"} took took_over still_held
      (unfold leased in refl)

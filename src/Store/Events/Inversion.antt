-- ===== src/Store/Events/Inversion.antt =====
-- What a successful operation on an event found and wrote.
use ai_ops.Prelude.{ℕ, ◌+◌, ◌<◌, ◌≤◌, ◌≡◌, String, true, false, Option, some, arith}
use ai_ops.Result.{ok, Moment, require_aware}
use ai_ops.Store.Rows.{EventState, EventRow, Db, running}
use ai_ops.Store.Events.{
  find_event, set_event, log_attempt, allowed, moved, validate_lease_fence, transition, RetryRecord,
  schedule_retry, can_retry, retry_target, failures, retried, acquire_lease, retry_due, is_leased,
  leased, lease_reason, renew_lease, renewed,
}
use ai_ops.Store.Table.{string_key}

module _ (clock : ℕ) (now : Option Moment) (id : String) (state : EventState)
    (reason ticket owner : Option String) (epoch : Option ℕ) (db : Db) {r : EventRow}
    {db' : Db} where
  pub transition_inv :
      transition clock now id state reason ticket owner epoch db ≡ ok (r, db')
      → (t : ℕ) × (row : EventRow) × (require_aware clock now ≡ ok t)
        × (find_event id db ≡ some row)
        × (allowed row.state state ≡ true)
        × (validate_lease_fence row owner epoch t ≡ ok tt)
        × (db' ≡ log_attempt id state t reason (set_event id (moved state t ticket reason) db))
        × (find_event id db' ≡ some r)
  unfolding transition
  transition_inv h = ground arith

module _ (clock : ℕ) (now : Option Moment) (id reason : String) (ticket : Option String)
    (base max_attempts : ℕ) (owner : Option String) (epoch : Option ℕ) (db : Db) {r : RetryRecord}
    {db' : Db} where
  pub schedule_retry_inv :
      schedule_retry clock now id reason ticket base max_attempts owner epoch db ≡ ok (r, db')
      → (t : ℕ) × (row : EventRow) × (require_aware clock now ≡ ok t)
        × (find_event id db ≡ some row)
        × (can_retry row.state ≡ true)
        × (validate_lease_fence row owner epoch t ≡ ok tt)
        × (let (target, retry_at) = retry_target (failures id db + 1) max_attempts base t in
            db'
            ≡ log_attempt id target t
                (some reason)
                (set_event id (retried target t retry_at ticket reason) db))
        × (r.retry_at ≡ (retry_target (failures id db + 1) max_attempts base t).1)
        × (0 < base)
        × (1 ≤ max_attempts)
  unfolding schedule_retry
  schedule_retry_inv h = ground arith

module _ (clock : ℕ) (now : Option Moment) (id owner : String) (duration : ℕ) (db : Db)
    {r : EventRow} {db' : Db} where
  pub acquire_lease_inv :
      acquire_lease clock now id owner duration db ≡ ok (r, db')
      → (t : ℕ) × (row : EventRow) × (require_aware clock now ≡ ok t)
        × (find_event id db ≡ some row)
        × (can_retry row.state ≡ true)
        × (retry_due row.state row.retry_at t ≡ true)
        × (is_leased row.state row.lease_expires_at t ≡ false)
        × (db'
            ≡ log_attempt id running t
                (some (lease_reason owner))
                (set_event id (leased owner t (t + duration)) db))
        × (find_event id db' ≡ some r)
        × (0 < duration)
  unfolding acquire_lease
  acquire_lease_inv h = ground arith

module _ (clock : ℕ) (now : Option Moment) (id owner : String) (epoch duration : ℕ) (db : Db)
    {r : EventRow} {db' : Db} where
  pub renew_lease_inv :
      renew_lease clock now id owner epoch duration db ≡ ok (r, db')
      → (t : ℕ) × (row : EventRow) × (require_aware clock now ≡ ok t)
        × (find_event id db ≡ some row)
        × (row.state ≡ running)
        × (validate_lease_fence row (some owner) (some epoch) t ≡ ok tt)
        × (db' ≡ set_event id (renewed t (t + duration)) db)
        × (find_event id db' ≡ some r)
  unfolding renew_lease
  renew_lease_inv h = ground arith

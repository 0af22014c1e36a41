-- ===== src/Store/Lease/Exclusion.antt =====
-- A lease keeps other workers out exactly until its deadline, and a scheduled retry until its own.
use ai_ops.Prelude.{
  ℕ, ◌+◌, ◌*◌, ◌-◌, ◌^◌, ◌<◌, ◌≡◌, refl, String, Bool, true, false, Option, some, arith, leb,
  is_blank, eq_iff, if◌then◌else◌, Bool-cases, inl, inr,
}
use ai_ops.Result.{Result, ok, err, Moment, aware, require_aware}
use ai_ops.Store.Rows.{EventState, EventRow, Db, running, retryable_failed, dead_letter}
use ai_ops.Store.Table.{string_key, find_row-update}
use ai_ops.Store.Events.{
  find_event, set_event, RetryRecord, schedule_retry, retry_target, retried, failures,
  acquire_lease, leased,
}
use ai_ops.Store.Events.Inversion.{schedule_retry_inv, acquire_lease_inv}

abbrev pub is_ok {ℓ} : {A : Type ℓ} → Result A → Bool
is_ok (ok a) = true
is_ok (err e) = false

-- The row of an id that was just written.
pub find_event-set_event :
    (id : String) (f : EventRow → EventRow) (db : Db) {row : EventRow}
    → ((r : EventRow) → (f r).event_id ≡ r.event_id)
    → find_event id db ≡ some row
    → find_event id (set_event id f db) ≡ some (f row)
find_event-set_event id f db {row} keeps found =
    rw (find_row-update (λ (r : EventRow). r.event_id) id id f db.events keeps)
      (ground (arith, found, eq_iff id id))

-- Whether a worker gets the lease depends on the row alone.
acquire_lease-running :
    (clock t : ℕ) (id owner : String) (duration : ℕ) (db : Db) {row : EventRow} {expiry : ℕ}
    → is_blank owner ≡ false
    → 0 < duration
    → find_event id db ≡ some row
    → row.state ≡ running
    → row.lease_expires_at ≡ some expiry
    → is_ok (acquire_lease clock (some (aware t)) id owner duration db) ≡ leb expiry t
unfolding acquire_lease require_aware
acquire_lease-running clock t id owner duration db {row} nonblank pos found s e = ground (
  arith,
  find_event-set_event id (leased owner t (t + duration)) db {row = row}
      (λ r. unfold leased in refl) found,
)

acquire_lease-retry :
    (clock t : ℕ) (id owner : String) (duration : ℕ) (db : Db) {row : EventRow} {due : ℕ}
    → is_blank owner ≡ false
    → 0 < duration
    → find_event id db ≡ some row
    → row.state ≡ retryable_failed
    → row.retry_at ≡ some due
    → is_ok (acquire_lease clock (some (aware t)) id owner duration db) ≡ leb due t
unfolding acquire_lease require_aware
acquire_lease-retry clock t id owner duration db {row} nonblank pos found s e = ground (
  arith,
  find_event-set_event id (leased owner t (t + duration)) db {row = row}
      (λ r. unfold leased in refl) found,
)

-- After a worker acquired the lease of an event for `duration`, any worker (itself included) that
-- next tries to acquire it, with a name that is not blank and a positive duration, gets it exactly
-- from the moment at which the lease has run out.
pub acquire_lease_exclusive :
    (clock t : ℕ) (id owner : String) (duration : ℕ) (db : Db) {r : EventRow} {db' : Db}
    (clock' t' : ℕ) (owner' : String) (duration' : ℕ)
    → acquire_lease clock (some (aware t)) id owner duration db ≡ ok (r, db')
    → is_blank owner' ≡ false
    → 0 < duration'
    → is_ok (acquire_lease clock' (some (aware t')) id owner' duration' db') ≡ leb (t + duration) t'
acquire_lease_exclusive clock t id owner duration db {r} {db'} clock' t' owner' duration' h nb pos =
    let (u, row, is_t, found, can, due, free, written, last, positive) =
      acquire_lease_inv clock (some (aware t)) id owner duration db {r = r} {db' = db'} h in
    let now_is : t ≡ u = unfold require_aware in ground arith in
    let after : find_event id db' ≡ some (leased owner u (u + duration) row) = rw written (
      find_event-set_event id (leased owner u (u + duration)) db {row = row}
        (λ r. unfold leased in refl) found) in
    rw now_is (
      acquire_lease-running clock' t' id owner' duration' db' nb pos after (unfold leased in refl)
        (unfold leased in refl))

acquire_lease-dead :
    (clock : ℕ) (now : Option Moment) (id owner : String) (duration : ℕ) (db : Db) {row : EventRow}
    → find_event id db ≡ some row
    → row.state ≡ dead_letter
    → is_ok (acquire_lease clock now id owner duration db) ≡ false
unfolding acquire_lease require_aware
acquire_lease-dead clock now id owner duration db {row} found s = ground arith

-- A failure that `schedule_retry` recorded keeps every worker off the event until its retry
-- deadline: the next worker that tries, with a name that is not blank and a positive duration, gets
-- the lease exactly from the deadline on, and never where there is no deadline, which is where the
-- failures so far and this one reach `max_attempts`. The deadline of failure number n is
-- base * 2 ^ (n - 1) after the failure.
pub schedule_retry-acquire_lease :
    (clock t : ℕ) (id reason : String) (ticket : Option String) (base max_attempts : ℕ)
    (owner : Option String) (epoch : Option ℕ) (db : Db) {r : RetryRecord} {db' : Db}
    (clock' t' : ℕ) (owner' : String) (duration' : ℕ)
    → schedule_retry clock (some (aware t)) id reason ticket base max_attempts owner epoch db
      ≡ ok (r, db')
    → is_blank owner' ≡ false
    → 0 < duration'
    → is_ok (acquire_lease clock' (some (aware t')) id owner' duration' db') ≡ (
        if leb max_attempts (failures id db + 1)
        then false
        else leb (t + base * 2 ^ (failures id db + 1 - 1)) t')
schedule_retry-acquire_lease clock t id reason ticket base max owner epoch db {r} {db'} clock' t'
      owner' duration' h nb pos =
    let (u, row, is_t, found, can, fenced, written, at, base_pos, max_pos) =
      schedule_retry_inv clock (some (aware t)) id reason ticket base max owner epoch db {r = r}
        {db' = db'} h in
    let now_is : t ≡ u = unfold require_aware in ground arith in
    let target : EventState × Option ℕ = retry_target (failures id db + 1) max base u in
    let after : find_event id db' ≡ some (retried target.0 u target.1 ticket reason row) =
      rw written (
        find_event-set_event id (retried target.0 u target.1 ticket reason) db {row = row}
          (λ r. unfold retried in refl) found) in
    elim (Bool-cases (leb max (failures id db + 1))) [
      | inl last ↦ rw last (
          acquire_lease-dead clock' (some (aware t')) id owner' duration' db' after
            (unfold retried retry_target in rw last))
      | inr more ↦
          rw (more, now_is)
            (acquire_lease-retry clock' t' id owner' duration' db' nb pos after
              (unfold retried retry_target in rw more) (unfold retried retry_target in rw more))
    ]

-- ===== src/Store/Events.antt =====
-- event_store.py: creation, transitions, retries and leases of events.
-- An operation returns its result and the tables after COMMIT; an error is a ROLLBACK, after which
-- the caller goes on with the tables it had. Durations are in microseconds.
pub mod Inversion
use ai_ops.Prelude.{
  ℕ, zero, suc, ◌+◌, ◌-◌, ◌*◌, ◌^◌, String, Bool, true, false, not, ◌&&◌, ◌||◌, Option, none, some,
  List, [], ◌∷◌, ◌++◌, str_append, str_eq, ◌==◌, ltb, leb, opt_str_eq, opt_eq, if◌then◌else◌,
  count_if, keep, is_blank,
}
use ai_ops.Result.{
  Error, Result, ok, err, ◌>>=◌, ◌>>◌, guard, required, Moment, require_aware, no_event,
  no_leased_event, lost_row, retry_policy, bad_transition, not_retryable, lease_lapsed,
  lease_fenced, empty_owner, bad_duration, no_lease_state, retry_not_due, lease_held, not_running,
  reused_event, identity_differs, moved_device, immutable_payload,
}
use ai_ops.Store.Payload.{Payload, validate_payload_update, known_kind}
use ai_ops.Store.Rows.{
  EventState, received, admitted, running, completed, retryable_failed, terminal_failed,
  dead_letter, EventRow, Attempt, Db,
}
use ai_ops.Store.Table.{find_row, update_row, string_key}

-- `_ALLOWED_TRANSITIONS`
unfoldable pub allowed : EventState → EventState → Bool
allowed received admitted = true
allowed received terminal_failed = true
allowed admitted running = true
allowed admitted retryable_failed = true
allowed admitted terminal_failed = true
allowed running completed = true
allowed running retryable_failed = true
allowed running terminal_failed = true
allowed retryable_failed admitted = true
allowed retryable_failed dead_letter = true
allowed terminal_failed dead_letter = true
allowed _ _ = false

abbrev pub find_event : String → Db → Option EventRow
find_event event_id db = find_row (λ (r : EventRow). r.event_id) event_id db.events

abbrev pub set_event : String → (EventRow → EventRow) → Db → Db
set_event event_id f db = record db {
  events = update_row (λ (r : EventRow). r.event_id) event_id f db.events;
}

abbrev pub log_attempt : String → EventState → ℕ → Option String → Db → Db
log_attempt event_id state at reason db = record db {
  attempts =
      db.attempts
      ++ record { event_id = event_id; state = state; recorded_at = at; reason = reason } ∷ [];
}

-- `COALESCE(new, old)`, and `CASE WHEN new IS NULL THEN old ELSE new END`
abbrev pub coalesce {ℓ} : {A : Type ℓ} → Option A → Option A → Option A
coalesce none old = old
coalesce (some a) old = some a

-- the row after the write, read again: `_require_row`
abbrev pub reread : String → Db → Result (EventRow × Db)
reread event_id db = do row ← required (find_event event_id db) lost_row; ok (row, db)

-- `isinstance(expiry, str)` and a deadline after `now`
abbrev pub is_after : Option ℕ → ℕ → Bool
is_after none now = false
is_after (some t) now = ltb now t

abbrev fence : Option String → EventRow → Option String → Option ℕ → ℕ → Result (Unit {0})
fence none row owner epoch now = ok tt
fence (some holder) row owner epoch now = do
  guard (is_after row.lease_expires_at now) lease_lapsed
  guard (opt_str_eq owner (some holder) && opt_eq epoch (some row.lease_epoch)) lease_fenced

-- `_validate_lease_fence`
unfoldable pub validate_lease_fence : EventRow → Option String → Option ℕ → ℕ → Result (Unit {0})
validate_lease_fence row owner epoch now = fence row.lease_owner row owner epoch now

unfoldable pub get : String → Db → Option EventRow
get event_id db = find_event event_id db

-- the UPDATE of `transition`
unfoldable pub moved : EventState → ℕ → Option String → Option String → EventRow → EventRow
moved state now ticket reason row = record row {
  state = state;
  updated_at = now;
  ticket_id = coalesce ticket row.ticket_id;
  retry_at = none;
  terminal_reason = coalesce reason row.terminal_reason;
  lease_owner = none;
  lease_expires_at = none;
}

unfoldable pub transition :
    (clock : ℕ) (now : Option Moment) (event_id : String) (state : EventState)
    (reason ticket owner : Option String) (epoch : Option ℕ)
    → Db
    → Result (EventRow × Db)
transition clock now event_id state reason ticket owner epoch db = do
  t ← require_aware clock now
  row ← required (find_event event_id db) no_event
  guard (allowed row.state state) bad_transition
  validate_lease_fence row owner epoch t
  reread event_id
      (log_attempt event_id state t reason (set_event event_id (moved state t ticket reason) db))

-- `RetryRecord`
pub record RetryRecord : Type 0 where
  pub event_id : String
  pub attempts : ℕ
  pub retry_at : Option ℕ
  pub dead_letter : Bool

abbrev pub can_retry : EventState → Bool
can_retry admitted = true
can_retry running = true
can_retry retryable_failed = true
can_retry _ = false

abbrev is_retryable_failed : EventState → Bool
is_retryable_failed retryable_failed = true
is_retryable_failed _ = false

-- `SELECT COUNT(*) FROM event_attempts WHERE event_id = ? AND state = 'retryable_failed'`
unfoldable pub failures : String → Db → ℕ
failures event_id db =
    count_if (λ (a : Attempt). str_eq a.event_id event_id && is_retryable_failed a.state)
      db.attempts

-- the UPDATE of `schedule_retry`
unfoldable pub retried : EventState → ℕ → Option ℕ → Option String → String → EventRow → EventRow
retried state now retry_at ticket reason row = record row {
  state = state;
  updated_at = now;
  retry_at = retry_at;
  ticket_id = coalesce ticket row.ticket_id;
  terminal_reason = some reason;
  lease_owner = none;
  lease_expires_at = none;
}

-- which state the failure leads to, and the backoff deadline
unfoldable pub retry_target : ℕ → ℕ → ℕ → ℕ → EventState × Option ℕ
retry_target attempts max_attempts base now =
    if leb max_attempts attempts
    then (dead_letter, none)
    else (retryable_failed, some (now + base * 2 ^ (attempts - 1)))

abbrev is_dead : EventState → Bool
is_dead dead_letter = true
is_dead _ = false

unfoldable pub schedule_retry :
    (clock : ℕ) (now : Option Moment) (event_id reason : String) (ticket : Option String)
    (base max_attempts : ℕ) (owner : Option String) (epoch : Option ℕ)
    → Db
    → Result (RetryRecord × Db)
schedule_retry clock now event_id reason ticket base max_attempts owner epoch db = do
  guard (ltb 0 base && leb 1 max_attempts) retry_policy
  t ← require_aware clock now
  row ← required (find_event event_id db) no_event
  guard (can_retry row.state) not_retryable
  validate_lease_fence row owner epoch t
  let attempts = failures event_id db + 1
  let (target, retry_at) = retry_target attempts max_attempts base t
  ok (
    record {
      event_id = event_id;
      attempts = attempts;
      retry_at = retry_at;
      dead_letter = is_dead target;
    },
    log_attempt event_id target t (some reason)
        (set_event event_id (retried target t retry_at ticket reason) db),
  )

abbrev pub retry_due : EventState → Option ℕ → ℕ → Bool
retry_due retryable_failed none now = false
retry_due retryable_failed (some t) now = leb t now
retry_due _ _ now = true

abbrev pub is_leased : EventState → Option ℕ → ℕ → Bool
is_leased running expiry now = is_after expiry now
is_leased _ expiry now = false

-- the UPDATE of `acquire_lease`
unfoldable pub leased : String → ℕ → ℕ → EventRow → EventRow
leased owner now expiry row = record row {
  state = running;
  updated_at = now;
  lease_owner = some owner;
  lease_expires_at = some expiry;
  lease_epoch = row.lease_epoch + 1;
  retry_at = none;
}

unfoldable pub lease_reason : String → String
lease_reason owner = str_append "lease acquired by " owner

unfoldable pub acquire_lease :
    (clock : ℕ) (now : Option Moment) (event_id owner : String) (duration : ℕ)
    → Db
    → Result (EventRow × Db)
acquire_lease clock now event_id owner duration db = do
  guard (not (is_blank owner)) empty_owner
  guard (ltb 0 duration) bad_duration
  t ← require_aware clock now
  row ← required (find_event event_id db) no_leased_event
  guard (can_retry row.state) no_lease_state
  guard (retry_due row.state row.retry_at t) retry_not_due
  guard (not (is_leased row.state row.lease_expires_at t)) lease_held
  reread event_id (
      log_attempt event_id running t (some (lease_reason owner))
        (set_event event_id (leased owner t (t + duration)) db))

abbrev is_running : EventState → Bool
is_running running = true
is_running _ = false

-- the UPDATE of `renew_lease`
unfoldable pub renewed : ℕ → ℕ → EventRow → EventRow
renewed now expiry row = record row { lease_expires_at = some expiry; updated_at = now }

unfoldable pub renew_lease :
    (clock : ℕ) (now : Option Moment) (event_id owner : String) (epoch duration : ℕ)
    → Db
    → Result (EventRow × Db)
renew_lease clock now event_id owner epoch duration db = do
  guard (not (is_blank owner) && ltb 0 duration) bad_duration
  t ← require_aware clock now
  row ← required (find_event event_id db) no_leased_event
  guard (is_running row.state) not_running
  validate_lease_fence row (some owner) (some epoch) t
  reread event_id (set_event event_id (renewed t (t + duration)) db)

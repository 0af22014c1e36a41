-- ===== src/Result.antt =====
-- Errors as values: one constructor for each place where `event_store.py` raises, with the
-- exception class that it raises there.
use ai_ops.Prelude.{ℕ, Bool, true, false, Option, none, some}

pub data Error : Type 0 where
  naive_time no_event lost_row retry_policy : Error
  bad_transition not_retryable : Error
  no_leased_event lease_lapsed lease_fenced empty_owner bad_duration no_lease_state retry_not_due
        lease_held :
      Error
  not_running : Error
  reused_event identity_differs moved_device immutable_payload : Error
  bad_destination no_outbox bad_outbox_lease outbox_closed outbox_leased not_sending bad_delay
        bad_limit :
      Error
  other_incident no_incident bad_incident_move : Error
  -- an uncaught `sqlite3.IntegrityError`
  foreign_key duplicate_key : Error
  bad_approval approval_exists no_approval approval_replayed approval_expired dry_run : Error
  bad_retention compaction_failed : Error
  -- an uncaught `OverflowError` of a `timedelta`
  date_overflow : Error

pub data ErrorClass : Type 0 where
  store_error transition_error lease_error integrity_error overflow_error : ErrorClass

unfoldable pub class_of : Error → ErrorClass
class_of bad_transition = transition_error
class_of not_retryable = transition_error
class_of bad_incident_move = transition_error
class_of foreign_key = integrity_error
class_of duplicate_key = integrity_error
class_of date_overflow = overflow_error
class_of not_sending = transition_error
class_of no_leased_event = lease_error
class_of lease_lapsed = lease_error
class_of lease_fenced = lease_error
class_of empty_owner = lease_error
class_of bad_duration = lease_error
class_of no_lease_state = lease_error
class_of retry_not_due = lease_error
class_of lease_held = lease_error
class_of not_running = lease_error
class_of bad_outbox_lease = lease_error
class_of outbox_closed = lease_error
class_of outbox_leased = lease_error
class_of _ = store_error

pub data Result {ℓ} (A : Type ℓ) : Type ℓ where
  ok : A → Result A
  err : Error → Result A

module _ {ℓ κ} {Found : Type ℓ} {Answer : Type κ} where
  infixl 5 ◌>>=◌
  -- an exception leaves the block of statements
  abbrev pub ◌>>=◌ : Result Found → (Found → Result Answer) → Result Answer
  err why >>= rest = err why
  ok found >>= rest = rest found

module _ {ℓ} {Answer : Type ℓ} where
  infixl 5 ◌>>◌
  abbrev pub ◌>>◌ : Result (Unit {0}) → Result Answer → Result Answer
  check >> rest = check >>= (λ passed. rest)

-- `if not test: raise why`
abbrev pub guard : Bool → Error → Result (Unit {0})
guard false why = err why
guard true why = ok tt

-- `row = ...fetchone()`, with a raise where it is `None`
abbrev pub required {ℓ} : {A : Type ℓ} → Option A → Error → Result A
required none e = err e
required (some a) e = ok a

-- A `datetime` argument: an instant, or a value without a time zone.
pub data Moment : Type 0 where
  aware : ℕ → Moment
  naive : Moment

-- `_require_aware`: `clock` is what `datetime.now(timezone.utc)` reads.
unfoldable pub require_aware : ℕ → Option Moment → Result ℕ
require_aware clock none = ok clock
require_aware clock (some (aware t)) = ok t
require_aware clock (some naive) = err naive_time

-- ===== src/Store/Trail.antt =====
-- `event_attempts` as an audit trail: it tells the state of every event and how it came there.
pub mod Steps
use ai_ops.Prelude.{
  ℕ, ◌+◌, ◌≤◌, ◌≡◌, refl, String, Bool, true, false, ◌&&◌, ◌||◌, Option, none, some, List, [], ◌∷◌,
  ◌++◌, arith, str_eq, eq_iff, if◌then◌else◌, Bool-cases, Option-cases, inl, inr,
}
use ai_ops.Result.{Error, Result, ok, err, ◌>>=◌, Moment}
use ai_ops.Store.Payload.{Payload}
use ai_ops.Store.Table.{find_row, update_row, string_key, find_row-update, find_row-append}
use ai_ops.Store.Rows.{
  EventState, EventRow, Attempt, Db, received, running, retryable_failed, dead_letter,
}
use ai_ops.Store.Events.{
  find_event, set_event, log_attempt, allowed, moved, transition, RetryRecord, schedule_retry,
  can_retry, retry_target, retried, acquire_lease, leased, renew_lease, renewed,
}
use ai_ops.Store.Events.Inversion.{
  transition_inv, schedule_retry_inv, acquire_lease_inv, renew_lease_inv,
}
use ai_ops.Store.Create.{fresh, create_or_get, create_or_update, refreshed, insert_event}
use ai_ops.Store.Create.Inversion.{
  create_or_get_new, create_or_get_old, create_or_update_new, create_or_update_old,
}
use ai_ops.Store.Run.{Op, create, refresh, move, retry, acquire, renew, settle, step, run}

abbrev pub state_of : Option EventRow → Option EventState
state_of none = none
state_of (some r) = some r.state

-- The state of the last attempt of an event, after attempts that ended in `p`.
abbrev pub last_state : String → Option EventState → List Attempt → Option EventState
last_state id p [] = p
last_state id p (a ∷ log) = last_state id (if str_eq a.event_id id then some a.state else p) log

abbrev fails_to : EventState → Bool
fails_to retryable_failed = true
fails_to dead_letter = true
fails_to running = true
fails_to _ = false

-- An edge of the lifecycle: the table of `transition`, a failure or a lease of an event that may be
-- retried, and `received` for a new event.
abbrev pub edge : Option EventState → EventState → Bool
edge none received = true
edge none _ = false
edge (some p) s = allowed p s || (can_retry p && fails_to s)

-- Each attempt of the event follows an edge from the one before it.
abbrev pub legal : String → Option EventState → List Attempt → Bool
legal id p [] = true
legal id p (a ∷ log) =
    if str_eq a.event_id id then edge p a.state && legal id (some a.state) log else legal id p log

pub record HasTrail (id : String) (db : Db) : Type 0 where
  pub ends : last_state id none db.attempts ≡ state_of (find_event id db)
  pub edges : legal id none db.attempts ≡ true

last_state-append :
    (id : String) (p : Option EventState) (log : List Attempt) (a : Attempt)
    → last_state id p (log ++ a ∷ [])
      ≡ (if str_eq a.event_id id then some a.state else last_state id p log)
last_state-append id p [] a = refl
last_state-append id p (x ∷ xs) a =
    last_state-append id (if str_eq x.event_id id then some x.state else p) xs a

legal-append :
    (id : String) (p : Option EventState) (log : List Attempt) (a : Attempt)
    → legal id p (log ++ a ∷ []) ≡ (
        legal id p log
        && (if str_eq a.event_id id then edge (last_state id p log) a.state else true))
legal-append id p [] a = ground arith
legal-append id p (x ∷ xs) a =
    ground (arith, legal-append id (some x.state) xs a, legal-append id p xs a)

-- An UPDATE of one row with its attempt, and an UPDATE that leaves the state alone.
pub write-HasTrail :
    (k id : String) (f : EventRow → EventRow) (s : EventState) (t : ℕ) (reason : Option String)
    (db : Db) (row : EventRow)
    → ((r : EventRow) → (f r).event_id ≡ r.event_id)
    → (f row).state ≡ s
    → edge (some row.state) s ≡ true
    → find_event k db ≡ some row
    → HasTrail id db
    → HasTrail id (log_attempt k s t reason (set_event k f db))
write-HasTrail k id f s t reason db row keeps target step_ok found h = record {
  ends = ground (
    arith,
    h.ends,
    found,
    target,
    eq_iff k id,
    last_state-append id none db.attempts
        (record { event_id = k; state = s; recorded_at = t; reason = reason }),
    find_row-update (λ (r : EventRow). r.event_id) k id f db.events keeps,
  );
  edges = ground (
    arith,
    h.ends,
    h.edges,
    found,
    step_ok,
    eq_iff k id,
    legal-append id none db.attempts
        (record { event_id = k; state = s; recorded_at = t; reason = reason }),
  );
}

pub quiet-HasTrail :
    (k id : String) (f : EventRow → EventRow) (db : Db) (row : EventRow)
    → ((r : EventRow) → (f r).event_id ≡ r.event_id)
    → (f row).state ≡ row.state
    → find_event k db ≡ some row
    → HasTrail id db
    → HasTrail id (set_event k f db)
quiet-HasTrail k id f db row keeps target found h = record {
  ends = ground (
    arith,
    h.ends,
    found,
    target,
    eq_iff k id,
    find_row-update (λ (r : EventRow). r.event_id) k id f db.events keeps,
  );
  edges = h.edges;
}

pub insert-HasTrail :
    (now : ℕ) (k id device : String) (payload : Payload) (db : Db)
    → find_event k db ≡ none
    → HasTrail id db
    → HasTrail id (insert_event now k device payload db)
unfolding insert_event fresh
insert-HasTrail now k id device payload db missing h = record {
  ends = ground (
    arith,
    h.ends,
    missing,
    eq_iff k id,
    last_state-append id none db.attempts
        (record { event_id = k; state = received; recorded_at = now; reason = none }),
    find_row-append (λ (r : EventRow). r.event_id) id db.events (fresh now k device payload),
  );
  edges = ground (
    arith,
    h.ends,
    h.edges,
    missing,
    eq_iff k id,
    legal-append id none db.attempts
        (record { event_id = k; state = received; recorded_at = now; reason = none }),
  );
}

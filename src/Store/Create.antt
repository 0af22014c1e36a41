-- ===== src/Store/Create.antt =====
-- event_store.py: `create_or_get` and `create_or_update`, and the read-only selections of events.
pub mod Inversion
use ai_ops.Prelude.{
  ℕ, String, Bool, true, false, not, ◌&&◌, ◌||◌, Option, none, some, List, [], ◌∷◌, ◌++◌, str_eq,
  leb, if◌then◌else◌, keep,
}
use ai_ops.Result.{
  Error, Result, ok, err, ◌>>=◌, ◌>>◌, guard, Moment, require_aware, reused_event, identity_differs,
  moved_device, immutable_payload,
}
use ai_ops.Store.Payload.{Payload, validate_payload_update, known_kind}
use ai_ops.Store.Rows.{EventState, received, retryable_failed, running, dead_letter, EventRow, Db}
use ai_ops.Store.Events.{find_event, set_event, log_attempt, reread}

-- the INSERT of a new event
unfoldable pub fresh : ℕ → String → String → Payload → EventRow
fresh now event_id device payload = record {
  event_id = event_id;
  device = device;
  state = received;
  payload = payload;
  created_at = now;
  updated_at = now;
  ticket_id = none;
  lease_owner = none;
  lease_expires_at = none;
  lease_epoch = 0;
  terminal_reason = none;
  retry_at = none;
}

unfoldable pub insert_event : ℕ → String → String → Payload → Db → Db
insert_event now event_id device payload db =
    log_attempt event_id received now none
      (record db { events = db.events ++ fresh now event_id device payload ∷ [] })

-- the checks of `create_or_get` on an existing row
unfoldable pub check_reuse : Bool → EventRow → String → Payload → Result (Unit {0})
check_reuse strict row device payload = do
  guard (str_eq row.device device) reused_event
  if strict || known_kind row.payload then validate_payload_update row.payload payload else ok tt

abbrev get_existing :
    Option EventRow → ℕ → String → String → Payload → Bool → Db → Result ((EventRow × Bool) × Db)
get_existing (some row) now event_id device payload strict db = do
  check_reuse strict row device payload
  ok ((row, false), db)
get_existing none now event_id device payload strict db = do
  (row, db') ← reread event_id (insert_event now event_id device payload db)
  ok ((row, true), db')

unfoldable pub create_or_get :
    (now : ℕ) (event_id device : String) (payload : Payload) (strict : Bool)
    → Db
    → Result ((EventRow × Bool) × Db)
create_or_get now event_id device payload strict db =
    get_existing (find_event event_id db) now event_id device payload strict db

abbrev pub is_received : EventState → Bool
is_received received = true
is_received _ = false

-- the UPDATE of `create_or_update`
unfoldable pub refreshed : ℕ → Payload → EventRow → EventRow
refreshed now payload row = record row { payload = payload; updated_at = now }

abbrev update_existing :
    Option EventRow → ℕ → String → String → Payload → Db → Result ((EventRow × Bool) × Db)
update_existing none now event_id device payload db = do
  (row, db') ← reread event_id (insert_event now event_id device payload db)
  ok ((row, true), db')
update_existing (some row) now event_id device payload db = do
  guard (str_eq row.device device) moved_device
  validate_payload_update row.payload payload
  guard (is_received row.state) immutable_payload
  (row', db') ← reread event_id (set_event event_id (refreshed now payload) db)
  ok ((row', false), db')

unfoldable pub create_or_update :
    (now : ℕ) (event_id device : String) (payload : Payload) → Db → Result ((EventRow × Bool) × Db)
create_or_update now event_id device payload db =
    update_existing (find_event event_id db) now event_id device payload db

-- The SQL comparison `t <= now` of two ISO texts is `text_leb`; NULL is never selected.
abbrev not_after : (ℕ → ℕ → Bool) → Option ℕ → ℕ → Bool
not_after text_leb none now = false
not_after text_leb (some t) now = text_leb t now

-- the WHERE clause of `eligible_retries`
unfoldable pub is_retry_due : (ℕ → ℕ → Bool) → ℕ → EventState → Option ℕ → Bool
is_retry_due text_leb now retryable_failed retry_at = not_after text_leb retry_at now
is_retry_due text_leb now _ retry_at = false

unfoldable pub is_abandoned : (ℕ → ℕ → Bool) → ℕ → EventState → Option ℕ → Bool
is_abandoned text_leb now running expiry = not_after text_leb expiry now
is_abandoned text_leb now _ expiry = false

-- the WHERE clause of `recoverable_events`
unfoldable pub is_recoverable : (ℕ → ℕ → Bool) → ℕ → EventRow → Bool
is_recoverable text_leb now row =
    is_retry_due text_leb now row.state row.retry_at
    || is_abandoned text_leb now row.state row.lease_expires_at

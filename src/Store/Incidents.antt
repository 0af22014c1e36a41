-- ===== src/Store/Incidents.antt =====
-- event_store.py: incidents, joined by their exact cause.
pub mod Linked
pub mod Unique
use ai_ops.Prelude.{
  ℕ, String, Bool, true, false, not, ◌&&◌, ◌||◌, Option, none, some, List, [], ◌∷◌, ◌++◌, str_eq,
  if◌then◌else◌, find_first, is_blank,
}
use ai_ops.Result.{
  Error, Result, ok, err, ◌>>=◌, ◌>>◌, guard, required, Moment, require_aware, lost_row, no_event,
  other_incident, no_incident, bad_incident_move, duplicate_key,
}
use ai_ops.Store.Rows.{
  IncidentState, open_, acknowledged, resolved, archived, IncidentIdentity, IncidentRow,
  IncidentLink, IncidentStep, Db,
}
use ai_ops.Store.Table.{find_row, update_row, string_key}
use ai_ops.Store.Events.{find_event}
use ai_ops.Store.Run.{settle}

-- `IncidentIdentity.__post_init__`
unfoldable pub make_identity : String → String → String → Option IncidentIdentity
make_identity device rung subject =
    if not (is_blank device) && not (is_blank rung) && not (is_blank subject)
    then some (record { device = device; cause_rung = rung; cause_subject = subject })
    else none

abbrev pub same_identity : IncidentIdentity → IncidentIdentity → Bool
same_identity a b =
    str_eq a.device b.device
    && str_eq a.cause_rung b.cause_rung
    && str_eq a.cause_subject b.cause_subject

abbrev pub is_active : IncidentState → Bool
is_active open_ = true
is_active acknowledged = true
is_active _ = false

-- the active incident of a cause
abbrev pub is_case : IncidentIdentity → IncidentRow → Bool
is_case i r = same_identity r.identity i && is_active r.state

abbrev pub find_incident : String → Db → Option IncidentRow
find_incident id db = find_row (λ (r : IncidentRow). r.incident_id) id db.incidents

abbrev pub set_incident : String → (IncidentRow → IncidentRow) → Db → Db
set_incident id f db = record db {
  incidents = update_row (λ (r : IncidentRow). r.incident_id) id f db.incidents;
}

abbrev pub find_link : String → Db → Option IncidentLink
find_link event_id db =
    find_first (λ (l : IncidentLink). str_eq l.event_id event_id) db.incident_events

abbrev pub log_step : String → IncidentState → ℕ → Option String → Db → Db
log_step id state at reason db = record db {
  incident_steps =
      db.incident_steps
      ++ record { incident_id = id; state = state; recorded_at = at; reason = reason } ∷ [];
}

-- the INSERT of a new incident; its primary key refuses an id that is taken
unfoldable pub opened : ℕ → String → IncidentIdentity → IncidentRow
opened now id identity = record {
  incident_id = id;
  identity = identity;
  state = open_;
  opened_at = now;
  updated_at = now;
  resolved_at = none;
}

-- `prior`: an event belongs to one incident; `INSERT OR IGNORE` of its link
abbrev pub link : Option IncidentLink → String → String → ℕ → Db → Result Db
link (some prior) id event_id now db =
    if str_eq prior.incident_id id then ok db else err other_incident
link none id event_id now db = ok (record db {
  incident_events =
      db.incident_events ++ record { incident_id = id; event_id = event_id; joined_at = now } ∷ [];
})

unfoldable pub touched : ℕ → IncidentRow → IncidentRow
touched now row = record row { updated_at = now }

-- the steps after the incident is known: link the event, touch the incident, read it again
abbrev pub join : String → String → ℕ → Bool → Db → Result ((IncidentRow × Bool) × Db)
join id event_id now created db = do
  linked ← link (find_link event_id db) id event_id now db
  let db' = set_incident id (touched now) linked
  row ← required (find_incident id db') lost_row
  ok ((row, created), db')

abbrev pub case_of :
    Option IncidentRow
    → IncidentIdentity
    → String
    → ℕ
    → String
    → Db
    → Result ((IncidentRow × Bool) × Db)
case_of (some existing) identity event_id now fresh_id db =
    join existing.incident_id event_id now false db
case_of none identity event_id now fresh_id db =
    if (elim (find_incident fresh_id db) [ none ↦ true | some r ↦ false ])
    then join fresh_id event_id now true (
        log_step fresh_id open_ now (some "incident created")
          (record db { incidents = db.incidents ++ opened now fresh_id identity ∷ [] }))
    else err duplicate_key

-- `fresh_id` is what `uuid.uuid4().hex` gives.
unfoldable pub create_or_join_incident :
    (clock : ℕ) (now : Option Moment) (fresh_id : String) (identity : IncidentIdentity)
    (event_id : String)
    → Db
    → Result ((IncidentRow × Bool) × Db)
create_or_join_incident clock now fresh_id identity event_id db = do
  t ← require_aware clock now
  event ← required (find_event event_id db) no_event
  case_of (find_first (is_case identity) db.incidents) identity event_id t fresh_id db

-- `allowed` of `transition_incident`
unfoldable pub allowed_incident : IncidentState → IncidentState → Bool
allowed_incident open_ acknowledged = true
allowed_incident open_ resolved = true
allowed_incident acknowledged resolved = true
allowed_incident resolved archived = true
allowed_incident _ _ = false

abbrev resolution : IncidentState → ℕ → Option ℕ → Option ℕ
resolution resolved now old = some now
resolution _ now old = old

-- the UPDATE of `transition_incident`
unfoldable pub incident_moved : IncidentState → ℕ → IncidentRow → IncidentRow
incident_moved state now row = record row {
  state = state;
  updated_at = now;
  resolved_at = resolution state now row.resolved_at;
}

unfoldable pub transition_incident :
    (clock : ℕ) (now : Option Moment) (id : String) (state : IncidentState) (reason : Option String)
    → Db
    → Result (IncidentRow × Db)
transition_incident clock now id state reason db = do
  t ← require_aware clock now
  row ← required (find_incident id db) no_incident
  guard (allowed_incident row.state state) bad_incident_move
  let db' = log_step id state t reason (set_incident id (incident_moved state t) db)
  row' ← required (find_incident id db') lost_row
  ok (row', db')

-- What the callers do with incidents.
pub data IncidentOp : Type 0 where
  report :
      (clock : ℕ) (now : Option Moment) (fresh_id : String) (identity : IncidentIdentity)
      (event_id : String)
      → IncidentOp
  advance :
      (clock : ℕ) (now : Option Moment) (id : String) (state : IncidentState)
      (reason : Option String)
      → IncidentOp

unfoldable pub incident_step : IncidentOp → Db → Db
incident_step (report clock now fresh_id identity event_id) db =
    settle (create_or_join_incident clock now fresh_id identity event_id db) db
incident_step (advance clock now id state reason) db =
    settle (transition_incident clock now id state reason db) db

unfoldable pub incident_run : List IncidentOp → Db → Db
incident_run [] db = db
incident_run (op ∷ ops) db = incident_run ops (incident_step op db)

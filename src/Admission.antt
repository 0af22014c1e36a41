-- ===== src/Admission.antt =====
-- admission.py: the admission of event runs by one state file, which a lock guards from reading to
-- writing. Times and windows are in microseconds; the clock and the environment's settings are
-- arguments. A settled lock directory is assumed: without one every gate admits.
pub mod Budget
pub mod Identity
pub mod Window
use ai_ops.Prelude.{
  ℕ, suc, ◌+◌, min, max, String, Bool, true, false, not, ◌&&◌, ◌||◌, Option, none, some, List, [],
  ◌∷◌, ◌++◌, str_eq, leb, ltb, if◌then◌else◌, keep, count_if, length,
}

-- an entry of `starts` that is a mapping; `timestamp` is none where it is not a number
pub record Start : Type 0 where
  pub timestamp : Option ℕ
  pub device : String
  pub event_id : String

pub data RunStatus : Type 0 where
  accepted running completed terminal_failed retryable_failed unknown_status : RunStatus

-- an entry of `events` that is a mapping; `updated` is none where it is not a number
pub record Entry : Type 0 where
  pub device : String
  pub status : RunStatus
  pub updated : Option ℕ

-- `events.state.json` as `_load_event_state` gives it; an entry that is no mapping is none
pub record EventFile : Type 0 where
  pub events : List (String × Option Entry)
  pub starts : List (Option Start)

-- the settings, in the order the source reads them
pub record Limits : Type 0 where
  pub window : ℕ
  pub idempotency_window : ℕ
  pub max_per_device : ℕ
  pub max_fabric : ℕ

pub data Scope : Type 0 where
  event_idempotency event_device event_fabric : Scope

pub data Admitted : Type 0 where
  refused_for : Scope → Admitted
  written : EventFile → Admitted

abbrev pub device_limit : Limits → ℕ
device_limit l = max 1 l.max_per_device

abbrev pub fabric_limit : Limits → ℕ
fabric_limit l = max 1 l.max_fabric

-- `min(DEFAULT_EVENT_LEASE_SECONDS, max(1.0, idempotency_window))`
abbrev pub lease : Limits → ℕ
lease l = min 300000000 (max 1000000 l.idempotency_window)

-- `t >= now - window`
abbrev pub is_recent : ℕ → ℕ → Option ℕ → Bool
is_recent window now none = false
is_recent window now (some t) = leb now (t + window)

abbrev pub recent_start : ℕ → ℕ → Option Start → Bool
recent_start window now none = false
recent_start window now (some s) = is_recent window now s.timestamp

abbrev pub recent_entry : ℕ → ℕ → String × Option Entry → Bool
recent_entry window now (id, none) = false
recent_entry window now (id, some e) = is_recent window now e.updated

-- `events.get(event_id)`, a mapping or nothing
unfoldable pub entry_of : String → List (String × Option Entry) → Option Entry
entry_of id [] = none
entry_of id ((k, e) ∷ es) = let rest = entry_of id es in if str_eq k id then e else rest

abbrev pub is_active : RunStatus → Bool
is_active accepted = true
is_active running = true
is_active _ = false

abbrev pub is_final : RunStatus → Bool
is_final completed = true
is_final terminal_failed = true
is_final _ = false

-- `now - updated < lease_seconds`
abbrev pub is_held : ℕ → ℕ → Option ℕ → Bool
is_held lease_time now none = false
is_held lease_time now (some t) = ltb now (t + lease_time)

-- whether a retained entry stops a second run of the event
abbrev pub blocks : Limits → ℕ → Option Entry → Bool
blocks l now none = false
blocks l now (some e) = (is_active e.status && is_held (lease l) now e.updated) || is_final e.status

abbrev pub on_device : String → Option Start → Bool
on_device d none = false
on_device d (some s) = str_eq s.device d

-- `events[event_id] = entry`
unfoldable pub put : String → Entry → List (String × Option Entry) → List (String × Option Entry)
put id e [] = (id, some e) ∷ []
put id e ((k, x) ∷ es) =
    let rest = put id e es in if str_eq k id then (k, some e) ∷ es else (k, x) ∷ rest

abbrev pub started : String → String → ℕ → Option Start
started id d now = some (record { timestamp = some now; device = d; event_id = id })

abbrev pub accepted_entry : String → ℕ → Entry
accepted_entry d now = record { device = d; status = accepted; updated = some now }

abbrev pub retained_starts : Limits → ℕ → EventFile → List (Option Start)
retained_starts l now file = keep (recent_start l.window now) file.starts

abbrev pub retained_events : Limits → ℕ → EventFile → List (String × Option Entry)
retained_events l now file = keep (recent_entry l.idempotency_window now) file.events

unfoldable pub with_run : Limits → ℕ → String → String → EventFile → EventFile
unfolding put
with_run l now id d file = record {
  events = put id (accepted_entry d now) (retained_events l now file);
  starts = retained_starts l now file ++ started id d now ∷ [];
}

unfoldable pub admit_event_run : Limits → ℕ → String → String → EventFile → Admitted
unfolding entry_of
admit_event_run l now id d file =
    if blocks l now (entry_of id (retained_events l now file))
    then refused_for event_idempotency
    else if leb (device_limit l) (count_if (on_device d) (retained_starts l now file))
    then refused_for event_device
    else if leb (fabric_limit l) (length (retained_starts l now file))
    then refused_for event_fabric
    else written (with_run l now id d file)

abbrev pub ended_entry : Bool → ℕ → Entry → Entry
ended_entry done now e = record e {
  status = if done then completed else retryable_failed;
  updated = some now;
}

abbrev pub ended_in : String → Bool → ℕ → EventFile → Option Entry → EventFile
unfolding put
ended_in id done now file none = file
ended_in id done now file (some e) = record file {
  events = put id (ended_entry done now e) file.events;
}

unfoldable pub finish_event_run : String → Bool → ℕ → EventFile → EventFile
unfolding entry_of ended_in
finish_event_run id done now file = ended_in id done now file (entry_of id file.events)

-- the state file after one call
pub data Call : Type 0 where
  admit_run : String → String → Call
  finish_run : String → Bool → Call

-- the file, and the starts of all the runs that were let through
pub record History : Type 0 where
  pub file : EventFile
  pub admissions : List (Option Start)

abbrev pub after_admit : String → String → ℕ → History → Admitted → History
after_admit id d now h (refused_for s) = h
after_admit id d now h (written f) = record {
  file = f;
  admissions = h.admissions ++ started id d now ∷ [];
}

unfoldable pub call : Limits → ℕ → Call → History → History
unfolding admit_event_run finish_event_run
call l now (admit_run id d) h = after_admit id d now h (admit_event_run l now id d h.file)
call l now (finish_run id done) h = record h { file = finish_event_run id done now h.file }

-- calls with the time that passed before each
unfoldable pub calls : Limits → ℕ → List (ℕ × Call) → History → History × ℕ
unfolding call
calls l now [] h = (h, now)
calls l now ((wait, c) ∷ cs) h = calls l (now + wait) cs (call l (now + wait) c h)

-- an absent state file
abbrev pub nothing_yet : History
nothing_yet = record { file = record { events = []; starts = [] }; admissions = [] }

-- ===== src/Store/Compaction.antt =====
-- event_store.py: `compaction_report` and `compact`, over the tables of the store and those of cards,
-- callbacks, shadows and sweeps. The backup that is made first is input and output, and the sizes of the
-- files are an argument. The simulations' table, which refers to approvals only, is left out. What is
-- old is decided on ISO texts, as the source does it in SQL: the texts, which have the offset that
-- they were written with, and their comparison are an argument (`IsoTimes`).

pub mod Kept
pub mod Whole
pub mod Holds
pub mod Committed
pub mod History
pub mod Sound
pub mod Trails
use ai_ops.Prelude.{
  ℕ, ◌+◌, ◌*◌, String, Bool, true, false, not, ◌&&◌, ◌||◌, Option, some, List, [], ◌∷◌, any, all,
  keep, map, count_if, length, str_eq, leb, ltb, if◌then◌else◌,
}
use ai_ops.Result.{
  Result, ok, err, ◌>>=◌, ◌>>◌, guard, required, Moment, require_aware, foreign_key, bad_retention,
  compaction_failed, date_overflow,
}
use ai_ops.Store.Payload.{Payload}
use ai_ops.Store.Rows.{
  EventState, completed, terminal_failed, EventRow, Attempt, OutboxState, sent, OutboxRow,
  IncidentRow, IncidentLink, IncidentStep, Db,
}

-- `recovery_sweeps`
pub record Sweep : Type 0 where
  pub worker_id : String
  pub started_at : ℕ
  pub completed_at : ℕ
  pub events_claimed : ℕ
  pub notifications_attempted : ℕ

-- `telegram_card_receipts`
pub record Receipt : Type 0 where
  pub event_id : String
  pub chat_id : String
  pub message_id : ℕ
  pub render_hash : String
  pub updated_at : ℕ

-- `telegram_card_states`
pub record CardState : Type 0 where
  pub event_id : String
  pub payload : Payload
  pub dirty_at : Option String
  pub updated_at : ℕ

-- `operator_callbacks`, which may name an event that is not there
pub record Callback : Type 0 where
  pub callback_id : String
  pub event_id : String
  pub result_json : Payload
  pub recorded_at : ℕ

-- `admission_shadow`
pub record Shadow : Type 0 where
  pub event_id : String
  pub legacy_admitted : Bool
  pub legacy_reason : Option String
  pub durable_state : Option EventState
  pub recorded_at : ℕ

-- `narrowing_shadow_records`
pub record Narrowing : Type 0 where
  pub event_id : String
  pub candidates : List String
  pub decision : Option Payload
  pub refusal : Option String
  pub recorded_at : ℕ

pub record Tables : Type 0 where
  pub db : Db
  pub receipts : List Receipt
  pub cards : List CardState
  pub callbacks : List Callback
  pub shadows : List Shadow
  pub narrowing : List Narrowing
  pub sweeps : List Sweep

-- The texts of times, for one call: those that the rows hold, `(current - timedelta(days=days))
-- .isoformat()` with the offset of the caller's `now` (none for its `OverflowError`), and SQLite's `<`.
pub record IsoTimes : Type 0 where
  pub event_text : EventRow → String
  pub outbox_text : OutboxRow → String
  pub sweep_text : Sweep → String
  pub cutoff : ℕ → ℕ → Option String
  pub text_ltb : String → String → Bool

abbrev pub text_before : IsoTimes → ℕ → ℕ → Result String
text_before times current days = required (times.cutoff current days) date_overflow

abbrev pub is_closed : EventState → Bool
is_closed completed = true
is_closed terminal_failed = true
is_closed _ = false

abbrev pub is_sent : OutboxState → Bool
is_sent sent = true
is_sent _ = false

-- the WHERE clauses, with the text of the cutoff
abbrev pub is_old_sent : IsoTimes → String → OutboxRow → Bool
is_old_sent times before o = is_sent o.state && times.text_ltb (times.outbox_text o) before

abbrev pub is_old_closed : IsoTimes → String → EventRow → Bool
is_old_closed times before r = is_closed r.state && times.text_ltb (times.event_text r) before

abbrev pub is_old_sweep : IsoTimes → String → Sweep → Bool
is_old_sweep times before x = times.text_ltb (times.sweep_text x) before

module _ {R : Type 0} (key : R → String) where
  -- `EXISTS (SELECT 1 FROM t WHERE t.event_id = id)`
  abbrev pub refers : String → List R → Bool
  refers id rows = any (λ r. str_eq (key r) id) rows

  -- `DELETE FROM t WHERE event_id = id`
  abbrev pub delete : String → List R → List R
  delete id rows = keep (λ r. not (str_eq (key r) id)) rows

abbrev pub has_event : List EventRow → String → Bool
has_event events id = refers (λ (r : EventRow). r.event_id) id events

abbrev pub has_incident : List IncidentRow → String → Bool
has_incident incidents id = refers (λ (r : IncidentRow). r.incident_id) id incidents

-- a row that keeps an event, for the query of `compact`; all but the callbacks are foreign keys
abbrev pub is_child : Tables → String → Bool
is_child s id =
    refers (λ (o : OutboxRow). o.event_id) id s.db.outbox
    || refers (λ (l : IncidentLink). l.event_id) id s.db.incident_events
    || refers (λ (r : Receipt). r.event_id) id s.receipts
    || refers (λ (c : CardState). c.event_id) id s.cards

abbrev pub is_referred : Tables → String → Bool
is_referred s id = is_child s id || refers (λ (c : Callback). c.event_id) id s.callbacks

abbrev pub links_of_incidents : Tables → Bool
links_of_incidents s =
    all (λ (l : IncidentLink). has_incident s.db.incidents l.incident_id) s.db.incident_events

abbrev pub steps_of_incidents : Tables → Bool
steps_of_incidents s =
    all (λ (t : IncidentStep). has_incident s.db.incidents t.incident_id) s.db.incident_steps

-- `PRAGMA foreign_key_check` has no row
unfoldable pub no_violations : Tables → Bool
no_violations s =
    let events = s.db.events in
    all (λ (a : Attempt). has_event events a.event_id) s.db.attempts
    && (all (λ (o : OutboxRow). has_event events o.event_id) s.db.outbox
        && (all (λ (r : Receipt). has_event events r.event_id) s.receipts
            && (all (λ (c : CardState). has_event events c.event_id) s.cards
                && (all (λ (x : Shadow). has_event events x.event_id) s.shadows
                    && (all (λ (x : Narrowing). has_event events x.event_id) s.narrowing
                        && (all (λ (l : IncidentLink). has_event events l.event_id)
                              s.db.incident_events
                            && (links_of_incidents s && steps_of_incidents s)))))))

abbrev pub without_event : String → Tables → Tables
without_event id s = record s {
  db = record (s.db) {
    events = delete (λ (r : EventRow). r.event_id) id s.db.events;
    attempts = delete (λ (a : Attempt). a.event_id) id s.db.attempts;
  };
  shadows = delete (λ (x : Shadow). x.event_id) id s.shadows;
  narrowing = delete (λ (x : Narrowing). x.event_id) id s.narrowing;
}

-- `for event_id in event_ids`; the last DELETE is refused where a foreign key is left
unfoldable pub delete_events : List String → Tables → Result Tables
delete_events [] s = ok s
delete_events (id ∷ ids) s =
    let rest = delete_events ids (without_event id s) in
    if is_child s id then err foreign_key else rest

abbrev pub pruned : IsoTimes → String → String → Tables → Tables
pruned times completed_before audit_before s = record s {
  db = record (s.db) {
    outbox = keep (λ o. not (is_old_sent times completed_before o)) s.db.outbox;
  };
  sweeps = keep (λ x. not (is_old_sweep times audit_before x)) s.sweeps;
}

-- the query of `event_ids`
abbrev pub candidates : IsoTimes → String → Tables → List String
candidates times before s =
    map (λ (r : EventRow). r.event_id)
      (keep (λ (r : EventRow). is_old_closed times before r && not (is_referred s r.event_id))
        s.db.events)

pub record CompactionReport : Type 0 where
  pub database_bytes : ℕ
  pub completed_event_candidates : ℕ
  pub sent_outbox_candidates : ℕ
  pub recovery_sweep_audit_candidates : ℕ

abbrev pub report_of : IsoTimes → ℕ → String → String → Tables → CompactionReport
report_of times bytes completed_before audit_before s = record {
  database_bytes = bytes;
  completed_event_candidates = count_if (is_old_closed times completed_before) s.db.events;
  sent_outbox_candidates = count_if (is_old_sent times completed_before) s.db.outbox;
  recovery_sweep_audit_candidates = count_if (is_old_sweep times audit_before) s.sweeps;
}

unfoldable pub compaction_report :
    IsoTimes → ℕ → ℕ → Option Moment → ℕ → ℕ → Tables → Result CompactionReport
compaction_report times bytes clock now completed_days audit_days s = do
  current ← require_aware clock now
  guard (leb 1 completed_days && leb completed_days audit_days) bad_retention
  completed_before ← text_before times current completed_days
  audit_before ← text_before times current audit_days
  ok (report_of times bytes completed_before audit_before s)

pub record Compacted : Type 0 where
  pub report : CompactionReport
  pub sent_outbox_deleted : ℕ
  pub recovery_sweeps_deleted : ℕ
  pub events_deleted : ℕ

abbrev pub compacted :
    IsoTimes → CompactionReport → String → String → List String → Tables → Compacted
compacted times report completed_before audit_before ids s = record {
  report = report;
  sent_outbox_deleted = count_if (is_old_sent times completed_before) s.db.outbox;
  recovery_sweeps_deleted = count_if (is_old_sweep times audit_before) s.sweeps;
  events_deleted = length ids;
}

-- an error rolls back
unfoldable pub compact :
    IsoTimes → ℕ → ℕ → Option Moment → ℕ → ℕ → Tables → Result (Compacted × Tables)
unfolding compaction_report no_violations delete_events
compact times bytes clock now completed_days audit_days s = do
  current ← require_aware clock now
  report ←
      compaction_report times bytes clock (some (Moment.aware current)) completed_days audit_days s
  completed_before ← text_before times current completed_days
  audit_before ← text_before times current audit_days
  let open_rows = pruned times completed_before audit_before s
  let ids = candidates times completed_before open_rows
  after ← delete_events ids open_rows
  guard (no_violations after) compaction_failed
  ok (compacted times report completed_before audit_before ids s, after)

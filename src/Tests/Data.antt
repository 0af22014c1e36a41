-- ===== src/Tests/Data.antt =====
-- The tables that the examples start from.
use ai_ops.Prelude.{none, List, [], ◌∷◌}
use ai_ops.Store.Payload.{Payload, text}
use ai_ops.Store.Rows.{EventState, EventRow, Attempt, Db}

abbrev pub alarm : Payload
alarm = ("kind", text "syslog") ∷ ("host", text "PE1") ∷ []

abbrev pub row_in : EventState → EventRow
row_in s = record {
  event_id = "e1";
  device = "PE1";
  state = s;
  payload = alarm;
  created_at = 10;
  updated_at = 10;
  ticket_id = none;
  lease_owner = none;
  lease_expires_at = none;
  lease_epoch = 0;
  terminal_reason = none;
  retry_at = none;
}

abbrev pub db_with : List EventRow → List Attempt → Db
db_with rows attempts = record {
  events = rows;
  attempts = attempts;
  outbox = [];
  outbox_seq = 0;
  incidents = [];
  incident_events = [];
  incident_steps = [];
  approvals = [];
}

abbrev pub empty_db : Db
empty_db = db_with [] []

abbrev pub db_in : EventState → Db
db_in s = db_with (row_in s ∷ []) []

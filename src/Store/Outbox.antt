-- ===== src/Store/Outbox.antt =====
-- event_store.py: the notification outbox, with at-least-once delivery under fenced leases.
pub mod Delivery
pub mod Intents
use ai_ops.Prelude.{
  ℕ, suc, ◌+◌, ◌-◌, ◌*◌, ◌^◌, String, Bool, true, false, not, ◌&&◌, ◌||◌, Option, none, some, List,
  [], ◌∷◌, ◌++◌, str_eq, ltb, leb, opt_str_eq, opt_eq, if◌then◌else◌, find_first, is_blank,
}
use ai_ops.Result.{
  Error, Result, ok, err, ◌>>=◌, ◌>>◌, guard, required, Moment, require_aware, lost_row,
  retry_policy, lease_fenced, bad_destination, no_outbox, bad_outbox_lease, outbox_closed,
  outbox_leased, retry_not_due, not_sending, foreign_key,
}
use ai_ops.Store.Payload.{Payload}
use ai_ops.Store.Rows.{OutboxState, OutboxRow, Db}
use ai_ops.Store.Table.{find_row, update_row, nat_key}
use ai_ops.Store.Events.{find_event, is_after}

abbrev pub find_outbox : ℕ → Db → Option OutboxRow
find_outbox id db = find_row (λ (r : OutboxRow). r.outbox_id) id db.outbox

abbrev pub set_outbox : ℕ → (OutboxRow → OutboxRow) → Db → Db
set_outbox id f db = record db {
  outbox = update_row (λ (r : OutboxRow). r.outbox_id) id f db.outbox;
}

abbrev pub reread_outbox : ℕ → Db → Result (OutboxRow × Db)
reread_outbox id db = do row ← required (find_outbox id db) lost_row; ok (row, db)

-- `WHERE event_id = ? AND destination = ? AND kind = ?`
unfoldable pub is_intent : String → String → String → OutboxRow → Bool
is_intent event_id destination kind r =
    str_eq r.event_id event_id && str_eq r.destination destination && str_eq r.kind kind

-- the INSERT of `enqueue_notification`
unfoldable pub queued : ℕ → ℕ → String → String → String → Payload → OutboxRow
queued id now event_id destination kind payload = record {
  outbox_id = id;
  event_id = event_id;
  destination = destination;
  kind = kind;
  payload = payload;
  state = OutboxState.pending;
  attempts = 0;
  lease_owner = none;
  lease_expires_at = none;
  lease_epoch = 0;
  retry_at = none;
  created_at = now;
  updated_at = now;
  last_error = none;
}

-- The foreign key to `events` refuses the row of an unknown event.
abbrev enqueue_new :
    Option OutboxRow
    → ℕ
    → String
    → String
    → String
    → Payload
    → Db
    → Result ((OutboxRow × Bool) × Db)
enqueue_new (some row) now event_id destination kind payload db = ok ((row, false), db)
enqueue_new none now event_id destination kind payload db = do
  event ← required (find_event event_id db) foreign_key
  (row, db') ← reread_outbox (db.outbox_seq + 1) (record db {
    outbox = db.outbox ++ queued (db.outbox_seq + 1) now event_id destination kind payload ∷ [];
    outbox_seq = db.outbox_seq + 1;
  })
  ok ((row, true), db')

unfoldable pub enqueue_notification :
    (now : ℕ) (event_id destination kind : String) (payload : Payload)
    → Db
    → Result ((OutboxRow × Bool) × Db)
enqueue_notification now event_id destination kind payload db = do
  guard (not (is_blank destination) && not (is_blank kind)) bad_destination
  enqueue_new (find_first (is_intent event_id destination kind) db.outbox) now event_id destination
      kind payload db

abbrev pub is_finished : OutboxState → Bool
is_finished OutboxState.sent = true
is_finished OutboxState.dead_letter = true
is_finished _ = false

abbrev pub is_waiting : OutboxState → Option ℕ → ℕ → Bool
is_waiting OutboxState.pending retry_at now = is_after retry_at now
is_waiting _ retry_at now = false

abbrev pub is_taken : OutboxState → Option ℕ → ℕ → Bool
is_taken OutboxState.sending expiry now = is_after expiry now
is_taken _ expiry now = false

-- the UPDATE of `claim_notification`
unfoldable pub claimed : String → ℕ → ℕ → OutboxRow → OutboxRow
claimed owner now expiry row = record row {
  state = OutboxState.sending;
  attempts = row.attempts + 1;
  lease_owner = some owner;
  lease_expires_at = some expiry;
  lease_epoch = row.lease_epoch + 1;
  retry_at = none;
  updated_at = now;
}

unfoldable pub claim_notification :
    (clock : ℕ) (now : Option Moment) (id : ℕ) (owner : String) (duration : ℕ)
    → Db
    → Result (OutboxRow × Db)
claim_notification clock now id owner duration db = do
  guard (not (is_blank owner) && ltb 0 duration) bad_outbox_lease
  t ← require_aware clock now
  row ← required (find_outbox id db) no_outbox
  guard (not (is_finished row.state)) outbox_closed
  guard (not (is_waiting row.state row.retry_at t)) retry_not_due
  guard (not (is_taken row.state row.lease_expires_at t)) outbox_leased
  reread_outbox id (set_outbox id (claimed owner t (t + duration)) db)

abbrev pub is_sending : OutboxState → Bool
is_sending OutboxState.sending = true
is_sending _ = false

abbrev pub delay_of : Option ℕ → ℕ → ℕ → ℕ
delay_of (some d) base attempts = d
delay_of none base attempts = base * 2 ^ (attempts - 1)

-- the state and the retry deadline after a provider outcome
unfoldable pub outcome :
    (sent : Bool) (attempts max_attempts : ℕ) (retry_after : Option ℕ) (base now : ℕ)
    → OutboxState × Option ℕ
outcome true attempts max_attempts retry_after base now = (OutboxState.sent, none)
outcome false attempts max_attempts retry_after base now =
    if leb max_attempts attempts
    then (OutboxState.dead_letter, none)
    else (OutboxState.pending, some (now + delay_of retry_after base attempts))

-- the UPDATE of `finish_notification`
unfoldable pub finished : OutboxState → Option ℕ → ℕ → Option String → OutboxRow → OutboxRow
finished state retry_at now error row = record row {
  state = state;
  lease_owner = none;
  lease_expires_at = none;
  retry_at = retry_at;
  updated_at = now;
  last_error = error;
}

unfoldable pub finish_notification :
    (clock : ℕ) (now : Option Moment) (id : ℕ) (sent : Bool) (error : Option String)
    (retry_after : Option ℕ) (base max_attempts : ℕ) (owner : Option String) (epoch : Option ℕ)
    → Db
    → Result (OutboxRow × Db)
finish_notification clock now id sent error retry_after base max_attempts owner epoch db = do
  guard (ltb 0 base && leb 1 max_attempts) retry_policy
  t ← require_aware clock now
  row ← required (find_outbox id db) no_outbox
  guard (is_sending row.state) not_sending
  guard (opt_str_eq owner row.lease_owner && opt_eq epoch (some row.lease_epoch)) lease_fenced
  let (state, retry_at) = outcome sent row.attempts max_attempts retry_after base t
  reread_outbox id (set_outbox id (finished state retry_at t error) db)

-- ===== src/Store/Rows.antt =====
-- The tables of the event store. An instant is a number of microseconds, in UTC.
use ai_ops.Prelude.{ℕ, String, Option, List}
use ai_ops.Store.Payload.{Payload}

pub data EventState : Type 0 where
  received admitted running completed retryable_failed terminal_failed dead_letter : EventState

-- `events`
pub record EventRow : Type 0 where
  pub event_id : String
  pub device : String
  pub state : EventState
  pub payload : Payload
  pub created_at : ℕ
  pub updated_at : ℕ
  pub ticket_id : Option String
  pub lease_owner : Option String
  pub lease_expires_at : Option ℕ
  pub lease_epoch : ℕ
  pub terminal_reason : Option String
  pub retry_at : Option ℕ

-- `event_attempts`, in the order of `attempt_id`
pub record Attempt : Type 0 where
  pub event_id : String
  pub state : EventState
  pub recorded_at : ℕ
  pub reason : Option String

pub data OutboxState : Type 0 where
  pending sending sent dead_letter : OutboxState

-- `notification_outbox`
pub record OutboxRow : Type 0 where
  pub outbox_id : ℕ
  pub event_id : String
  pub destination : String
  pub kind : String
  pub payload : Payload
  pub state : OutboxState
  pub attempts : ℕ
  pub lease_owner : Option String
  pub lease_expires_at : Option ℕ
  pub lease_epoch : ℕ
  pub retry_at : Option ℕ
  pub created_at : ℕ
  pub updated_at : ℕ
  pub last_error : Option String

pub data IncidentState : Type 0 where
  open_ acknowledged resolved archived : IncidentState

pub record IncidentIdentity : Type 0 where
  pub device : String
  pub cause_rung : String
  pub cause_subject : String

-- `incidents`
pub record IncidentRow : Type 0 where
  pub incident_id : String
  pub identity : IncidentIdentity
  pub state : IncidentState
  pub opened_at : ℕ
  pub updated_at : ℕ
  pub resolved_at : Option ℕ

-- `incident_events`
pub record IncidentLink : Type 0 where
  pub incident_id : String
  pub event_id : String
  pub joined_at : ℕ

-- `incident_transitions`
pub record IncidentStep : Type 0 where
  pub incident_id : String
  pub state : IncidentState
  pub recorded_at : ℕ
  pub reason : Option String

-- `procedure_approvals`
pub record ApprovalRow : Type 0 where
  pub proposal_digest : String
  pub procedure : String
  pub version : ℕ
  pub parameters : List (String × String)
  pub nonce : String
  pub expires_at : ℕ
  pub signature : String
  pub approved_at : ℕ
  pub consumed_at : Option ℕ

pub record Db : Type 0 where
  pub events : List EventRow
  pub attempts : List Attempt
  pub outbox : List OutboxRow
  -- the last `outbox_id` given out (`AUTOINCREMENT`)
  pub outbox_seq : ℕ
  pub incidents : List IncidentRow
  pub incident_events : List IncidentLink
  pub incident_steps : List IncidentStep
  pub approvals : List ApprovalRow

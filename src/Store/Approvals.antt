-- ===== src/Store/Approvals.antt =====
-- event_store.py: procedure approvals, recorded once and consumed at most once, and the dry-run
-- contract of procedure simulations.
pub mod SingleUse
use ai_ops.Prelude.{
  ℕ, String, Bool, true, false, not, ◌&&◌, ◌||◌, Option, none, some, List, [], ◌∷◌, ◌++◌, str_eq,
  leb, ltb, find_first, any, if◌then◌else◌,
}
use ai_ops.Result.{
  Error, Result, ok, err, ◌>>=◌, ◌>>◌, guard, required, Moment, aware, naive, require_aware,
  lost_row, bad_approval, approval_exists, no_approval, approval_replayed, approval_expired,
  dry_run,
}
use ai_ops.Store.Rows.{ApprovalRow, Db}
use ai_ops.Store.Run.{settle}
use ai_ops.Store.Table.{find_row, update_row, string_key}

abbrev pub find_approval : String → Db → Option ApprovalRow
find_approval digest db = find_row (λ (r : ApprovalRow). r.proposal_digest) digest db.approvals

-- `not all((proposal_digest, procedure, nonce, signature)) or version < 1`
abbrev has_identity : String → String → String → String → ℕ → Bool
has_identity digest procedure nonce signature version =
    not (str_eq digest "")
    && not (str_eq procedure "")
    && not (str_eq nonce "")
    && not (str_eq signature "")
    && leb 1 version

-- the PRIMARY KEY on the digest and the UNIQUE nonce
abbrev pub collides : String → String → ApprovalRow → Bool
collides digest nonce r = str_eq r.proposal_digest digest || str_eq r.nonce nonce

-- the INSERT of `record_procedure_approval`
unfoldable pub recorded :
    String → String → ℕ → List (String × String) → String → ℕ → String → ℕ → ApprovalRow
recorded digest procedure version parameters nonce expiry signature now = record {
  proposal_digest = digest;
  procedure = procedure;
  version = version;
  parameters = parameters;
  nonce = nonce;
  expires_at = expiry;
  signature = signature;
  approved_at = now;
  consumed_at = none;
}

unfoldable pub record_procedure_approval :
    (clock : ℕ) (now : Option Moment) (digest procedure : String) (version : ℕ)
    (parameters : List (String × String)) (nonce : String) (expires_at : Moment)
    (signature : String)
    → Db
    → Result (ApprovalRow × Db)
record_procedure_approval clock now digest procedure version parameters nonce expires_at signature
      db =
    do
      t ← require_aware clock now
      expiry ← require_aware clock (some expires_at)
      guard (has_identity digest procedure nonce signature version) bad_approval
      guard (not (any (collides digest nonce) db.approvals)) approval_exists
      let row = recorded digest procedure version parameters nonce expiry signature t
      let db' = record db { approvals = db.approvals ++ row ∷ [] }
      row' ← required (find_approval digest db') lost_row
      ok (row', db')

abbrev pub is_consumed : Option ℕ → Bool
is_consumed none = false
is_consumed (some t) = true

-- `WHERE proposal_digest = ? AND nonce = ?`
abbrev pub is_receipt : String → String → ApprovalRow → Bool
is_receipt digest nonce r = str_eq r.proposal_digest digest && str_eq r.nonce nonce

-- the UPDATE of `consume_procedure_approval`
unfoldable pub consumed : ℕ → ApprovalRow → ApprovalRow
consumed now row = record row { consumed_at = some now }

unfoldable pub consume_procedure_approval :
    (clock : ℕ) (now : Option Moment) (digest nonce : String) → Db → Result (ApprovalRow × Db)
consume_procedure_approval clock now digest nonce db = do
  t ← require_aware clock now
  row ← required (find_first (is_receipt digest nonce) db.approvals) no_approval
  guard (not (is_consumed row.consumed_at)) approval_replayed
  guard (ltb t row.expires_at) approval_expired
  let db' = record db {
    approvals =
        update_row (λ (r : ApprovalRow). r.proposal_digest) digest (consumed t) db.approvals;
  }
  row' ← required (find_approval digest db') lost_row
  ok (row', db')

-- What the callers do with approvals.
pub data ApprovalOp : Type 0 where
  approve :
      (clock : ℕ) (now : Option Moment) (digest procedure : String) (version : ℕ)
      (parameters : List (String × String)) (nonce : String) (expires_at : Moment)
      (signature : String)
      → ApprovalOp
  consume : (clock : ℕ) (now : Option Moment) (digest nonce : String) → ApprovalOp

unfoldable pub approval_step : ApprovalOp → Db → Db
approval_step (approve clock now digest procedure version parameters nonce expires_at signature)
      db =
    settle
      (record_procedure_approval clock now digest procedure version parameters nonce expires_at
        signature db)
      db
approval_step (consume clock now digest nonce) db =
    settle (consume_procedure_approval clock now digest nonce db) db

unfoldable pub approval_run : List ApprovalOp → Db → Db
approval_run [] db = db
approval_run (op ∷ ops) db = approval_run ops (approval_step op db)

-- ===== src/Store/Trail/Steps.antt =====
-- Every operation on the event tables keeps the audit trail.
use ai_ops.Prelude.{
  ℕ, ◌+◌, ◌≡◌, refl, String, Bool, true, Option, some, none, List, [], ◌∷◌, arith, Option-cases,
  inl, inr,
}
use ai_ops.Result.{Result, ok, err, Moment}
use ai_ops.Store.Payload.{Payload}
use ai_ops.Store.Rows.{EventState, EventRow, Db, running}
use ai_ops.Store.Events.{
  allowed, moved, transition, RetryRecord, schedule_retry, can_retry, retry_target, retried,
  acquire_lease, leased, renew_lease, renewed, failures, find_event, log_attempt, set_event,
}
use ai_ops.Store.Events.Inversion.{
  transition_inv, schedule_retry_inv, acquire_lease_inv, renew_lease_inv,
}
use ai_ops.Store.Create.{create_or_get, create_or_update, refreshed, insert_event}
use ai_ops.Store.Create.Inversion.{
  create_or_get_new, create_or_get_old, create_or_update_new, create_or_update_old,
}
use ai_ops.Store.Run.{Op, create, refresh, move, retry, acquire, renew, settle, step, run}
use ai_ops.Store.Trail.{HasTrail, edge, write-HasTrail, quiet-HasTrail, insert-HasTrail}

edge-allowed : (p s : EventState) → allowed p s ≡ true → edge (some p) s ≡ true
edge-allowed p s h = ground arith

edge_retry :
    (p : EventState) (n max base t : ℕ)
    → can_retry p ≡ true
    → edge (some p) (retry_target n max base t).0 ≡ true
unfolding retry_target
edge_retry p n max base t h = ground arith

edge_lease : (p : EventState) → can_retry p ≡ true → edge (some p) running ≡ true
edge_lease p h = ground arith

-- What an UPDATE of one row with its attempt keeps, and an UPDATE that leaves the state alone, and an
-- INSERT, every operation keeps.
module _ (P : Db → Type 0)
    (write : (k : String) (f : EventRow → EventRow) (s : EventState) (t : ℕ)
        (reason : Option String) (db : Db) (row : EventRow)
      → ((r : EventRow) → (f r).event_id ≡ r.event_id)
      → (f row).state ≡ s
      → edge (some row.state) s ≡ true
      → find_event k db ≡ some row
      → P db
      → P (log_attempt k s t reason (set_event k f db)))
    (quiet : (k : String) (f : EventRow → EventRow) (db : Db) (row : EventRow)
      → ((r : EventRow) → (f r).event_id ≡ r.event_id)
      → (f row).state ≡ row.state
      → find_event k db ≡ some row
      → P db
      → P (set_event k f db))
    (insert : (now : ℕ) (k device : String) (payload : Payload) (db : Db)
      → find_event k db ≡ none
      → P db
      → P (insert_event now k device payload db)) where
  module _ (db : Db) (before : P db) where
    transition_keeps :
        (clock : ℕ) (now : Option Moment) (k : String) (state : EventState)
        (reason ticket owner : Option String) (epoch : Option ℕ) (x : Result (EventRow × Db))
        → transition clock now k state reason ticket owner epoch db ≡ x
        → P (settle x db)
    transition_keeps clock now k state reason ticket owner epoch (err e) h = before
    transition_keeps clock now k state reason ticket owner epoch (ok (r, db')) h =
        let (t, row, aware, found, step_ok, fenced, written, last) =
          transition_inv clock now k state reason ticket owner epoch db {r = r} {db' = db'} h in
        rw written (
          write k (moved state t ticket reason) state t reason db row (λ r. unfold moved in refl)
            (unfold moved in refl) (edge-allowed row.state state step_ok) found before)

    schedule_retry_keeps :
        (clock : ℕ) (now : Option Moment) (k reason : String) (ticket : Option String)
        (base max_attempts : ℕ) (owner : Option String) (epoch : Option ℕ)
        (x : Result (RetryRecord × Db))
        → schedule_retry clock now k reason ticket base max_attempts owner epoch db ≡ x
        → P (settle x db)
    schedule_retry_keeps clock now k reason ticket base max owner epoch (err e) h = before
    schedule_retry_keeps clock now k reason ticket base max owner epoch (ok (r, db')) h =
        let (t, row, aware, found, state_ok, fenced, written, at, pos, positive) =
          schedule_retry_inv clock now k reason ticket base max owner epoch db {r = r} {db' = db'}
            h in
        rw written (
          write k _ _ t (some reason) db row (λ r. unfold retried in refl) (unfold retried in refl)
            (edge_retry row.state (failures k db + 1) max base t state_ok) found before)

    acquire_lease_keeps :
        (clock : ℕ) (now : Option Moment) (k owner : String) (duration : ℕ)
        (x : Result (EventRow × Db))
        → acquire_lease clock now k owner duration db ≡ x
        → P (settle x db)
    acquire_lease_keeps clock now k owner duration (err e) h = before
    acquire_lease_keeps clock now k owner duration (ok (r, db')) h =
        let (t, row, aware, found, state_ok, due, free, written, last, pos) =
          acquire_lease_inv clock now k owner duration db {r = r} {db' = db'} h in
        rw written (
          write k _ running t _ db row (λ r. unfold leased in refl) (unfold leased in refl)
            (edge_lease row.state state_ok) found before)

    renew_lease_keeps :
        (clock : ℕ) (now : Option Moment) (k owner : String) (epoch duration : ℕ)
        (x : Result (EventRow × Db))
        → renew_lease clock now k owner epoch duration db ≡ x
        → P (settle x db)
    renew_lease_keeps clock now k owner epoch duration (err e) h = before
    renew_lease_keeps clock now k owner epoch duration (ok (r, db')) h =
        let (t, row, aware, found, state_ok, fenced, written, last) =
          renew_lease_inv clock now k owner epoch duration db {r = r} {db' = db'} h in
        rw written
          (quiet k _ db row (λ r. unfold renewed in refl) (unfold renewed in refl) found before)

    create_or_get_keeps :
        (now : ℕ) (k device : String) (payload : Payload) (strict : Bool)
        (x : Result ((EventRow × Bool) × Db))
        → create_or_get now k device payload strict db ≡ x
        → P (settle x db)
    create_or_get_keeps now k device payload strict (err e) h = before
    create_or_get_keeps now k device payload strict (ok ((r, made), db')) h =
        elim (Option-cases (find_event k db)) [
          | inl missing ↦
              rw ((create_or_get_new now k device payload db strict missing h).0)
                (insert now k device payload db missing before)
          | inr (row, found) ↦
              rw ((create_or_get_old now k device payload db strict found h).0) before
        ]

    create_or_update_keeps :
        (now : ℕ) (k device : String) (payload : Payload) (x : Result ((EventRow × Bool) × Db))
        → create_or_update now k device payload db ≡ x
        → P (settle x db)
    create_or_update_keeps now k device payload (err e) h = before
    create_or_update_keeps now k device payload (ok ((r, made), db')) h =
        elim (Option-cases (find_event k db)) [
          | inl missing ↦
              rw ((create_or_update_new now k device payload db missing h).0)
                (insert now k device payload db missing before)
          | inr (row, found) ↦
              let (written, old, dev, valid, state_ok) =
                create_or_update_old now k device payload db found h in
              rw written (
                quiet k _ db row (λ r. unfold refreshed in refl) (unfold refreshed in refl) found
                  before)
        ]

  pub step_keeps : (op : Op) (db : Db) → P db → P (step op db)
  unfolding step
  step_keeps (create now k device payload strict) db h =
      create_or_get_keeps db h now k device payload strict _ refl
  step_keeps (refresh now k device payload) db h =
      create_or_update_keeps db h now k device payload _ refl
  step_keeps (move clock now k state reason ticket owner epoch) db h =
      transition_keeps db h clock now k state reason ticket owner epoch _ refl
  step_keeps (retry clock now k reason ticket base max owner epoch) db h =
      schedule_retry_keeps db h clock now k reason ticket base max owner epoch _ refl
  step_keeps (acquire clock now k owner duration) db h =
      acquire_lease_keeps db h clock now k owner duration _ refl
  step_keeps (renew clock now k owner epoch duration) db h =
      renew_lease_keeps db h clock now k owner epoch duration _ refl

pub step-HasTrail : (op : Op) (db : Db) (id : String) → HasTrail id db → HasTrail id (step op db)
step-HasTrail op db id =
    step_keeps (HasTrail id) (λ k. write-HasTrail k id) (λ k. quiet-HasTrail k id)
      (λ now k. insert-HasTrail now k id) op db

-- In every history the attempts of each event stay its audit trail, if they are at the start: the
-- last attempt has the state of the event's row (and there is none for an id with no row), and each
-- attempt follows a lifecycle edge from the one before it.
pub run-HasTrail :
    (ops : List Op) (db : Db) (id : String) → HasTrail id db → HasTrail id (run ops db)
unfolding run
run-HasTrail [] db id h = h
run-HasTrail (op ∷ ops) db id h = run-HasTrail ops (step op db) id (step-HasTrail op db id h)

-- ===== src/Store/Incidents/Unique.antt =====
-- One active incident for each cause, and one incident for each event.
use ai_ops.Prelude.{
  ℕ, ◌≡◌, refl, String, Bool, true, false, Option, none, some, List, [], ◌∷◌, ◌++◌, arith,
  find_first,
}
use ai_ops.Result.{Result, ok, err, Moment, require_aware}
use ai_ops.Store.Rows.{IncidentState, open_, IncidentIdentity, IncidentRow, Db}
use ai_ops.Store.Run.{settle}
use ai_ops.Store.Table.{string_key}
use ai_ops.Store.Table.Counting.{count_key-update, count_if-update}
use ai_ops.Store.Incidents.{
  is_case, find_incident, set_incident, opened, join, case_of, log_step, create_or_join_incident,
  allowed_incident, incident_moved, transition_incident, IncidentOp, report, advance, incident_step,
  incident_run,
}
use ai_ops.Store.Incidents.Linked.{IsUnique, join-IsUnique, open-IsUnique}

create_inv :
    (clock : ℕ) (now : Option Moment) (fresh_id : String) (i : IncidentIdentity) (e : String)
    (db : Db) {r : IncidentRow} {made : Bool} {db' : Db}
    → create_or_join_incident clock now fresh_id i e db ≡ ok ((r, made), db')
    → (t : ℕ) × (require_aware clock now ≡ ok t)
      × (case_of (find_first (is_case i) db.incidents) i e t fresh_id db ≡ ok ((r, made), db'))
unfolding create_or_join_incident
create_inv clock now fresh_id i e db h = ground arith

case_of_new :
    (i : IncidentIdentity) (e : String) (t : ℕ) (fresh_id : String) (db : Db) {r : IncidentRow}
    {made : Bool} {db' : Db}
    → case_of none i e t fresh_id db ≡ ok ((r, made), db')
    → (find_incident fresh_id db ≡ none)
      × (join fresh_id e t true (
            log_step fresh_id open_ t
              (some "incident created")
              (record db { incidents = db.incidents ++ opened t fresh_id i ∷ [] }))
          ≡ ok ((r, made), db'))
case_of_new i e t fresh_id db h = ground arith

case_of-IsUnique :
    (o : Option IncidentRow) (i : IncidentIdentity) (e : String) (t : ℕ) (fresh_id : String)
    (db : Db) {r : IncidentRow} {made : Bool} {db' : Db}
    → find_first (is_case i) db.incidents ≡ o
    → case_of o i e t fresh_id db ≡ ok ((r, made), db')
    → IsUnique db
    → IsUnique db'
case_of-IsUnique (some existing) i e t fresh_id db {r} {made} {db'} found h u =
    join-IsUnique existing.incident_id e t false db {r = r} {made = made} {db' = db'} h u
case_of-IsUnique none i e t fresh_id db {r} {made} {db'} missing h u =
    let (no_id, joined) = case_of_new i e t fresh_id db {r = r} {made = made} {db' = db'} h in
    join-IsUnique fresh_id e t true _ {r = r} {made = made} {db' = db'} joined
      (open-IsUnique t fresh_id i db (some "incident created") missing no_id u)

-- An allowed transition never makes a closed incident active again.
move_case :
    (i : IncidentIdentity) (row : IncidentRow) (s : IncidentState) (t : ℕ)
    → allowed_incident row.state s ≡ true
    → is_case i (incident_moved s t row) ≡ true
    → is_case i row ≡ true
unfolding allowed_incident incident_moved
move_case i row s t h k = ground arith

transition_incident_inv :
    (clock : ℕ) (now : Option Moment) (id : String) (s : IncidentState) (reason : Option String)
    (db : Db) {r : IncidentRow} {db' : Db}
    → transition_incident clock now id s reason db ≡ ok (r, db')
    → (t : ℕ) × (row : IncidentRow) × (require_aware clock now ≡ ok t)
      × (find_incident id db ≡ some row)
      × (allowed_incident row.state s ≡ true)
      × (db' ≡ log_step id s t reason (set_incident id (incident_moved s t) db))
unfolding transition_incident
transition_incident_inv clock now id s reason db h = ground arith

transition_incident-IsUnique :
    (clock : ℕ) (now : Option Moment) (id : String) (s : IncidentState) (reason : Option String)
    (db : Db) {r : IncidentRow} {db' : Db}
    → transition_incident clock now id s reason db ≡ ok (r, db')
    → IsUnique db
    → IsUnique db'
transition_incident-IsUnique clock now id s reason db {r} {db'} h u =
    let (t, row, aware, found, step_ok, written) =
      transition_incident_inv clock now id s reason db {r = r} {db' = db'} h in
    rw written (record {
      cases = λ i. omega (
        arith,
        u.cases i,
        count_if-update (λ (r : IncidentRow). r.incident_id) (is_case i) id (incident_moved s t)
            db.incidents row found (u.ids id) (move_case i row s t step_ok),
      );
      ids = λ k.
          rw
            (count_key-update (λ (r : IncidentRow). r.incident_id) id k (incident_moved s t)
              db.incidents (λ r. unfold incident_moved in refl))
            (u.ids k);
      links = u.links;
    })

step-IsUnique : (op : IncidentOp) (db : Db) → IsUnique db → IsUnique (incident_step op db)
step-IsUnique (report clock now fresh_id i e) db u =
    unfold incident_step in go (create_or_join_incident clock now fresh_id i e db) refl
  where
    go :
        (x : Result ((IncidentRow × Bool) × Db))
        → create_or_join_incident clock now fresh_id i e db ≡ x
        → IsUnique (settle x db)
    go (err e') h = u
    go (ok ((r, made), db')) h =
        let (t, aware, c) =
          create_inv clock now fresh_id i e db {r = r} {made = made} {db' = db'} h in
        case_of-IsUnique _ i e t fresh_id db {r = r} {made = made} {db' = db'} refl c u
step-IsUnique (advance clock now id s reason) db u =
    unfold incident_step in go (transition_incident clock now id s reason db) refl
  where
    go :
        (x : Result (IncidentRow × Db))
        → transition_incident clock now id s reason db ≡ x
        → IsUnique (settle x db)
    go (err e') h = u
    go (ok (r, db')) h =
        transition_incident-IsUnique clock now id s reason db {r = r} {db' = db'} h u

-- Whatever incidents are reported and moved, in whatever order, three things stay true if they are
-- at the start: each cause has at most one active (open or acknowledged) incident, no two incidents
-- have one id, and each event belongs to at most one incident.
pub incident_run-IsUnique :
    (ops : List IncidentOp) (db : Db) → IsUnique db → IsUnique (incident_run ops db)
unfolding incident_run
incident_run-IsUnique [] db u = u
incident_run-IsUnique (op ∷ ops) db u =
    incident_run-IsUnique ops (incident_step op db) (step-IsUnique op db u)

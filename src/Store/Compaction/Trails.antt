-- ===== src/Store/Compaction/Trails.antt =====
-- A compaction keeps the audit trail of each event (event_store.py).
use ai_ops.Prelude.{
  ℕ, ◌≡◌, sym, ap, ◌∙◌, String, Bool, true, ◌||◌, Option, none, some, List, [], ◌∷◌, str_eq, arith,
  Bool-cases, inl, inr, if◌then◌else◌, eq_iff,
}
use ai_ops.Result.{Result, ok, err, Moment}
use ai_ops.Store.Rows.{EventState, EventRow, Attempt}
use ai_ops.Store.Table.{find_row, string_key}
use ai_ops.Store.Events.{find_event}
use ai_ops.Store.Trail.{HasTrail, last_state, legal, state_of}
use ai_ops.Store.Compaction.{IsoTimes, Tables, compact, Compacted, pruned, candidates}
use ai_ops.Store.Compaction.Kept.{is_in, without_ids}
use ai_ops.Store.Compaction.Committed.{committed, delete_events_ok, compact_ok}

-- the trail of an event when some events go
last_state-without :
    (ids : List String) (id : String) (p : Option EventState) (log : List Attempt)
    → last_state id p (without_ids (λ (a : Attempt). a.event_id) ids log)
      ≡ (if is_in ids id then p else last_state id p log)
unfolding without_ids
last_state-without ids id p [] = ground arith
last_state-without ids id p (a ∷ log) = elim (Bool-cases (str_eq a.event_id id)) [
  | inl same ↦ ground (
    arith,
    last_state-without ids id p log,
    last_state-without ids id (some a.state) log,
    ap (is_in ids) ((eq_iff a.event_id id).0 same),
  )
  | inr other ↦ ground (arith, last_state-without ids id p log)
]

legal-without :
    (ids : List String) (id : String) (p : Option EventState) (log : List Attempt)
    → legal id p (without_ids (λ (a : Attempt). a.event_id) ids log)
      ≡ (is_in ids id || legal id p log)
unfolding without_ids
legal-without ids id p [] = ground arith
legal-without ids id p (a ∷ log) = elim (Bool-cases (str_eq a.event_id id)) [
  | inl same ↦ ground (
    arith,
    legal-without ids id p log,
    legal-without ids id (some a.state) log,
    ap (is_in ids) ((eq_iff a.event_id id).0 same),
  )
  | inr other ↦ ground (arith, legal-without ids id p log)
]

find_row-without :
    (ids : List String) (id : String) (rows : List EventRow)
    → find_row
        (λ (r : EventRow). r.event_id)
        id
        (without_ids (λ (r : EventRow). r.event_id) ids rows)
      ≡ (if is_in ids id then none else find_row (λ (r : EventRow). r.event_id) id rows)
unfolding without_ids find_row
find_row-without ids id [] = ground arith
find_row-without ids id (r ∷ rs) = elim (Bool-cases (str_eq r.event_id id)) [
  | inl same ↦
      ground (arith, find_row-without ids id rs, ap (is_in ids) ((eq_iff r.event_id id).0 same))
  | inr other ↦ ground (arith, find_row-without ids id rs)
]

state_of_if :
    (b : Bool) (o : Option EventRow)
    → (if b then none else state_of o) ≡ state_of (if b then none else o)
state_of_if b o = ground arith

or_right : (a b : Bool) → b ≡ true → (a || b) ≡ true
or_right a b h = ground arith

-- a compaction keeps the trails: with an event goes its trail
pub compact-HasTrail :
    (times : IsoTimes) (bytes clock : ℕ) (now : Option Moment) (completed_days audit_days : ℕ)
    (s : Tables) (id : String) (x : Result (Compacted × Tables))
    → compact times bytes clock now completed_days audit_days s ≡ x
    → HasTrail id s.db
    → HasTrail id (committed x s).db
compact-HasTrail times bytes clock now completed_days audit_days s id (err e) h before = before
compact-HasTrail times bytes clock now completed_days audit_days s id (ok (c, after)) h before =
    let (current, completed_before, audit_before, at, at_completed, at_audit, deleted, sound) =
      compact_ok times bytes clock now completed_days audit_days s {c = c} {after = after} h in
    let left = pruned times completed_before audit_before s in
    let ids = candidates times completed_before left in
    rw (delete_events_ok ids left deleted) (record {
      ends =
          last_state-without ids id none s.db.attempts
          ∙ ap (λ t. if is_in ids id then none else t) before.ends
          ∙ state_of_if (is_in ids id) (find_event id s.db)
          ∙ ap state_of (sym (find_row-without ids id s.db.events));
      edges =
          legal-without ids id none s.db.attempts
          ∙ or_right (is_in ids id) (legal id none s.db.attempts) before.edges;
    })

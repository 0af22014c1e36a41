-- ===== src/Store/Compaction/History.antt =====
-- Compaction among the operations on events: what a history of both keeps (event_store.py).
use ai_ops.Prelude.{ℕ, ◌≡◌, refl, String, true, ◌&&◌, Option, some, List, [], ◌∷◌, leb}
use ai_ops.Result.{ok, Moment, aware}
use ai_ops.Store.Table.{string_key}
use ai_ops.Store.Run.{Op, step}
use ai_ops.Store.Trail.{HasTrail}
use ai_ops.Store.Trail.Steps.{step-HasTrail}
use ai_ops.Store.Compaction.{Tables, IsoTimes, no_violations, compact, Compacted}
use ai_ops.Store.Compaction.Holds.{IsCompacted, compact-IsCompacted}
use ai_ops.Store.Compaction.Committed.{committed}
use ai_ops.Store.Compaction.Trails.{compact-HasTrail}
use ai_ops.Store.Compaction.Sound.{step-IsSound, compact-no_violations}

pub data TableOp : Type 0 where
  event : Op → TableOp
  compaction :
      (times : IsoTimes) (bytes clock : ℕ) (now : Option Moment) (completed_days audit_days : ℕ)
      → TableOp

unfoldable pub table_step : TableOp → Tables → Tables
table_step (event op) s = record s { db = step op s.db }
table_step (compaction times bytes clock now completed_days audit_days) s =
    committed (compact times bytes clock now completed_days audit_days s) s

unfoldable pub table_run : List TableOp → Tables → Tables
table_run [] s = s
table_run (op ∷ ops) s = table_run ops (table_step op s)

table_step-HasTrail :
    (op : TableOp) (s : Tables) (id : String) → HasTrail id s.db → HasTrail id (table_step op s).db
unfolding table_step
table_step-HasTrail (event op) s id h = step-HasTrail op s.db id h
table_step-HasTrail (compaction times bytes clock now completed_days audit_days) s id h =
    compact-HasTrail times bytes clock now completed_days audit_days s id _ refl h

table_step-no_violations :
    (op : TableOp) (s : Tables) → no_violations s ≡ true → no_violations (table_step op s) ≡ true
unfolding table_step
table_step-no_violations (event op) s h = step-IsSound s op h
table_step-no_violations (compaction times bytes clock now completed_days audit_days) s h =
    compact-no_violations times bytes clock now completed_days audit_days s _ refl h

table_run-no_violations :
    (ops : List TableOp) (s : Tables)
    → no_violations s ≡ true
    → no_violations (table_run ops s) ≡ true
unfolding table_run
table_run-no_violations [] s h = h
table_run-no_violations (op ∷ ops) s h =
    table_run-no_violations ops (table_step op s) (table_step-no_violations op s h)

table_run-HasTrail :
    (ops : List TableOp) (s : Tables) (id : String)
    → HasTrail id s.db
    → HasTrail id (table_run ops s).db
unfolding table_run
table_run-HasTrail [] s id h = h
table_run-HasTrail (op ∷ ops) s id h =
    table_run-HasTrail ops (table_step op s) id (table_step-HasTrail op s id h)

-- After any history of operations on events and of compactions, from tables where no row dangles, the
-- next compaction at an aware time, with the days in order and cutoffs that are dates, succeeds:
-- it deletes exactly the rows whose texts are before the cutoffs' and that may go, leaves no row
-- dangling, and keeps the attempts of each event its audit trail, if they are at the start.
pub table_run-compact :
    (ops : List TableOp) (s : Tables) (id : String) (times : IsoTimes)
    (bytes clock current completed_days audit_days : ℕ) (completed_before audit_before : String)
    → no_violations s ≡ true
    → HasTrail id s.db
    → (leb 1 completed_days && leb completed_days audit_days) ≡ true
    → times.cutoff current completed_days ≡ some completed_before
    → times.cutoff current audit_days ≡ some audit_before
    → (c : Compacted) × (after : Tables) × (compact times bytes clock
          (some (aware current))
          completed_days
          audit_days
          (table_run ops s)
        ≡ ok (c, after))
      × IsCompacted times completed_before audit_before (table_run ops s) after
      × HasTrail id after.db
table_run-compact ops s id times bytes clock current completed_days audit_days completed_before
      audit_before sound trail days at_completed at_audit =
    let (c, after, done, described) =
      compact-IsCompacted times bytes clock current completed_days audit_days completed_before
        audit_before (table_run ops s) (table_run-no_violations ops s sound) days at_completed
        at_audit in
    (
      c,
      after,
      done,
      described,
      compact-HasTrail times bytes clock (some (aware current)) completed_days audit_days
          (table_run ops s) id (ok (c, after)) done (table_run-HasTrail ops s id trail),
    )

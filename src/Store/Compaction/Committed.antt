-- ===== src/Store/Compaction/Committed.antt =====
-- What a compaction that succeeds leaves (event_store.py), a failed one leaving the tables.
use ai_ops.Prelude.{
  ℕ, ◌≡◌, sym, ◌∙◌, String, true, Option, some, List, [], ◌∷◌, arith, Bool-cases, inl, inr,
}
use ai_ops.Result.{Error, Result, ok, err, Moment, require_aware}
use ai_ops.Store.Table.{string_key}
use ai_ops.Store.Compaction.{
  Tables, IsoTimes, no_violations, compact, Compacted, delete_events, without_event, is_child,
  pruned, candidates,
}
use ai_ops.Store.Compaction.Whole.{without_events}
use ai_ops.Store.Compaction.Holds.{without_events_none, without_events_one}

abbrev pub committed : Result (Compacted × Tables) → Tables → Tables
committed (ok (c, after)) s = after
committed (err e) s = s

ok_injective : {a b : Tables} → ok a ≡ ok b → a ≡ b
ok_injective h = ground arith

err-ok : {e : Error} {a : Tables} → ¬ (err e ≡ ok a)
err-ok h = ground arith

-- what a deletion that succeeds leaves
pub delete_events_ok :
    (ids : List String) (s : Tables) {after : Tables}
    → delete_events ids s ≡ ok after
    → after ≡ without_events ids s
unfolding delete_events
delete_events_ok [] s h = sym (ok_injective h) ∙ sym (without_events_none s)
delete_events_ok (id ∷ ids) s h = elim (Bool-cases (is_child s id)) [
  | inl kept ↦ absurd (err-ok (rw kept at h))
  | inr free ↦
      delete_events_ok ids (without_event id s) (rw free at h) ∙ without_events_one id ids s
]

pub compact_ok :
    (times : IsoTimes) (bytes clock : ℕ) (now : Option Moment) (completed_days audit_days : ℕ)
    (s : Tables) {c : Compacted} {after : Tables}
    → compact times bytes clock now completed_days audit_days s ≡ ok (c, after)
    → (current : ℕ) × (completed_before : String) × (audit_before : String) × (require_aware clock
          now
        ≡ ok current)
      × (times.cutoff current completed_days ≡ some completed_before)
      × (times.cutoff current audit_days ≡ some audit_before)
      × (delete_events
            (candidates times completed_before (pruned times completed_before audit_before s))
            (pruned times completed_before audit_before s)
          ≡ ok after)
      × (no_violations after ≡ true)
unfolding compact
compact_ok times bytes clock now completed_days audit_days s h = ground arith

-- ===== src/Store/Compaction/Holds.antt =====
-- Compaction succeeds, deletes only what is closed, old and not referred to, and leaves no dangling row.
use ai_ops.Prelude.{
  keep_cong, ℕ, ◌≡◌, refl, sym, ap, ◌∙◌, String, Bool, true, false, not, ◌&&◌, some, List, [], ◌∷◌,
  any, keep, map, leb, str_eq, arith, All, Bool-cases, inl, inr, if◌then◌else◌,
}
use ai_ops.Result.{ok, err, foreign_key, aware, require_aware}
use ai_ops.Store.Rows.{EventRow, Attempt, OutboxRow}
use ai_ops.Store.Compaction.{
  Tables, Shadow, Narrowing, is_old_sent, is_old_closed, is_child, is_referred, no_violations,
  without_event, delete_events, pruned, candidates, compaction_report, Compacted, compacted,
  report_of, compact, IsoTimes, is_old_sweep,
}
use ai_ops.Store.Compaction.Kept.{is_in, without_ids, without_ids-delete, without_ids-none}
use ai_ops.Store.Compaction.Whole.{
  without_events, All-map, referred_parts, without_events-no_violations, pruned-no_violations,
}

pub without_events_none : (s : Tables) → without_events [] s ≡ s
without_events_none s =
    rw
      (
        without_ids-none (λ (r : EventRow). r.event_id) s.db.events,
        without_ids-none (λ (a : Attempt). a.event_id) s.db.attempts,
        without_ids-none (λ (x : Shadow). x.event_id) s.shadows,
        without_ids-none (λ (x : Narrowing). x.event_id) s.narrowing,
      )
      refl

pub without_events_one :
    (id : String) (ids : List String) (s : Tables)
    → without_events ids (without_event id s) ≡ without_events (id ∷ ids) s
without_events_one id ids s =
    rw
      (
        without_ids-delete (λ (r : EventRow). r.event_id) id ids s.db.events,
        without_ids-delete (λ (a : Attempt). a.event_id) id ids s.db.attempts,
        without_ids-delete (λ (x : Shadow). x.event_id) id ids s.shadows,
        without_ids-delete (λ (x : Narrowing). x.event_id) id ids s.narrowing,
      )
      refl

-- events without children are deleted, all of them
delete_events-without :
    (ids : List String) (s : Tables)
    → All (λ id. is_child s id ≡ false) ids
    → delete_events ids s ≡ ok (without_events ids s)
unfolding delete_events
delete_events-without [] s h = ap ok (sym (without_events_none s))
delete_events-without (id ∷ ids) s h =
    ap (λ b. if b then err foreign_key else delete_events ids (without_event id s)) h.0
    ∙ delete_events-without ids (without_event id s) h.1
    ∙ ap ok (without_events_one id ids s)

-- an event is deleted exactly if a row of it is old, closed and not referred to
is_in-candidates :
    (times : IsoTimes) (before : String) (s : Tables) (id : String) (rows : List EventRow)
    → is_in
        (map
          (λ (r : EventRow). r.event_id)
          (keep
            (λ (r : EventRow). is_old_closed times before r && not (is_referred s r.event_id))
            rows))
        id
      ≡ any
          (λ (r : EventRow).
            str_eq id r.event_id
            && (is_old_closed times before r && not (is_referred s r.event_id)))
          rows
is_in-candidates times before s id [] = refl
is_in-candidates times before s id (r ∷ rs) = ground (arith, is_in-candidates times before s id rs)

unreferred_of : (a b : Bool) → (a && not b) ≡ true → b ≡ false
unreferred_of a b h = ground arith

candidates-unreferred :
    (times : IsoTimes) (before : String) (s : Tables) (rows : List EventRow)
    → All
        (λ id. is_referred s id ≡ false)
        (map
          (λ (r : EventRow). r.event_id)
          (keep
            (λ (r : EventRow). is_old_closed times before r && not (is_referred s r.event_id))
            rows))
candidates-unreferred times before s [] = tt
candidates-unreferred times before s (r ∷ rs) =
    elim (Bool-cases (is_old_closed times before r && not (is_referred s r.event_id))) [
      | inl gone ↦ rw gone (unreferred_of _ _ gone, candidates-unreferred times before s rs)
      | inr stays ↦ rw stays (candidates-unreferred times before s rs)
    ]

-- some row of the event is old and closed, and nothing that is left refers to it
abbrev pub is_removed : IsoTimes → String → Tables → String → Bool
is_removed times before left id =
    any
      (λ (r : EventRow).
        str_eq id r.event_id && (is_old_closed times before r && not (is_referred left r.event_id)))
      left.db.events

-- the compacted tables
abbrev pub IsCompacted : IsoTimes → String → String → Tables → Tables → Type 0
IsCompacted times completed_before audit_before s after =
    let left = pruned times completed_before audit_before s in
    let stays = λ (id : String). not (is_removed times completed_before left id) in
    (after.db.events ≡ keep (λ (r : EventRow). stays r.event_id) s.db.events)
    × (after.db.attempts ≡ keep (λ (a : Attempt). stays a.event_id) s.db.attempts)
    × (after.shadows ≡ keep (λ (x : Shadow). stays x.event_id) s.shadows)
    × (after.narrowing ≡ keep (λ (x : Narrowing). stays x.event_id) s.narrowing)
    × (after.db.outbox
        ≡ keep (λ (o : OutboxRow). not (is_old_sent times completed_before o)) s.db.outbox)
    × (after.sweeps ≡ keep (λ x. not (is_old_sweep times audit_before x)) s.sweeps)
    × (no_violations after ≡ true)

-- the rows that are kept, by the description
kept_by :
    {R : Type 0} (key : R → String) (times : IsoTimes) (before : String) (left : Tables)
    (rows : List R)
    → without_ids key (candidates times before left) rows
      ≡ keep (λ r. not (is_removed times before left (key r))) rows
unfolding without_ids
kept_by key times before left rows =
    keep_cong _ _ rows (λ r. ap not (is_in-candidates times before left (key r) left.db.events))

-- If no row dangles, the time is aware, the days are in order and the two cutoffs are dates, compaction
-- succeeds: neither a foreign key nor the check at its end refuses it. The events that it deletes, with
-- their attempts and shadows, are those with a row that is completed or terminally failed, whose
-- `updated_at` as a text is before the text of the cutoff of `completed_days`, and which no
-- notification that is left, incident, card or callback refers to. Of the notifications it
-- deletes those that were sent and whose text is before that cutoff, of the sweeps those whose
-- text is before the cutoff of `audit_days`, and no row dangles after it.
pub compact-IsCompacted :
    (times : IsoTimes) (bytes clock current completed_days audit_days : ℕ)
    (completed_before audit_before : String) (s : Tables)
    → no_violations s ≡ true
    → (leb 1 completed_days && leb completed_days audit_days) ≡ true
    → times.cutoff current completed_days ≡ some completed_before
    → times.cutoff current audit_days ≡ some audit_before
    → (c : Compacted) × (after : Tables) × (compact times bytes clock
          (some (aware current))
          completed_days
          audit_days
          s
        ≡ ok (c, after))
      × IsCompacted times completed_before audit_before s after
unfolding compact require_aware compaction_report
compact-IsCompacted times bytes clock current completed_days audit_days completed_before
      audit_before s sound days at_completed at_audit =
    let left = pruned times completed_before audit_before s in
    let ids = candidates times completed_before left in
    let free = candidates-unreferred times completed_before left left.db.events in
    let gone =
      delete_events-without ids left (All-map ids (λ id h. (referred_parts left id h).4) free) in
    let whole =
      without_events-no_violations ids left free
        (pruned-no_violations times completed_before audit_before s sound) in
    (
      compacted times (report_of times bytes completed_before audit_before s) completed_before
          audit_before ids s,
      without_events ids left,
      rw (days, at_completed, at_audit, gone, whole) refl,
      (
        kept_by (λ (r : EventRow). r.event_id) times completed_before left s.db.events,
        kept_by (λ (a : Attempt). a.event_id) times completed_before left s.db.attempts,
        kept_by (λ (x : Shadow). x.event_id) times completed_before left s.shadows,
        kept_by (λ (x : Narrowing). x.event_id) times completed_before left s.narrowing,
        refl,
        refl,
        whole,
      ),
    )

-- ===== src/Store/Compaction/Whole.antt =====
-- Deleting events that nothing refers to leaves no dangling row.
use ai_ops.Prelude.{
  ◌≡◌, ◌∙◌, String, Bool, true, false, not, ◌&&◌, ◌||◌, List, [], ◌∷◌, all, arith, All,
}
use ai_ops.Store.Rows.{EventRow, Attempt, OutboxRow, IncidentLink}
use ai_ops.Store.Compaction.{
  Tables, IsoTimes, Receipt, CardState, Callback, Shadow, Narrowing, is_old_sent, refers, has_event,
  is_child, is_referred, no_violations, pruned, links_of_incidents, steps_of_incidents,
}
use ai_ops.Store.Compaction.Kept.{
  is_in, without_ids, refers-without_ids, unreferred, all-without_ids, all-keep, all-both, all_cong,
}

-- the tables without some events and their notes
abbrev pub without_events : List String → Tables → Tables
without_events ids s = record s {
  db = record (s.db) {
    events = without_ids (λ (r : EventRow). r.event_id) ids s.db.events;
    attempts = without_ids (λ (a : Attempt). a.event_id) ids s.db.attempts;
  };
  shadows = without_ids (λ (x : Shadow). x.event_id) ids s.shadows;
  narrowing = without_ids (λ (x : Narrowing). x.event_id) ids s.narrowing;
}

pub All-map :
    {P Q : String → Type 0} (xs : List String) → ((x : String) → P x → Q x) → All P xs → All Q xs
All-map [] f h = tt
All-map (x ∷ xs) f h = (f x h.0, All-map xs f h.1)

five_false :
    (a b c d e : Bool)
    → (a || b || c || d || e) ≡ false
    → (a ≡ false) × (b ≡ false) × (c ≡ false) × (d ≡ false) × ((a || b || c || d) ≡ false)
five_false a b c d e h = ground arith

-- no table refers to what is not referred to
pub referred_parts :
    (s : Tables) (id : String)
    → is_referred s id ≡ false
    → (refers (λ (o : OutboxRow). o.event_id) id s.db.outbox ≡ false)
      × (refers (λ (l : IncidentLink). l.event_id) id s.db.incident_events ≡ false)
      × (refers (λ (r : Receipt). r.event_id) id s.receipts ≡ false)
      × (refers (λ (c : CardState). c.event_id) id s.cards ≡ false)
      × (is_child s id ≡ false)
referred_parts s id h =
    five_false (refers (λ (o : OutboxRow). o.event_id) id s.db.outbox)
      (refers (λ (l : IncidentLink). l.event_id) id s.db.incident_events)
      (refers (λ (r : Receipt). r.event_id) id s.receipts)
      (refers (λ (c : CardState). c.event_id) id s.cards)
      (refers (λ (c : Callback). c.event_id) id s.callbacks) h

pub split_nine :
    (a b c d e f g h i : Bool)
    → (a && (b && (c && (d && (e && (f && (g && (h && i)))))))) ≡ true
    → (a ≡ true)
      × (b ≡ true)
      × (c ≡ true)
      × (d ≡ true)
      × (e ≡ true)
      × (f ≡ true)
      × (g ≡ true)
      × (h ≡ true)
      × (i ≡ true)
split_nine a b c d e f g h i p = ground arith

pub join_nine :
    (a b c d e f g h i : Bool)
    → (a ≡ true)
      × (b ≡ true)
      × (c ≡ true)
      × (d ≡ true)
      × (e ≡ true)
      × (f ≡ true)
      × (g ≡ true)
      × (h ≡ true)
      × (i ≡ true)
    → (a && (b && (c && (d && (e && (f && (g && (h && i)))))))) ≡ true
join_nine a b c d e f g h i p = ground arith

module _ (ids : List String) (events : List EventRow) where
  -- the events that are left
  abbrev left : String → Bool
  left = has_event (without_ids (λ (r : EventRow). r.event_id) ids events)

  module _ {R : Type 0} (key : R → String) where
    -- rows that go with the deleted events
    follows :
        (rows : List R)
        → all (λ r. has_event events (key r)) rows ≡ true
        → all (λ r. left (key r)) (without_ids key ids rows) ≡ true
    follows rows h =
        all_cong (λ r. left (key r)) (λ r. has_event events (key r) && not (is_in ids (key r)))
          (without_ids key ids rows)
          (λ r. refers-without_ids (λ (e : EventRow). e.event_id) (key r) ids events)
        ∙ all-without_ids key (has_event events) ids rows h

    -- rows that keep their events
    stands :
        (rows : List R)
        → All (λ id. refers key id rows ≡ false) ids
        → all (λ r. has_event events (key r)) rows ≡ true
        → all (λ r. left (key r)) rows ≡ true
    stands rows free h =
        all_cong (λ r. left (key r)) (λ r. has_event events (key r) && not (is_in ids (key r))) rows
          (λ r. refers-without_ids (λ (e : EventRow). e.event_id) (key r) ids events)
        ∙ all-both (λ r. has_event events (key r)) (λ r. not (is_in ids (key r))) rows h
            (unreferred key ids rows free)

pub without_events-no_violations :
    (ids : List String) (s : Tables)
    → All (λ id. is_referred s id ≡ false) ids
    → no_violations s ≡ true
    → no_violations (without_events ids s) ≡ true
unfolding no_violations
without_events-no_violations ids s free h =
    let (a, b, c, d, e, f, g, i, j) =
      split_nine _ _ _ _ _ _ _ (links_of_incidents s) (steps_of_incidents s) h in
    let es = s.db.events in
    join_nine _ _ _ _ _ _ _ (links_of_incidents s) (steps_of_incidents s) (
      follows ids es (λ (x : Attempt). x.event_id) s.db.attempts a,
      stands ids es (λ (x : OutboxRow). x.event_id) s.db.outbox
          (All-map ids (λ id h. (referred_parts s id h).0) free) b,
      stands ids es (λ (x : Receipt). x.event_id) s.receipts
          (All-map ids (λ id h. (referred_parts s id h).2) free) c,
      stands ids es (λ (x : CardState). x.event_id) s.cards
          (All-map ids (λ id h. (referred_parts s id h).3) free) d,
      follows ids es (λ (x : Shadow). x.event_id) s.shadows e,
      follows ids es (λ (x : Narrowing). x.event_id) s.narrowing f,
      stands ids es (λ (x : IncidentLink). x.event_id) s.db.incident_events
          (All-map ids (λ id h. (referred_parts s id h).1) free) g,
      i,
      j,
    )

second_kept :
    (a b c rest : Bool)
    → (b ≡ true → c ≡ true)
    → (a && (b && rest)) ≡ true
    → (a && (c && rest)) ≡ true
second_kept a b c rest f h = ground arith

pub pruned-no_violations :
    (times : IsoTimes) (completed_before audit_before : String) (s : Tables)
    → no_violations s ≡ true
    → no_violations (pruned times completed_before audit_before s) ≡ true
unfolding no_violations
pruned-no_violations times completed_before audit_before s = second_kept _ _ _ _ (
    all-keep (λ (o : OutboxRow). has_event s.db.events o.event_id)
      (λ (o : OutboxRow). not (is_old_sent times completed_before o)) s.db.outbox)

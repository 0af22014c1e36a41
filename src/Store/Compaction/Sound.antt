-- ===== src/Store/Compaction/Sound.antt =====
-- No operation on events and no compaction leaves a dangling row (event_store.py).
use ai_ops.Prelude.{
  ℕ, ◌≡◌, refl, ap, ◌∙◌, String, Bool, true, ◌&&◌, ◌||◌, Option, some, List, [], ◌∷◌, ◌++◌, all,
  str_eq, arith, eq_refl, none-some,
}
use ai_ops.Result.{Result, ok, err, Moment}
use ai_ops.Store.Payload.{Payload}
use ai_ops.Store.Rows.{EventState, EventRow, Attempt, Db}
use ai_ops.Store.Table.{find_row, update_row, string_key}
use ai_ops.Store.Events.{find_event, set_event, log_attempt}
use ai_ops.Store.Create.{insert_event, fresh}
use ai_ops.Store.Run.{Op, step}
use ai_ops.Store.Trail.Steps.{step_keeps}
use ai_ops.Store.Compaction.{
  IsoTimes, Tables, has_event, no_violations, links_of_incidents, steps_of_incidents, compact,
  Compacted,
}
use ai_ops.Store.Compaction.Whole.{split_nine, join_nine}
use ai_ops.Store.Compaction.Committed.{committed, compact_ok}

or_right : (a b : Bool) → b ≡ true → (a || b) ≡ true
or_right a b h = ground arith

-- rows that find an event still do
Grows : List EventRow → List EventRow → Type 0
Grows events more = (k : String) → has_event events k ≡ true → has_event more k ≡ true

all_mono :
    {R : Type 0} (p q : R → Bool) (xs : List R)
    → ((x : R) → p x ≡ true → q x ≡ true)
    → all p xs ≡ true
    → all q xs ≡ true
all_mono p q [] f h = refl
all_mono p q (x ∷ xs) f h = ground (arith, f x, all_mono p q xs f)

-- events that only grow, and attempts of events that are there
grown-no_violations :
    (s : Tables) (more : List EventRow) (attempts : List Attempt)
    → Grows s.db.events more
    → all (λ (a : Attempt). has_event more a.event_id) attempts ≡ true
    → no_violations s ≡ true
    → no_violations (record s { db = record (s.db) { events = more; attempts = attempts } }) ≡ true
unfolding no_violations Grows
grown-no_violations s more attempts grows fine h =
    let (a, b, c, d, e, f, g, i, j) =
      split_nine _ _ _ _ _ _ _ (links_of_incidents s) (steps_of_incidents s) h in
    join_nine _ _ _ _ _ _ _ (links_of_incidents s) (steps_of_incidents s) (
      fine,
      all_mono _ _ s.db.outbox (λ x. grows x.event_id) b,
      all_mono _ _ s.receipts (λ x. grows x.event_id) c,
      all_mono _ _ s.cards (λ x. grows x.event_id) d,
      all_mono _ _ s.shadows (λ x. grows x.event_id) e,
      all_mono _ _ s.narrowing (λ x. grows x.event_id) f,
      all_mono _ _ s.db.incident_events (λ x. grows x.event_id) g,
      i,
      j,
    )

and_left : (a b : Bool) → (a && b) ≡ true → a ≡ true
and_left a b h = ground arith

attempts_of :
    (s : Tables)
    → no_violations s ≡ true
    → all (λ (a : Attempt). has_event s.db.events a.event_id) s.db.attempts ≡ true
unfolding no_violations
attempts_of s h = and_left _ _ h

has_event-update_row :
    (k j : String) (f : EventRow → EventRow) (rows : List EventRow)
    → ((r : EventRow) → (f r).event_id ≡ r.event_id)
    → has_event (update_row (λ (r : EventRow). r.event_id) k f rows) j ≡ has_event rows j
unfolding update_row
has_event-update_row k j f [] keeps = refl
has_event-update_row k j f (r ∷ rs) keeps =
    ground (arith, ap (λ id. str_eq id j) (keeps r), has_event-update_row k j f rs keeps)

has_event-find_event :
    (k : String) (rows : List EventRow) {row : EventRow}
    → find_row (λ (r : EventRow). r.event_id) k rows ≡ some row
    → has_event rows k ≡ true
unfolding find_row
has_event-find_event k [] h = absurd (none-some h)
has_event-find_event k (r ∷ rs) {row} h = ground (arith, has_event-find_event k rs {row = row})

has_event-append :
    (rows : List EventRow) (r : EventRow) (k : String)
    → has_event (rows ++ r ∷ []) k ≡ (has_event rows k || str_eq r.event_id k)
has_event-append [] r k = ground arith
has_event-append (x ∷ xs) r k = ground (arith, has_event-append xs r k)

all-append_one :
    (p : Attempt → Bool) (xs : List Attempt) (a : Attempt)
    → all p xs ≡ true
    → p a ≡ true
    → all p (xs ++ a ∷ []) ≡ true
all-append_one p [] a h k = ground arith
all-append_one p (x ∷ xs) a h k = ground (arith, all-append_one p xs a)

or_left : (a b : Bool) → a ≡ true → (a || b) ≡ true
or_left a b h = ground arith

-- the database of the tables, the other tables as they are
module _ (s : Tables) where
  abbrev IsSound : Db → Type 0
  IsSound db = no_violations (record s { db = db }) ≡ true

  logged-IsSound :
      (db : Db) (more : List EventRow) (a : Attempt)
      → Grows db.events more
      → has_event more a.event_id ≡ true
      → IsSound db
      → IsSound (record db { events = more; attempts = db.attempts ++ a ∷ [] })
  unfolding Grows
  logged-IsSound db more a grows there sound =
      grown-no_violations (record s { db = db }) more (db.attempts ++ a ∷ []) grows
        (all-append_one (λ (x : Attempt). has_event more x.event_id) db.attempts a
          (all_mono (λ (x : Attempt). has_event db.events x.event_id)
            (λ (x : Attempt). has_event more x.event_id) db.attempts (λ x. grows x.event_id)
            (attempts_of (record s { db = db }) sound))
          there)
        sound

  write-IsSound :
      (k : String) (f : EventRow → EventRow) (st : EventState) (t : ℕ) (reason : Option String)
      (db : Db) (row : EventRow)
      → ((r : EventRow) → (f r).event_id ≡ r.event_id)
      → find_event k db ≡ some row
      → IsSound db
      → IsSound (log_attempt k st t reason (set_event k f db))
  unfolding Grows
  write-IsSound k f st t reason db row keeps found sound =
      logged-IsSound db _ _ (λ j h. has_event-update_row k j f db.events keeps ∙ h)
        (has_event-update_row k k f db.events keeps ∙ has_event-find_event k db.events found) sound

  quiet-IsSound :
      (k : String) (f : EventRow → EventRow) (db : Db) (row : EventRow)
      → ((r : EventRow) → (f r).event_id ≡ r.event_id)
      → IsSound db
      → IsSound (set_event k f db)
  unfolding Grows
  quiet-IsSound k f db row keeps sound =
      grown-no_violations (record s { db = db }) _ db.attempts
        (λ j h. has_event-update_row k j f db.events keeps ∙ h)
        (all_mono (λ (x : Attempt). has_event db.events x.event_id) _ db.attempts
          (λ x h. has_event-update_row k x.event_id f db.events keeps ∙ h)
          (attempts_of (record s { db = db }) sound))
        sound

  insert-IsSound :
      (now : ℕ) (k device : String) (payload : Payload) (db : Db)
      → IsSound db
      → IsSound (insert_event now k device payload db)
  unfolding Grows insert_event fresh
  insert-IsSound now k device payload db sound =
      logged-IsSound db _ _
        (λ j h. has_event-append db.events (fresh now k device payload) j ∙ or_left _ _ h)
        (has_event-append db.events (fresh now k device payload) k ∙ or_right _ _ (eq_refl k)) sound

  pub step-IsSound : (op : Op) → IsSound s.db → IsSound (step op s.db)
  step-IsSound op =
      step_keeps IsSound
        (λ k f st t reason db row keeps target edge_ok found.
          write-IsSound k f st t reason db row keeps found)
        (λ k f db row keeps target found. quiet-IsSound k f db row keeps)
        (λ now k device payload db missing. insert-IsSound now k device payload db) op s.db

pub compact-no_violations :
    (times : IsoTimes) (bytes clock : ℕ) (now : Option Moment) (completed_days audit_days : ℕ)
    (s : Tables) (x : Result (Compacted × Tables))
    → compact times bytes clock now completed_days audit_days s ≡ x
    → no_violations s ≡ true
    → no_violations (committed x s) ≡ true
compact-no_violations times bytes clock now completed_days audit_days s (err e) h sound = sound
compact-no_violations times bytes clock now completed_days audit_days s (ok (c, after)) h sound =
    (compact_ok times bytes clock now completed_days audit_days s {c = c} {after = after} h).7

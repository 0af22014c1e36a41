-- ===== src/Store/Incidents/Linked.antt =====
-- Opening a case and joining an event to it keep both unique (event_store.py).
use ai_ops.Prelude.{
  ℕ, ◌≤◌, ◌≡◌, refl, String, Bool, true, Option, none, some, List, [], ◌∷◌, ◌++◌, arith, str_eq,
  eq_iff, count_if, count_if-append, find_first, Option-cases, inl, inr,
}
use ai_ops.Result.{ok}
use ai_ops.Store.Rows.{open_, IncidentIdentity, IncidentRow, IncidentLink, Db}
use ai_ops.Store.Table.{string_key}
use ai_ops.Store.Table.Counting.{
  count_if_of_find_first, count_key_of_find_row, count_key-update, count_if-update_same,
}
use ai_ops.Store.Incidents.{
  same_identity, is_case, find_incident, set_incident, find_link, opened, touched, link, join,
  log_step,
}

pub record IsUnique (db : Db) : Type 0 where
  pub cases : (i : IncidentIdentity) → count_if (is_case i) db.incidents ≤ 1
  pub ids : (k : String) → count_if (λ (r : IncidentRow). str_eq r.incident_id k) db.incidents ≤ 1
  pub links :
      (e : String) → count_if (λ (l : IncidentLink). str_eq l.event_id e) db.incident_events ≤ 1

join_inv :
    (id e : String) (t : ℕ) (created : Bool) (db : Db) {r : IncidentRow} {made : Bool} {db' : Db}
    → join id e t created db ≡ ok ((r, made), db')
    → (linked : Db) × (link (find_link e db) id e t db ≡ ok linked)
      × (db' ≡ set_incident id (touched t) linked)
join_inv id e t created db h = ground arith

link-IsUnique :
    (id e : String) (t : ℕ) (db linked : Db)
    → link (find_link e db) id e t db ≡ ok linked
    → IsUnique db
    → IsUnique linked
link-IsUnique id e t db linked h u = elim (Option-cases (find_link e db)) [
  | inr (prior, found) ↦ rw (old_db prior found) u
  | inl missing ↦ rw (new_db missing) (record {
    cases = u.cases;
    ids = u.ids;
    links = λ j. ground (
      arith,
      u.links j,
      missing,
      eq_iff e j,
      count_if_of_find_first (λ (l : IncidentLink). str_eq l.event_id e) db.incident_events,
      count_if-append (λ (l : IncidentLink). str_eq l.event_id j) db.incident_events
          (record { incident_id = id; event_id = e; joined_at = t } ∷ []),
    );
  })
]
  where
    old_db : (prior : IncidentLink) → find_link e db ≡ some prior → linked ≡ db
    old_db prior m = ground (arith, h, m)

    new_db :
        find_link e db ≡ none
        → linked ≡ record db {
          incident_events =
              db.incident_events ++ record { incident_id = id; event_id = e; joined_at = t } ∷ [];
        }
    new_db m = ground (arith, h, m)

touch-IsUnique :
    (id : String) (t : ℕ) (db : Db) → IsUnique db → IsUnique (set_incident id (touched t) db)
touch-IsUnique id t db u = record {
  cases = λ i.
      rw
        (count_if-update_same (λ (r : IncidentRow). r.incident_id) (is_case i) id (touched t)
          db.incidents (λ r. unfold touched in refl))
        (u.cases i);
  ids = λ k.
      rw
        (count_key-update (λ (r : IncidentRow). r.incident_id) id k (touched t) db.incidents
          (λ r. unfold touched in refl))
        (u.ids k);
  links = u.links;
}

pub join-IsUnique :
    (id e : String) (t : ℕ) (created : Bool) (db : Db) {r : IncidentRow} {made : Bool} {db' : Db}
    → join id e t created db ≡ ok ((r, made), db')
    → IsUnique db
    → IsUnique db'
join-IsUnique id e t created db {r} {made} {db'} h u =
    let (linked, l, written) = join_inv id e t created db {r = r} {made = made} {db' = db'} h in
    rw written (touch-IsUnique id t linked (link-IsUnique id e t db linked l u))

-- Two identities with the same fields.
is_case-same :
    (i j : IncidentIdentity) (r : IncidentRow)
    → same_identity i j ≡ true
    → is_case j r ≡ is_case i r
is_case-same i j r h = ground (
  arith,
  h,
  eq_iff i.device j.device,
  eq_iff i.cause_rung j.cause_rung,
  eq_iff i.cause_subject j.cause_subject,
)

count_case-same :
    (i j : IncidentIdentity) (rows : List IncidentRow)
    → same_identity i j ≡ true
    → count_if (is_case j) rows ≡ count_if (is_case i) rows
count_case-same i j [] h = refl
count_case-same i j (x ∷ xs) h = rw (is_case-same i j x h, count_case-same i j xs h)

pub open-IsUnique :
    (t : ℕ) (id : String) (i : IncidentIdentity) (db : Db) (reason : Option String)
    → find_first (is_case i) db.incidents ≡ none
    → find_incident id db ≡ none
    → IsUnique db
    → IsUnique
        (log_step id open_ t reason (record db { incidents = db.incidents ++ opened t id i ∷ [] }))
unfolding opened
open-IsUnique t id i db reason no_case no_id u = record {
  cases = λ j. ground (
    arith,
    u.cases j,
    no_case,
    count_if_of_find_first (is_case i) db.incidents,
    count_case-same i j db.incidents,
    count_if-append (is_case j) db.incidents (opened t id i ∷ []),
  );
  ids = λ k. ground (
    arith,
    u.ids k,
    no_id,
    eq_iff id k,
    count_key_of_find_row (λ (r : IncidentRow). r.incident_id) id db.incidents,
    count_if-append (λ (r : IncidentRow). str_eq r.incident_id k) db.incidents (opened t id i ∷ []),
  );
  links = u.links;
}

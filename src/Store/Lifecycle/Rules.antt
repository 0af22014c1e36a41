-- ===== src/Store/Lifecycle/Rules.antt =====
-- The rules by which an event's row changes, and that every operation follows them.
use ai_ops.Prelude.{
  ℕ, ◌+◌, ◌≡◌, refl, ap, inl, inr, String, Bool, true, false, Option, none, some, arith, str_eq,
  eq_iff, Bool-cases, Option-cases,
}
use ai_ops.Result.{Result, ok, err, Moment}
use ai_ops.Store.Payload.{Payload}
use ai_ops.Store.Table.{string_key, find_row-update, find_row-append}
use ai_ops.Store.Rows.{EventState, EventRow, Db, running, received}
use ai_ops.Store.Events.{
  find_event, set_event, allowed, moved, validate_lease_fence, transition, RetryRecord,
  schedule_retry, can_retry, retry_target, retried, acquire_lease, is_leased, leased, renew_lease,
  renewed,
}
use ai_ops.Store.Events.Inversion.{
  transition_inv, schedule_retry_inv, acquire_lease_inv, renew_lease_inv,
}
use ai_ops.Store.Create.{fresh, create_or_get, create_or_update, refreshed, insert_event}
use ai_ops.Store.Create.Inversion.{
  create_or_get_new, create_or_get_old, create_or_update_new, create_or_update_old,
}
use ai_ops.Store.Run.{Op, create, refresh, move, retry, acquire, renew, settle, step}

pub data Change (r r' : EventRow) : Type 0 where
  moves :
      (state : EventState) (t : ℕ) (ticket reason owner : Option String) (epoch : Option ℕ)
      → validate_lease_fence r owner epoch t ≡ ok tt
      → allowed r.state state ≡ true
      → r' ≡ moved state t ticket reason r
      → Change r r'
  retries :
      (attempts max_attempts base t : ℕ) (ticket owner : Option String) (reason : String)
      (epoch : Option ℕ)
      → validate_lease_fence r owner epoch t ≡ ok tt
      → can_retry r.state ≡ true
      → r'
        ≡ retried
            (retry_target attempts max_attempts base t).0
            t
            (retry_target attempts max_attempts base t).1
            ticket
            reason
            r
      → Change r r'
  leases :
      (owner : String) (t expiry : ℕ)
      → can_retry r.state ≡ true
      → is_leased r.state r.lease_expires_at t ≡ false
      → r' ≡ leased owner t expiry r
      → Change r r'
  renews :
      (owner : String) (epoch t expiry : ℕ)
      → r.state ≡ running
      → validate_lease_fence r (some owner) (some epoch) t ≡ ok tt
      → r' ≡ renewed t expiry r
      → Change r r'
  refreshes :
      (now : ℕ) (payload : Payload)
      → r.state ≡ received
      → r' ≡ refreshed now payload r
      → Change r r'

-- What one operation may do to the row of one id.
pub data RowStep (o o' : Option EventRow) : Type 0 where
  same : o' ≡ o → RowStep o o'
  born :
      (now : ℕ) (id device : String) (payload : Payload)
      → o ≡ none
      → o' ≡ some (fresh now id device payload)
      → RowStep o o'
  changed : (r r' : EventRow) → o ≡ some r → o' ≡ some r' → Change r r' → RowStep o o'

set_event-RowStep :
    (k id : String) (f : EventRow → EventRow) (db : Db) (row : EventRow)
    → ((r : EventRow) → (f r).event_id ≡ r.event_id)
    → find_event k db ≡ some row
    → Change row (f row)
    → RowStep (find_event id db) (find_event id (set_event k f db))
set_event-RowStep k id f db row keeps found c = elim (Bool-cases (str_eq k id)) [
  | inl same_id ↦
      changed row (f row) (ground (arith, found, eq_iff k id))
        (ground (
          arith,
          found,
          eq_iff k id,
          find_row-update (λ (r : EventRow). r.event_id) k id f db.events keeps,
        ))
        c
  | inr other ↦
      same (rw (find_row-update (λ (r : EventRow). r.event_id) k id f db.events keeps, other))
]

insert_event-RowStep :
    (now : ℕ) (k id device : String) (payload : Payload) (db : Db)
    → find_event k db ≡ none
    → RowStep (find_event id db) (find_event id (insert_event now k device payload db))
unfolding insert_event
insert_event-RowStep now k id device payload db missing = elim (Bool-cases (str_eq k id)) [
  | inl same_id ↦ born now k device payload (ground (arith, missing, eq_iff k id)) (
      unfold fresh in
      ground (
        arith,
        missing,
        eq_iff k id,
        find_row-append (λ (r : EventRow). r.event_id) id db.events (fresh now k device payload),
      ))
  | inr other ↦ same (
      unfold fresh in
      ground (
        arith,
        other,
        find_row-append (λ (r : EventRow). r.event_id) id db.events (fresh now k device payload),
      ))
]

module _ (id : String) (db : Db) where
  transition-RowStep :
      (clock : ℕ) (now : Option Moment) (k : String) (state : EventState)
      (reason ticket owner : Option String) (epoch : Option ℕ) (x : Result (EventRow × Db))
      → transition clock now k state reason ticket owner epoch db ≡ x
      → RowStep (find_event id db) (find_event id (settle x db))
  transition-RowStep clock now k state reason ticket owner epoch (err e) h = same refl
  transition-RowStep clock now k state reason ticket owner epoch (ok (r, db')) h =
      let (t, row, aware, found, edge, fenced, written, last) =
        transition_inv clock now k state reason ticket owner epoch db {r = r} {db' = db'} h in
      rw written (
        set_event-RowStep k id (moved state t ticket reason) db row (λ r. unfold moved in refl)
          found (moves state t ticket reason owner epoch fenced edge refl))

  schedule_retry-RowStep :
      (clock : ℕ) (now : Option Moment) (k reason : String) (ticket : Option String)
      (base max_attempts : ℕ) (owner : Option String) (epoch : Option ℕ)
      (x : Result (RetryRecord × Db))
      → schedule_retry clock now k reason ticket base max_attempts owner epoch db ≡ x
      → RowStep (find_event id db) (find_event id (settle x db))
  schedule_retry-RowStep clock now k reason ticket base max owner epoch (err e) h = same refl
  schedule_retry-RowStep clock now k reason ticket base max owner epoch (ok (r, db')) h =
      let (t, row, aware, found, state_ok, fenced, written, at, pos, positive) =
        schedule_retry_inv clock now k reason ticket base max owner epoch db {r = r} {db' = db'}
          h in
      rw written (
        set_event-RowStep k id _ db row (λ r. unfold retried in refl) found
          (retries _ max base t ticket owner reason epoch fenced state_ok refl))

  acquire_lease-RowStep :
      (clock : ℕ) (now : Option Moment) (k owner : String) (duration : ℕ)
      (x : Result (EventRow × Db))
      → acquire_lease clock now k owner duration db ≡ x
      → RowStep (find_event id db) (find_event id (settle x db))
  acquire_lease-RowStep clock now k owner duration (err e) h = same refl
  acquire_lease-RowStep clock now k owner duration (ok (r, db')) h =
      let (t, row, aware, found, state_ok, due, free, written, last, pos) =
        acquire_lease_inv clock now k owner duration db {r = r} {db' = db'} h in
      rw written (
        set_event-RowStep k id _ db row (λ r. unfold leased in refl) found
          (leases owner t (t + duration) state_ok free refl))

  renew_lease-RowStep :
      (clock : ℕ) (now : Option Moment) (k owner : String) (epoch duration : ℕ)
      (x : Result (EventRow × Db))
      → renew_lease clock now k owner epoch duration db ≡ x
      → RowStep (find_event id db) (find_event id (settle x db))
  renew_lease-RowStep clock now k owner epoch duration (err e) h = same refl
  renew_lease-RowStep clock now k owner epoch duration (ok (r, db')) h =
      let (t, row, aware, found, state_ok, fenced, written, last) =
        renew_lease_inv clock now k owner epoch duration db {r = r} {db' = db'} h in
      rw written (
        set_event-RowStep k id _ db row (λ r. unfold renewed in refl) found
          (renews owner epoch t (t + duration) state_ok fenced refl))

  create_or_get-RowStep :
      (now : ℕ) (k device : String) (payload : Payload) (strict : Bool)
      (x : Result ((EventRow × Bool) × Db))
      → create_or_get now k device payload strict db ≡ x
      → RowStep (find_event id db) (find_event id (settle x db))
  create_or_get-RowStep now k device payload strict (err e) h = same refl
  create_or_get-RowStep now k device payload strict (ok ((r, made), db')) h =
      elim (Option-cases (find_event k db)) [
        | inl missing ↦
            rw ((create_or_get_new now k device payload db strict missing h).0)
              (insert_event-RowStep now k id device payload db missing)
        | inr (row, found) ↦
            same (ap (find_event id) (create_or_get_old now k device payload db strict found h).0)
      ]

  create_or_update-RowStep :
      (now : ℕ) (k device : String) (payload : Payload) (x : Result ((EventRow × Bool) × Db))
      → create_or_update now k device payload db ≡ x
      → RowStep (find_event id db) (find_event id (settle x db))
  create_or_update-RowStep now k device payload (err e) h = same refl
  create_or_update-RowStep now k device payload (ok ((r, made), db')) h =
      elim (Option-cases (find_event k db)) [
        | inl missing ↦
            rw ((create_or_update_new now k device payload db missing h).0)
              (insert_event-RowStep now k id device payload db missing)
        | inr (row, found) ↦
            let (written, old, dev, valid, state_ok) =
              create_or_update_old now k device payload db found h in
            rw written (
              set_event-RowStep k id _ db row (λ r. unfold refreshed in refl) found
                (refreshes now payload state_ok refl))
      ]

-- Every operation on the event tables leaves the row of each id as it was, inserts a fresh row for
-- an id that had none, or changes the row by one of the rules of `Change`: it moves along an allowed
-- edge, fails towards a retry or the dead letters, takes a free lease, renews a held one, or gives
-- new content to an event that is still `received`; all but taking a lease and a refresh pass the
-- lease fence.
pub step-RowStep :
    (op : Op) (db : Db) (id : String) → RowStep (find_event id db) (find_event id (step op db))
unfolding step
step-RowStep (create now k device payload strict) db id =
    create_or_get-RowStep id db now k device payload strict _ refl
step-RowStep (refresh now k device payload) db id =
    create_or_update-RowStep id db now k device payload _ refl
step-RowStep (move clock now k state reason ticket owner epoch) db id =
    transition-RowStep id db clock now k state reason ticket owner epoch _ refl
step-RowStep (retry clock now k reason ticket base max owner epoch) db id =
    schedule_retry-RowStep id db clock now k reason ticket base max owner epoch _ refl
step-RowStep (acquire clock now k owner duration) db id =
    acquire_lease-RowStep id db clock now k owner duration _ refl
step-RowStep (renew clock now k owner epoch duration) db id =
    renew_lease-RowStep id db clock now k owner epoch duration _ refl

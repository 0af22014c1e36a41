-- ===== src/Store/Lease/Fencing.antt =====
-- Lease epochs only grow, so a worker whose lease another worker took over is fenced off.
use native.Mathlib.Nat.{le_refl, le_trans}
use ai_ops.Prelude.{ℕ, ◌+◌, ◌<◌, ◌≤◌, ◌≡◌, refl, String, false, Option, some, List, arith}
use ai_ops.Result.{Result, ok, err, Moment}
use ai_ops.Store.Rows.{EventState, EventRow, Db}
use ai_ops.Store.Events.{
  find_event, moved, retried, leased, renewed, validate_lease_fence, transition, schedule_retry,
  acquire_lease, renew_lease,
}
use ai_ops.Store.Events.Inversion.{
  transition_inv, schedule_retry_inv, acquire_lease_inv, renew_lease_inv,
}
use ai_ops.Store.Create.{refreshed}
use ai_ops.Store.Run.{Op, run}
use ai_ops.Store.Lifecycle.Rules.{Change, moves, retries, leases, renews, refreshes}
use ai_ops.Store.Lifecycle.Relates.{run-relates}
use ai_ops.Store.Lease.Exclusion.{is_ok, find_event-set_event}

Change-epoch : (r r' : EventRow) → Change r r' → r.lease_epoch ≤ r'.lease_epoch
unfolding moved retried leased renewed refreshed
Change-epoch r r' (moves state t ticket reason owner epoch f a e) = rw e (le_refl _)
Change-epoch r r' (retries n m base t ticket owner reason epoch f a e) = rw e (le_refl _)
Change-epoch r r' (leases owner t expiry a f e) = rw e (omega arith)
Change-epoch r r' (renews owner epoch t expiry a f e) = rw e (le_refl _)
Change-epoch r r' (refreshes now payload a e) = rw e (le_refl _)

-- In every history the lease epoch of an event never falls.
run-epoch :
    (ops : List Op) (db : Db) (id : String) (r : EventRow)
    → find_event id db ≡ some r
    → (r' : EventRow) × (find_event id (run ops db) ≡ some r') × (r.lease_epoch ≤ r'.lease_epoch)
run-epoch =
    run-relates (λ r r'. r.lease_epoch ≤ r'.lease_epoch) (λ r. le_refl _)
      (λ a b c h k. le_trans h k) Change-epoch

-- An acquired lease carries the next epoch.
acquire_lease-epoch :
    (clock : ℕ) (now : Option Moment) (id owner : String) (duration : ℕ) (db : Db) {r : EventRow}
    {db' : Db}
    → acquire_lease clock now id owner duration db ≡ ok (r, db')
    → (row : EventRow) × (find_event id db ≡ some row)
      × (find_event id db' ≡ some r)
      × (r.lease_epoch ≡ row.lease_epoch + 1)
acquire_lease-epoch clock now id owner duration db {r} {db'} h =
    let (u, row, is_t, found, can, due, free, written, last, positive) =
      acquire_lease_inv clock now id owner duration db {r = r} {db' = db'} h in
    let after : find_event id db' ≡ some (leased owner u (u + duration) row) = rw written (
      find_event-set_event id (leased owner u (u + duration)) db {row = row}
        (λ r. unfold leased in refl) found) in
    (row, found, last, unfold leased in ground arith)

fence_refuses :
    (row : EventRow) (holder : String) (owner : Option String) (epoch t : ℕ)
    → row.lease_owner ≡ some holder
    → epoch < row.lease_epoch
    → validate_lease_fence row owner (some epoch) t ≡ ok tt
    → ⊥
unfolding validate_lease_fence
fence_refuses row holder owner epoch t h lt k = ground arith

pub not_ok : {A : Type 0} (x : Result A) → ((a : A) → x ≡ ok a → ⊥) → is_ok x ≡ false
not_ok (ok a) h = absurd (h a refl)
not_ok (err e) h = refl

module _ (id : String) (owner : Option String) (epoch : ℕ) (db : Db) (row : EventRow)
    (holder : String) (found : find_event id db ≡ some row) (held : row.lease_owner ≡ some holder)
    (stale : epoch < row.lease_epoch) where
  fenced_off :
      (row' : EventRow) (t : ℕ)
      → find_event id db ≡ some row'
      → validate_lease_fence row' owner (some epoch) t ≡ ok tt
      → ⊥
  fenced_off row' t found' passed =
      fence_refuses row holder owner epoch t held stale (ground (arith, found, found'))

  transition_stale :
      (clock : ℕ) (now : Option Moment) (state : EventState) (reason ticket : Option String)
      → is_ok (transition clock now id state reason ticket owner (some epoch) db) ≡ false
  transition_stale clock now state reason ticket = not_ok _ (λ a h.
      let (t, row', aware, found', edge, fenced, written, last) =
        transition_inv clock now id state reason ticket owner (some epoch) db {r = a.0} {db' = a.1}
          h in
      fenced_off row' t found' fenced)

  schedule_retry_stale :
      (clock : ℕ) (now : Option Moment) (reason : String) (ticket : Option String)
      (base max_attempts : ℕ)
      → is_ok (schedule_retry clock now id reason ticket base max_attempts owner (some epoch) db)
        ≡ false
  schedule_retry_stale clock now reason ticket base max = not_ok _ (λ a h.
      let (t, row', aware, found', can, fenced, written, at, pos, positive) =
        schedule_retry_inv clock now id reason ticket base max owner (some epoch) db {r = a.0}
          {db' = a.1} h in
      fenced_off row' t found' fenced)

renew_lease_stale :
    (id owner : String) (epoch : ℕ) (db : Db) (row : EventRow) (holder : String)
    → find_event id db ≡ some row
    → row.lease_owner ≡ some holder
    → epoch < row.lease_epoch
    → (clock : ℕ) (now : Option Moment) (duration : ℕ)
    → is_ok (renew_lease clock now id owner epoch duration db) ≡ false
renew_lease_stale id owner epoch db row holder found held stale clock now duration =
    not_ok _ (λ a h.
      let (t, row', aware, found', state_ok, fenced, written, last) =
        renew_lease_inv clock now id owner epoch duration db {r = a.0} {db' = a.1} h in
      fenced_off id (some owner) epoch db row holder found held stale row' t found' fenced)

-- A worker that acquired the lease of an event, and then lost it to another acquisition after any
-- operations `ops`, is fenced off for as long as, after any further operations `more`, some worker
-- holds the lease: with the first worker's epoch every `transition`, `schedule_retry` and
-- `renew_lease` fails.
pub stale_worker_fenced :
    (clock clock' : ℕ) (now now' : Option Moment) (id owner owner' : String)
    (duration duration' : ℕ) (db : Db) {r r' : EventRow} {db1 db2 : Db} (ops more : List Op)
    {row : EventRow} {holder : String}
    → acquire_lease clock now id owner duration db ≡ ok (r, db1)
    → acquire_lease clock' now' id owner' duration' (run ops db1) ≡ ok (r', db2)
    → find_event id (run more db2) ≡ some row
    → row.lease_owner ≡ some holder
    → ((c : ℕ) (n : Option Moment) (state : EventState) (reason ticket : Option String)
        → is_ok
            (transition c n id state reason ticket (some owner) (some r.lease_epoch) (run more db2))
          ≡ false)
      × ((c : ℕ) (n : Option Moment) (reason : String) (ticket : Option String) (base max : ℕ)
          → is_ok (
              schedule_retry c n id reason ticket base max
                (some owner)
                (some r.lease_epoch)
                (run more db2))
            ≡ false)
      × ((c : ℕ) (n : Option Moment) (d : ℕ)
          → is_ok (renew_lease c n id owner r.lease_epoch d (run more db2)) ≡ false)
stale_worker_fenced clock clock' now now' id owner owner' duration duration' db {r} {r'} {db1} {db2}
      ops more {row} {holder} first second found held =
    let (row0, found0, after1, e1) =
      acquire_lease-epoch clock now id owner duration db {r = r} {db' = db1} first in
    let (row1, found1, after2, e2) =
      acquire_lease-epoch clock' now' id owner' duration' (run ops db1) {r = r'} {db' = db2}
        second in
    let (row2, found2, le1) = run-epoch ops db1 id r after1 in
    let (row3, found3, le2) = run-epoch more db2 id r' after2 in
    let stale : r.lease_epoch < row.lease_epoch =
      ground (arith, found1, found2, found3, found, e2, le1, le2) in
    (
      transition_stale id (some owner) r.lease_epoch (run more db2) row holder found held stale,
      schedule_retry_stale id (some owner) r.lease_epoch (run more db2) row holder found held stale,
      renew_lease_stale id owner r.lease_epoch (run more db2) row holder found held stale,
    )

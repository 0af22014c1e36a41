-- ===== src/Store/Lease/Unowned.antt =====
-- A running event that no lease holds, as a plain `transition` to `running` leaves it.
use ai_ops.Prelude.{ℕ, ◌+◌, ◌<◌, ◌≡◌, refl, String, false, none, some, arith, is_blank}
use ai_ops.Result.{ok, err, aware, require_aware, lease_held}
use ai_ops.Store.Rows.{EventRow, Db, running}
use ai_ops.Store.Events.{
  find_event, set_event, acquire_lease, renew_lease, renewed, validate_lease_fence,
}
use ai_ops.Store.Lease.Exclusion.{find_event-set_event}

renewed_row :
    (clock t : ℕ) (id owner : String) (epoch duration : ℕ) (db : Db) {row : EventRow}
    → find_event id db ≡ some row
    → row.state ≡ running
    → row.lease_owner ≡ none
    → is_blank owner ≡ false
    → 0 < duration
    → renew_lease clock (some (aware t)) id owner epoch duration db
      ≡ ok (renewed t (t + duration) row, set_event id (renewed t (t + duration)) db)
unfolding renew_lease require_aware validate_lease_fence
renewed_row clock t id owner epoch duration db {row} found s free nb pos = ground (
  arith,
  find_event-set_event id (renewed t (t + duration)) db {row = row} (λ r. unfold renewed in refl)
      found,
)

-- A running event with no lease owner can be renewed by anyone, with any epoch: for every owner name
-- that is not blank and every positive duration `renew_lease` succeeds, the row still has no owner
-- but now has a deadline, and until that deadline `acquire_lease` refuses every such worker, as if
-- the lease were held.
pub renew_lease_unowned :
    (clock t : ℕ) (id owner : String) (epoch duration : ℕ) (db : Db) {row : EventRow}
    (clock' t' : ℕ) (owner' : String) (duration' : ℕ)
    → find_event id db ≡ some row
    → row.state ≡ running
    → row.lease_owner ≡ none
    → is_blank owner ≡ false
    → 0 < duration
    → is_blank owner' ≡ false
    → 0 < duration'
    → t' < t + duration
    → (r : EventRow) × (db' : Db) × (renew_lease clock (some (aware t)) id owner epoch duration db
        ≡ ok (r, db'))
      × (r.lease_owner ≡ none)
      × (r.lease_expires_at ≡ some (t + duration))
      × (acquire_lease clock' (some (aware t')) id owner' duration' db' ≡ err lease_held)
renew_lease_unowned clock t id owner epoch duration db {row} clock' t' owner' duration' found s free
      nb pos nb' pos' early =
    (
      renewed t (t + duration) row,
      set_event id (renewed t (t + duration)) db,
      renewed_row clock t id owner epoch duration db found s free nb pos,
      unfold renewed in free,
      unfold renewed in refl,
      unfold acquire_lease require_aware renewed in
          ground (
            arith,
            find_event-set_event id (renewed t (t + duration)) db {row = row}
                (λ r. unfold renewed in refl) found,
          ),
    )

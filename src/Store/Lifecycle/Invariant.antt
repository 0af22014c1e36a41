-- ===== src/Store/Lifecycle/Invariant.antt =====
-- What holds of every event's row between two operations, and induction over histories.
use ai_ops.Prelude.{ℕ, ◌≡◌, String, Bool, true, false, Option, none, some, List, [], ◌∷◌, arith}
use ai_ops.Store.Rows.{EventState, EventRow, Db, running, retryable_failed}
use ai_ops.Store.Events.{find_event, moved, retry_target, retried, leased, renewed}
use ai_ops.Store.Create.{fresh, refreshed}
use ai_ops.Store.Run.{Op, step, run}
use ai_ops.Store.Lifecycle.Rules.{
  Change, moves, retries, leases, renews, refreshes, RowStep, same, born, changed, step-RowStep,
}

abbrev pub is_some {ℓ} : {A : Type ℓ} → Option A → Bool
is_some none = false
is_some (some a) = true

-- `P` holds of the row, if there is one.
abbrev pub OnRow : (EventRow → Type 0) → Option EventRow → Type 0
OnRow P none = Unit
OnRow P (some r) = P r

module _ (P : EventRow → Type 0)
    (at_birth : (now : ℕ) (id device : String) (payload : _) → P (fresh now id device payload))
    (kept : (r r' : EventRow) → Change r r' → P r → P r') where
  RowStep-OnRow : (o o' : Option EventRow) → RowStep o o' → OnRow P o → OnRow P o'
  RowStep-OnRow o o' (same e) h = rw e h
  RowStep-OnRow o o' (born now id device payload e e') h = rw e' (at_birth now id device payload)
  RowStep-OnRow o o' (changed r r' e e' c) h = rw e' (kept r r' c (rw e at h))

  pub run-OnRow :
      (ops : List Op) (db : Db) (id : String)
      → OnRow P (find_event id db)
      → OnRow P (find_event id (run ops db))
  unfolding run
  run-OnRow [] db id h = h
  run-OnRow (op ∷ ops) db id h =
      run-OnRow ops (step op db) id (RowStep-OnRow _ _ (step-RowStep op db id) h)

abbrev pub implies : Bool → Bool → Bool
implies true b = b
implies false b = true

abbrev pub has_state : EventState → EventState → Bool
has_state running running = true
has_state retryable_failed retryable_failed = true
has_state _ _ = false

-- An owner of a lease has a deadline, only a running event has an owner or a deadline, and only an
-- event that failed for a retry has a retry deadline.
pub record IsConsistent (r : EventRow) : Type 0 where
  pub has_deadline : implies (is_some r.lease_owner) (is_some r.lease_expires_at) ≡ true
  pub owner_running : implies (is_some r.lease_owner) (has_state running r.state) ≡ true
  pub deadline_running : implies (is_some r.lease_expires_at) (has_state running r.state) ≡ true
  pub retry_failed : implies (is_some r.retry_at) (has_state retryable_failed r.state) ≡ true

fresh-IsConsistent :
    (now : ℕ) (id device : String) (payload : _) → IsConsistent (fresh now id device payload)
unfolding fresh
fresh-IsConsistent now id device payload = ground arith

Change-IsConsistent : (r r' : EventRow) → Change r r' → IsConsistent r → IsConsistent r'
unfolding moved retried leased renewed refreshed retry_target
Change-IsConsistent r r' (moves state t ticket reason owner epoch f a e) h = rw e (ground arith)
Change-IsConsistent r r' (retries n m base t ticket owner reason epoch f a e) h =
    rw e (ground arith)
Change-IsConsistent r r' (leases owner t expiry a f e) h = rw e (ground arith)
Change-IsConsistent r r' (renews owner epoch t expiry a f e) h = rw e (ground arith)
Change-IsConsistent r r' (refreshes now payload a e) h = rw e (ground arith)

-- In every history from tables whose row for an id, if any, is consistent, the row for that id is
-- consistent: a lease's owner has a deadline, an event with an owner or a lease deadline is running,
-- and one with a retry deadline is `retryable_failed`.
pub run-IsConsistent :
    (ops : List Op) (db : Db) (id : String)
    → OnRow IsConsistent (find_event id db)
    → OnRow IsConsistent (find_event id (run ops db))
run-IsConsistent = run-OnRow IsConsistent fresh-IsConsistent Change-IsConsistent

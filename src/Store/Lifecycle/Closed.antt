-- ===== src/Store/Lifecycle/Closed.antt =====
-- Events that no operation changes any more.
use ai_ops.Prelude.{◌≡◌, ◌∙◌, ◌⊎◌, String, Option, some, List, [], ◌∷◌, arith}
use ai_ops.Store.Rows.{EventRow, Db, completed, dead_letter}
use ai_ops.Store.Events.{find_event, allowed}
use ai_ops.Store.Run.{Op, step, run}
use ai_ops.Store.Lifecycle.Rules.{
  Change, moves, retries, leases, renews, refreshes, RowStep, same, born, changed, step-RowStep,
}

abbrev pub IsClosed : EventRow → Type 0
IsClosed r = (r.state ≡ completed) ⊎ (r.state ≡ dead_letter)

not-Change_of_IsClosed : (r r' : EventRow) → IsClosed r → Change r r' → ⊥
unfolding allowed
not-Change_of_IsClosed r r' h (moves state t ticket reason owner epoch f a e) = ground arith
not-Change_of_IsClosed r r' h (retries n m base t ticket owner reason epoch f a e) = ground arith
not-Change_of_IsClosed r r' h (leases owner t expiry a f e) = ground arith
not-Change_of_IsClosed r r' h (renews owner epoch t expiry a f e) = ground arith
not-Change_of_IsClosed r r' h (refreshes now payload a e) = ground arith

RowStep-closed :
    (o o' : Option EventRow) (r : EventRow) → o ≡ some r → IsClosed r → RowStep o o' → o' ≡ o
RowStep-closed o o' r e h (same p) = p
RowStep-closed o o' r e h (born now id device payload p q) = absurd (ground arith)
RowStep-closed o o' r e h (changed r1 r2 p q c) =
    absurd (not-Change_of_IsClosed r1 r2 (ground arith) c)

-- A completed or dead-lettered event is frozen: after any operations its row is what it was.
pub run_closed :
    (ops : List Op) (db : Db) (id : String) {r : EventRow}
    → find_event id db ≡ some r
    → IsClosed r
    → find_event id (run ops db) ≡ some r
unfolding run
run_closed [] db id e h = e
run_closed (op ∷ ops) db id {r} e h =
    run_closed ops (step op db) id {r = r} (RowStep-closed _ _ r e h (step-RowStep op db id) ∙ e) h

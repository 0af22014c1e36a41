-- ===== src/Store/Lifecycle/Relates.antt =====
-- From each row to the row of the same event later in a history.
use ai_ops.Prelude.{◌≡◌, ◌∙◌, String, Option, some, List, [], ◌∷◌, arith}
use ai_ops.Store.Rows.{EventRow, Db}
use ai_ops.Store.Events.{find_event}
use ai_ops.Store.Run.{Op, step, run}
use ai_ops.Store.Lifecycle.Rules.{Change, RowStep, same, born, changed, step-RowStep}

module _ (R : EventRow → EventRow → Type 0) (R_refl : (r : EventRow) → R r r)
    (R_trans : (a b c : EventRow) → R a b → R b c → R a c)
    (R_change : (r r' : EventRow) → Change r r' → R r r') where
  RowStep-relates :
      (o o' : Option EventRow) (r : EventRow)
      → o ≡ some r
      → RowStep o o'
      → (r' : EventRow) × (o' ≡ some r') × R r r'
  RowStep-relates o o' r e (same p) = (r, p ∙ e, R_refl r)
  RowStep-relates o o' r e (born now id device payload p q) = absurd (ground arith)
  RowStep-relates o o' r e (changed r1 r2 p q c) =
      (r2, q, rw (some_eq r r1 (ground arith)) (R_change r1 r2 c))
    where
      some_eq : (a b : EventRow) → some a ≡ some b → a ≡ b
      some_eq a b h = cc

  pub run-relates :
      (ops : List Op) (db : Db) (id : String) (r : EventRow)
      → find_event id db ≡ some r
      → (r' : EventRow) × (find_event id (run ops db) ≡ some r') × R r r'
  unfolding run
  run-relates [] db id r e = (r, e, R_refl r)
  run-relates (op ∷ ops) db id r e =
      let (r1, e1, h1) = RowStep-relates _ _ r e (step-RowStep op db id) in
      let (r2, e2, h2) = run-relates ops (step op db) id r1 e1 in (r2, e2, R_trans r r1 r2 h1 h2)

-- ===== src/Store/Approvals/SingleUse.antt =====
-- An approval is consumed at most once.
use ai_ops.Prelude.{
  ℕ, ◌<◌, ◌≡◌, refl, String, Bool, true, false, not, ◌&&◌, ◌||◌, Option, some, List, [], ◌∷◌, ◌++◌,
  arith, str_eq, eq_iff, find_first, any, all,
}
use ai_ops.Result.{Result, ok, err, Moment, require_aware}
use ai_ops.Store.Rows.{ApprovalRow, Db}
use ai_ops.Store.Run.{settle}
use ai_ops.Store.Table.{update_row, string_key}
use ai_ops.Store.Lease.Exclusion.{is_ok}
use ai_ops.Store.Lease.Fencing.{not_ok}
use ai_ops.Store.Approvals.{
  record_procedure_approval, recorded, collides, is_consumed, is_receipt, consumed,
  consume_procedure_approval, ApprovalOp, approve, consume, approval_step, approval_run,
}

abbrev has_digest : String → ApprovalRow → Bool
has_digest digest r = str_eq r.proposal_digest digest

abbrev is_used : String → ApprovalRow → Bool
is_used digest r = not (has_digest digest r) || is_consumed r.consumed_at

-- There is a row of the proposal, and every such row is consumed.
abbrev present : String → List ApprovalRow → Bool
present digest = any (has_digest digest)

abbrev used : String → List ApprovalRow → Bool
used digest = all (is_used digest)

abbrev consume_rows : String → ℕ → List ApprovalRow → List ApprovalRow
consume_rows k t = update_row (λ (r : ApprovalRow). r.proposal_digest) k (consumed t)

-- An UPDATE that consumes the rows of a digest.
used-consume_same :
    (digest : String) (t : ℕ) (rows : List ApprovalRow)
    → used digest (consume_rows digest t rows) ≡ true
unfolding update_row consumed
used-consume_same digest t [] = refl
used-consume_same digest t (x ∷ xs) = ground (arith, used-consume_same digest t xs)

used-consume :
    (digest k : String) (t : ℕ) (rows : List ApprovalRow)
    → used digest rows ≡ true
    → used digest (consume_rows k t rows) ≡ true
unfolding update_row consumed
used-consume digest k t [] h = refl
used-consume digest k t (x ∷ xs) h = ground (arith, used-consume digest k t xs)

present-consume :
    (digest k : String) (t : ℕ) (rows : List ApprovalRow)
    → present digest (consume_rows k t rows) ≡ present digest rows
unfolding update_row consumed
present-consume digest k t [] = refl
present-consume digest k t (x ∷ xs) = ground (arith, present-consume digest k t xs)

used-append :
    (digest : String) (rows : List ApprovalRow) (r : ApprovalRow)
    → used digest (rows ++ r ∷ []) ≡ (used digest rows && is_used digest r)
used-append digest [] r = ground arith
used-append digest (x ∷ xs) r = ground (arith, used-append digest xs r)

present-append :
    (digest : String) (rows : List ApprovalRow) (r : ApprovalRow)
    → present digest rows ≡ true
    → present digest (rows ++ r ∷ []) ≡ true
present-append digest [] r h = ground arith
present-append digest (x ∷ xs) r h = ground (arith, present-append digest xs r)

collides_of_present :
    (digest nonce : String) (rows : List ApprovalRow)
    → present digest rows ≡ true
    → any (collides digest nonce) rows ≡ true
collides_of_present digest nonce [] h = ground arith
collides_of_present digest nonce (x ∷ xs) h = ground (arith, collides_of_present digest nonce xs)

receipt_present :
    (digest nonce : String) (rows : List ApprovalRow) {row : ApprovalRow}
    → find_first (is_receipt digest nonce) rows ≡ some row
    → present digest rows ≡ true
receipt_present digest nonce [] h = absurd (ground arith)
receipt_present digest nonce (x ∷ xs) {row} h =
    ground (arith, receipt_present digest nonce xs {row = row})

receipt_consumed :
    (digest nonce : String) (rows : List ApprovalRow) {row : ApprovalRow}
    → used digest rows ≡ true
    → find_first (is_receipt digest nonce) rows ≡ some row
    → is_consumed row.consumed_at ≡ true
receipt_consumed digest nonce [] u h = absurd (ground arith)
receipt_consumed digest nonce (x ∷ xs) {row} u h =
    ground (arith, receipt_consumed digest nonce xs {row = row})

consume_inv :
    (clock : ℕ) (now : Option Moment) (digest nonce : String) (db : Db) {r : ApprovalRow} {db' : Db}
    → consume_procedure_approval clock now digest nonce db ≡ ok (r, db')
    → (t : ℕ) × (row : ApprovalRow) × (require_aware clock now ≡ ok t)
      × (find_first (is_receipt digest nonce) db.approvals ≡ some row)
      × (is_consumed row.consumed_at ≡ false)
      × (t < row.expires_at)
      × (db' ≡ record db { approvals = consume_rows digest t db.approvals })
unfolding consume_procedure_approval
consume_inv clock now digest nonce db h = ground arith

pub record_inv :
    (clock : ℕ) (now : Option Moment) (digest procedure : String) (version : ℕ)
    (parameters : List (String × String)) (nonce : String) (expires_at : Moment)
    (signature : String) (db : Db) {r : ApprovalRow} {db' : Db}
    → record_procedure_approval clock now digest procedure version parameters nonce expires_at
        signature db
      ≡ ok (r, db')
    → (t : ℕ) × (expiry : ℕ) × (require_aware clock now ≡ ok t)
      × (require_aware clock (some expires_at) ≡ ok expiry)
      × (any (collides digest nonce) db.approvals ≡ false)
      × (db' ≡ record db {
        approvals =
            db.approvals
            ++ recorded digest procedure version parameters nonce expiry signature t ∷ [];
      })
unfolding record_procedure_approval
record_inv clock now digest procedure version parameters nonce expires_at signature db h =
    ground arith

-- There is a row of the proposal, and all its rows are consumed.
record IsSpent (digest : String) (db : Db) : Type 0 where
  there : present digest db.approvals ≡ true
  spent : used digest db.approvals ≡ true

module _ (digest : String) (db : Db) (h : IsSpent digest db) where
  consume-IsSpent :
      (clock : ℕ) (now : Option Moment) (k nonce : String) (x : Result (ApprovalRow × Db))
      → consume_procedure_approval clock now k nonce db ≡ x
      → IsSpent digest (settle x db)
  consume-IsSpent clock now k nonce (err e) p = h
  consume-IsSpent clock now k nonce (ok (r, db')) p =
      let (t, row, aware, found, fresh, early, written) =
        consume_inv clock now k nonce db {r = r} {db' = db'} p in
      rw written (record {
        there = rw (present-consume digest k t db.approvals) h.there;
        spent = used-consume digest k t db.approvals h.spent;
      })

  record-IsSpent :
      (clock : ℕ) (now : Option Moment) (k procedure : String) (version : ℕ)
      (parameters : List (String × String)) (nonce : String) (expires_at : Moment)
      (signature : String) (x : Result (ApprovalRow × Db))
      → record_procedure_approval clock now k procedure version parameters nonce expires_at
          signature db
        ≡ x
      → IsSpent digest (settle x db)
  record-IsSpent clock now k procedure version parameters nonce expires_at signature (err e) p = h
  record-IsSpent clock now k procedure version parameters nonce expires_at signature (ok (r, db'))
        p =
      let (t, expiry, aware, aware', free, written) =
        record_inv clock now k procedure version parameters nonce expires_at signature db {r = r}
          {db' = db'} p in
      let row = recorded k procedure version parameters nonce expiry signature t in
      rw written (record {
        there = present-append digest db.approvals row h.there;
        spent =
            unfold recorded in
            ground (
              arith,
              h.there,
              h.spent,
              free,
              eq_iff k digest,
              used-append digest db.approvals row,
              collides_of_present k nonce db.approvals,
            );
      })

run-IsSpent :
    (ops : List ApprovalOp) (digest : String) (db : Db)
    → IsSpent digest db
    → IsSpent digest (approval_run ops db)
unfolding approval_run approval_step
run-IsSpent [] digest db h = h
run-IsSpent (approve clock now k procedure version parameters nonce expires_at signature ∷ ops)
      digest db h =
    run-IsSpent ops digest _ (
      record-IsSpent digest db h clock now k procedure version parameters nonce expires_at signature
        _ refl)
run-IsSpent (consume clock now k nonce ∷ ops) digest db h =
    run-IsSpent ops digest _ (consume-IsSpent digest db h clock now k nonce _ refl)

-- An approval is used at most once: after one success of `consume_procedure_approval` for a
-- proposal, and after any further recordings and consumptions, every attempt to consume an approval
-- of the same proposal fails, with any nonce and at any time.
pub consume_procedure_approval_once :
    (clock : ℕ) (now : Option Moment) (digest nonce : String) (db : Db) {r : ApprovalRow} {db' : Db}
    (ops : List ApprovalOp) (clock' : ℕ) (now' : Option Moment) (nonce' : String)
    → consume_procedure_approval clock now digest nonce db ≡ ok (r, db')
    → is_ok (consume_procedure_approval clock' now' digest nonce' (approval_run ops db')) ≡ false
consume_procedure_approval_once clock now digest nonce db {r} {db'} ops clock' now' nonce' h =
    let (t, row, aware, found, fresh, early, written) =
      consume_inv clock now digest nonce db {r = r} {db' = db'} h in
    let first : IsSpent digest db' = rw written (record {
      there =
          rw (present-consume digest digest t db.approvals)
            (receipt_present digest nonce db.approvals {row = row} found);
      spent = used-consume_same digest t db.approvals;
    }) in
    let later = run-IsSpent ops digest db' first in
    not_ok _ (λ a k.
      let (t', row', aware', found', fresh', early', written') =
        consume_inv clock' now' digest nonce' (approval_run ops db') {r = a.0} {db' = a.1} k in
      ground (
        arith,
        fresh',
        receipt_consumed digest nonce' (approval_run ops db').approvals {row = row'} later.spent
            found',
      ))

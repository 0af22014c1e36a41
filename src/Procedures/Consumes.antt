-- ===== src/Procedures/Consumes.antt =====
-- An approval that was recorded can be consumed before its expiry (event_store.py).
use ai_ops.Prelude.{
  ℕ, ◌<◌, ◌≡◌, inl, inr, refl, ap, ◌∙◌, String, true, false, none, some, List, [], ◌∷◌, ◌++◌, any,
  find_first, str_eq, eq_refl, arith, Bool-cases,
}
use ai_ops.Result.{ok, aware, require_aware}
use ai_ops.Store.Rows.{ApprovalRow, Db}
use ai_ops.Store.Table.{find_row, update_row, string_key}
use ai_ops.Store.Approvals.{
  record_procedure_approval, consume_procedure_approval, recorded, consumed, collides, is_receipt,
}
use ai_ops.Store.Approvals.SingleUse.{record_inv}

-- a new row is the one that its digest and nonce find
find_first-recorded :
    (digest nonce : String) (rows : List ApprovalRow) (row : ApprovalRow)
    → any (collides digest nonce) rows ≡ false
    → is_receipt digest nonce row ≡ true
    → find_first (is_receipt digest nonce) (rows ++ row ∷ []) ≡ some row
find_first-recorded digest nonce [] row h here = ground arith
find_first-recorded digest nonce (x ∷ xs) row h here =
    ground (arith, find_first-recorded digest nonce xs row)

-- `require_aware` of a time with a zone
require_aware-eq : (clock t s : ℕ) → require_aware clock (some (aware t)) ≡ ok s → t ≡ s
unfolding require_aware
require_aware-eq clock t s h = ground arith

consume_ok :
    (clock t : ℕ) (digest nonce : String) (db : Db) {row found : ApprovalRow}
    → find_first (is_receipt digest nonce) db.approvals ≡ some row
    → row.consumed_at ≡ none
    → t < row.expires_at
    → find_row
        (λ (r : ApprovalRow). r.proposal_digest)
        digest
        (update_row (λ (r : ApprovalRow). r.proposal_digest) digest (consumed t) db.approvals)
      ≡ some found
    → consume_procedure_approval clock (some (aware t)) digest nonce db
      ≡ ok (
        found,
        record db {
          approvals =
              update_row (λ (r : ApprovalRow). r.proposal_digest) digest (consumed t) db.approvals;
        },
      )
unfolding consume_procedure_approval require_aware
consume_ok clock t digest nonce db {row} {found} receipt fresh early written =
    ground (arith, receipt, fresh, written)

-- after an insertion, the row of its digest is there to be updated
find_row-recorded :
    (digest : String) (t : ℕ) (rows : List ApprovalRow) (row : ApprovalRow)
    → str_eq row.proposal_digest digest ≡ true
    → (found : ApprovalRow) × (find_row
          (λ (r : ApprovalRow). r.proposal_digest)
          digest
          (update_row
            (λ (r : ApprovalRow). r.proposal_digest)
            digest
            (consumed t)
            (rows ++ row ∷ []))
        ≡ some found)
unfolding find_row update_row consumed
find_row-recorded digest t [] row here = (consumed t row, ground arith)
find_row-recorded digest t (x ∷ xs) row here = elim (Bool-cases (str_eq x.proposal_digest digest)) [
  | inl e ↦ (consumed t x, ground arith)
  | inr e ↦
      let (found, there) = find_row-recorded digest t xs row here in (found, ground (arith, there))
]

-- an approval that was recorded can be consumed before its expiry
pub recorded_consumes :
    (issued : ℕ) (digest procedure : String) (version : ℕ) (parameters : List (String × String))
    (nonce : String) (expiry : ℕ) (signature : String) (db : Db) (t : ℕ) {row : ApprovalRow}
    {written : Db}
    → record_procedure_approval issued
        (some (aware issued))
        digest
        procedure
        version
        parameters
        nonce
        (aware expiry)
        signature
        db
      ≡ ok (row, written)
    → t < expiry
    → (found : ApprovalRow) × (after : Db) × (consume_procedure_approval t
          (some (aware t))
          digest
          nonce
          written
        ≡ ok (found, after))
unfolding recorded
recorded_consumes issued digest procedure version parameters nonce expiry signature db t {row}
      {written} h early =
    let (at, until, issued_at, expires_at, free, is_written) =
      record_inv issued (some (aware issued)) digest procedure version parameters nonce
        (aware expiry) signature db {r = row} {db' = written} h in
    let new : ApprovalRow = recorded digest procedure version parameters nonce until signature at in
    let same = require_aware-eq issued expiry until expires_at in
    let matches : str_eq digest digest ≡ true = eq_refl digest in
    let (found, there) = find_row-recorded digest t db.approvals new matches in
    let consumes =
      consume_ok t t digest nonce (record db { approvals = db.approvals ++ new ∷ [] })
        (find_first-recorded digest nonce db.approvals new free
          (ground (arith, eq_refl digest, eq_refl nonce)))
        refl (ground arith) there in
    (
      found,
      _,
      ap (consume_procedure_approval t (some (aware t)) digest nonce) is_written ∙ consumes,
    )

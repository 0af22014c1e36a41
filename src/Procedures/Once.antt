-- ===== src/Procedures/Once.antt =====
-- An approval that was recorded verifies once, before its expiry.
use ai_ops.Prelude.{
  some-injective, ℕ, ◌+◌, ◌*◌, ◌<◌, ◌≡◌, inl, inr, refl, sym, ap, ◌∙◌, String, Bool, true, false,
  Option, none, some, List, [], eq_iff, arith, Bool-cases,
}
use ai_ops.Result.{Result, ok, err, Moment, aware, naive}
use ai_ops.Store.Rows.{ApprovalRow, Db}
use ai_ops.Store.Table.{string_key}
use ai_ops.Store.Lease.Exclusion.{is_ok}
use ai_ops.Store.Approvals.{record_procedure_approval, consume_procedure_approval, approval_run}
use ai_ops.Store.Approvals.SingleUse.{consume_procedure_approval_once}
use ai_ops.Procedures.{
  Outcome, done, refused, Signer, ProcedureProposal, ApprovalReceipt, signed, is_secret, from_store,
  approve_proposal, verify_approval,
}
use ai_ops.Procedures.Consumes.{recorded_consumes}

from_store_inv :
    (x : Result (ApprovalRow × Db)) {store : Option Db}
    → from_store x ≡ done store
    → (row : ApprovalRow) × (db : Db) × (x ≡ ok (row, db)) × (store ≡ some db)
from_store_inv (err e) h = absurd (ground arith)
from_store_inv (ok (row, db)) h = (row, db, refl, ground arith)

-- the time of an approval is known, and it was recorded
abbrev Issued :
    Signer → String → String → ℕ → ProcedureProposal → Db → ApprovalReceipt → Option Db → ℕ → Type 0
Issued sign nonce secret ttl p db r store issued =
    (is_secret secret ≡ true)
    × (r ≡ signed sign secret p nonce (issued + ttl * 1000000))
    × (from_store (
          record_procedure_approval issued (some (aware issued)) p.digest p.procedure p.version
            p.parameters nonce (aware (issued + ttl * 1000000))
            (sign secret p.digest nonce (aware (issued + ttl * 1000000))) db)
        ≡ done store)

approve_inv :
    (sign : Signer) (nonce secret : String) (clock : ℕ) (now : Option Moment) (ttl : ℕ)
    (p : ProcedureProposal) (db : Db) {r : ApprovalReceipt} {store : Option Db}
    → approve_proposal sign nonce secret clock now ttl p (some db) ≡ done (r, store)
    → (issued : ℕ) × Issued sign nonce secret ttl p db r store issued
unfolding approve_proposal
approve_inv sign nonce secret clock none ttl p db {r} {store} h =
    (clock, (ground arith, ground arith, ground arith))
approve_inv sign nonce secret clock (some naive) ttl p db h = absurd (ground arith)
approve_inv sign nonce secret clock (some (aware t)) ttl p db {r} {store} h =
    (t, (ground arith, ground arith, ground arith))

verify_ok :
    (sign : Signer) (secret : String) (clock t expiry : ℕ) (p : ProcedureProposal)
    (r : ApprovalReceipt) (used : List String) (db : Db) {row : ApprovalRow} {after : Db}
    → is_secret secret ≡ true
    → r.expires_at ≡ aware expiry
    → r.proposal_digest ≡ p.digest
    → t < expiry
    → r.signature ≡ sign secret p.digest r.nonce r.expires_at
    → consume_procedure_approval t (some (aware t)) p.digest r.nonce db ≡ ok (row, after)
    → verify_approval sign secret clock (some (aware t)) p r used (some db)
      ≡ done (r, used, some after)
unfolding verify_approval
verify_ok sign secret clock t expiry p r used db long expires same alive genuine consumes = ground (
  arith,
  consumes,
  expires,
  long,
  eq_iff r.proposal_digest p.digest,
  eq_iff r.signature (sign secret p.digest r.nonce r.expires_at),
)

abbrev pub is_done {ℓ} : {A : Type ℓ} → Outcome A → Bool
is_done (done a) = true
is_done (refused p) = false

verify_inv :
    (sign : Signer) (secret : String) (clock : ℕ) (now : Option Moment) (p : ProcedureProposal)
    (r : ApprovalReceipt) (used : List String) (db : Db)
    → is_done (verify_approval sign secret clock now p r used (some db)) ≡ true
    → (t : ℕ) × (is_ok (consume_procedure_approval t (some (aware t)) p.digest r.nonce db) ≡ true)
unfolding verify_approval
verify_inv sign secret clock none p r used db h = (clock, ground arith)
verify_inv sign secret clock (some naive) p r used db h = absurd (ground arith)
verify_inv sign secret clock (some (aware t)) p r used db h = (t, ground arith)

-- the signature of a receipt is the one of its own fields
genuine_of :
    (sign : Signer) (secret nonce : String) (p : ProcedureProposal) (expiry : ℕ)
    {r : ApprovalReceipt}
    → r ≡ signed sign secret p nonce expiry
    → r.signature ≡ sign secret p.digest r.nonce r.expires_at
genuine_of sign secret nonce p expiry {r} h =
    ap (λ (x : ApprovalReceipt). x.signature) h
    ∙ ap (λ (x : ApprovalReceipt). sign secret p.digest x.nonce x.expires_at) (sym h)

false-true : {b : Bool} → b ≡ false → ¬ (b ≡ true)
false-true e h = ground arith

-- An approval that is recorded in a store verifies there with its secret at each time before its
-- expiry, whatever nonces are used; and after that verification no receipt with the proposal's
-- digest is verified again in the store, with any secret or signer and at any time.
pub approve_proposal-verify_approval :
    (sign : Signer) (nonce secret : String) (clock : ℕ) (now : Option Moment) (ttl : ℕ)
    (p : ProcedureProposal) (db : Db) {r : ApprovalReceipt} {db' : Db}
    → approve_proposal sign nonce secret clock now ttl p (some db) ≡ done (r, some db')
    → (clock_then t : ℕ) (used : List String) (expiry : ℕ) → r.expires_at ≡ aware expiry
    → t < expiry
    → (after : Db) × (verify_approval sign secret clock_then (some (aware t)) p r used (some db')
        ≡ done (r, used, some after))
      × ((sign_again : Signer) (secret_again : String) (clock_again : ℕ) (now_again : Option Moment)
            (r_again : ApprovalReceipt) (used_again : List String)
          → is_done (
              verify_approval sign_again secret_again clock_again now_again p r_again used_again
                (some after))
            ≡ false)
unfolding approval_run
approve_proposal-verify_approval sign nonce secret clock now ttl p db {r} {db'} h clock_then t used
      expiry expires early =
    let (issued, (long, receipt, stored)) = approve_inv sign nonce secret clock now ttl p db h in
    let (row, written, recording, kept) = from_store_inv _ stored in
    let named : r.nonce ≡ nonce = ap (λ (x : ApprovalReceipt). x.nonce) receipt in
    let until : aware (issued + ttl * 1000000) ≡ aware expiry =
      sym (ap (λ (x : ApprovalReceipt). x.expires_at) receipt) ∙ expires in
    let (found, after, consumes) =
      recorded_consumes issued p.digest p.procedure p.version p.parameters nonce
        (issued + ttl * 1000000) (sign secret p.digest nonce (aware (issued + ttl * 1000000))) db t
        recording (ground (arith, until)) in
    let once : consume_procedure_approval t (some (aware t)) p.digest r.nonce db'
        ≡ ok (found, after) =
      ap (λ n. consume_procedure_approval t (some (aware t)) p.digest n db') named
      ∙ ap (consume_procedure_approval t (some (aware t)) p.digest nonce) (some-injective kept)
      ∙ consumes in
    (
      after,
      verify_ok sign secret clock_then t expiry p r used db' long expires
          (ap (λ (x : ApprovalReceipt). x.proposal_digest) receipt) early
          (genuine_of sign secret nonce p (issued + ttl * 1000000) receipt) once,
      λ sign_again secret_again clock_again now_again r_again used_again.
          elim (Bool-cases (
            is_done (
              verify_approval sign_again secret_again clock_again now_again p r_again used_again
                (some after)))) [
                  | inr failed ↦ failed
                  | inl passed ↦
                      let (t_again, again) =
                        verify_inv sign_again secret_again clock_again now_again p r_again
                          used_again after passed in
                      absurd (
                        false-true
                          (consume_procedure_approval_once t (some (aware t)) p.digest r.nonce db'
                            {r = found} {db' = after} [] t_again (some (aware t_again))
                            r_again.nonce once)
                          again)
                ],
    )

-- ===== src/Tests/Receipts.antt =====
-- A procedure that is approved and verified, and evidence that is put into the cache.
use ai_ops.Store.Table.{find_row}
use ai_ops.Result.{require_aware}
use ai_ops.Store.Approvals.{record_procedure_approval}
use ai_ops.Prelude.{
  ℕ, ◌+◌, ◌≡◌, refl, false, Option, none, some, List, [], ◌∷◌, String, leb, arith, if◌then◌else◌,
}
use ai_ops.Result.{Moment, aware}
use ai_ops.Store.Rows.{Db}
use ai_ops.Store.Approvals.{recorded}
use ai_ops.Procedures.{
  ProcedureProposal, ApprovalReceipt, Signer, done, signed, approve_proposal, verify_approval,
}
use ai_ops.Procedures.Once.{is_done, approve_proposal-verify_approval}
use ai_ops.Cache.{Observation, cached, put_epoch, require_fresh, hit, miss, stale}
use ai_ops.Cache.Fresh.{put_epoch-require_fresh}
use ai_ops.Tests.Data.{empty_db}

abbrev proposal : ProcedureProposal
proposal = record {
  procedure = "collect_device_evidence";
  version = 1;
  parameters = ("device", "PE1") ∷ [];
  digest = "d1";
}

abbrev sign : Signer
sign secret digest nonce expiry = digest

abbrev secret : String
secret = "0123456789abcdef0123456789abcdef"

abbrev receipt : ApprovalReceipt
receipt = signed sign secret proposal "n1" 5000010

abbrev approved_db : Db
approved_db = record empty_db {
  approvals =
      recorded "d1" "collect_device_evidence" 1 (("device", "PE1") ∷ []) "n1" 5000010 "d1" 10 ∷ [];
}

was_approved :
    approve_proposal sign "n1" secret 10 none 5 proposal (some (record empty_db { approvals = [] }))
    ≡ done (receipt, some approved_db)
unfolding approve_proposal record_procedure_approval require_aware find_row recorded
was_approved = refl

approve_proposal-verify_approval_example :
    (after : Db) × (verify_approval sign secret 20
        (some (aware 20))
        proposal
        receipt
        []
        (some approved_db)
      ≡ done (receipt, [], some after))
    × ((sign_again : Signer) (secret_again : String) (clock_again : ℕ) (now_again : Option Moment)
          (r_again : ApprovalReceipt) (used_again : List String)
        → is_done (
            verify_approval sign_again secret_again clock_again now_again proposal r_again
              used_again
              (some after))
          ≡ false)
approve_proposal-verify_approval_example =
    approve_proposal-verify_approval sign "n1" secret 10 none 5 proposal
      (record empty_db { approvals = [] }) {r = receipt} {db' = approved_db} was_approved 20 20 []
      5000010 refl (omega arith)

abbrev observation : Observation
observation = record {
  device = "PE1";
  key = "bgp";
  envelope = some (("state", "Idle") ∷ []);
  collected_at = "t";
}

abbrev from_iso : String → Option Moment
from_iso s = some (aware 100)

put_epoch-require_fresh_example :
    require_fresh from_iso "PE1" "bgp" (some 30) 120 (put_epoch (observation ∷ []) [])
    ≡ (if leb 120 (100 + 30) then hit (cached observation (("state", "Idle") ∷ [])) else miss stale)
put_epoch-require_fresh_example =
    put_epoch-require_fresh from_iso "PE1" "bgp" (observation ∷ []) [] 30 120
      (cached observation (("state", "Idle") ∷ [])) 100 refl refl

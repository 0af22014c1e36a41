-- ===== src/Procedures.antt =====
-- procedure_workflow.py and procedure_registry.py: a proposal of a declared procedure, its signed
-- approval with an expiry, the verification that consumes it, and the dry run that it allows. The
-- digest of a payload (SHA-256 of its JSON) and the signature of a receipt (HMAC) are arguments, as is
-- the random nonce. With a store, the approval is a row of it; without, the used nonces are a list.
pub mod Consumes
pub mod Once
use Prim.Native.Char.{code}
use ai_ops.Prelude.{
  ℕ, suc, ◌+◌, ◌*◌, String, Bool, true, false, not, ◌&&◌, ◌||◌, Option, none, some, List, [], ◌∷◌,
  ◌++◌, map, any, all, str_eq, leb, ltb, if◌then◌else◌,
}
use ai_ops.Result.{
  Error, Result, ok, err, Moment, aware, naive, require_aware, dry_run, no_approval,
}
use ai_ops.Store.Rows.{Db}
use ai_ops.Store.Approvals.{record_procedure_approval, consume_procedure_approval, find_approval}

pub record ProcedureDefinition : Type 0 where
  pub name : String
  pub version : ℕ
  pub required_parameters : List String

unfoldable pub procedure_definition : String → Option ProcedureDefinition
procedure_definition name =
    if str_eq name "collect_device_evidence"
    then some record {
      name = "collect_device_evidence";
      version = 1;
      required_parameters = "device" ∷ [];
    }
    else none

-- the `ApprovalError`s; `refused_by_store` is the `EventStoreError` that `verify_approval` wraps
pub data Problem : Type 0 where
  short_secret unknown_procedure bad_parameters bad_ttl naive_time other_digest receipt_expired
        replayed bad_signature :
      Problem
  refused_by_store : Error → Problem
  -- an `EventStoreError` that is let through
  store_raised : Error → Problem

pub data Outcome {ℓ} (A : Type ℓ) : Type ℓ where
  done : A → Outcome A
  refused : Problem → Outcome A

module _ {ℓ κ} {Step : Type ℓ} {End : Type κ} where
  infixl 5 ◌>>=◌
  -- an exception ends the function
  abbrev pub ◌>>=◌ : Outcome Step → (Step → Outcome End) → Outcome End
  refused p >>= next = refused p
  done a >>= next = next a

abbrev pub check : Bool → Problem → Outcome (Unit {0})
check false p = refused p
check true p = done tt

-- `len(s.encode("utf-8"))`
unfoldable pub utf8_length : String → ℕ
utf8_length String.[] = 0
utf8_length (String.◌∷◌ c s) =
    (if ltb (code c) 128
      then 1
      else if ltb (code c) 2048
      then 2
      else if ltb (code c) 65536
      then 3
      else 4)
    + utf8_length s

-- `_require_secret`
abbrev pub is_secret : String → Bool
unfolding utf8_length
is_secret secret = leb 32 (utf8_length secret)

abbrev pub Parameters : Type 0
Parameters = List (String × String)

pub record ProcedureProposal : Type 0 where
  pub procedure : String
  pub version : ℕ
  pub parameters : Parameters
  pub digest : String

abbrev has_key : Parameters → String → Bool
has_key ps k = any (λ (p : String × String). str_eq p.0 k) ps

-- the names are the required ones, and no value is empty
unfoldable pub fits : ProcedureDefinition → Parameters → Bool
fits d ps =
    all (λ (p : String × String). any (str_eq p.0) d.required_parameters) ps
    && all (has_key ps) d.required_parameters
    && not (any (λ (p : String × String). str_eq p.1 "") ps)

-- `ProcedureProposal.create`
unfoldable pub create_proposal :
    (String → ℕ → Parameters → String) → String → Parameters → Outcome ProcedureProposal
unfolding procedure_definition fits
create_proposal digest_of procedure parameters = elim (procedure_definition procedure) [
  | none ↦ refused unknown_procedure
  | some d ↦
      if fits d parameters
      then done record {
        procedure = d.name;
        version = d.version;
        parameters = parameters;
        digest = digest_of d.name d.version parameters;
      }
      else refused bad_parameters
]

pub record ApprovalReceipt : Type 0 where
  pub proposal_digest : String
  pub nonce : String
  pub expires_at : Moment
  pub signature : String

-- secret, digest, nonce and expiry
abbrev pub Signer : Type 0
Signer = String → String → String → Moment → String

abbrev pub signed : Signer → String → ProcedureProposal → String → ℕ → ApprovalReceipt
signed sign secret p nonce expiry = record {
  proposal_digest = p.digest;
  nonce = nonce;
  expires_at = aware expiry;
  signature = sign secret p.digest nonce (aware expiry);
}

abbrev pub aware_time : ℕ → Option Moment → Outcome ℕ
aware_time clock none = done clock
aware_time clock (some naive) = refused naive_time
aware_time clock (some (aware t)) = done t

abbrev pub from_store {ℓ} : {A : Type ℓ} → Result (A × Db) → Outcome (Option Db)
from_store (err e) = refused (store_raised e)
from_store (ok (row, db)) = done (some db)

abbrev pub record_in : ProcedureProposal → ApprovalReceipt → ℕ → Option Db → Outcome (Option Db)
record_in p r issued none = done none
record_in p r issued (some db) = from_store (
    record_procedure_approval issued (some (aware issued)) p.digest p.procedure p.version
      p.parameters r.nonce r.expires_at r.signature db)

-- the time to live is in seconds
unfoldable pub approve_proposal :
    Signer
    → (nonce secret : String) → (clock : ℕ) → Option Moment
    → (ttl_seconds : ℕ) → ProcedureProposal
    → Option Db
    → Outcome (ApprovalReceipt × Option Db)
unfolding utf8_length
approve_proposal sign nonce secret clock now ttl_seconds p store = do
  long ← check (is_secret secret) short_secret
  positive ← check (leb 1 ttl_seconds) bad_ttl
  issued ← aware_time clock now
  let receipt = signed sign secret p nonce (issued + ttl_seconds * 1000000)
  after ← record_in p receipt issued store
  done (receipt, after)

abbrev pub expiry_of : Moment → Outcome ℕ
expiry_of naive = refused naive_time
expiry_of (aware t) = done t

abbrev pub is_stored : Option Db → Bool
is_stored none = false
is_stored (some db) = true

abbrev pub wrapped {ℓ} : {A : Type ℓ} → Result (A × Db) → Outcome (Option Db)
wrapped (err e) = refused (refused_by_store e)
wrapped (ok (row, db)) = done (some db)

abbrev pub consume_in : ProcedureProposal → ApprovalReceipt → ℕ → Option Db → Outcome (Option Db)
consume_in p r now none = done none
consume_in p r now (some db) =
    wrapped (consume_procedure_approval now (some (aware now)) p.digest r.nonce db)

abbrev pub used_after : String → List String → Option Db → List String
used_after nonce used none = nonce ∷ used
used_after nonce used (some db) = used

-- a verified approval, the used nonces, and the store
unfoldable pub verify_approval :
    Signer
    → (secret : String) → (clock : ℕ) → Option Moment
    → ProcedureProposal
    → ApprovalReceipt
    → List String
    → Option Db
    → Outcome (ApprovalReceipt × List String × Option Db)
unfolding utf8_length
verify_approval sign secret clock now p r used store = do
  long ← check (is_secret secret) short_secret
  current ← aware_time clock now
  expiry ← expiry_of r.expires_at
  same ← check (str_eq r.proposal_digest p.digest) other_digest
  alive ← check (ltb current expiry) receipt_expired
  fresh ← check (is_stored store || not (any (str_eq r.nonce) used)) replayed
  genuine ← check (str_eq r.signature (sign secret p.digest r.nonce r.expires_at)) bad_signature
  after ← consume_in p r current store
  done (r, used_after r.nonce used store, after)

pub record SimulationResult : Type 0 where
  pub proposal_digest : String
  pub status : String
  pub network_activity : Bool
  pub device_writes : Bool
  pub verification : String

-- `EventStore.record_procedure_simulation`: the row that it inserts
unfoldable pub record_procedure_simulation :
    ℕ → Option Moment → SimulationResult → Db → Result (SimulationResult × ℕ)
record_procedure_simulation clock now s db = elim (require_aware clock now) [
  | err e ↦ err e
  | ok current ↦
      if not (str_eq s.status "not_executed")
        || s.network_activity
        || s.device_writes
        || not (str_eq s.verification "not_executed")
      then err dry_run
      else elim (find_approval s.proposal_digest db) [
        | none ↦ err no_approval
        | some row ↦ ok (s, current)
      ]
]

abbrev pub simulated_in : ℕ → SimulationResult → Option Db → Outcome (Option (SimulationResult × ℕ))
unfolding record_procedure_simulation
simulated_in now s none = done none
simulated_in now s (some db) = elim (record_procedure_simulation now (some (aware now)) s db) [
  | err e ↦ refused (store_raised e)
  | ok row ↦ done (some row)
]

-- the receipt is one that `verify_approval` returned
unfoldable pub simulate_approved_procedure :
    ℕ
    → Option Moment
    → ProcedureProposal
    → ApprovalReceipt
    → Option Db
    → Outcome (SimulationResult × Option (SimulationResult × ℕ))
unfolding simulated_in
simulate_approved_procedure clock now p r store = do
  current ← aware_time clock now
  expiry ← expiry_of r.expires_at
  alive ← check (ltb current expiry) receipt_expired
  same ← check (str_eq r.proposal_digest p.digest) other_digest
  let result : SimulationResult = record {
    proposal_digest = p.digest;
    status = "not_executed";
    network_activity = false;
    device_writes = false;
    verification = "not_executed";
  }
  row ← simulated_in current result store
  done (result, row)

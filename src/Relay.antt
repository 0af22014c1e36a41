-- ===== src/Relay.antt =====
-- relay_policy.py: whether a finding is relayed, and to whom: a silence first, then the
-- de-duplication by a state file, then a delivery to each owner (ownership.py, in Relay/Ownership).
-- The delivery, which notifier.py makes over the network, is an argument, and so is whether the state
-- file can be written; a window and an age are in microseconds. The texts of reasons are left out.
pub mod Ownership
pub mod Suppression
pub mod Routes
pub mod Repeats
pub mod Updates
use ai_ops.Prelude.{
  ℕ, String, Bool, true, false, not, ◌&&◌, Option, none, some, List, [], map, any, all,
  if◌then◌else◌,
}
use ai_ops.Health.{Silence, find_silence}
use Ownership.{Owner, OwnershipTable, RoutingResult, resolve_ownership}
use Suppression.{Signature, StateFile, Dedup, evaluate_dedup, record_notification, before_dedup}

-- what `notify_owner` returns, as far as the relay reads it
pub record Delivery : Type 0 where
  pub attempted : Bool
  pub ok : Bool

pub data Decision : Type 0 where
  silenced suppressed sent no_provider failed : Decision

-- `_summarize`
unfoldable pub summarize : List Delivery → Decision
summarize deliveries =
    if any (λ (d : Delivery). d.attempted && d.ok) deliveries
    then sent
    else if all (λ (d : Delivery). d.ok && not d.attempted) deliveries
    then no_provider
    else failed

pub record Relayed : Type 0 where
  pub decision : Decision
  pub silence : Option Silence
  pub dedup : Dedup
  pub routing : RoutingResult
  pub deliveries : List Delivery

-- what is relayed: the finding of a device and subject, with the rung of its cause
pub record Finding : Type 0 where
  pub device : String
  pub subject : String
  pub finding : String
  pub rung : Option String
  pub role : Option String
  pub age : Option ℕ

abbrev pub signature_of : Finding → Signature
signature_of f = (f.finding, f.rung)

-- `notify_owner` with a silence attempts nothing
abbrev pub held_back : Owner → Delivery
held_back owner = record { attempted = false; ok = true }

abbrev pub is_sent : Decision → Bool
is_sent sent = true
is_sent _ = false

abbrev pub noted_file : Decision → Bool → Option StateFile → Finding → ℕ → Option StateFile
noted_file decision writable none f now = none
noted_file decision writable (some file) f now = some (
    if is_sent decision
    then record_notification writable file f.device f.subject (signature_of f) now
    else file)

-- the relay of one finding that no silence covers
unfoldable pub relay_loud :
    (Owner → Delivery)
    → Bool
    → Option StateFile
    → RoutingResult
    → ℕ
    → Finding
    → ℕ
    → Relayed × Option StateFile
unfolding evaluate_dedup summarize
relay_loud deliver writable file routing window f now =
    let dedup = evaluate_dedup file f.device f.subject (signature_of f) window now in
    let deliveries = map deliver routing.owners in
    let decision = summarize deliveries in
    if dedup.suppressed
    then (
      record {
        decision = suppressed;
        silence = none;
        dedup = dedup;
        routing = routing;
        deliveries = [];
      },
      file,
    )
    else (
      record {
        decision = decision;
        silence = none;
        dedup = dedup;
        routing = routing;
        deliveries = deliveries;
      },
      noted_file decision writable file f now,
    )

abbrev pub relay_silenced : Silence → RoutingResult → Relayed
relay_silenced s routing = record {
  decision = silenced;
  silence = some s;
  dedup = record {
    evaluated = false;
    suppressed = false;
    state_readable = none;
    reason = before_dedup;
  };
  routing = routing;
  deliveries = map held_back routing.owners;
}

abbrev pub relay_routed :
    (Owner → Delivery)
    → Bool
    → Option StateFile
    → Option Silence
    → RoutingResult
    → ℕ
    → Finding
    → ℕ
    → Relayed × Option StateFile
relay_routed deliver writable file none routing window f now =
    relay_loud deliver writable file routing window f now
relay_routed deliver writable file (some s) routing window f now = (relay_silenced s routing, file)

-- `none` is the `KeyError` of a table that names an owner it does not declare
unfoldable pub relay :
    (Owner → Delivery)
    → Bool
    → Option StateFile
    → List Silence
    → OwnershipTable
    → ℕ
    → Finding
    → ℕ
    → Option (Relayed × Option StateFile)
unfolding resolve_ownership find_silence
relay deliver writable file silences table window f now =
    elim (resolve_ownership table f.device f.role (some f.finding) f.age) [
      | none ↦ none
      | some routing ↦ some (
          relay_routed deliver writable file
            (find_silence silences f.device (some f.finding) (some f.subject) now) routing window f
            now)
    ]

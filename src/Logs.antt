-- ===== src/Logs.antt =====
-- log_window.py: the records of a device's log window, and what shaping the window removes: repeated
-- lines, lines that the collector caused, and lines about another subject. The children read the
-- texts and the timestamps, and group records into episodes (log_episodes.py).
pub mod Text
pub mod Clock
pub mod Episodes
pub mod Shape
use ai_ops.Prelude.{
  ℕ, ◌-◌, String, Bool, true, false, not, ◌&&◌, ◌||◌, Option, none, some, List, [], ◌∷◌, any, all,
  str_eq, opt_str_eq, is_empty, if◌then◌else◌, length, keep,
}
use Text.{addresses, contains}

-- A parsed line of the log; a missing text reads as the empty one, as `get` with its default does.
pub record LogRecord : Type 0 where
  pub timestamp : String
  pub mnemonic : String
  pub text : String
  pub facility : Option String

pub data Attribution : Type 0 where
  source_address generating_process : Attribution

pub record NoiseRule : Type 0 where
  pub facility : String
  pub attribution : Attribution
  pub sources : List String
  pub markers : List String

abbrev pub is_member : List String → String → Bool
is_member names s = any (str_eq s) names

-- `bool(found) and all(address in sources for address in found)`
unfoldable pub all_from : List String → List String → Bool
all_from sources [] = false
all_from sources (a ∷ found) = all (is_member sources) (a ∷ found)

abbrev pub attributed : NoiseRule → String → Bool
unfolding addresses contains all_from
attributed rule text = elim rule.attribution [
  | source_address ↦ all_from rule.sources (addresses text)
  | generating_process ↦ all (λ marker. contains marker text) rule.markers
]

-- `NoiseRule.matches`
unfoldable pub matches : NoiseRule → LogRecord → Bool
unfolding attributed
matches rule r = opt_str_eq r.facility (some rule.facility) && attributed rule r.text

abbrev pub same_line : LogRecord → LogRecord → Bool
same_line a b =
    str_eq a.timestamp b.timestamp && str_eq a.mnemonic b.mnemonic && str_eq a.text b.text

-- the loop of `dedupe`; `seen` has the records whose keys are in the set
unfoldable pub unseen : List LogRecord → List LogRecord → List LogRecord
unseen seen [] = []
unseen seen (r ∷ rs) = elim (any (same_line r) seen) [
  | true ↦ unseen seen rs
  | false ↦ r ∷ unseen (r ∷ seen) rs
]

unfoldable pub dedupe : List LogRecord → List LogRecord
unfolding unseen
dedupe records = unseen [] records

abbrev pub is_noise : List NoiseRule → LogRecord → Bool
unfolding matches
is_noise rules r = any (λ rule. matches rule r) rules

abbrev pub in_facilities : List NoiseRule → LogRecord → Bool
in_facilities rules r = any (λ (rule : NoiseRule). opt_str_eq r.facility (some rule.facility)) rules

-- the records kept, and how many of them a rule names without accounting for them
unfoldable pub drop_collector_noise : List NoiseRule → List LogRecord → List LogRecord × ℕ
unfolding is_noise
drop_collector_noise rules records =
    let kept = keep (λ r. not (is_noise rules r)) records in
    (kept, length (keep (in_facilities rules) kept))

abbrev pub about : String → LogRecord → Bool
unfolding contains
about subject r = contains subject r.text

unfoldable pub filter_to_subject : List LogRecord → Option String → List LogRecord
unfolding about
filter_to_subject records none = records
filter_to_subject records (some subject) =
    if is_empty subject then records else keep (about subject) records

pub record ShapedWindow : Type 0 where
  pub records : List LogRecord
  pub total_in : ℕ
  pub duplicates_removed : ℕ
  pub collector_noise_removed : ℕ
  pub unrelated_removed : ℕ
  pub unattributed_kept : ℕ

-- the records after the noise, with `drop_noise` and without
abbrev pub denoised : Bool → List NoiseRule → List LogRecord → List LogRecord × ℕ
unfolding drop_collector_noise
denoised drop_noise rules records =
    if drop_noise then drop_collector_noise rules records else (records, 0)

unfoldable pub shape_window : List NoiseRule → List LogRecord → Option String → Bool → ShapedWindow
unfolding dedupe denoised filter_to_subject
shape_window rules records subject drop_noise =
    let deduped = dedupe records in
    let (kept, unattributed) = denoised drop_noise rules deduped in
    let narrowed = filter_to_subject kept subject in
    record {
      records = narrowed;
      total_in = length records;
      duplicates_removed = length records - length deduped;
      collector_noise_removed = length deduped - length kept;
      unrelated_removed = length kept - length narrowed;
      unattributed_kept = unattributed;
    }

abbrev management_hosts : List String
management_hosts = "172.20.250.1" ∷ "172.20.250.2" ∷ "172.20.250.5" ∷ "172.20.250.6" ∷ []

-- `COLLECTOR_NOISE`, the default of the rules
abbrev pub collector_noise : List NoiseRule
collector_noise =
    record {
      facility = "SECURITY-SSHD_SYSLOG_PRX";
      attribution = source_address;
      sources = management_hosts;
      markers = [];
    }
    ∷ record {
      facility = "SYSDB-SYSDB";
      attribution = generating_process;
      sources = [];
      markers = "client 'exec'" ∷ "/vty/" ∷ [];
    }
    ∷ []

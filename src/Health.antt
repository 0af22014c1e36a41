-- ===== src/Health.antt =====
-- health.py: maintenance windows, and what they change of a verdict; severities are those of
-- checks.py. A severity outside `SEVERITY_ORDER`, on which `severity_rank` raises, is not represented,
-- and `now` is an argument.
pub mod Find
pub mod Apply
pub mod Fabric
pub mod Parse
pub mod Rules
use ai_ops.Prelude.{
  ℕ, zero, suc, ◌+◌, String, Bool, true, false, not, ◌&&◌, ◌||◌, Option, none, some, List, [], ◌∷◌,
  ◌++◌, str_eq, leb, ltb, if◌then◌else◌, keep, any, map,
}

-- `SEVERITY_ORDER`
pub data Severity : Type 0 where
  okay info warning unreachable critical : Severity

unfoldable pub severity_rank : Severity → ℕ
severity_rank okay = 0
severity_rank info = 1
severity_rank warning = 2
severity_rank unreachable = 3
severity_rank critical = 4

unfoldable pub max_severity : Severity → Severity → Severity
unfolding severity_rank
max_severity a b = if leb (severity_rank b) (severity_rank a) then a else b

unfoldable pub exit_code_for_severity : Severity → ℕ
exit_code_for_severity critical = 2
exit_code_for_severity warning = 1
exit_code_for_severity unreachable = 1
exit_code_for_severity _ = 0

pub record Silence : Type 0 where
  pub id : String
  pub reason : String
  pub created_by : String
  pub expires_at : ℕ
  pub device : Option String
  pub rule : Option String
  pub subject : Option String
  pub starts_at : Option ℕ

-- `self.device is not None and self.device != device`
abbrev pub pins_other : Option String → Option String → Bool
pins_other none x = false
pins_other (some a) none = true
pins_other (some a) (some b) = not (str_eq a b)

abbrev pub not_started : Option ℕ → ℕ → Bool
not_started none now = false
not_started (some start) now = ltb now start

-- `Silence.matches`
unfoldable pub matches : Silence → String → Option String → Option String → ℕ → Bool
matches s device rule subject now =
    if leb s.expires_at now
    then false
    else if not_started s.starts_at now
    then false
    else if pins_other s.device (some device)
    then false
    else if pins_other s.rule rule
    then false
    else not (pins_other s.subject subject)

abbrev pub pins : Option String → ℕ
pins none = 0
pins (some a) = 1

-- `_specificity`
unfoldable pub specificity : Silence → ℕ
specificity s = pins s.device + pins s.rule + pins s.subject

unfoldable pub wider : Silence → Silence → Silence
unfolding specificity
wider best s = if ltb (specificity best) (specificity s) then s else best

-- `max(candidates, key=_specificity)`: the first of the largest
unfoldable pub most_specific : Silence → List Silence → Silence
most_specific best [] = best
most_specific best (s ∷ ss) = most_specific (wider best s) ss

abbrev pub best_of : List Silence → Option Silence
best_of [] = none
best_of (s ∷ ss) = some (most_specific s ss)

unfoldable pub find_silence :
    List Silence → String → Option String → Option String → ℕ → Option Silence
unfolding matches most_specific
find_silence silences device rule subject now =
    best_of (keep (λ s. matches s device rule subject now) silences)

-- one finding of a verdict; `detail` stands for its other entries
pub record HealthFinding : Type 0 where
  pub rule : Option String
  pub subject : Option String
  pub severity : Severity
  pub detail : String

pub record Verdict : Type 0 where
  pub device : String
  pub findings : List HealthFinding
  pub severity : Severity

-- a finding of the annotated verdict: `silenced` is whether there is a silence
pub record Tagged : Type 0 where
  pub finding : HealthFinding
  pub silence : Option Silence

pub record Counts : Type 0 where
  pub critical_count : ℕ
  pub unreachable_count : ℕ
  pub warning_count : ℕ
  pub info_count : ℕ
  pub silenced : ℕ

pub record SilencedVerdict : Type 0 where
  pub device : String
  pub findings : List Tagged
  pub raw_severity : Severity
  pub severity : Severity
  pub counts : Counts
  pub silences_applied : Bool

abbrev pub no_counts : Counts
no_counts = record {
  critical_count = 0;
  unreachable_count = 0;
  warning_count = 0;
  info_count = 0;
  silenced = 0;
}

-- `if fseverity in counts: counts[fseverity] += 1`
abbrev pub count : Severity → Counts → Counts
count okay c = c
count info c = record c { info_count = suc c.info_count }
count warning c = record c { warning_count = suc c.warning_count }
count unreachable c = record c { unreachable_count = suc c.unreachable_count }
count critical c = record c { critical_count = suc c.critical_count }

-- the loop's variables
pub record Tally : Type 0 where
  pub new_findings : List Tagged
  pub counts : Counts
  pub severity : Severity

abbrev pub tagged_silent : HealthFinding → Silence → Tally → Tally
tagged_silent f s t = record {
  new_findings = t.new_findings ++ record { finding = f; silence = some s } ∷ [];
  counts = record (t.counts) { silenced = suc t.counts.silenced };
  severity = t.severity;
}

abbrev pub tagged_loud : HealthFinding → Tally → Tally
unfolding max_severity
tagged_loud f t = record {
  new_findings = t.new_findings ++ record { finding = f; silence = none } ∷ [];
  counts = count f.severity t.counts;
  severity = max_severity t.severity f.severity;
}

unfoldable pub tag : HealthFinding → Option Silence → Tally → Tally
unfolding tagged_loud
tag f none t = tagged_loud f t
tag f (some s) t = tagged_silent f s t

-- `for finding in verdict.get("findings", [])`
unfoldable pub tag_all : List Silence → String → ℕ → List HealthFinding → Tally → Tally
unfolding find_silence tag
tag_all silences device now [] t = t
tag_all silences device now (f ∷ fs) t =
    tag_all silences device now fs (tag f (find_silence silences device f.rule f.subject now) t)

abbrev pub no_tally : Tally
no_tally = record { new_findings = []; counts = no_counts; severity = okay }

abbrev pub with_tally : Verdict → Tally → SilencedVerdict
with_tally v t = record {
  device = v.device;
  findings = t.new_findings;
  raw_severity = v.severity;
  severity = t.severity;
  counts = t.counts;
  silences_applied = ltb 0 t.counts.silenced;
}

unfoldable pub apply_silences : Verdict → List Silence → ℕ → SilencedVerdict
unfolding tag_all
apply_silences v silences now = with_tally v (tag_all silences v.device now v.findings no_tally)

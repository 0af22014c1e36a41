-- ===== src/Tests/Rules.antt =====
-- A device of the edge with one adjacency too few, and one that cannot be reached.
use ai_ops.Prelude.{count_if, ◌≡◌, refl, Option, none, some, List, [], ◌∷◌, leb, all}
use ai_ops.Health.{Severity, severity_rank, warning, unreachable}
use ai_ops.Health.Rules.Counted.{counter, is_of}
use ai_ops.Health.Rules.{
  Device, edge, Evidence, Section, IsisRecord, BgpRecord, success, error, parse_ok, not_parsed,
}
use ai_ops.Health.Rules.Evaluate.{intents_where, evaluate_device, evaluate_fabric, evidence_for}
use ai_ops.Health.Rules.Graded.{is_fine_if_known, evaluate_fabric-severity}

abbrev pe1 : Device
pe1 = record {
  name = "PE1";
  role = edge;
  platform = none;
  expected = some record { isis_adjacencies = some 2; bgp_peers = some 1 };
}

abbrev neighbor : IsisRecord
neighbor = record { system_id = some "P1"; state = some "Up" }

abbrev peer : BgpRecord
peer = record {
  neighbor = some "10.0.0.9";
  session_state = some "Established";
  prefixes_received = some 0;
}

abbrev read : {R : Type 0} → List R → Option (Section R)
read rs = some record { status = success; parse_status = parse_ok; records = rs }

abbrev seen : Evidence
seen = record {
  platform = some "cisco_xr";
  isis = read (neighbor ∷ []);
  bgp = read (peer ∷ []);
  bgp_active = none;
  interfaces = read [];
  sr = read [];
}

abbrev lost : Evidence
lost = record {
  platform = none;
  isis = none;
  bgp = none;
  bgp_active = none;
  interfaces = some record { status = error; parse_status = not_parsed; records = [] };
  sr = none;
}

adjacency_lost : (evaluate_device seen pe1).verdict.severity ≡ warning
unfolding evaluate_device intents_where
adjacency_lost = refl

device_lost : (evaluate_device lost pe1).verdict.severity ≡ unreachable
unfolding evaluate_device intents_where
device_lost = refl

evaluate_fabric-severity_example :
    (leb (severity_rank (evaluate_fabric (("PE1", seen) ∷ []) (pe1 ∷ [])).severity) 1
      ≡ all (λ d. is_fine_if_known (evidence_for (("PE1", seen) ∷ []) d.name) d) (pe1 ∷ []))
    × ((s : Severity)
        → counter s (evaluate_fabric (("PE1", seen) ∷ []) (pe1 ∷ [])).by_severity
          ≡ count_if (is_of s) (evaluate_fabric (("PE1", seen) ∷ []) (pe1 ∷ [])).devices)
evaluate_fabric-severity_example = evaluate_fabric-severity (("PE1", seen) ∷ []) (pe1 ∷ [])

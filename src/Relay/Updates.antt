-- ===== src/Relay/Updates.antt =====
-- What a suppressed relay has behind it: a repetition inside its window, and nothing else.
use ai_ops.Prelude.{
  ℕ, ◌+◌, ◌<◌, ◌≡◌, ◌≢◌, inl, inr, refl, sym, ap, ◌∙◌, Bool, true, false, Option, none, some, List,
  [], not, ◌&&◌, any, all, map, eq_iff, arith, Bool-cases, Option-cases, if◌then◌else◌,
}
use ai_ops.Result.{Moment, aware, naive}
use ai_ops.Health.{Silence, find_silence}
use ai_ops.Relay.Ownership.{Owner, OwnershipTable}
use ai_ops.Relay.{
  Delivery, Decision, suppressed, sent, no_provider, failed, summarize, Relayed, Finding,
  signature_of, relay,
}
use ai_ops.Relay.Suppression.{
  Signature, Prior, StateFile, load_state, prior_of, dedup_key, evaluate_dedup, judged,
  signature_changed, judge, judge_time, same_signature,
}
use ai_ops.Relay.Repeats.{
  relay-loud-of, relay-silenced-of, relay_loud-delivers, relay_loud-suppressed,
}

-- an entry with a signature, noted less than a window ago
pub record IsRecent (p : Prior) (signature : Signature) (window now : ℕ) : Type 0 where
  pub last : ℕ
  pub notified : p.last_notified_at ≡ some (aware last)
  pub inside : now < last + window
  pub same : p.signature ≡ some signature

judge_time-suppressed :
    (o : Option Moment) (readable : Bool) (window now : ℕ)
    → (judge_time o readable window now).suppressed ≡ true
    → (last : ℕ) × (o ≡ some (aware last)) × (now < last + window)
judge_time-suppressed none readable window now h = absurd (ground arith)
judge_time-suppressed (some naive) readable window now h = absurd (ground arith)
judge_time-suppressed (some (aware last)) readable window now h = (last, refl, ground arith)

same_signature-eq : (o : Option Signature) (s : Signature) → same_signature o s ≡ true → o ≡ some s
same_signature-eq none s h = absurd (ground arith)
same_signature-eq (some (f, none)) (g, none) h = ground (arith, eq_iff f g)
same_signature-eq (some (f, none)) (g, some q) h = absurd (ground arith)
same_signature-eq (some (f, some r)) (g, none) h = absurd (ground arith)
same_signature-eq (some (f, some r)) (g, some q) h = ground (arith, eq_iff f g, eq_iff r q)

judge-suppressed :
    (o : Option Prior) (readable : Bool) (signature : Signature) (window now : ℕ)
    → (judge o readable signature window now).suppressed ≡ true
    → (p : Prior) × (o ≡ some p) × IsRecent p signature window now
judge-suppressed none readable signature window now h = absurd (ground arith)
judge-suppressed (some p) readable signature window now h =
    elim (Bool-cases (same_signature p.signature signature)) [
      | inr other ↦ absurd (ground arith)
      | inl same ↦
          let (last, notified, inside) =
            judge_time-suppressed p.last_notified_at readable window now (
              sym (
                ap
                  (λ b.
                    (if b
                      then judge_time p.last_notified_at readable window now
                      else judged readable false signature_changed).suppressed)
                  same)
              ∙ h) in
          (
            p,
            refl,
            record {
              last = last;
              notified = notified;
              inside = inside;
              same = same_signature-eq p.signature signature same;
            },
          )
    ]

abbrev is_suppressed : Decision → Bool
is_suppressed suppressed = true
is_suppressed _ = false

decided :
    (a b : Bool) → is_suppressed (if a then sent else if b then no_provider else failed) ≡ false
decided true b = refl
decided false true = refl
decided false false = refl

summarize-is_suppressed : (ds : List Delivery) → is_suppressed (summarize ds) ≡ false
unfolding summarize
summarize-is_suppressed ds =
    decided (any (λ (d : Delivery). d.attempted && d.ok) ds)
      (all (λ (d : Delivery). d.ok && not d.attempted) ds)

contrary : (a : Bool) → a ≡ false → a ≢ true
contrary a e h = ground arith

-- A relay that is suppressed delivers nothing and leaves its state file as it was, and that file has
-- an entry for the device and subject with the same finding and cause, notified less than a window
-- ago: a finding or a cause that has changed, or a file that cannot be read, never suppresses.
pub relay_suppressed :
    (deliver : Owner → Delivery) (writable : Bool) (file : StateFile) (silences : List Silence)
    (table : OwnershipTable) (window : ℕ) (f : Finding) (now : ℕ) {x : Relayed × Option StateFile}
    → relay deliver writable (some file) silences table window f now ≡ some x
    → x.0.decision ≡ suppressed
    → (x.0.deliveries ≡ [])
      × (x.1 ≡ some file)
      × ((p : Prior) × (prior_of (load_state file).0 (dedup_key f.device f.subject) ≡ some p)
          × IsRecent p (signature_of f) window now)
unfolding evaluate_dedup
relay_suppressed deliver writable file silences table window f now {x} h is =
    elim (Option-cases (find_silence silences f.device (some f.finding) (some f.subject) now)) [
      | inr (s, e) ↦
          let (routing, same) =
            relay-silenced-of deliver writable (some file) silences table window f now h e in
          absurd (contrary false refl (ap is_suppressed (ap (λ y. y.0.decision) same ∙ is)))
      | inl quiet ↦
          let (routing, e) =
            relay-loud-of deliver writable (some file) silences table window f now h quiet in
          elim (Bool-cases
            (evaluate_dedup (some file) f.device f.subject (signature_of f) window
              now).suppressed) [
                | inr free ↦
                    let (outcome, made, kept) =
                      relay_loud-delivers deliver writable (some file) routing window f now free in
                    absurd (
                      contrary _ (summarize-is_suppressed (map deliver routing.owners))
                        (ap is_suppressed (sym outcome ∙ ap (λ y. y.0.decision) e ∙ is)))
                | inl held ↦
                    let (outcome, made, kept) =
                      relay_loud-suppressed deliver writable (some file) routing window f now
                        held in
                    (
                      sym (ap (λ y. y.0.deliveries) e) ∙ made,
                      sym (ap (λ y. y.1) e) ∙ kept,
                      judge-suppressed (prior_of (load_state file).0 (dedup_key f.device f.subject))
                          (load_state file).1 (signature_of f) window now held,
                    )
              ]
    ]

-- ===== src/Relay/Repeats.antt =====
-- A relayed finding and its repetition.
use ai_ops.Prelude.{
  some-injective, none-some, ℕ, ◌+◌, ◌≤◌, ◌<◌, ◌≡◌, ◌≢◌, ◌⊎◌, inl, inr, refl, sym, ap, ◌∙◌, String,
  Bool, true, false, Option, none, some, List, [], ◌∷◌, map, str_eq, eq_refl, ltb, arith,
  Bool-cases, Option-cases, if◌then◌else◌,
}
use ai_ops.Result.{aware}
use ai_ops.Health.{Silence, find_silence}
use ai_ops.Relay.Ownership.{Owner, OwnershipTable, RoutingResult, resolve_ownership}
use ai_ops.Relay.{
  Delivery, suppressed, sent, summarize, Relayed, Finding, signature_of, noted_file, relay_loud,
  relay_silenced, relay, is_sent,
}
use ai_ops.Relay.Suppression.{
  Signature, Prior, State, StateFile, load_state, prior_of, put_prior, dedup_key, evaluate_dedup,
  judged, signature_changed, inside_window, window_over, judge, judge_time, same_signature,
  record_notification, noted, count_of,
}

prior_of-put : (s : State) (key : String) (p : Prior) → prior_of (put_prior s key p) key ≡ some p
unfolding prior_of put_prior
prior_of-put [] key p = rw (eq_refl key) refl
prior_of-put ((k, q) ∷ s) key p = elim (Bool-cases (str_eq k key)) [
  | inl e ↦ rw e (rw e refl)
  | inr e ↦ rw e (rw e (prior_of-put s key p))
]

-- the entry that a delivery leaves
prior-recorded :
    (file : StateFile) (device subject : String) (signature : Signature) (now : ℕ)
    → prior_of
        (load_state (record_notification true file device subject signature now)).0
        (dedup_key device subject)
      ≡ some
          (noted signature now (count_of (prior_of (load_state file).0 (dedup_key device subject))))
unfolding record_notification load_state
prior-recorded file device subject signature now =
    prior_of-put (load_state file).0 (dedup_key device subject)
      (noted signature now (count_of (prior_of (load_state file).0 (dedup_key device subject))))

same_signature_self : (s : Signature) → same_signature (some s) s ≡ true
same_signature_self (f, none) = ground (arith, eq_refl f)
same_signature_self (f, some r) = ground (arith, eq_refl f, eq_refl r)

suppressed-timed :
    (b readable : Bool)
    → (if b
        then judged readable true inside_window
        else judged readable false window_over).suppressed
      ≡ b
suppressed-timed true readable = refl
suppressed-timed false readable = refl

-- after a recorded delivery, the same signature is suppressed exactly until the window is over
dedup-recorded :
    (file : StateFile) (device subject : String) (signature : Signature) (sent_at window now : ℕ)
    → (evaluate_dedup
        (some (record_notification true file device subject signature sent_at))
        device
        subject
        signature
        window
        now).suppressed
      ≡ ltb now (sent_at + window)
unfolding evaluate_dedup
dedup-recorded file device subject signature sent_at window now =
    let after = record_notification true file device subject signature sent_at in
    let readable = (load_state after).1 in
    let count = count_of (prior_of (load_state file).0 (dedup_key device subject)) in
    ap (λ o. (judge o readable signature window now).suppressed)
      (prior-recorded file device subject signature sent_at)
    ∙ ap
        (λ b.
          (if b
            then judge_time (some (aware sent_at)) readable window now
            else judged readable false signature_changed).suppressed)
        (same_signature_self signature)
    ∙ suppressed-timed (ltb now (sent_at + window)) readable

pub relay_loud-suppressed :
    (deliver : Owner → Delivery) (writable : Bool) (file : Option StateFile)
    (routing : RoutingResult) (window : ℕ) (f : Finding) (now : ℕ)
    → (evaluate_dedup file f.device f.subject (signature_of f) window now).suppressed ≡ true
    → ((relay_loud deliver writable file routing window f now).0.decision ≡ suppressed)
      × ((relay_loud deliver writable file routing window f now).0.deliveries ≡ [])
      × ((relay_loud deliver writable file routing window f now).1 ≡ file)
unfolding relay_loud
relay_loud-suppressed deliver writable file routing window f now e =
    (rw (e, relay_loud) refl, rw (e, relay_loud) refl, rw (e, relay_loud) refl)

pub relay_loud-delivers :
    (deliver : Owner → Delivery) (writable : Bool) (file : Option StateFile)
    (routing : RoutingResult) (window : ℕ) (f : Finding) (now : ℕ)
    → (evaluate_dedup file f.device f.subject (signature_of f) window now).suppressed ≡ false
    → ((relay_loud deliver writable file routing window f now).0.decision
        ≡ summarize (map deliver routing.owners))
      × ((relay_loud deliver writable file routing window f now).0.deliveries
          ≡ map deliver routing.owners)
      × ((relay_loud deliver writable file routing window f now).1
          ≡ noted_file (summarize (map deliver routing.owners)) writable file f now)
unfolding relay_loud
relay_loud-delivers deliver writable file routing window f now e =
    (rw (e, relay_loud) refl, rw (e, relay_loud) refl, rw (e, relay_loud) refl)

relay_loud-routing :
    (deliver : Owner → Delivery) (writable : Bool) (file : Option StateFile)
    (routing : RoutingResult) (window : ℕ) (f : Finding) (now : ℕ)
    → (relay_loud deliver writable file routing window f now).0.routing ≡ routing
unfolding relay_loud
relay_loud-routing deliver writable file routing window f now =
    elim (Bool-cases
      (evaluate_dedup file f.device f.subject (signature_of f) window now).suppressed) [
        | inl e ↦ rw (e, relay_loud) refl
        | inr e ↦ rw (e, relay_loud) refl
      ]

-- a relay that no silence covers
pub relay-loud-of :
    (deliver : Owner → Delivery) (writable : Bool) (file : Option StateFile)
    (silences : List Silence) (table : OwnershipTable) (window : ℕ) (f : Finding) (now : ℕ)
    {x : Relayed × Option StateFile}
    → relay deliver writable file silences table window f now ≡ some x
    → find_silence silences f.device (some f.finding) (some f.subject) now ≡ none
    → (routing : RoutingResult) × (relay_loud deliver writable file routing window f now ≡ x)
unfolding relay
relay-loud-of deliver writable file silences table window f now {x} h quiet =
    elim (Option-cases (resolve_ownership table f.device f.role (some f.finding) f.age)) [
      | inl e ↦ absurd (none-some (rw (e, relay) at h))
      | inr (routing, e) ↦ (routing, some-injective (rw (e, quiet, relay) at h))
    ]

pub relay-silenced-of :
    (deliver : Owner → Delivery) (writable : Bool) (file : Option StateFile)
    (silences : List Silence) (table : OwnershipTable) (window : ℕ) (f : Finding) (now : ℕ)
    {s : Silence} {x : Relayed × Option StateFile}
    → relay deliver writable file silences table window f now ≡ some x
    → find_silence silences f.device (some f.finding) (some f.subject) now ≡ some s
    → (routing : RoutingResult) × ((relay_silenced s routing, file) ≡ x)
unfolding relay
relay-silenced-of deliver writable file silences table window f now {s} {x} h covered =
    elim (Option-cases (resolve_ownership table f.device f.role (some f.finding) f.age)) [
      | inl e ↦ absurd (none-some (rw (e, relay) at h))
      | inr (routing, e) ↦ (routing, some-injective (rw (e, covered, relay) at h))
    ]

true-false : true ≢ false
true-false h = ground arith

-- a relay that reports a delivery has noted it in the state file
relay-sent :
    (deliver : Owner → Delivery) (writable : Bool) (file : StateFile) (silences : List Silence)
    (table : OwnershipTable) (window : ℕ) (f : Finding) (now : ℕ) {x : Relayed × Option StateFile}
    → relay deliver writable (some file) silences table window f now ≡ some x
    → x.0.decision ≡ sent
    → x.1 ≡ some (record_notification writable file f.device f.subject (signature_of f) now)
relay-sent deliver writable file silences table window f now {x} h is =
    elim (Option-cases (find_silence silences f.device (some f.finding) (some f.subject) now)) [
      | inr (s, e) ↦
          let (routing, same) =
            relay-silenced-of deliver writable (some file) silences table window f now h e in
          absurd (true-false (ap is_sent (sym is ∙ sym (ap (λ y. y.0.decision) same))))
      | inl quiet ↦
          let (routing, e) =
            relay-loud-of deliver writable (some file) silences table window f now h quiet in
          elim (Bool-cases
            (evaluate_dedup (some file) f.device f.subject (signature_of f) window
              now).suppressed) [
                | inl held ↦
                    let (decided, none_made, same) =
                      relay_loud-suppressed deliver writable (some file) routing window f now
                        held in
                    absurd
                      (true-false (ap is_sent (sym is ∙ sym (ap (λ y. y.0.decision) e) ∙ decided)))
                | inr free ↦
                    let (decided, made, noted_in) =
                      relay_loud-delivers deliver writable (some file) routing window f now free in
                    sym (ap (λ y. y.1) e)
                    ∙ noted_in
                    ∙ ap (λ d. noted_file d writable (some file) f now)
                        (sym decided ∙ ap (λ y. y.0.decision) e ∙ is)
              ]
    ]

-- After a relay that reports a delivery, and whose state file could be written, the same finding of
-- the same device and subject with the same cause, which no silence covers, is suppressed without a
-- delivery until the window of that relay is over, and goes to each of its owners from then on.
pub relay-relay :
    (deliver : Owner → Delivery) (file : StateFile) (silences : List Silence)
    (table : OwnershipTable) (window : ℕ) (f : Finding) (sent_at : ℕ)
    {first : Relayed × Option StateFile}
    → relay deliver true (some file) silences table window f sent_at ≡ some first
    → first.0.decision ≡ sent
    → (deliver_again : Owner → Delivery) (writable : Bool) (silences_now : List Silence)
      (table_now : OwnershipTable) (window_now now : ℕ) {second : Relayed × Option StateFile}
    → find_silence silences_now f.device (some f.finding) (some f.subject) now ≡ none
    → relay deliver_again writable first.1 silences_now table_now window_now f now ≡ some second
    → ((now < sent_at + window_now)
        × (second.0.decision ≡ suppressed)
        × (second.0.deliveries ≡ [])
        × (second.1 ≡ first.1))
      ⊎ ((sent_at + window_now ≤ now)
          × (second.0.deliveries ≡ map deliver_again second.0.routing.owners))
relay-relay deliver file silences table window f sent_at {first} h is deliver_again writable
      silences_now table_now window_now now {second} quiet again =
    let noted_in = relay-sent deliver true file silences table window f sent_at h is in
    let (routing, e) =
      relay-loud-of deliver_again writable first.1 silences_now table_now window_now f now again
        quiet in
    let judged_now =
      ap (λ o. (evaluate_dedup o f.device f.subject (signature_of f) window_now now).suppressed)
        noted_in
      ∙ dedup-recorded file f.device f.subject (signature_of f) sent_at window_now now in
    elim (Bool-cases (ltb now (sent_at + window_now))) [
      | inl early ↦
          let (decided, made, kept) =
            relay_loud-suppressed deliver_again writable first.1 routing window_now f now
              (judged_now ∙ early) in
          inl (
            ground arith,
            sym (ap (λ y. y.0.decision) e) ∙ decided,
            sym (ap (λ y. y.0.deliveries) e) ∙ made,
            sym (ap (λ y. y.1) e) ∙ kept,
          )
      | inr late ↦
          let (decided, made, kept) =
            relay_loud-delivers deliver_again writable first.1 routing window_now f now
              (judged_now ∙ late) in
          inr (
            ground arith,
            sym (ap (λ y. y.0.deliveries) e)
                ∙ made
                ∙ ap (λ (r : RoutingResult). map deliver_again r.owners)
                    (sym
                        (relay_loud-routing deliver_again writable first.1 routing window_now f now)
                      ∙ ap (λ y. y.0.routing) e),
          )
    ]

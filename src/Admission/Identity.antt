-- ===== src/Admission/Identity.antt =====
-- admission.py: one run of an event at a time, and what its end means for the next.
use ai_ops.Prelude.{
  ℕ, ◌+◌, ◌≤◌, ◌<◌, ◌≡◌, ◌≢◌, refl, sym, ap, ◌∙◌, String, Bool, true, false, Option, none, some,
  List, [], ◌∷◌, str_eq, keep, arith, Bool-cases, inl, inr, subst, eq_refl,
}
use ai_ops.Admission.{
  Entry, Limits, EventFile, refused_for, written, Scope, event_idempotency, admit_event_run,
  finish_event_run, is_recent, recent_entry, entry_of, put, lease, blocks, accepted_entry,
  retained_events, with_run, ended_entry, ended_in,
}
use ai_ops.Admission.Budget.{Accepted, admit_event_run-cases}

entry_of-put :
    (id : String) (e : Entry) (es : List (String × Option Entry))
    → entry_of id (put id e es) ≡ some e
unfolding entry_of put
entry_of-put id e [] = ground (arith, eq_refl id)
entry_of-put id e ((k, x) ∷ es) =
    let rest = entry_of-put id e es in
    elim (Bool-cases (str_eq k id)) [ inl this ↦ ground arith | inr other ↦ ground arith ]

entry_of-keep :
    (window now : ℕ) (id : String) (e : Entry) (es : List (String × Option Entry))
    → is_recent window now e.updated ≡ true
    → entry_of id es ≡ some e
    → entry_of id (keep (recent_entry window now) es) ≡ some e
unfolding entry_of
entry_of-keep window now id e [] recent found = ground arith
entry_of-keep window now id e ((k, none) ∷ es) recent found =
    ground (arith, entry_of-keep window now id e es recent)
entry_of-keep window now id e ((k, some x) ∷ es) recent found =
    ground (arith, entry_of-keep window now id e es recent)

module _ (l : Limits) (later : ℕ) (id x : String) (file : EventFile) (e : Entry) where
  blocked :
      entry_of id (retained_events l later file) ≡ some e
      → blocks l later (some e) ≡ true
      → admit_event_run l later id x file ≡ refused_for event_idempotency
  unfolding admit_event_run
  blocked found b = let same = ap (blocks l later) found in ground arith

  unblocked :
      entry_of id (retained_events l later file) ≡ some e
      → blocks l later (some e) ≡ false
      → admit_event_run l later id x file ≢ refused_for event_idempotency
  unfolding admit_event_run
  unblocked found b h = let same = ap (blocks l later) found in ground arith

admit_event_run-written :
    (l : Limits) (now : ℕ) (id d : String) (file : EventFile) {file' : EventFile}
    → admit_event_run l now id d file ≡ written file'
    → with_run l now id d file ≡ file'
unfolding Accepted
admit_event_run-written l now id d file {file'} h = elim (admit_event_run-cases l now id d file) [
  | inl (s, e) ↦ absurd_refusal (sym e ∙ h)
  | inr accepted ↦ same_file (sym (accepted.3) ∙ h)
]
  where
    absurd_refusal : {s : Scope} {a b : EventFile} → refused_for s ≡ written a → b ≡ a
    absurd_refusal h = ground arith

    same_file : {a b : EventFile} → written a ≡ written b → a ≡ b
    same_file h = ground arith

-- While the lease of a run that was let through lasts, and its identity is remembered, no second
-- run of the event is let through, on whichever device it is asked for.
pub admit_event_run_exclusive :
    (l : Limits) (now later : ℕ) (id d x : String) (file : EventFile) {file' : EventFile}
    → admit_event_run l now id d file ≡ written file'
    → later < now + lease l
    → later ≤ now + l.idempotency_window
    → admit_event_run l later id x file' ≡ refused_for event_idempotency
unfolding with_run
admit_event_run_exclusive l now later id d x file {file'} h held remembered =
    let entry = accepted_entry d now in
    let after = with_run l now id d file in
    let found =
      entry_of-keep l.idempotency_window later id entry after.events (ground arith)
        (entry_of-put id entry (retained_events l now file)) in
    subst (λ f. admit_event_run l later id x f ≡ refused_for event_idempotency)
      (admit_event_run-written l now id d file h)
      (blocked l later id x after entry found (ground arith))

-- The end of a run decides for as long as the event is remembered: one that completed is not run
-- again, and one that failed is not refused for its identity.
pub admit_event_run-finish_event_run :
    (l : Limits) (now later : ℕ) (id d : String) (e : Entry) (file : EventFile)
    → entry_of id file.events ≡ some e
    → later ≤ now + l.idempotency_window
    → (admit_event_run l later id d (finish_event_run id true now file)
        ≡ refused_for event_idempotency)
      × (admit_event_run l later id d (finish_event_run id false now file)
          ≢ refused_for event_idempotency)
admit_event_run-finish_event_run l now later id d e file found remembered = (
  blocked l later id d (finish_event_run id true now file) (ended_entry true now e) (ended true)
      refl,
  unblocked l later id d (finish_event_run id false now file) (ended_entry false now e)
      (ended false) refl,
)
  where
    ended :
        (done : Bool)
        → entry_of id (retained_events l later (finish_event_run id done now file))
          ≡ some (ended_entry done now e)
    ended done =
        let file_after : finish_event_run id done now file
            ≡ record file { events = put id (ended_entry done now e) file.events } =
          unfold finish_event_run in ap (ended_in id done now file) found in
        ap (λ f. entry_of id (retained_events l later f)) file_after
        ∙ entry_of-keep l.idempotency_window later id (ended_entry done now e)
            (put id (ended_entry done now e) file.events) (ground arith)
            (entry_of-put id (ended_entry done now e) file.events)

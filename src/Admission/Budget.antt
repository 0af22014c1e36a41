-- ===== src/Admission/Budget.antt =====
-- admission.py: the run budgets over any sequence of calls.
use ai_ops.Prelude.{
  ℕ, ◌+◌, ◌≤◌, ◌≡◌, ◌⊎◌, refl, sym, ap, String, Bool, true, false, ◌&&◌, Option, none, some, List,
  [], ◌∷◌, ◌++◌, str_eq, leb, keep, count_if, length, count_if-append, arith, Bool-cases, inl, inr,
  subst, eq_iff,
}
use ai_ops.Admission.{
  Start, Limits, EventFile, refused_for, written, Call, admit_run, finish_run, History, call, calls,
  admit_event_run, finish_event_run, recent_start, on_device, device_limit, fabric_limit, started,
  retained_starts, retained_events, with_run, entry_of, Entry, after_admit, ended_in, blocks, Scope,
  event_idempotency, event_device, event_fabric, nothing_yet,
}

-- recent at `t`, and of the kind that `q` asks for
abbrev pub recent_and : ℕ → ℕ → (Option Start → Bool) → Option Start → Bool
recent_and window t q s = recent_start window t s && q s

-- a start that is recent later is recent now, so pruning forgets none of them
count-retained :
    (window now t : ℕ) (q : Option Start → Bool) (ss : List (Option Start))
    → now ≤ t
    → count_if (recent_and window t q) (keep (recent_start window now) ss)
      ≡ count_if (recent_and window t q) ss
count-retained window now t q [] h = refl
count-retained window now t q (none ∷ ss) h = ground (arith, count-retained window now t q ss h)
count-retained window now t q (some s ∷ ss) h = ground (arith, count-retained window now t q ss h)

count-keep :
    (window now : ℕ) (q : Option Start → Bool) (ss : List (Option Start))
    → count_if q (keep (recent_start window now) ss) ≡ count_if (recent_and window now q) ss
count-keep window now q [] = refl
count-keep window now q (s ∷ ss) = ground (arith, count-keep window now q ss)

-- time only takes starts out of the window
count-later :
    (window now t : ℕ) (q : Option Start → Bool) (ss : List (Option Start))
    → now ≤ t
    → count_if (recent_and window t q) ss ≤ count_if (recent_and window now q) ss
count-later window now t q [] h = omega arith
count-later window now t q (none ∷ ss) h = ground (arith, count-later window now t q ss h)
count-later window now t q (some s ∷ ss) h = ground (arith, count-later window now t q ss h)

abbrev pub every : Option Start → Bool
every s = true

count-every :
    (window now : ℕ) (ss : List (Option Start))
    → count_if (recent_and window now every) ss ≡ length (keep (recent_start window now) ss)
count-every window now [] = refl
count-every window now (s ∷ ss) = ground (arith, count-every window now ss)

-- what holds of the file at the time of a call, `log` being the starts that were let through
record Kept (l : Limits) (now : ℕ) (log starts : List (Option Start)) : Type 0 where
  remembered :
      (t : ℕ) (q : Option Start → Bool)
      → now ≤ t
      → count_if (recent_and l.window t q) log ≡ count_if (recent_and l.window t q) starts
  per_device :
      (d : String) → count_if (recent_and l.window now (on_device d)) starts ≤ device_limit l
  fabric : count_if (recent_and l.window now every) starts ≤ fabric_limit l

abbrev KeptIn : Limits → ℕ → History → Type 0
KeptIn l now h = Kept l now h.admissions h.file.starts

wait-Kept :
    (l : Limits) (now t : ℕ) (log starts : List (Option Start))
    → now ≤ t
    → Kept l now log starts
    → Kept l t log starts
wait-Kept l now t log starts h k = record {
  remembered = λ u q later. k.remembered u q (omega arith);
  per_device = λ d.
      (let a = count-later l.window now t (on_device d) starts h in
        let b = k.per_device d in omega arith);
  fabric = (let a = count-later l.window now t every starts h in let b = k.fabric in omega arith);
}

module _ (l : Limits) (now : ℕ) (id d : String) (log starts : List (Option Start)) where
  abbrev kept : List (Option Start)
  kept = keep (recent_start l.window now) starts

  device_room :
      (k : Kept l now log starts)
      (room : leb (device_limit l) (count_if (on_device d) kept) ≡ false) (x : String)
      → count_if (recent_and l.window now (on_device x)) (kept ++ started id d now ∷ [])
        ≤ device_limit l
  device_room k room x =
      let split =
        count_if-append (recent_and l.window now (on_device x)) kept (started id d now ∷ []) in
      let same = count-retained l.window now now (on_device x) starts (omega arith) in
      let before = k.per_device x in
      elim (Bool-cases (str_eq d x)) [
        | inr other ↦ ground arith
        | inl this ↦
            let there =
              subst (λ y. leb (device_limit l) (count_if (on_device y) kept) ≡ false)
                ((eq_iff d x).0 this) room in
            let counts = count-keep l.window now (on_device x) starts in ground arith
      ]

  admit-Kept :
      Kept l now log starts
      → leb (device_limit l) (count_if (on_device d) kept) ≡ false
      → leb (fabric_limit l) (length kept) ≡ false
      → Kept l now (log ++ started id d now ∷ []) (kept ++ started id d now ∷ [])
  admit-Kept k room space = record {
    remembered = λ t q later.
        (let a = count_if-append (recent_and l.window t q) log (started id d now ∷ []) in
          let b = count_if-append (recent_and l.window t q) kept (started id d now ∷ []) in
          let c = count-retained l.window now t q starts later in
          let e = k.remembered t q later in omega arith);
    per_device = device_room k room;
    fabric =
        (let a = count_if-append (recent_and l.window now every) kept (started id d now ∷ []) in
          let b = count-retained l.window now now every starts (omega arith) in
          let c = count-every l.window now starts in ground arith);
  }

finish_event_run-starts :
    (id : String) (done : Bool) (now : ℕ) (file : EventFile)
    → (finish_event_run id done now file).starts ≡ file.starts
unfolding finish_event_run
finish_event_run-starts id done now file = ended-starts id done now file (entry_of id file.events)
  where
    ended-starts :
        (id : String) (done : Bool) (now : ℕ) (file : EventFile) (e : Option Entry)
        → (ended_in id done now file e).starts ≡ file.starts
    ended-starts id done now file none = refl
    ended-starts id done now file (some e) = refl

module _ (l : Limits) (now : ℕ) (id d : String) (file : EventFile) where
  -- the run was let through: there was room for it under both budgets
  unfoldable pub Accepted : Type 0
  Accepted =
      (blocks l now (entry_of id (retained_events l now file)) ≡ false)
      × (leb (device_limit l) (count_if (on_device d) (retained_starts l now file)) ≡ false)
      × (leb (fabric_limit l) (length (retained_starts l now file)) ≡ false)
      × (admit_event_run l now id d file ≡ written (with_run l now id d file))

  pub admit_event_run-cases :
      ((s : Scope) × (admit_event_run l now id d file ≡ refused_for s)) ⊎ Accepted
  unfolding admit_event_run Accepted
  admit_event_run-cases =
      elim (Bool-cases (blocks l now (entry_of id (retained_events l now file)))) [
        | inl b ↦ inl (event_idempotency, ground arith)
        | inr b ↦
            elim (Bool-cases
              (leb (device_limit l) (count_if (on_device d) (retained_starts l now file)))) [
                | inl room ↦ inl (event_device, ground arith)
                | inr room ↦
                    elim (Bool-cases (leb (fabric_limit l) (length (retained_starts l now file)))) [
                      | inl space ↦ inl (event_fabric, ground arith)
                      | inr space ↦ inr (b, room, space, ground arith)
                    ]
              ]
      ]

call-Kept :
    (l : Limits) (now : ℕ) (c : Call) (h : History)
    → Kept l now h.admissions h.file.starts
    → Kept l now (call l now c h).admissions (call l now c h).file.starts
unfolding call Accepted with_run
call-Kept l now (finish_run id done) h k =
    subst (Kept l now h.admissions) (sym (finish_event_run-starts id done now h.file)) k
call-Kept l now (admit_run id d) h k = elim (admit_event_run-cases l now id d h.file) [
  | inl (s, e) ↦ subst (KeptIn l now) (ap (after_admit id d now h) (sym e)) k
  | inr (b, room, space, e) ↦
      subst (KeptIn l now) (ap (after_admit id d now h) (sym e))
        (admit-Kept l now id d h.admissions h.file.starts k room space)
]

calls-Kept :
    (l : Limits) (now : ℕ) (cs : List (ℕ × Call)) (h : History)
    → KeptIn l now h
    → KeptIn l (calls l now cs h).1 (calls l now cs h).0
unfolding calls
calls-Kept l now [] h k = k
calls-Kept l now ((wait, c) ∷ cs) h k = calls-Kept l (now + wait) cs (call l (now + wait) c h) (
    call-Kept l (now + wait) c h
      (wait-Kept l now (now + wait) h.admissions h.file.starts (omega arith) k))

nothing-Kept : (l : Limits) (now : ℕ) → KeptIn l now nothing_yet
nothing-Kept l now = record {
  remembered = λ t q later. refl;
  per_device = λ d. omega arith;
  fabric = omega arith;
}

-- From an empty file on, whatever runs are asked for and finished at whatever times: at the time of
-- the last call, the runs that were let through within the window are at most the device's limit
-- for each device, and at most the fabric's limit in all.
pub calls-within_budget :
    (l : Limits) (start : ℕ) (cs : List (ℕ × Call)) (d : String)
    → (count_if
          (recent_and l.window (calls l start cs nothing_yet).1 (on_device d))
          (calls l start cs nothing_yet).0.admissions
        ≤ device_limit l)
      × (length (
            keep
              (recent_start l.window (calls l start cs nothing_yet).1)
              (calls l start cs nothing_yet).0.admissions)
          ≤ fabric_limit l)
calls-within_budget l start cs d =
    let k = calls-Kept l start cs nothing_yet (nothing-Kept l start) in
    let now = (calls l start cs nothing_yet).1 in
    let h = (calls l start cs nothing_yet).0 in
    let same = k.remembered now (on_device d) (omega arith) in
    let total = k.remembered now every (omega arith) in
    let counts = count-every l.window now h.admissions in
    let per = k.per_device d in let fab = k.fabric in (omega arith, omega arith)

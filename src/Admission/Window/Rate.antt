-- ===== src/Admission/Window/Rate.antt =====
-- admission.py: a budget file lets through at most its limit within any window.
use ai_ops.Prelude.{
  ℕ, ◌+◌, ◌≤◌, ◌≡◌, refl, sym, true, false, none, some, List, [], ◌∷◌, leb, if◌then◌else◌, keep,
  length, count_if, count_if-append, length-keep, arith, Bool-cases, inl, inr, subst,
}
use ai_ops.Admission.Window.{
  Stamps, in_window, stamped, check_and_record_window, Tries, answered, attempts,
}

count-keep_later :
    (window now t : ℕ) (file : Stamps)
    → now ≤ t
    → count_if (in_window window t) (keep (in_window window now) file)
      ≡ count_if (in_window window t) file
count-keep_later window now t [] h = refl
count-keep_later window now t (none ∷ file) h = ground (arith, count-keep_later window now t file h)
count-keep_later window now t (some s ∷ file) h =
    ground (arith, count-keep_later window now t file h)

count-in_window-later :
    (window now t : ℕ) (file : Stamps)
    → now ≤ t
    → count_if (in_window window t) file ≤ count_if (in_window window now) file
count-in_window-later window now t [] h = omega arith
count-in_window-later window now t (none ∷ file) h =
    ground (arith, count-in_window-later window now t file h)
count-in_window-later window now t (some s ∷ file) h =
    ground (arith, count-in_window-later window now t file h)

record InRate (limit window : ℕ) (t : Tries) : Type 0 where
  remembered :
      (u : ℕ)
      → t.at ≤ u
      → count_if (in_window window u) t.granted ≡ count_if (in_window window u) t.file
  room : count_if (in_window window t.at) t.file ≤ limit

module _ (limit window now : ℕ) (t : Tries) (r : InRate limit window t) (later : t.at ≤ now) where
  refused-InRate : InRate limit window (answered now t (false, t.file))
  refused-InRate = record {
    remembered = λ u h. r.remembered u (omega arith);
    room =
        (let fewer = count-in_window-later window t.at now t.file later in
          let before = r.room in omega arith);
  }

  stamped-InRate :
      leb limit (length (keep (in_window window now) t.file)) ≡ false
      → InRate limit window (answered now t (true, stamped window now t.file))
  stamped-InRate free = record {
    remembered = λ u h.
        (let a = count_if-append (in_window window u) t.granted (some now ∷ []) in
          let b =
            count_if-append (in_window window u) (keep (in_window window now) t.file)
              (some now ∷ []) in
          let c = count-keep_later window now u t.file h in
          let e = r.remembered u (omega arith) in omega arith);
    room =
        (let a =
            count_if-append (in_window window now) (keep (in_window window now) t.file)
              (some now ∷ []) in
          let b = count-keep_later window now now t.file (omega arith) in
          let c = length-keep (in_window window now) t.file in ground arith);
  }

  check-InRate :
      InRate limit window (answered now t (check_and_record_window limit window now t.file))
  unfolding check_and_record_window
  check-InRate = elim (Bool-cases (leb limit (length (keep (in_window window now) t.file)))) [
    | inl full ↦
        subst
          (λ b.
            InRate limit window
              (answered now t (if b then (false, t.file) else (true, stamped window now t.file))))
          (sym full) refused-InRate
    | inr free ↦
        subst
          (λ b.
            InRate limit window
              (answered now t (if b then (false, t.file) else (true, stamped window now t.file))))
          (sym free) (stamped-InRate free)
  ]

attempts-InRate :
    (limit window : ℕ) (waits : List ℕ) (t : Tries)
    → InRate limit window t
    → InRate limit window (attempts limit window waits t)
unfolding attempts
attempts-InRate limit window [] t r = r
attempts-InRate limit window (wait ∷ waits) t r =
    attempts-InRate limit window waits _ (check-InRate limit window (t.at + wait) t r (omega arith))

abbrev pub no_tries : ℕ → Tries
no_tries start = record { file = []; granted = []; at = start }

-- Of any attempts on one budget file that starts empty, at whatever times, those that were let
-- through within the window before the last attempt are at most the limit.
pub attempts-le-limit :
    (limit window start : ℕ) (waits : List ℕ)
    → count_if
        (in_window window (attempts limit window waits (no_tries start)).at)
        (attempts limit window waits (no_tries start)).granted
      ≤ limit
attempts-le-limit limit window start waits =
    let r =
      attempts-InRate limit window waits (no_tries start)
        (record { remembered = λ u h. refl; room = omega arith }) in
    let t = attempts limit window waits (no_tries start) in
    let same = r.remembered t.at (omega arith) in let full = r.room in omega arith

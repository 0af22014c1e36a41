-- ===== src/Logs/Episodes/Total.antt =====
-- Sorted timestamps that are dates: the time between two never wraps round the year, and never
-- fails.
use ai_ops.Prelude.{
  ℕ, zero, suc, ◌+◌, ◌*◌, ◌-◌, ◌≤◌, ◌<◌, ◌≡◌, ◌⊎◌, inl, inr, refl, sym, ap, subst, Bool, true,
  false, List, [], ◌∷◌, ◌++◌, String, All, arith, ltb, Bool-cases, some,
}
use ai_ops.Logs.{LogRecord}
use ai_ops.Logs.Clock.{
  DeviceTimestamp, is_before, lex_lt, is_date, days_before, days_in_month, since_new_year,
  seconds_between,
}
use ai_ops.Logs.Episodes.{
  Timed, Episode, EpisodeSet, episode_set, insert, EpisodeJoin, group, grouped, finish_episode,
  build_episodes, sort, timed, prepend,
}
use ai_ops.Logs.Episodes.Order.{IsSorted, sort-IsSorted, insert-after, insert-before}
use ai_ops.Logs.Episodes.Gaps.{link-cases, link-eq-some}

-- a month ends before each later one begins
days_before-le :
    (leap : Bool) (m k : ℕ) → m < k → days_before leap m + days_in_month leap m ≤ days_before leap k
days_before-le leap m zero h = absurd (omega arith)
days_before-le leap m (suc k) h =
    let step : days_before leap (suc k) ≡ days_before leap k + days_in_month leap k =
      unfold days_before in refl in
    elim (Bool-cases (ltb m k)) [
      | inl e ↦ omega (arith, days_before-le leap m k (ground arith))
      | inr e ↦
          let same : m ≡ k = ground arith in
          omega (arith, ap (days_before leap) same, ap (days_in_month leap) same)
    ]

-- the numbers of a date of the leap year are in their ranges
record InRange (t : DeviceTimestamp) : Type 0 where
  day_low : 1 ≤ t.day
  day_high : t.day ≤ days_in_month true t.month
  hour_high : t.hour < 24
  minute_high : t.minute < 60
  second_high : t.second < 60
  ms_high : t.ms < 1000

is_date-InRange : (t : DeviceTimestamp) → is_date true t ≡ true → InRange t
unfolding is_date
is_date-InRange t h = record {
  day_low = ground arith;
  day_high = ground arith;
  hour_high = ground arith;
  minute_high = ground arith;
  second_high = ground arith;
  ms_high = ground arith;
}

lex_lt-cases :
    (b a : ℕ) (bs tail : List ℕ)
    → lex_lt (b ∷ bs) (a ∷ tail) ≡ false
    → (a < b) ⊎ ((a ≡ b) × (lex_lt bs tail ≡ false))
unfolding lex_lt
lex_lt-cases b a bs tail h = elim (Bool-cases (ltb a b)) [
  | inl e ↦ inl (ground arith)
  | inr e ↦ inr (ground arith, ground arith)
]

-- the clock of a day, in milliseconds
abbrev clock : DeviceTimestamp → ℕ
clock t = ((t.hour * 60 + t.minute) * 60 + 0) * 1000 + t.second * 1000 + t.ms

abbrev clock_fields : DeviceTimestamp → List ℕ
clock_fields t = t.hour ∷ t.minute ∷ t.second ∷ t.ms ∷ []

clock-le :
    (a b : DeviceTimestamp)
    → InRange a
    → lex_lt (clock_fields b) (clock_fields a) ≡ false
    → clock a ≤ clock b
clock-le a b r h =
    let m = r.minute_high in
    let s = r.second_high in
    let f = r.ms_high in
    elim (lex_lt-cases b.hour a.hour _ _ h) [
      | inl e ↦ omega arith
      | inr (e, h1) ↦ elim (lex_lt-cases b.minute a.minute _ _ h1) [
        | inl e1 ↦ omega arith
        | inr (e1, h2) ↦ elim (lex_lt-cases b.second a.second _ _ h2) [
          | inl e2 ↦ omega arith
          | inr (e2, h3) ↦ elim (lex_lt-cases b.ms a.ms _ _ h3) [
            | inl e3 ↦ omega arith
            | inr (e3, h4) ↦ omega arith
          ]
        ]
      ]
    ]

-- dates in the order of their numbers are in the order of time
since_new_year-le :
    (a b : DeviceTimestamp)
    → is_date true a ≡ true
    → is_date true b ≡ true
    → is_before b a ≡ false
    → since_new_year true a ≤ since_new_year true b
unfolding since_new_year is_before
since_new_year-le a b da db h =
    let ra = is_date-InRange a da in
    let rb = is_date-InRange b db in
    let lo = rb.day_low in
    let hi = ra.day_high in
    let la = ra.day_low in
    let hour = ra.hour_high in
    let m = ra.minute_high in
    let s = ra.second_high in
    let f = ra.ms_high in
    elim (lex_lt-cases b.month a.month (b.day ∷ clock_fields b) (a.day ∷ clock_fields a) h) [
      | inl e ↦ omega (arith, days_before-le true a.month b.month e)
      | inr (e, h1) ↦ elim (lex_lt-cases b.day a.day (clock_fields b) (clock_fields a) h1) [
        | inl e1 ↦ omega (arith, ap (days_before true) e)
        | inr (e1, h2) ↦ omega (arith, ap (days_before true) e, clock-le a b ra h2)
      ]
    ]

seconds_between-eq :
    (a b : DeviceTimestamp)
    → is_date true a ≡ true
    → is_date true b ≡ true
    → is_before b a ≡ false
    → seconds_between a b ≡ some (since_new_year true b - since_new_year true a)
unfolding seconds_between
seconds_between-eq a b da db h = let le = since_new_year-le a b da db h in ground arith

abbrev pub HasDate : Timed → Type 0
HasDate t = is_date true t.0 ≡ true

group_total :
    (device : String) (n : ℕ) (front : List Timed) (joins : List EpisodeJoin) (prev : Timed)
    (rest : List Timed)
    → IsSorted (prev ∷ rest)
    → All HasDate (prev ∷ rest)
    → (es : List Episode) × (group device n front joins prev rest ≡ some es)
unfolding group
group_total device n front joins prev [] s d = (_, refl)
group_total device n front joins prev (x ∷ rest) s d = elim (link-cases prev x) [
  | inl e ↦
      absurd (ground (arith, link-eq-some prev x _ (seconds_between-eq prev.0 x.0 d.0 d.1.0 s.0)))
  | inr (inl (j, e, here)) ↦
      let (es, built) =
        group_total device n (front ++ prev ∷ []) (joins ++ j ∷ []) x rest s.1 d.1 in
      (es, rw (e, group) built)
  | inr (inr (j, e, apart)) ↦
      let (es, built) = group_total device (suc n) [] [] x rest s.1 d.1 in
      (
        finish_episode device (front ++ prev ∷ []) joins n ∷ es,
        rw (e, group) (ap (prepend (finish_episode device (front ++ prev ∷ []) joins n)) built),
      )
]

insert-All : (x : Timed) (ts : List Timed) → HasDate x → All HasDate ts → All HasDate (insert x ts)
unfolding insert
insert-All x [] h d = (h, tt)
insert-All x (y ∷ ts) h d = elim (Bool-cases (is_before y.0 x.0)) [
  | inl e ↦ subst (All HasDate) (sym (insert-after x y ts e)) (d.0, insert-All x ts h d.1)
  | inr e ↦ subst (All HasDate) (sym (insert-before x y ts e)) (h, d)
]

sort-All : (ts : List Timed) → All HasDate ts → All HasDate (sort ts)
unfolding sort
sort-All [] d = tt
sort-All (t ∷ ts) d = insert-All t (sort ts) d.0 (sort-All ts d.1)

grouped_total :
    (device : String) (ts : List Timed)
    → IsSorted ts
    → All HasDate ts
    → (es : List Episode) × (grouped device ts ≡ some es)
unfolding grouped
grouped_total device [] s d = ([], refl)
grouped_total device (t ∷ ts) s d = group_total device 1 [] [] t ts s d

-- Where every timestamp that reads is the date of a leap year, the episodes are always built: the
-- time between two records of the sorted list never fails.
pub build_episodes_total :
    (records : List LogRecord) (device : String)
    → All HasDate (timed records)
    → (set : EpisodeSet) × (build_episodes records device ≡ some set)
unfolding build_episodes
build_episodes_total records device d =
    let (es, built) =
      grouped_total device (sort (timed records)) (sort-IsSorted (timed records))
        (sort-All (timed records) d) in
    (episode_set records device es, rw (built, build_episodes) refl)

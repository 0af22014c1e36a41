-- ===== src/Logs/Clock.antt =====
-- log_window.py: a device's timestamp, which has no year, and the time between two of them, in
-- milliseconds. Python's `datetime` raises where there is no such date; this is `none`.
use ai_ops.Prelude.{
  ℕ, zero, suc, ◌+◌, ◌*◌, ◌-◌, String, Bool, true, false, not, ◌&&◌, ◌||◌, Option, none, some, List,
  [], ◌∷◌, leb, ltb, ◌==◌, str_eq, is_space, is_empty, strip, without_prefix, if◌then◌else◌,
}
use ai_ops.Logs.Text.{◌>>=◌, run, spaces, digits, span, is_letter}

pub record DeviceTimestamp : Type 0 where
  pub month : ℕ
  pub day : ℕ
  pub hour : ℕ
  pub minute : ℕ
  pub second : ℕ
  pub ms : ℕ

-- `_MONTH_NUMBER.get(name)`
unfoldable pub month_number : String → Option ℕ
month_number name =
    if str_eq name "Jan"
    then some 1
    else if str_eq name "Feb"
    then some 2
    else if str_eq name "Mar"
    then some 3
    else if str_eq name "Apr"
    then some 4
    else if str_eq name "May"
    then some 5
    else if str_eq name "Jun"
    then some 6
    else if str_eq name "Jul"
    then some 7
    else if str_eq name "Aug"
    then some 8
    else if str_eq name "Sep"
    then some 9
    else if str_eq name "Oct"
    then some 10
    else if str_eq name "Nov"
    then some 11
    else if str_eq name "Dec"
    then some 12
    else none

-- `\s+\S+$`: the time zone, which nothing follows
is_zone : String → Bool
unfolding spaces span is_space
is_zone s = elim (spaces s) [
  | none ↦ false
  | some rest ↦
      let (zone, back) = span (λ c. not (is_space c)) rest in not (is_empty zone) && is_empty back
]

unfoldable pub parse_device_timestamp : String → Option DeviceTimestamp
unfolding run spaces digits without_prefix is_zone month_number strip
parse_device_timestamp text = do
  (name, s1) ← run is_letter 3 3 (strip text)
  s2 ← spaces s1
  (day, s3) ← digits 1 2 s2
  s4 ← spaces s3
  (hour, s5) ← digits 2 2 s4
  s6 ← without_prefix ":" s5
  (minute, s7) ← digits 2 2 s6
  s8 ← without_prefix ":" s7
  (second, s9) ← digits 2 2 s8
  s10 ← without_prefix "." s9
  (ms, s11) ← digits 3 3 s10
  month ← (if is_zone s11 then month_number name else none)
  some record { month = month; day = day; hour = hour; minute = minute; second = second; ms = ms }

-- the days of a month in a leap year and in another, and the days before it
unfoldable pub days_in_month : Bool → ℕ → ℕ
days_in_month leap m =
    if m == 0
    then 0
    else if m == 2
    then (if leap then 29 else 28)
    else if m == 4 || m == 6 || m == 9 || m == 11
    then 30
    else 31

unfoldable pub days_before : Bool → ℕ → ℕ
unfolding days_in_month
days_before leap zero = 0
days_before leap (suc m) = days_before leap m + days_in_month leap m

-- whether `datetime(year, ...)` accepts the numbers
unfoldable pub is_date : Bool → DeviceTimestamp → Bool
unfolding days_in_month
is_date leap t =
    leb 1 t.month
    && leb t.month 12
    && leb 1 t.day
    && leb t.day (days_in_month leap t.month)
    && ltb t.hour 24
    && ltb t.minute 60
    && ltb t.second 60
    && ltb t.ms 1000

-- the milliseconds since the year began
unfoldable pub since_new_year : Bool → DeviceTimestamp → ℕ
unfolding days_before
since_new_year leap t =
    (((days_before leap t.month + (t.day - 1)) * 24 + t.hour) * 60 + t.minute) * 60000
    + t.second * 1000
    + t.ms

-- `hi.replace(year=anchor + 1)`, in milliseconds since the anchor year 2000 began
unfoldable pub a_year_later : DeviceTimestamp → Option ℕ
unfolding is_date since_new_year
a_year_later t = if is_date false t then some (366 * 86400000 + since_new_year false t) else none

unfoldable pub seconds_between : DeviceTimestamp → DeviceTimestamp → Option ℕ
unfolding is_date since_new_year a_year_later
seconds_between earlier later =
    if is_date true earlier && is_date true later
    then (let lo = since_new_year true earlier in
        let hi = since_new_year true later in
        if ltb hi lo
        then (elim (a_year_later later) [ none ↦ none | some t ↦ some (t - lo) ])
        else some (hi - lo))
    else none

-- the order of the tuples, and `is_before` for the strict one
abbrev fields : DeviceTimestamp → List ℕ
fields t = t.month ∷ t.day ∷ t.hour ∷ t.minute ∷ t.second ∷ t.ms ∷ []

unfoldable pub lex_lt : List ℕ → List ℕ → Bool
lex_lt [] [] = false
lex_lt [] (b ∷ bs) = true
lex_lt (a ∷ as_left) [] = false
lex_lt (a ∷ as_left) (b ∷ bs) = let rest = lex_lt as_left bs in if a == b then rest else ltb a b

unfoldable pub is_before : DeviceTimestamp → DeviceTimestamp → Bool
unfolding lex_lt
is_before a b = lex_lt (fields a) (fields b)

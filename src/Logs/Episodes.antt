-- ===== src/Logs/Episodes.antt =====
-- log_episodes.py: the records of one device in episodes. A gap is in milliseconds; a raised
-- `ValueError` of `seconds_between` is `none`. The coverage, which is passed through, is left out.
pub mod Order
pub mod Gaps
pub mod Total
use ai_ops.Prelude.{
  ℕ, suc, ◌+◌, ◌*◌, String, str_append, Bool, true, false, Option, none, some, List, [], ◌∷◌, ◌++◌,
  map, leb, ltb, ◌==◌, opt_str_eq, if◌then◌else◌, length, count_if, decimal,
}
use ai_ops.Logs.{LogRecord}
use ai_ops.Logs.Text.{interface_mention}
use ai_ops.Logs.Clock.{DeviceTimestamp, parse_device_timestamp, seconds_between, is_before}

pub record ProtocolTimer : Type 0 where
  pub protocol : String
  pub facility : String
  pub hold_seconds : ℕ

abbrev pub bgp_timer : ProtocolTimer
bgp_timer = record { protocol = "bgp"; facility = "ROUTING-BGP"; hold_seconds = 180 }

abbrev pub isis_timer : ProtocolTimer
isis_timer = record { protocol = "isis"; facility = "ROUTING-ISIS"; hold_seconds = 30 }

-- `_timer_for`, by the table `PROTOCOL_HOLD_TIMERS`
unfoldable pub timer_for : LogRecord → Option ProtocolTimer
timer_for r =
    if opt_str_eq r.facility (some "ROUTING-BGP")
    then some bgp_timer
    else if opt_str_eq r.facility (some "ROUTING-ISIS")
    then some isis_timer
    else none

-- why a bound: the timer of one of the two events, or the smallest of the table
pub data Reason : Type 0 where
  hold_timer smallest_timer : ProtocolTimer → Reason

abbrev longer : ProtocolTimer → ProtocolTimer → ProtocolTimer
longer a b = if ltb a.hold_seconds b.hold_seconds then b else a

-- `_pair_bound`
unfoldable pub pair_bound : LogRecord → LogRecord → ℕ × Reason
unfolding timer_for
pair_bound before after = elim (timer_for before) [
  | none ↦ elim (timer_for after) [
    | none ↦ (isis_timer.hold_seconds, smallest_timer isis_timer)
    | some b ↦ (b.hold_seconds, hold_timer b)
  ]
  | some a ↦ elim (timer_for after) [
    | none ↦ (a.hold_seconds, hold_timer a)
    | some b ↦ ((longer a b).hold_seconds, hold_timer (longer a b))
  ]
]

pub record EpisodeJoin : Type 0 where
  pub gap : ℕ
  pub bound_seconds : ℕ
  pub reason : Reason

pub record Episode : Type 0 where
  pub episode_id : String
  pub device : String
  pub subject : Option String
  pub start : String
  pub end : String
  pub records : List LogRecord
  pub joins : List EpisodeJoin

pub record EpisodeSet : Type 0 where
  pub episodes : List Episode
  pub device : String
  pub records_considered : ℕ
  pub records_unordered : ℕ

abbrev pub Timed : Type 0
Timed = DeviceTimestamp × LogRecord

-- `_subject_hint`
unfoldable pub subject_hint : List LogRecord → Option String
unfolding interface_mention
subject_hint [] = none
subject_hint (r ∷ rs) = elim (interface_mention r.text) [
  | none ↦ subject_hint rs
  | some name ↦ some name
]

-- `f"EP-{index:04d}"`
unfoldable pub episode_name : ℕ → String
unfolding decimal
episode_name n = str_append "EP-" (
    str_append
      (if ltb n 10 then "000" else if ltb n 100 then "00" else if ltb n 1000 then "0" else "")
      (decimal n))

abbrev pub first_time : List LogRecord → String
first_time [] = ""
first_time (r ∷ rs) = r.timestamp

abbrev pub last_time : List LogRecord → String
last_time [] = ""
last_time (r ∷ []) = r.timestamp
last_time (r ∷ s ∷ rs) = last_time (s ∷ rs)

abbrev pub records_of : List Timed → List LogRecord
records_of = map (λ (t : Timed). t.1)

unfoldable pub finish_episode : String → List Timed → List EpisodeJoin → ℕ → Episode
unfolding subject_hint episode_name
finish_episode device members joins index =
    let records = records_of members in
    record {
      episode_id = episode_name index;
      device = device;
      subject = subject_hint records;
      start = first_time records;
      end = last_time records;
      records = records;
      joins = joins;
    }

-- the records whose timestamp is read, in the order of the file
unfoldable pub timed : List LogRecord → List Timed
unfolding parse_device_timestamp
timed [] = []
timed (r ∷ rs) = elim (parse_device_timestamp r.timestamp) [
  | none ↦ timed rs
  | some t ↦ (t, r) ∷ timed rs
]

abbrev pub is_untimed : LogRecord → Bool
is_untimed r = elim (parse_device_timestamp r.timestamp) [ none ↦ true | some t ↦ false ]

unfoldable pub insert : Timed → List Timed → List Timed
insert x [] = x ∷ []
insert x (y ∷ ys) = let rest = insert x ys in if is_before y.0 x.0 then y ∷ rest else x ∷ y ∷ ys

-- `timed.sort(key=lambda pair: pair[0])`, which is stable
unfoldable pub sort : List Timed → List Timed
unfolding insert
sort [] = []
sort (x ∷ xs) = insert x (sort xs)

-- whether the next record joins the episode of the last one, and the join
unfoldable pub link : Timed → Timed → Option (Bool × EpisodeJoin)
unfolding seconds_between pair_bound
link before after = elim (seconds_between before.0 after.0) [
  | none ↦ none
  | some gap ↦ some (
    leb gap ((pair_bound before.1 after.1).0 * 1000),
    record {
      gap = gap;
      bound_seconds = (pair_bound before.1 after.1).0;
      reason = (pair_bound before.1 after.1).1;
    },
  )
]

abbrev pub prepend : Episode → Option (List Episode) → Option (List Episode)
prepend e none = none
prepend e (some es) = some (e ∷ es)

-- the loop: `current` is `front` and then `prev`, and `index` is `len(episodes) + 1`
unfoldable pub group :
    String → ℕ → List Timed → List EpisodeJoin → Timed → List Timed → Option (List Episode)
unfolding finish_episode link
group device index front joins prev [] =
    some (finish_episode device (front ++ prev ∷ []) joins index ∷ [])
group device index front joins prev (x ∷ rest) = elim (link prev x) [
  | none ↦ none
  | some (near, join) ↦ elim near [
    | true ↦ group device index (front ++ prev ∷ []) (joins ++ join ∷ []) x rest
    | false ↦
        prepend (finish_episode device (front ++ prev ∷ []) joins index)
          (group device (suc index) [] [] x rest)
  ]
]

unfoldable pub grouped : String → List Timed → Option (List Episode)
unfolding group
grouped device [] = some []
grouped device (x ∷ xs) = group device 1 [] [] x xs

abbrev pub episode_set : List LogRecord → String → List Episode → EpisodeSet
episode_set records device episodes = record {
  episodes = episodes;
  device = device;
  records_considered = length records;
  records_unordered = count_if is_untimed records;
}

unfoldable pub build_episodes : List LogRecord → String → Option EpisodeSet
unfolding grouped sort timed
build_episodes records device = elim (grouped device (sort (timed records))) [
  | none ↦ none
  | some episodes ↦ some (episode_set records device episodes)
]

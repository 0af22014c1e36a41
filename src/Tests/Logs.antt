-- ===== src/Tests/Logs.antt =====
-- A log window of one device, shaped and grouped into episodes.
use ai_ops.Prelude.{◌≡◌, refl, true, none, some, List, [], ◌∷◌, String, keep, any, All}
use ai_ops.Logs.{LogRecord, collector_noise, shape_window, dedupe, same_line}
use ai_ops.Logs.Shape.{IsDistinct, IsCounted, wanted, shape_window-records}
use ai_ops.Logs.Clock.{seconds_between, is_date}
use ai_ops.Logs.Episodes.{
  EpisodeSet, EpisodeJoin, build_episodes, finish_episode, episode_set, timed, hold_timer,
  bgp_timer,
}
use ai_ops.Logs.Episodes.Total.{HasDate, build_episodes_total}

abbrev line : String → String → String → LogRecord
line time facility text = record {
  timestamp = time;
  mnemonic = "M";
  text = text;
  facility = some facility;
}

abbrev down : LogRecord
down = line "Aug 19 10:00:00.000 UTC" "PKT_INFRA" "Interface Gi0/0, changed state to down"

abbrev bgp : LogRecord
bgp = line "Aug 19 10:02:34.000 UTC" "ROUTING-BGP" "neighbor 10.0.0.1 Down"

abbrev later : LogRecord
later = line "Aug 19 11:00:00.500 UTC" "PKT_INFRA" "Interface Gi0/1, changed state to down"

abbrev session : LogRecord
session = line "Aug 19 11:00:01.000 UTC" "SECURITY-SSHD_SYSLOG_PRX" "from 172.20.250.5 closed"

abbrev broken : LogRecord
broken = line "no time" "X" "y"

abbrev window : List LogRecord
window = later ∷ bgp ∷ broken ∷ down ∷ []

abbrev one_join : EpisodeJoin
one_join = record { gap = 154000; bound_seconds = 180; reason = hold_timer bgp_timer }

abbrev episodes : EpisodeSet
episodes = episode_set window "PE1" (
    finish_episode "PE1" (timed (down ∷ bgp ∷ [])) (one_join ∷ []) 1
    ∷ finish_episode "PE1" (timed (later ∷ [])) [] 2
    ∷ [])

window_dates : All HasDate (timed window)
unfolding timed is_date
window_dates = (refl, (refl, (refl, tt)))

build_episodes_total_example : (set : EpisodeSet) × (build_episodes window "PE1" ≡ some set)
build_episodes_total_example = build_episodes_total window "PE1" window_dates

abbrev noisy : List LogRecord
noisy = down ∷ session ∷ down ∷ bgp ∷ []

shape_window-records_example :
    ((shape_window collector_noise noisy (some "Interface") true).records
      ≡ keep (wanted collector_noise (some "Interface") true) (dedupe noisy))
    × IsDistinct (dedupe noisy)
    × All (λ r. any (same_line r) (dedupe noisy) ≡ true) noisy
    × IsCounted (shape_window collector_noise noisy (some "Interface") true)
shape_window-records_example = shape_window-records collector_noise noisy (some "Interface") true

shaped_one : (shape_window collector_noise noisy (some "Interface") true).records ≡ down ∷ []
unfolding shape_window
shaped_one = refl

-- across the end of the year no leap day can follow
leap_day_raises :
    seconds_between
      record { month = 12; day = 31; hour = 0; minute = 0; second = 0; ms = 0 }
      record { month = 2; day = 29; hour = 0; minute = 0; second = 0; ms = 0 }
    ≡ none
unfolding seconds_between
leap_day_raises = refl

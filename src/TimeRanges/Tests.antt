-- ===== src/TimeRanges/Tests.antt =====
-- time_ranges.go at concrete inputs.
use sourcegraph_testing_dnsc.Base.{
  Any, [], arith, codes, err, ok, pos, refl, time_syntax_error, true, ◌*◌, ◌++◌, ◌+◌, ◌↔◌, ◌∷◌, ◌≡◌,
}
use sourcegraph_testing_dnsc.TimeRanges.Parsing.{day_secs_from_str-format, two_digits}
use sourcegraph_testing_dnsc.TimeRanges.Matching.{Covers, day_of, match_weekly-Covers}
use sourcegraph_testing_dnsc.TimeRanges.{
  LocalTime, TimeRangeStr, WeeklyRanges, WeeklyRangesStr, day_second, day_secs_from_str, days,
  match_weekly, parse_time_range, parse_time_ranges, parse_weekly_ranges, time_range,
}

-- From nine in the evening to seven in the morning.
abbrev night : TimeRangeStr
night = record { After = codes "21:00"; Before = codes "7:00" }

abbrev sleep_on_sunday : WeeklyRangesStr
sleep_on_sunday = record {
  sun = night ∷ [];
  mon = [];
  tue = [];
  wed = [];
  thu = [];
  fri = [];
  sat = [];
}

abbrev parsed : WeeklyRanges
parsed = record {
  ranges =
      (record { after = pos 75600; before = pos 25200 } ∷ []) ∷ [] ∷ [] ∷ [] ∷ [] ∷ [] ∷ [] ∷ [];
}

parses : parse_weekly_ranges sleep_on_sunday ≡ ok parsed
unfolding parse_weekly_ranges parse_time_ranges parse_time_range day_secs_from_str time_range
parses = refl

abbrev sunday_night : LocalTime
sunday_night = record { weekday = 0; hour = 23; minute = 30 }

matches : match_weekly parsed sunday_night ≡ true
unfolding match_weekly
matches = refl

bad_hour : day_secs_from_str (codes "24:00") ≡ err time_syntax_error
unfolding day_secs_from_str
bad_hour = refl

day_secs_from_str-format_example :
    day_secs_from_str (two_digits 23 ++ b':' ∷ two_digits 5) ≡ ok ((23 * 60 + 5) * 60)
day_secs_from_str-format_example = day_secs_from_str-format 23 5 (omega arith) (omega arith)

seven : day_secs_from_str (codes "7:00") ≡ ok 25200
unfolding day_secs_from_str
seven = refl

match_weekly-Covers_example :
    (match_weekly parsed sunday_night ≡ true)
    ↔ Any (Covers (day_second sunday_night)) (day_of (days sleep_on_sunday) 0)
match_weekly-Covers_example =
    match_weekly-Covers sleep_on_sunday parsed sunday_night (omega arith) (omega arith) parses

-- ===== src/TimeRanges.antt =====
-- dnscrypt-proxy/time_ranges.go: the weekly time ranges of rules. Times are seconds of a day, and
-- the local time at which `Match` looks is an argument.
pub mod Parsing
pub mod Matching
mod Tests
use sourcegraph_testing_dnsc.Base.{
  Bool, Bytes, List, Option, Result, [], atoi, collect, err, false, get_elem?, if◌then◌else◌, le_ℤ,
  lt_ℤ, ltb, negsuc, none, ok, pos, some, split, time_syntax_error, ℕ, ℤ, ◌&&◌, ◌*◌, ◌+◌, ◌==◌,
  ◌||◌, ◌∷◌,
}

pub record TimeRange : Type 0 where
  pub after : ℤ
  pub before : ℤ

-- One list of ranges for each day, Sunday first.
pub record WeeklyRanges : Type 0 where
  pub ranges : List (List TimeRange)

pub record TimeRangeStr : Type 0 where
  pub After : Bytes
  pub Before : Bytes

pub record WeeklyRangesStr : Type 0 where
  pub sun : List TimeRangeStr
  pub mon : List TimeRangeStr
  pub tue : List TimeRangeStr
  pub wed : List TimeRangeStr
  pub thu : List TimeRangeStr
  pub fri : List TimeRangeStr
  pub sat : List TimeRangeStr

-- A number from 0 to `limit`: `none` is `err != nil || n < 0 || n > limit`.
abbrev bounded : ℕ → Option ℤ → Option ℕ
bounded limit none = none
bounded limit (some (negsuc n)) = none
bounded limit (some (pos n)) = if ltb limit n then none else some n

abbrev seconds : Option ℕ → Option ℕ → Result ℕ
seconds none minutes = err time_syntax_error
seconds (some hours) none = err time_syntax_error
seconds (some hours) (some minutes) = ok ((hours * 60 + minutes) * 60)

-- The two parts of a time expression.
day_secs_of : List Bytes → Result ℕ
day_secs_of (h ∷ m ∷ []) = seconds (bounded 23 (atoi h)) (bounded 59 (atoi m))
day_secs_of _ = err time_syntax_error

pub day_secs_from_str : Bytes → Result ℕ
unfolding day_secs_of
day_secs_from_str str = day_secs_of (split str b':')

-- Two equal times stand for the whole day.
pub time_range : ℕ → ℕ → TimeRange
time_range after before =
    if after == before
    then record { after = negsuc 0; before = pos 86402 }
    else record { after = pos after; before = pos before }

abbrev range_between : Result ℕ → Result ℕ → Result TimeRange
range_between (err e) before = err e
range_between (ok after) (err e) = err e
range_between (ok after) (ok before) = ok (time_range after before)

pub parse_time_range : TimeRangeStr → Result TimeRange
parse_time_range r = range_between (day_secs_from_str r.After) (day_secs_from_str r.Before)

-- The loop over the ranges, which stops at the first error.
pub parse_time_ranges : List TimeRangeStr → Result (List TimeRange)
parse_time_ranges rs = collect parse_time_range rs []

pub days : WeeklyRangesStr → List (List TimeRangeStr)
days w = w.sun ∷ w.mon ∷ w.tue ∷ w.wed ∷ w.thu ∷ w.fri ∷ w.sat ∷ []

pub parse_weekly_ranges : WeeklyRangesStr → Result WeeklyRanges
unfolding days
parse_weekly_ranges w = elim (collect parse_time_ranges (days w) []) [
  | err e ↦ err e
  | ok ranges ↦ ok (record { ranges = ranges })
]

-- The map of named ranges, in the order in which it is walked.
unfoldable pub parse_all_weekly_ranges :
    List (Bytes × WeeklyRangesStr) → Result (List (Bytes × WeeklyRanges))
parse_all_weekly_ranges [] = ok []
parse_all_weekly_ranges ((name, w) ∷ rest) =
    let others = parse_all_weekly_ranges rest in
    elim (parse_weekly_ranges w) [
      | err e ↦ err e
      | ok ranges ↦ elim others [ err e ↦ err e | ok m ↦ ok ((name, ranges) ∷ m) ]
    ]

-- The test of one range at the second `now` of the day.
pub in_range : ℕ → TimeRange → Bool
in_range now r =
    if lt_ℤ r.before r.after
    then le_ℤ r.after (pos now) || le_ℤ (pos now) r.before
    else le_ℤ r.after (pos now) && le_ℤ (pos now) r.before

-- The local time: the day of the week, the hour and the minute.
pub record LocalTime : Type 0 where
  pub weekday : ℕ
  pub hour : ℕ
  pub minute : ℕ

abbrev pub day_second : LocalTime → ℕ
day_second t = (t.hour * 60 + t.minute) * 60

-- The day's ranges; the day of the week is one of the seven.
abbrev pub ranges_of : WeeklyRanges → ℕ → List TimeRange
ranges_of w day = elim (get_elem? w.ranges day) [ none ↦ [] | some rs ↦ rs ]

pub match_ranges : ℕ → List TimeRange → Bool
match_ranges now [] = false
match_ranges now (r ∷ rs) = in_range now r || match_ranges now rs

unfoldable pub match_weekly : WeeklyRanges → LocalTime → Bool
unfolding match_ranges in_range
match_weekly w t = match_ranges (day_second t) (ranges_of w t.weekday)

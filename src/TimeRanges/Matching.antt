-- ===== src/TimeRanges/Matching.antt =====
-- time_ranges.go, `Match`: a range is an arc of the clock.
use mathlib.Core.Path.{subst}
use sourcegraph_testing_dnsc.Base.{
  AllResults, Any, Bool-cases, List, Result, Result-cases, [], arith, collect, collect_ok, err,
  get_elem?, inl, inr, none, ok, refl, some, suc, sym, true, zero, ℕ, ◌%◌, ◌+◌, ◌-◌, ◌<◌, ◌↔◌, ◌∷◌,
  ◌≡◌, ◌≢◌, ◌≤◌, ◌⊎◌,
}
use sourcegraph_testing_dnsc.TimeRanges.Parsing.{day_secs_from_str_bounds}
use sourcegraph_testing_dnsc.TimeRanges.{
  LocalTime, TimeRange, TimeRangeStr, WeeklyRanges, WeeklyRangesStr, day_second, day_secs_from_str,
  days, in_range, match_ranges, match_weekly, parse_time_range, parse_time_ranges,
  parse_weekly_ranges, range_between, ranges_of, time_range,
}

-- On a clock of 86400 seconds, `now` is met no later than `before` on the way from `after`.
abbrev pub OnArc : ℕ → ℕ → ℕ → Type 0
OnArc after before now = (now + 86400 - after) % 86400 ≤ (before + 86400 - after) % 86400

-- A range between two different times matches exactly the seconds on its arc, across midnight too.
pub in_range-OnArc :
    (after before now : ℕ)
    → after < 86400
    → before < 86400
    → now < 86400
    → after ≢ before
    → (in_range now (time_range after before) ≡ true) ↔ OnArc after before now
unfolding in_range time_range
in_range-OnArc after before now a b n ne = (λ h. ground arith, λ h. ground arith)

-- A range between two equal times matches at every second.
pub in_range_whole : (time now : ℕ) → now < 86400 → in_range now (time_range time time) ≡ true
unfolding in_range time_range
in_range_whole time now h = ground arith

-- The times of a range as it is written cover `now`.
pub record Covers (now : ℕ) (r : TimeRangeStr) : Type 0 where
  pub start : ℕ
  pub end : ℕ
  pub starts : day_secs_from_str r.After ≡ ok start
  pub ends : day_secs_from_str r.Before ≡ ok end
  pub on_arc : (start ≡ end) ⊎ OnArc start end now

range_between_ok :
    (o p : Result ℕ) (t : TimeRange)
    → range_between o p ≡ ok t
    → (a b : ℕ) × (o ≡ ok a) × (p ≡ ok b) × (time_range a b ≡ t)
range_between_ok (err e) p t h = cc
range_between_ok (ok a) (err e) t h = cc
range_between_ok (ok a) (ok b) t h = (a, b, refl, refl, cc)

in_range_iff :
    (a b now : ℕ)
    → a < 86400
    → b < 86400
    → now < 86400
    → (in_range now (time_range a b) ≡ true) ↔ ((a ≡ b) ⊎ OnArc a b now)
unfolding in_range time_range
in_range_iff a b now ha hb hn = (λ h. ground arith, λ h. ground arith)

range_between-Covers :
    (now : ℕ) (r : TimeRangeStr) (t : TimeRange)
    → now < 86400
    → parse_time_range r ≡ ok t
    → (in_range now t ≡ true) ↔ Covers now r
unfolding parse_time_range
range_between-Covers now r t h e =
    let (a, b, ea, eb, et) =
      range_between_ok (day_secs_from_str r.After) (day_secs_from_str r.Before) t e in
    let ha : a < 86400 = omega (arith, day_secs_from_str_bounds r.After a ea) in
    let hb : b < 86400 = omega (arith, day_secs_from_str_bounds r.Before b eb) in
    let iff = in_range_iff a b now ha hb h in
    (
      λ k. record { start = a; end = b; starts = ea; ends = eb; on_arc = iff.0 (rw et k) },
      λ c.
          let sa : a ≡ c.start = cc (ea, c.starts) in
          let sb : b ≡ c.end = cc (eb, c.ends) in rw (← et) (iff.1 (rw (sa, sb) c.on_arc)),
    )

match_ranges-Covers :
    (now : ℕ) (rs : List TimeRangeStr) (ts : List TimeRange)
    → now < 86400
    → AllResults parse_time_range rs ts
    → (match_ranges now ts ≡ true) ↔ Any (Covers now) rs
unfolding match_ranges
match_ranges-Covers now [] [] h p = (λ e. cc, λ e. absurd e)
match_ranges-Covers now [] (t ∷ ts) h p = absurd p
match_ranges-Covers now (r ∷ rs) [] h p = absurd p
match_ranges-Covers now (r ∷ rs) (t ∷ ts) h p =
    let head = range_between-Covers now r t h p.0 in
    let tail = match_ranges-Covers now rs ts h p.1 in
    (
      λ e. elim (Bool-cases (in_range now t)) [
        | inl yes' ↦ inl (head.0 yes')
        | inr no' ↦ inr (tail.0 (ground arith))
      ],
      elim [ inl c ↦ rw (head.1 c) | inr cs ↦ ground (arith, tail.1 cs) ],
    )

-- Parsed ranges match exactly at the seconds that some range covers as it is written.
pub parse_time_ranges-Covers :
    (now : ℕ) (rs : List TimeRangeStr) (ts : List TimeRange)
    → now < 86400
    → parse_time_ranges rs ≡ ok ts
    → (match_ranges now ts ≡ true) ↔ Any (Covers now) rs
unfolding parse_time_ranges
parse_time_ranges-Covers now rs ts h e =
    let (ys, same, all) = collect_ok parse_time_range rs [] ts e in
    rw same (match_ranges-Covers now rs ys h all)

pub day_of : List (List TimeRangeStr) → ℕ → List TimeRangeStr
day_of ds day = elim (get_elem? ds day) [ none ↦ [] | some rs ↦ rs ]

-- Each day's ranges are those of its strings; a day that is not there has none.
days-ok :
    (ds : List (List TimeRangeStr)) (ts : List (List TimeRange)) (day : ℕ)
    → AllResults parse_time_ranges ds ts
    → parse_time_ranges (day_of ds day) ≡ ok (ranges_of (record { ranges = ts }) day)
unfolding day_of
days-ok [] [] day p = unfold parse_time_ranges in refl
days-ok [] (t ∷ ts) day p = absurd p
days-ok (d ∷ ds) [] day p = absurd p
days-ok (d ∷ ds) (t ∷ ts) zero p = p.0
days-ok (d ∷ ds) (t ∷ ts) (suc day) p = days-ok ds ts day p.1

parse_weekly_ranges_ok :
    (w : WeeklyRangesStr) (ranges : WeeklyRanges)
    → parse_weekly_ranges w ≡ ok ranges
    → collect parse_time_ranges (days w) [] ≡ ok ranges.ranges
unfolding parse_weekly_ranges
parse_weekly_ranges_ok w ranges e = elim (Result-cases (collect parse_time_ranges (days w) [])) [
  | inl (zs, c) ↦
      (let same : ok (record { ranges = zs }) ≡ ok ranges = rw (c, parse_weekly_ranges) at e in cc)
  | inr (x, c) ↦ absurd (let no' : err x ≡ ok ranges = rw (c, parse_weekly_ranges) at e in cc)
]

-- A week's schedule that was parsed matches at a local time exactly if some range of that day
-- covers its minute, as the ranges are written.
pub match_weekly-Covers :
    (w : WeeklyRangesStr) (ranges : WeeklyRanges) (t : LocalTime)
    → t.hour < 24
    → t.minute < 60
    → parse_weekly_ranges w ≡ ok ranges
    → (match_weekly ranges t ≡ true) ↔ Any (Covers (day_second t)) (day_of (days w) t.weekday)
unfolding match_weekly
match_weekly-Covers w ranges t hh hm e =
    let (ys, same, all) =
      collect_ok parse_time_ranges (days w) [] ranges.ranges (parse_weekly_ranges_ok w ranges e) in
    let all' : AllResults parse_time_ranges (days w) ranges.ranges =
      subst (AllResults parse_time_ranges (days w)) (sym same) all in
    parse_time_ranges-Covers (day_second t) (day_of (days w) t.weekday) (ranges_of ranges t.weekday)
      (omega arith) (days-ok (days w) ranges.ranges t.weekday all')

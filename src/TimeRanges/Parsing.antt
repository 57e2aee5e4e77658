-- ===== src/TimeRanges/Parsing.antt =====
-- time_ranges.go, `daySecsFromStr` and `parseTimeRanges`.
use sourcegraph_testing_dnsc.Base.{
  Bytes, List, Option, [], arith, atoi, negsuc, none, ok, pos, refl, some, split, ℕ, ℤ, ◌%◌, ◌*◌,
  ◌++◌, ◌+◌, ◌/◌, ◌∷◌, ◌≡◌, ◌≤◌,
}
use sourcegraph_testing_dnsc.TimeRanges.{bounded, day_secs_from_str, day_secs_of, seconds}

pub two_digits : ℕ → Bytes
two_digits n = (48 + n / 10) ∷ (48 + n % 10) ∷ []

-- Every time of a day, written as two digits, a colon and two digits, is read as its seconds.
pub day_secs_from_str-format :
    (hours minutes : ℕ)
    → hours ≤ 23
    → minutes ≤ 59
    → day_secs_from_str (two_digits hours ++ b':' ∷ two_digits minutes)
      ≡ ok ((hours * 60 + minutes) * 60)
unfolding day_secs_from_str two_digits
day_secs_from_str-format hours minutes h m = ground arith

bounded-le : (limit n : ℕ) (o : Option ℤ) → bounded limit o ≡ some n → n ≤ limit
bounded-le limit n none e = cc
bounded-le limit n (some (negsuc k)) e = cc
bounded-le limit n (some (pos k)) e = ground arith

seconds_bounds :
    (o p : Option ℕ) (n : ℕ)
    → ((k : ℕ) → o ≡ some k → k ≤ 23)
    → ((k : ℕ) → p ≡ some k → k ≤ 59)
    → seconds o p ≡ ok n
    → (n ≤ 86340) × (n % 60 ≡ 0)
seconds_bounds none p n h m e = cc
seconds_bounds (some a) none n h m e = cc
seconds_bounds (some a) (some b) n h m e = ground (arith, h a refl, m b refl)

day_secs_of_bounds :
    (parts : List Bytes) (n : ℕ) → day_secs_of parts ≡ ok n → (n ≤ 86340) × (n % 60 ≡ 0)
unfolding day_secs_of
day_secs_of_bounds [] n e = cc
day_secs_of_bounds (h ∷ []) n e = cc
day_secs_of_bounds (h ∷ m ∷ x ∷ rest) n e = cc
day_secs_of_bounds (h ∷ m ∷ []) n e =
    seconds_bounds (bounded 23 (atoi h)) (bounded 59 (atoi m)) n (λ k. bounded-le 23 k (atoi h))
      (λ k. bounded-le 59 k (atoi m)) e

-- A time that is accepted is a whole minute of a day.
pub day_secs_from_str_bounds :
    (str : Bytes) (n : ℕ) → day_secs_from_str str ≡ ok n → (n ≤ 86340) × (n % 60 ≡ 0)
unfolding day_secs_from_str
day_secs_from_str_bounds str n e = day_secs_of_bounds (split str b':') n e

-- ===== src/Base/Decimal.antt =====
-- `strconv.Atoi`: a sign, then one or more digits, whose value fits an `int64`.
use Prim.Native.Nat.{ℕ, zero, suc, ◌+◌, ◌-◌, ◌*◌, ◌^◌, ◌≤◌}
use mathlib.Core.Path.{◌≡◌, refl}
use mathlib.Core.Bool.{Bool, true, ◌&&◌}
use mathlib.Core.List.{[], ◌∷◌}
use mathlib.Core.Option.{Option, none, some}
use native.Mathlib.Omega.{arith}
use sourcegraph_testing_dnsc.Base.Tests.{if◌then◌else◌, leb, ◌==◌, ◌>>=◌}
use sourcegraph_testing_dnsc.Base.Strings.{Bytes}
use sourcegraph_testing_dnsc.Base.Lists.{All}
use sourcegraph_testing_dnsc.Base.Int.{negsuc, pos, ℤ}

abbrev pub IsDigit : ℕ → Type 0
IsDigit c = (48 ≤ c) × (c ≤ 57)

abbrev pub is_digit : ℕ → Bool
is_digit c = leb 48 c && leb c 57

-- The number that digits spell behind `n`.
abbrev pub value : ℕ → Bytes → ℕ
value n [] = n
value n (c ∷ s) = value (n * 10 + (c - 48)) s

abbrev pub all_digits : Bytes → Bool
all_digits [] = true
all_digits (c ∷ s) = is_digit c && all_digits s

-- One or more digits.
abbrev pub parse_digits : Bytes → Option ℕ
parse_digits [] = none
parse_digits (c ∷ s) = if all_digits (c ∷ s) then some (value 0 (c ∷ s)) else none

abbrev pub negate : ℕ → ℤ
negate zero = pos 0
negate (suc n) = negsuc n

abbrev pub max_int : ℕ
max_int = 2 ^ 63 - 1

abbrev pub atoi : Bytes → Option ℤ
atoi [] = none
atoi (c ∷ s) =
    if c == b'-'
    then (do n ← parse_digits s; if leb n (max_int + 1) then some (negate n) else none)
    else if c == b'+'
    then (do n ← parse_digits s; if leb n max_int then some (pos n) else none)
    else (do n ← parse_digits (c ∷ s); if leb n max_int then some (pos n) else none)

pub All-all_digits : (s : Bytes) → All IsDigit s → all_digits s ≡ true
All-all_digits [] h = refl
All-all_digits (c ∷ s) h = ground (arith, All-all_digits s h.1)

-- A digit string whose value fits is read as its value.
pub atoi-digits :
    (c : ℕ) (s : Bytes)
    → All IsDigit (c ∷ s)
    → value 0 (c ∷ s) ≤ max_int
    → atoi (c ∷ s) ≡ some (pos (value 0 (c ∷ s)))
atoi-digits c s h fits = ground (arith, All-all_digits s h.1)

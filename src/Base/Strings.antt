-- ===== src/Base/Strings.antt =====
-- Go strings and byte slices as lists of numbers, and what the code uses of package `strings`.
use Prim.Native.Nat.{ℕ, suc, ◌+◌, ◌-◌, ◌<◌}
use Prim.Native.Char.{code}
use Prim.Native.String.{String}
use mathlib.Core.Path.{◌≡◌, refl}
use mathlib.Core.Bool.{Bool, true, false, ◌&&◌, ◌||◌}
use mathlib.Core.List.{List, [], ◌∷◌, ◌++◌, map, reverse}
use mathlib.Core.Option.{Option, none, some}
use native.Mathlib.Omega.{arith}
use sourcegraph_testing_dnsc.Base.Tests.{if◌then◌else◌, leb, ◌==◌}
use sourcegraph_testing_dnsc.Base.Lists.{drop, length, take}

abbrev pub Bytes : Type 0
Bytes = List ℕ

abbrev pub IsByte : ℕ → Type 0
IsByte b = b < 256

-- The bytes of an ASCII literal.
abbrev pub codes : String → Bytes
codes String.[] = []
codes (String.◌∷◌ c s) = code c ∷ codes s

-- `bytes.Equal`, and `==` on strings.
abbrev pub bytes_eq : Bytes → Bytes → Bool
bytes_eq [] [] = true
bytes_eq [] (y ∷ ys) = false
bytes_eq (x ∷ xs) [] = false
bytes_eq (x ∷ xs) (y ∷ ys) = x == y && bytes_eq xs ys

pub bytes_eq_refl : (s : Bytes) → bytes_eq s s ≡ true
bytes_eq_refl [] = refl
bytes_eq_refl (c ∷ s) = ground (arith, bytes_eq_refl s)

pub bytes_eq→eq : (s t : Bytes) → bytes_eq s t ≡ true → s ≡ t
bytes_eq→eq [] [] h = refl
bytes_eq→eq [] (y ∷ ys) h = cc
bytes_eq→eq (x ∷ xs) [] h = cc
bytes_eq→eq (x ∷ xs) (y ∷ ys) h = ground (arith, bytes_eq→eq xs ys)

-- `strings.HasPrefix(s, p)`, with the arguments in the order of the source.
abbrev pub has_prefix : Bytes → Bytes → Bool
has_prefix s [] = true
has_prefix [] (y ∷ ys) = false
has_prefix (x ∷ xs) (y ∷ ys) = x == y && has_prefix xs ys

pub has_prefix-append : (p s : Bytes) → has_prefix (p ++ s) p ≡ true
has_prefix-append [] s = refl
has_prefix-append (x ∷ xs) s = ground (arith, has_prefix-append xs s)

-- A prefix is what its length cuts off.
pub has_prefix→append : (s p : Bytes) → has_prefix s p ≡ true → p ++ drop (length p) s ≡ s
has_prefix→append s [] h = refl
has_prefix→append [] (y ∷ ys) h = cc
has_prefix→append (x ∷ xs) (y ∷ ys) h = ground (arith, has_prefix→append xs ys)

-- `strings.HasSuffix(s, p)`.
abbrev pub has_suffix : Bytes → Bytes → Bool
has_suffix s p = has_prefix (reverse s) (reverse p)

-- `strings.TrimPrefix` and `strings.TrimSuffix`.
abbrev pub trim_prefix : Bytes → Bytes → Bytes
trim_prefix s p = if has_prefix s p then drop (length p) s else s

abbrev pub trim_suffix : Bytes → Bytes → Bytes
trim_suffix s p = if has_suffix s p then take (length s - length p) s else s

-- `strings.Contains(s, p)`.
abbrev pub contains : Bytes → Bytes → Bool
contains [] p = has_prefix [] p
contains (c ∷ s) p = has_prefix (c ∷ s) p || contains s p

-- `strings.LastIndexByte(s, c)`: `none` is -1.
abbrev pub last_index_byte : Bytes → ℕ → Option ℕ
last_index_byte [] c = none
last_index_byte (x ∷ s) c = elim (last_index_byte s c) [
  | some i ↦ some (suc i)
  | none ↦ if x == c then some 0 else none
]

-- `strings.IndexFunc(s, f)`: `none` is -1.
abbrev pub index_func : Bytes → (ℕ → Bool) → Option ℕ
index_func [] f = none
index_func (x ∷ s) f =
    if f x then some 0 else elim (index_func s f) [ some i ↦ some (suc i) | none ↦ none ]

-- `unicode.IsSpace` on an ASCII byte.
abbrev pub is_space : ℕ → Bool
is_space c = (leb 9 c && leb c 13) || c == 32

abbrev pub trim_left : (ℕ → Bool) → Bytes → Bytes
trim_left f [] = []
trim_left f (c ∷ s) = if f c then trim_left f s else c ∷ s

-- `strings.TrimSpace`.
abbrev pub trim_space : Bytes → Bytes
trim_space s = reverse (trim_left is_space (reverse (trim_left is_space s)))

-- `strings.ToLower` on ASCII.
abbrev pub lower_byte : ℕ → ℕ
lower_byte c = if leb 65 c && leb c 90 then c + 32 else c

abbrev pub to_lower : Bytes → Bytes
to_lower = map lower_byte

-- `strings.Split(s, sep)` at one byte: one part more than there are separators.
abbrev pub split_at : ℕ → Bytes → Bytes → List Bytes
split_at sep cur [] = cur ∷ []
split_at sep cur (c ∷ s) = elim (c == sep) [
  | true ↦ cur ∷ split_at sep [] s
  | false ↦ split_at sep (cur ++ c ∷ []) s
]

abbrev pub split : Bytes → ℕ → List Bytes
split s sep = split_at sep [] s

-- ===== src/Base/Counts.antt =====
-- How many elements of a list pass a test: two lists with the same counts are the same bag.
use Prim.Native.Nat.{ℕ, zero, suc, ◌+◌}
use mathlib.Core.Path.{◌≡◌, refl}
use mathlib.Core.Bool.{Bool, true, false}
use mathlib.Core.List.{List, [], ◌∷◌, ◌++◌}
use mathlib.Core.Option.{some}
use native.Mathlib.Omega.{arith}
use sourcegraph_testing_dnsc.Base.Tests.{if◌then◌else◌, ◌==◌}
use sourcegraph_testing_dnsc.Base.Lists.{get_elem?, length, set}

module _ {ℓ} {A : Type ℓ} where
  abbrev pub one_if : (A → Bool) → A → ℕ
  one_if p x = if p x then 1 else 0

  abbrev pub count : (A → Bool) → List A → ℕ
  count p [] = 0
  count p (x ∷ xs) = one_if p x + count p xs

  pub count-append : (p : A → Bool) (xs ys : List A) → count p (xs ++ ys) ≡ count p xs + count p ys
  count-append p [] ys = omega arith
  count-append p (x ∷ xs) ys = omega (arith, count-append p xs ys)

  -- What is written over is counted out, what is written is counted in.
  pub count-set :
      (p : A → Bool) (xs : List A) (i : ℕ) (a b : A)
      → get_elem? xs i ≡ some a
      → count p (set xs i b) + one_if p a ≡ count p xs + one_if p b
  count-set p [] i a b h = cc
  count-set p (x ∷ xs) zero a b h = let e : x ≡ a = cc in rw e (omega arith)
  count-set p (x ∷ xs) (suc i) a b h = omega (arith, count-set p xs i a b h)

  pub get_elem?-set_other :
      (xs : List A) (i j : ℕ) (b : A) → (i == j) ≡ false → get_elem? (set xs i b) j ≡ get_elem? xs j
  get_elem?-set_other [] i j b h = refl
  get_elem?-set_other (x ∷ xs) zero zero b h = absurd (cc)
  get_elem?-set_other (x ∷ xs) zero (suc j) b h = refl
  get_elem?-set_other (x ∷ xs) (suc i) zero b h = refl
  get_elem?-set_other (x ∷ xs) (suc i) (suc j) b h = get_elem?-set_other xs i j b (ground arith)

  -- A place keeps its element if it is written with that very element, or another is written.
  pub get_elem?-set :
      (xs : List A) (i j : ℕ) (b : A) → get_elem? xs j ≡ some b → get_elem? (set xs i b) j ≡ some b
  get_elem?-set [] i j b h = h
  get_elem?-set (x ∷ xs) zero zero b h = refl
  get_elem?-set (x ∷ xs) zero (suc j) b h = h
  get_elem?-set (x ∷ xs) (suc i) zero b h = h
  get_elem?-set (x ∷ xs) (suc i) (suc j) b h = get_elem?-set xs i j b h

  pub get_elem?-set_self :
      (xs : List A) (i : ℕ) (a b : A) → get_elem? xs i ≡ some a → get_elem? (set xs i b) i ≡ some b
  get_elem?-set_self [] i a b h = cc
  get_elem?-set_self (x ∷ xs) zero a b h = refl
  get_elem?-set_self (x ∷ xs) (suc i) a b h = get_elem?-set_self xs i a b h

  pub count-swap :
      (p : A → Bool) (xs : List A) (i j : ℕ) (a b : A)
      → get_elem? xs i ≡ some a
      → get_elem? xs j ≡ some b
      → count p (set (set xs i b) j a) ≡ count p xs
  count-swap p xs i j a b hi hj =
      omega
        (arith, count-set p xs i a b hi, count-set p (set xs i b) j b a (get_elem?-set xs i j b hj))

module _ {ℓ} {A : Type ℓ} where
  -- The same elements, each as often.
  abbrev pub SameBag : List A → List A → Type ℓ
  SameBag xs ys = (p : A → Bool) → count p xs ≡ count p ys

module _ {ℓ} {A : Type ℓ} where
  pub count_all : (xs : List A) → count (λ x. true) xs ≡ length xs
  count_all [] = refl
  count_all (x ∷ xs) = omega (arith, count_all xs)

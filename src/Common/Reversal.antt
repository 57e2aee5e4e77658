-- ===== src/Common/Reversal.antt =====
-- common.go, `StringReverse`: the loop of swaps reverses its text.
use mathlib.Core.Path.{subst}
use sourcegraph_testing_dnsc.Base.{
  Bytes, List, [], ap, append-nil, append_assoc, arith, get_elem?, length, length-append, refl,
  reverse, reverse-append, reverse_cons, set, some, suc, sym, zero, ℕ, ◌++◌, ◌+◌, ◌-◌, ◌/◌, ◌∙◌,
  ◌∷◌, ◌≡◌,
}
use sourcegraph_testing_dnsc.Common.{reverse_loop, string_reverse, swap}

get_elem?-length : (f t : List ℕ) (c : ℕ) → get_elem? (f ++ c ∷ t) (length f) ≡ some c
get_elem?-length [] t c = refl
get_elem?-length (x ∷ f) t c = get_elem?-length f t c

set-length : (f t : List ℕ) (c d : ℕ) → set (f ++ c ∷ t) (length f) d ≡ f ++ d ∷ t
set-length [] t c d = refl
set-length (x ∷ f) t c d = ap (λ r. x ∷ r) (set-length f t c d)

-- A list of two or more elements is its first, a middle and its last.
unsnoc : (c : ℕ) (t : List ℕ) → (m : List ℕ) × (b : ℕ) × (c ∷ t ≡ m ++ b ∷ [])
unsnoc c [] = ([], c, refl)
unsnoc c (d ∷ t) = let (m, b, e) = unsnoc d t in (c ∷ m, b, ap (λ r. c ∷ r) e)

-- The two ends of a part in the middle change places.
swap_ends :
    (f m g : List ℕ) (a b : ℕ)
    → swap (f ++ a ∷ (m ++ b ∷ g)) (length f) (length f + length m + 1) ≡ f ++ b ∷ (m ++ a ∷ g)
unfolding swap
swap_ends f m g a b =
    let at : length f + length m + 1 ≡ length (f ++ a ∷ m) =
      omega (arith, length-append f (a ∷ m)) in
    let at' : length f + length m + 1 ≡ length (f ++ b ∷ m) =
      omega (arith, length-append f (b ∷ m)) in
    let outer : f ++ a ∷ (m ++ b ∷ g) ≡ (f ++ a ∷ m) ++ b ∷ g =
      sym (append_assoc f (a ∷ m) (b ∷ g)) in
    let outer' : f ++ b ∷ (m ++ b ∷ g) ≡ (f ++ b ∷ m) ++ b ∷ g =
      sym (append_assoc f (b ∷ m) (b ∷ g)) in
    let join : (f ++ b ∷ m) ++ a ∷ g ≡ f ++ b ∷ (m ++ a ∷ g) = append_assoc f (b ∷ m) (a ∷ g) in
    ground (
      arith,
      get_elem?-length f (m ++ b ∷ g) a,
      get_elem?-length (f ++ a ∷ m) g b,
      set-length f (m ++ b ∷ g) a b,
      set-length (f ++ b ∷ m) g b a,
    )

reverse-two_ends : (m : List ℕ) (a b : ℕ) → reverse (a ∷ (m ++ b ∷ [])) ≡ b ∷ (reverse m ++ a ∷ [])
reverse-two_ends m a b = rw (reverse_cons a (m ++ b ∷ []), reverse-append m (b ∷ []))

reverse_round :
    (rounds : ℕ) (f m g : List ℕ) (a b i j : ℕ)
    → i ≡ length f
    → j ≡ length f + length m + 1
    → reverse_loop (suc rounds) i j (f ++ ((a ∷ (m ++ b ∷ [])) ++ g))
      ≡ reverse_loop rounds (i + 1) (j - 1) ((f ++ b ∷ []) ++ (m ++ a ∷ g))
unfolding reverse_loop
reverse_round rounds f m g a b i j ei ej = ap (reverse_loop rounds (i + 1) (j - 1)) (
    rw (ei, ej, append_assoc m (b ∷ []) g, append_assoc f (b ∷ []) (m ++ a ∷ g))
      (swap_ends f m g a b))

reverse_done :
    (f m g : List ℕ) (a b : ℕ)
    → (f ++ b ∷ []) ++ (reverse m ++ a ∷ g) ≡ f ++ (reverse (a ∷ (m ++ b ∷ [])) ++ g)
reverse_done f m g a b =
    rw (reverse-two_ends m a b, append_assoc f (b ∷ []) (reverse m ++ a ∷ g))
      (ap (λ r. f ++ (b ∷ r)) (sym (append_assoc (reverse m) (a ∷ []) g)))

-- What is outside the part `m` is done; `rounds` swaps reverse it.
reverse_loop_lem :
    (rounds : ℕ) (f m g : List ℕ) (i j : ℕ)
    → rounds ≡ length m / 2
    → i ≡ length f
    → j ≡ length f + length m - 1
    → reverse_loop rounds i j (f ++ (m ++ g)) ≡ f ++ (reverse m ++ g)
unfolding reverse_loop
reverse_loop_lem zero f [] g i j r ei ej = refl
reverse_loop_lem zero f (a ∷ []) g i j r ei ej = refl
reverse_loop_lem zero f (a ∷ c ∷ t) g i j r ei ej = absurd (omega arith)
reverse_loop_lem (suc rounds) f [] g i j r ei ej = absurd (omega arith)
reverse_loop_lem (suc rounds) f (a ∷ []) g i j r ei ej = absurd (omega arith)
reverse_loop_lem (suc rounds) f (a ∷ c ∷ t) g i j r ei ej =
    let (m, b, e) = unsnoc c t in
    let n : length (c ∷ t) ≡ length m + 1 = omega (arith, ap length e, length-append m (b ∷ [])) in
    let ih =
      reverse_loop_lem rounds (f ++ b ∷ []) m (a ∷ g) (i + 1) (j - 1) (omega arith)
        (omega (arith, length-append f (b ∷ []))) (omega (arith, length-append f (b ∷ []))) in
    let ends : a ∷ c ∷ t ≡ a ∷ (m ++ b ∷ []) = ap (λ r. a ∷ r) e in
    subst (λ l. reverse_loop (suc rounds) i j (f ++ (l ++ g)) ≡ f ++ (reverse l ++ g)) (sym ends)
      (reverse_round rounds f m g a b i j ei (omega arith) ∙ ih ∙ reverse_done f m g a b)

-- The loop of swaps in `StringReverse` gives the text backwards.
pub string_reverse_lem : (s : Bytes) → string_reverse s ≡ reverse s
unfolding string_reverse
string_reverse_lem s =
    rw (append-nil s, append-nil (reverse s)) at
      (reverse_loop_lem (length s / 2) [] s [] 0 (length s - 1) refl refl (omega arith))

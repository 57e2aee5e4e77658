-- ===== src/Patterns/ListTrie.antt =====
-- A trie as a list of entries: the documented behaviour can be met.
use mathlib.Core.Path.{subst}
use sourcegraph_testing_dnsc.Base.{
  Bool, Bool-cases, Bytes, List, Option, [], arith, bytes_eq, bytes_eq_refl, bytes_eq→eq, false,
  has_prefix, if◌then◌else◌, inl, inr, length, ltb, none, refl, some, sym, true, ℕ, ◌∷◌, ◌≡◌, ◌≤◌,
}
use sourcegraph_testing_dnsc.Patterns.Tries.{IsTrie, Trie, member}

module _ {V : Type 0} where
  abbrev longer : Bool → Bytes → Option V → Option (Bytes × Option V) → Option (Bytes × Option V)
  longer false k v o = o
  longer true k v none = some (k, v)
  longer true k v (some (j, w)) = if ltb (length k) (length j) then some (j, w) else some (k, v)

  unfoldable pub longest_entry : List (Bytes × Option V) → Bytes → Option (Bytes × Option V)
  longest_entry [] q = none
  longest_entry ((k, v) ∷ t) q = longer (has_prefix q k) k v (longest_entry t q)

  unfoldable pub entry_keys : List (Bytes × Option V) → List Bytes
  entry_keys [] = []
  entry_keys ((k, v) ∷ t) = k ∷ entry_keys t

  longest_entry-some :
      (t : List (Bytes × Option V)) (q k : Bytes) (v : Option V)
      → longest_entry t q ≡ some (k, v)
      → (member k (entry_keys t) ≡ true) × (has_prefix q k ≡ true)
  unfolding longest_entry entry_keys
  longest_entry-some [] q k v e = cc
  longest_entry-some ((j, w) ∷ t) q k v e =
      ground (arith, longest_entry-some t q k v, bytes_eq_refl j)

  longest_entry-none :
      (t : List (Bytes × Option V)) (q j : Bytes)
      → longest_entry t q ≡ none
      → member j (entry_keys t) ≡ true
      → has_prefix q j ≡ false
  unfolding longest_entry entry_keys
  longest_entry-none [] q j e m = cc
  longest_entry-none ((i, w) ∷ t) q j e m =
      ground (arith, longest_entry-none t q j, bytes_eq→eq j i)

  abbrev AtLeast : ℕ → Option (Bytes × Option V) → Type 0
  AtLeast n none = ⊥
  AtLeast n (some (k, v)) = n ≤ length k

  longer_old :
      (b : Bool) (n : ℕ) (i : Bytes) (w : Option V) (o : Option (Bytes × Option V))
      → AtLeast n o
      → AtLeast n (longer b i w o)
  longer_old false n i w o h = h
  longer_old true n i w none h = absurd h
  longer_old true n i w (some (j, v)) h = elim (Bool-cases (ltb (length i) (length j))) [
    | inl e ↦ rw e h
    | inr e ↦ rw e (ground arith)
  ]

  longer_new :
      (b : Bool) (i : Bytes) (w : Option V) (o : Option (Bytes × Option V))
      → b ≡ true
      → AtLeast (length i) (longer b i w o)
  longer_new false i w o h = cc
  longer_new true i w none h = omega arith
  longer_new true i w (some (j, v)) h = elim (Bool-cases (ltb (length i) (length j))) [
    | inl e ↦ rw e (ground arith)
    | inr e ↦ rw e (omega arith)
  ]

  longest_entry-AtLeast :
      (t : List (Bytes × Option V)) (q j : Bytes)
      → member j (entry_keys t) ≡ true
      → has_prefix q j ≡ true
      → AtLeast (length j) (longest_entry t q)
  unfolding longest_entry entry_keys
  longest_entry-AtLeast [] q j m p = cc
  longest_entry-AtLeast ((i, w) ∷ t) q j m p = elim (Bool-cases (bytes_eq j i)) [
    | inl e ↦
        subst (λ x. AtLeast (length x) (longer (has_prefix q i) i w (longest_entry t q)))
          (sym (bytes_eq→eq j i e))
          (longer_new (has_prefix q i) i w _ (rw (bytes_eq→eq j i e) at p))
    | inr e ↦
        longer_old (has_prefix q i) (length j) i w _ (longest_entry-AtLeast t q j (rw e at m) p)
  ]

  longest_entry-longest :
      (t : List (Bytes × Option V)) (q k j : Bytes) (v : Option V)
      → longest_entry t q ≡ some (k, v)
      → member j (entry_keys t) ≡ true
      → has_prefix q j ≡ true
      → length j ≤ length k
  longest_entry-longest t q k j v e m p =
      subst (AtLeast (length j)) e (longest_entry-AtLeast t q j m p)

abbrev pub list_trie : {V : Type 0} → Trie V
list_trie {V} = record {
  Tree = List (Bytes × Option V);
  empty = [];
  insert = λ k v t. (k, v) ∷ t;
  longest_prefix = longest_entry;
  keys = entry_keys;
}

pub list_trie-IsTrie : {V : Type 0} → IsTrie (list_trie {V = V})
unfolding longest_entry entry_keys
list_trie-IsTrie = record {
  keys-empty = λ k. refl;
  keys-insert = λ k j v s. refl;
  found = longest_entry-some;
  longest = longest_entry-longest;
  absent = longest_entry-none;
}

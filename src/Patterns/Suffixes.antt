-- ===== src/Patterns/Suffixes.antt =====
-- pattern_matcher.go, the suffix rules of `Eval`: a rule is for a domain and the names below it.
use mathlib.Core.Path.{subst}
use sourcegraph_testing_dnsc.Patterns.Tries.{IsTrie, Trie, member}
use sourcegraph_testing_dnsc.Base.{
  Bool, Bool-cases, Bytes, Option, [], ap, append-nil, append_assoc, arith, drop, has_prefix,
  has_prefix-append, inl, inr, is_some, last_index_byte, none, refl, reverse, reverse-append,
  reverse-reverse, reverse_cons, some, suc, sym, take, true, zero, ℕ, ◌++◌, ◌∙◌, ◌∷◌, ◌≡◌, ◌⊎◌,
}
use sourcegraph_testing_dnsc.Patterns.{
  at_boundary, parent_found, parent_suffix, suffix_found, suffix_match,
}

-- The name is the domain, or ends in a dot and the domain.
abbrev pub Covers : Bytes → Bytes → Type 0
Covers domain name = (name ≡ domain) ⊎ ((labels : Bytes) × (name ≡ labels ++ b'.' ∷ domain))

-- The same of the reversed texts.
abbrev pub CoversBack : Bytes → Bytes → Type 0
CoversBack m r = (r ≡ m) ⊎ ((rest : Bytes) × (r ≡ m ++ b'.' ∷ rest))

reverse_dot : (m rest : Bytes) → reverse (m ++ b'.' ∷ rest) ≡ reverse rest ++ b'.' ∷ reverse m
reverse_dot m rest =
    rw (reverse-append m (b'.' ∷ rest), reverse_cons b'.' rest)
      (append_assoc (reverse rest) (b'.' ∷ []) (reverse m))

pub CoversBack→Covers : (m name : Bytes) → CoversBack m (reverse name) → Covers (reverse m) name
CoversBack→Covers m name (inl e) = inl (sym (reverse-reverse name) ∙ ap reverse e)
CoversBack→Covers m name (inr (rest, e)) =
    inr (reverse rest, sym (reverse-reverse name) ∙ ap reverse e ∙ reverse_dot m rest)

pub Covers→CoversBack :
    (domain name : Bytes) → Covers domain name → CoversBack (reverse domain) (reverse name)
Covers→CoversBack domain name (inl e) = inl (ap reverse e)
Covers→CoversBack domain name (inr (labels, e)) =
    inr (reverse labels, ap reverse e ∙ reverse_dot' labels domain)
  where
    reverse_dot' : (a b : Bytes) → reverse (a ++ b'.' ∷ b) ≡ reverse b ++ b'.' ∷ reverse a
    reverse_dot' a b = reverse_dot a b

at_boundary-cons : (x y : ℕ) (m r : Bytes) → at_boundary (x ∷ m) (y ∷ r) ≡ at_boundary m r
at_boundary-cons x y m r = ground arith

boundary-CoversBack :
    (m r : Bytes) → has_prefix r m ≡ true → at_boundary m r ≡ true → CoversBack m r
boundary-CoversBack [] [] p b = inl refl
boundary-CoversBack [] (c ∷ r) p b = inr (r, ground arith)
boundary-CoversBack (x ∷ m) [] p b = cc
boundary-CoversBack (x ∷ m) (y ∷ r) p b =
    elim (boundary-CoversBack m r (ground arith) (rw at_boundary-cons at b)) [
      | inl e ↦ inl (ground arith)
      | inr (rest, e) ↦ inr (rest, ground arith)
    ]

CoversBack-boundary :
    (m r : Bytes) → CoversBack m r → (has_prefix r m ≡ true) × (at_boundary m r ≡ true)
CoversBack-boundary m r (inl e) = rw e (prefix_self m, ground arith)
  where
    prefix_self : (s : Bytes) → has_prefix s s ≡ true
    prefix_self s = rw append-nil at (has_prefix-append s [])
CoversBack-boundary m r (inr (rest, e)) = rw e (has_prefix-append m (b'.' ∷ rest), dot m)
  where
    dot : (s : Bytes) → at_boundary s (s ++ b'.' ∷ rest) ≡ true
    dot [] = ground arith
    dot (x ∷ s) = at_boundary-cons x x s _ ∙ dot s

last_index_byte_lem :
    (s : Bytes) (c i : ℕ) → last_index_byte s c ≡ some i → s ≡ take i s ++ c ∷ drop (suc i) s
last_index_byte_lem [] c i e = cc
last_index_byte_lem (x ∷ s) c zero e = ground arith
last_index_byte_lem (x ∷ s) c (suc k) e = ground (arith, last_index_byte_lem s c k)

-- What covers the name without its first label covers the name.
CoversBack-parent :
    (m r : Bytes) (i : ℕ)
    → last_index_byte r b'.' ≡ some i
    → CoversBack m (take i r)
    → CoversBack m r
CoversBack-parent m r i e (inl same) =
    inr (drop (suc i) r, last_index_byte_lem r b'.' i e ∙ ap (λ t. t ++ b'.' ∷ drop (suc i) r) same)
CoversBack-parent m r i e (inr (rest, more)) = inr (
  rest ++ b'.' ∷ drop (suc i) r,
  last_index_byte_lem r b'.' i e
      ∙ ap (λ t. t ++ b'.' ∷ drop (suc i) r) more
      ∙ append_assoc m (b'.' ∷ rest) (b'.' ∷ drop (suc i) r),
)

module _ {V : Type 0} (t : Trie V) (laws : IsTrie t)
    (glob_match : Bytes → Bytes → Option Bool) where
  open t use {Tree, keys, longest_prefix}

  abbrev pub Sound : Tree → Bytes → Bytes → Type 0
  Sound s r m = (member m (keys s) ≡ true) × CoversBack m r

  found-Sound :
      (s : Tree) (r k : Bytes) (w : Option V)
      → longest_prefix s r ≡ some (k, w)
      → at_boundary k r ≡ true
      → Sound s r k
  found-Sound s r k w e b =
      let (mem, pre) = laws.found s r k w e in (mem, boundary-CoversBack k r pre b)

  parent_found-Sound :
      (s : Tree) (p m : Bytes) (xval v : Option V) (o : Option (Bytes × Option V))
      → longest_prefix s p ≡ o
      → parent_found t glob_match p xval o ≡ some (m, v)
      → Sound s p m
  parent_found-Sound s p m xval v none e h = cc
  parent_found-Sound s p m xval v (some (k, w)) e h = elim (Bool-cases (at_boundary k p)) [
    | inl b ↦
        (let same : ◌≡◌ {A = Option (Bytes × Option V)} (some (k, xval)) (some (m, v)) =
            rw b at h in
          subst (Sound s p) (cc) (found-Sound s p k w e b))
    | inr b ↦
        absurd (let no' : ◌≡◌ {A = Option (Bytes × Option V)} none (some (m, v)) = rw b at h in cc)
  ]

  parent_suffix-Sound :
      (s : Tree) (r m : Bytes) (xval v : Option V) (o : Option ℕ)
      → last_index_byte r b'.' ≡ o
      → parent_suffix t glob_match s r xval o ≡ some (m, v)
      → Sound s r m
  unfolding parent_suffix
  parent_suffix-Sound s r m xval v none e h = cc
  parent_suffix-Sound s r m xval v (some zero) e h = cc
  parent_suffix-Sound s r m xval v (some (suc i)) e h =
      let (mem, covers) = parent_found-Sound s (take (suc i) r) m xval v _ refl h in
      (mem, CoversBack-parent m r (suc i) e covers)

  suffix_found-Sound :
      (s : Tree) (r m : Bytes) (v : Option V) (o : Option (Bytes × Option V))
      → longest_prefix s r ≡ o
      → suffix_found t glob_match s r o ≡ some (m, v)
      → Sound s r m
  unfolding suffix_found
  suffix_found-Sound s r m v none e h = cc
  suffix_found-Sound s r m v (some (k, w)) e h = elim (Bool-cases (at_boundary k r)) [
    | inl b ↦
        (let same : ◌≡◌ {A = Option (Bytes × Option V)} (some (k, w)) (some (m, v)) = rw b at h in
          subst (Sound s r) (cc) (found-Sound s r k w e b))
    | inr b ↦ parent_suffix-Sound s r m w v _ refl (ground arith)
  ]

  -- A suffix rule that is reported is one of the rules, and covers the name.
  pub suffix_match-Sound :
      (s : Tree) (r m : Bytes) (v : Option V)
      → suffix_match t glob_match s r ≡ some (m, v)
      → Sound s r m
  unfolding suffix_match
  suffix_match-Sound s r m v h = suffix_found-Sound s r m v _ refl h

  -- No rule ends in the middle of a label of the name.
  abbrev pub OnLabels : Tree → Bytes → Type 0
  OnLabels s r =
      (k : Bytes) → member k (keys s) ≡ true → has_prefix r k ≡ true → at_boundary k r ≡ true

  suffix_found_complete :
      (s : Tree) (r d : Bytes) (o : Option (Bytes × Option V))
      → OnLabels s r
      → longest_prefix s r ≡ o
      → member d (keys s) ≡ true
      → CoversBack d r
      → is_some (suffix_found t glob_match s r o) ≡ true
  unfolding suffix_found
  suffix_found_complete s r d none n e mem c =
      absurd (let no' = laws.absent s r d e mem in let yes' = (CoversBack-boundary d r c).0 in cc)
  suffix_found_complete s r d (some (k, w)) n e mem c =
      let (kmem, kpre) = laws.found s r k w e in rw (n k kmem kpre)

  pub suffix_match_complete :
      (s : Tree) (r d : Bytes)
      → OnLabels s r
      → member d (keys s) ≡ true
      → CoversBack d r
      → is_some (suffix_match t glob_match s r) ≡ true
  unfolding suffix_match
  suffix_match_complete s r d n mem c = suffix_found_complete s r d _ n refl mem c

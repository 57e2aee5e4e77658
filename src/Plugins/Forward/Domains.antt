-- ===== src/Plugins/Forward/Domains.antt =====
-- plugin_forward.go: which names are forwarded.
use mathlib.Core.Path.{subst}
use sourcegraph_testing_dnsc.Base.{
  Bool, Bool-cases, Bytes, List, Option-cases, [], ap, append_assoc, arith, bytes_eq, bytes_eq_refl,
  bytes_eq→eq, drop, false, get_elem?, inl, inr, length, length-append, ltb, none, not, refl, some,
  suc, sym, take, take-append-drop, true, zero, ℕ, ◌&&◌, ◌++◌, ◌+◌, ◌-◌, ◌<◌, ◌==◌, ◌||◌, ◌∙◌, ◌∷◌,
  ◌≡◌, ◌≤◌, ◌⊎◌,
}
use sourcegraph_testing_dnsc.Patterns.Suffixes.{Covers}
use sourcegraph_testing_dnsc.Plugins.Forward.{
  PluginForwardEntry, byte_before, forward_servers, is_candidate,
}

-- The entry for a name is the first whose domain is the name or a domain that it is below.
pub data Forwards : Bytes → List PluginForwardEntry → List Bytes → Type 0 where
  no_entry : (q_name : Bytes) → Forwards q_name [] []
  first_entry :
      (q_name : Bytes) (entry : PluginForwardEntry) (entries : List PluginForwardEntry)
      → Covers entry.domain q_name
      → Forwards q_name (entry ∷ entries) entry.servers
  later_entry :
      (q_name : Bytes) (entry : PluginForwardEntry) (entries : List PluginForwardEntry)
      (servers : List Bytes)
      → ¬ Covers entry.domain q_name
      → Forwards q_name entries servers
      → Forwards q_name (entry ∷ entries) servers

take_next :
    (i : ℕ) (s : Bytes) (c : ℕ) → get_elem? s i ≡ some c → take (suc i) s ≡ take i s ++ c ∷ []
take_next i [] c h = cc
take_next zero (x ∷ s) c h = ground arith
take_next (suc i) (x ∷ s) c h = ap (λ t. x ∷ t) (take_next i s c h)

get_middle : (p : Bytes) (c : ℕ) (s : Bytes) → get_elem? (p ++ c ∷ s) (length p) ≡ some c
get_middle [] c s = refl
get_middle (x ∷ p) c s = get_middle p c s

byte_before-dot : (i : ℕ) (s : Bytes) → byte_before i s ≡ true → get_elem? s (i - 1) ≡ some b'.'
unfolding byte_before
byte_before-dot i s h = elim (Option-cases (get_elem? s (i - 1))) [
  | inl e ↦ absurd (let h' : false ≡ true = rw (e, byte_before) at h in cc)
  | inr (c, e) ↦ e ∙ ap some (eq_of c (rw (e, byte_before) at h))
]
  where
    eq_of : (c : ℕ) → (c == b'.') ≡ true → c ≡ b'.'
    eq_of c h = ground arith

candidate_facts :
    (q_name domain : Bytes)
    → is_candidate q_name domain ≡ true
    → (length domain ≤ length q_name)
      × (drop (length q_name - length domain) q_name ≡ domain)
      × ((length domain ≡ length q_name)
          ⊎ ((length domain < length q_name)
              × (byte_before (length q_name - length domain) q_name ≡ true)))
unfolding is_candidate
candidate_facts q_name domain h = go (length q_name) (length domain) _ _ _ _ h (bytes_eq→eq _ _)
  where
    go :
        (n m : ℕ) (b c : Bool) (x y : Bytes)
        → (not (ltb n m) && (b && (m == n || c))) ≡ true
        → (b ≡ true → x ≡ y)
        → (m ≤ n) × (x ≡ y) × ((m ≡ n) ⊎ ((m < n) × (c ≡ true)))
    go n m false c x y h f = absurd (ground arith)
    go n m true false x y h f = (ground arith, f refl, inl (ground arith))
    go n m true true x y h f = elim (Bool-cases (m == n)) [
      | inl e ↦ (ground arith, f refl, inl (ground arith))
      | inr e ↦ (ground arith, f refl, inr (ground arith, refl))
    ]

candidate_of :
    (q_name domain : Bytes)
    → length domain ≤ length q_name
    → drop (length q_name - length domain) q_name ≡ domain
    → (length domain ≡ length q_name) ⊎ (byte_before (length q_name - length domain) q_name ≡ true)
    → is_candidate q_name domain ≡ true
unfolding is_candidate
candidate_of q_name domain le same end =
    go (length q_name) (length domain) _ _ le
      (subst (λ t. bytes_eq t domain ≡ true) (sym same) (bytes_eq_refl domain)) end
  where
    go :
        (n m : ℕ) (b c : Bool)
        → m ≤ n
        → b ≡ true
        → (m ≡ n) ⊎ (c ≡ true)
        → (not (ltb n m) && (b && (m == n || c))) ≡ true
    go n m b c le e (inl h) = ground arith
    go n m b c le e (inr h) = ground arith

dotted_name :
    (n : ℕ) (q_name domain : Bytes)
    → 0 < n
    → drop n q_name ≡ domain
    → byte_before n q_name ≡ true
    → Covers domain q_name
dotted_name zero q_name domain h same b = absurd (omega arith)
dotted_name (suc i) q_name domain h same b =
    let one_less : suc i - 1 ≡ i = omega arith in
    let dot : get_elem? q_name i ≡ some b'.' =
      subst (λ k. get_elem? q_name k ≡ some b'.') one_less (byte_before-dot (suc i) q_name b) in
    let front = take_next i q_name b'.' dot in
    inr (
      take i q_name,
      sym (take-append-drop (suc i) q_name)
          ∙ ap (λ t. take (suc i) q_name ++ t) same
          ∙ ap (λ t. t ++ domain) front
          ∙ append_assoc (take i q_name) (b'.' ∷ []) domain,
    )

is_candidate-Covers :
    (q_name domain : Bytes) → is_candidate q_name domain ≡ true → Covers domain q_name
is_candidate-Covers q_name domain h =
    let (le, same, end) = candidate_facts q_name domain h in
    elim end [
      | inl e ↦
          let none_left : length q_name - length domain ≡ 0 = omega arith in
          inl (subst (λ n. drop n q_name ≡ domain) none_left same)
      | inr (less, b) ↦
          dotted_name (length q_name - length domain) q_name domain (omega arith) same b
    ]

whole_candidate : (s : Bytes) → is_candidate s s ≡ true
whole_candidate s =
    let none_left : 0 ≡ length s - length s = omega arith in
    candidate_of s s (omega arith) (subst (λ n. drop n s ≡ s) none_left refl) (inl refl)

below_candidate : (labels domain : Bytes) → is_candidate (labels ++ b'.' ∷ domain) domain ≡ true
unfolding byte_before
below_candidate labels domain =
    let q_name = labels ++ b'.' ∷ domain in
    let total : length q_name ≡ length labels + suc (length domain) =
      length-append labels (b'.' ∷ domain) in
    let start : suc (length labels) ≡ length q_name - length domain = omega arith in
    let before : length labels ≡ length q_name - length domain - 1 = omega arith in
    candidate_of q_name domain (omega arith)
      (subst (λ n. drop n q_name ≡ domain) start (drop_dot labels domain))
      (inr (
        subst (λ n. elim (get_elem? q_name n) [ none ↦ false | some c ↦ c == b'.' ] ≡ true) before
          (rw (get_middle labels b'.' domain) refl)))
  where
    drop_dot : (p s : Bytes) → drop (suc (length p)) (p ++ b'.' ∷ s) ≡ s
    drop_dot [] s = refl
    drop_dot (x ∷ p) s = drop_dot p s

Covers-is_candidate :
    (q_name domain : Bytes) → Covers domain q_name → is_candidate q_name domain ≡ true
Covers-is_candidate q_name domain (inl e) =
    subst (λ t. is_candidate t domain ≡ true) (sym e) (whole_candidate domain)
Covers-is_candidate q_name domain (inr (labels, e)) =
    subst (λ t. is_candidate t domain ≡ true) (sym e) (below_candidate labels domain)

-- The servers for a name are those of the first entry whose domain is the name or above it, and
-- there are none without such an entry.
pub forward_servers-Forwards :
    (q_name : Bytes) (entries : List PluginForwardEntry)
    → Forwards q_name entries (forward_servers q_name entries)
unfolding forward_servers
forward_servers-Forwards q_name [] = no_entry q_name
forward_servers-Forwards q_name (entry ∷ entries) =
    elim (Bool-cases (is_candidate q_name entry.domain)) [
      | inl e ↦
          rw (forward_servers, e)
            (first_entry q_name entry entries (is_candidate-Covers q_name entry.domain e))
      | inr e ↦
          rw (forward_servers, e)
            (later_entry q_name entry entries _
              (λ c. let k = Covers-is_candidate q_name entry.domain c in cc)
              (forward_servers-Forwards q_name entries))
    ]

-- ===== src/Servers/Choice.antt =====
-- serversInfo.go, `getOne`: the choice of a server and what it does to the list.
use sourcegraph_testing_dnsc.Base.{
  Bool, Bool-cases, Bytes, List, Option, [], arith, count, count-set, count-swap, count_all, false,
  get_elem?, get_elem?_lt, if◌then◌else◌, inl, inr, length, ltb, refl, set, some, sym, true, ℕ,
  ◌&&◌, ◌+◌, ◌-◌, ◌<◌, ◌==◌, ◌||◌, ◌∙◌, ◌∷◌, ◌≡◌, ◌≤◌,
}
use sourcegraph_testing_dnsc.Common.{max, min}
use sourcegraph_testing_dnsc.Servers.{
  LbStrategy, RttAverage, ServerInfo, ServersInfo, first, p2, ph, pn, random,
}
use sourcegraph_testing_dnsc.Servers.Balancing.{
  carry, estimator_update, get_active_count, get_candidate, get_one, intn, new_chance, one_minute,
  partial_sort, rtt_value, weigh, with_rtt,
}

-- `rand.Intn` draws a number below its bound.
abbrev pub IsDraw : (ℕ → ℕ) → Type 0
IsDraw draw = (n : ℕ) → 0 < n → draw n < n

-- The strategy over n servers is read from the configuration with n at least 1.
abbrev pub IsUsable : LbStrategy → Type 0
IsUsable p2 = Unit {0}
IsUsable (pn n) = 0 < n
IsUsable ph = Unit {0}
IsUsable first = Unit {0}
IsUsable random = Unit {0}

active_count_bounds :
    (s : LbStrategy) (n : ℕ)
    → IsUsable s
    → 0 < n
    → (0 < get_active_count s n) × (get_active_count s n ≤ n)
unfolding get_active_count min max
active_count_bounds p2 n u h = ground arith
active_count_bounds (pn k) n u h = ground arith
active_count_bounds ph n u h = ground arith
active_count_bounds first n u h = ground arith
active_count_bounds random n u h = ground arith

intn_lt : (draw : ℕ → ℕ) (n : ℕ) → IsDraw draw → 0 < n → (i : ℕ) × (intn draw n ≡ some i) × (i < n)
intn_lt draw n d h = (draw n, ground arith, d n h)

candidate_lt :
    (s : LbStrategy) (draw : ℕ → ℕ) (n : ℕ)
    → IsUsable s
    → IsDraw draw
    → 0 < n
    → (i : ℕ) × (get_candidate s draw n ≡ some i) × (i < get_active_count s n)
unfolding get_candidate get_active_count
candidate_lt p2 draw n u d h = intn_lt draw _ d (active_count_bounds p2 n u h).0
candidate_lt (pn k) draw n u d h = intn_lt draw _ d (active_count_bounds (pn k) n u h).0
candidate_lt ph draw n u d h = intn_lt draw _ d (active_count_bounds ph n u h).0
candidate_lt first draw n u d h = (0, refl, omega arith)
candidate_lt random draw n u d h = intn_lt draw _ d h

module _ (m : RttAverage) {T : Type 0} where
  open m use {Average}

  -- The same names, each as often.
  abbrev pub SameNames : List (ServerInfo Average T) → List (ServerInfo Average T) → Type 0
  SameNames xs ys = (p : Bytes → Bool) → count (λ x. p x.name) xs ≡ count (λ x. p x.name) ys

  length-SameNames : (xs ys : List (ServerInfo Average T)) → SameNames xs ys → length xs ≡ length ys
  length-SameNames xs ys h = sym (count_all xs) ∙ h (λ n. true) ∙ count_all ys

  carry-SameNames :
      (s : ServerInfo Average T) (ss : List (ServerInfo Average T))
      → SameNames (carry m s ss) (s ∷ ss)
  unfolding carry
  carry-SameNames s [] p = refl
  carry-SameNames s (t ∷ ts) p = elim (Bool-cases (m.float_lt (rtt_value m t) (rtt_value m s))) [
    | inl e ↦ rw (carry, e) (omega (arith, carry-SameNames s ts p))
    | inr e ↦ rw (carry, e) (omega (arith, carry-SameNames t ts p))
  ]

  partial_sort-SameNames : (ss : List (ServerInfo Average T)) → SameNames (partial_sort m ss) ss
  unfolding partial_sort
  partial_sort-SameNames [] p = refl
  partial_sort-SameNames (s ∷ ss) p = carry-SameNames s ss p

  -- A step that gives a list with the names of the one before.
  abbrev Keeps : Option (List (ServerInfo Average T)) → List (ServerInfo Average T) → Type 0
  Keeps o xs = (ys : List (ServerInfo Average T)) × (o ≡ some ys) × SameNames ys xs

  set-SameNames :
      (xs : List (ServerInfo Average T)) (i : ℕ) (a : ServerInfo Average T) (rtt : Average)
      → get_elem? xs i ≡ some a
      → SameNames (set xs i (with_rtt m rtt a)) xs
  set-SameNames xs i a rtt h p =
      omega (arith, count-set (λ x. p x.name) xs i a (with_rtt m rtt a) h)

  new_chance-Keeps :
      (now : ℕ) (xs : List (ServerInfo Average T)) (active i : ℕ) (c : ServerInfo Average T)
      → 0 < active
      → active ≤ length xs
      → get_elem? xs i ≡ some c
      → Keeps (new_chance m now xs active i c) xs
  unfolding new_chance
  new_chance-Keeps now xs active i c nonempty le h =
      let (best, eb) = get_elem?_lt xs 0 (omega arith) in
      let (last, el) = get_elem?_lt xs (active - 1) (omega arith) in
      let c' = with_rtt m (m.add (m.half (rtt_value m c)) c.rtt) c in
      let kept = set-SameNames xs i c (m.add (m.half (rtt_value m c)) c.rtt) h in
      rw (new_chance, eb, el)
        (elim (Bool-cases (
          m.float_le (m.times4 (m.half (m.plus (rtt_value m best) (rtt_value m last))))
            (rtt_value m c)
          && ltb one_minute (now - c.last_action_ts))) [
            | inl e ↦ rw e (
              partial_sort m (set xs i c'),
              refl,
              λ p. partial_sort-SameNames (set xs i c') p ∙ kept p,
            )
            | inr e ↦ rw e (xs, refl, λ p. refl)
          ])

  weigh-Keeps :
      (now : ℕ) (xs : List (ServerInfo Average T)) (active i j : ℕ) (c a : ServerInfo Average T)
      → 0 < active
      → active ≤ length xs
      → get_elem? xs i ≡ some c
      → get_elem? xs j ≡ some a
      → Keeps (weigh m now xs active i j c a) xs
  unfolding weigh
  weigh-Keeps now xs active i j c a nonempty le hi hj =
      let swapped = set (set xs i a) j c in
      elim (Bool-cases (m.float_lt (rtt_value m a) (m.float_of 0))) [
        | inl e ↦ rw e (
          set xs j (with_rtt m (m.assign (rtt_value m c) a.rtt) a),
          refl,
          set-SameNames xs j a (m.assign (rtt_value m c) a.rtt) hj,
        )
        | inr e ↦ elim (Bool-cases (m.float_lt (rtt_value m c) (rtt_value m a))) [
          | inl f ↦
              rw (e, f)
                (
                  partial_sort m swapped,
                  refl,
                  λ p.
                      partial_sort-SameNames swapped p
                      ∙ count-swap (λ x. p x.name) xs i j c a hi hj,
                )
          | inr f ↦ elim (Bool-cases (m.float_lt (m.float_of 0) (rtt_value m c))) [
            | inl g ↦ rw (e, f, g) (new_chance-Keeps now xs active i c nonempty le hi)
            | inr g ↦ rw (e, f, g) (xs, refl, λ p. refl)
          ]
        ]
      ]

  estimator_update-Keeps :
      (s : LbStrategy) (draw : ℕ → ℕ) (now : ℕ) (xs : List (ServerInfo Average T)) (current : ℕ)
      → IsUsable s
      → IsDraw draw
      → current < get_active_count s (length xs)
      → 0 < length xs
      → Keeps (estimator_update m s draw now xs current) xs
  unfolding estimator_update
  estimator_update-Keeps s draw now xs current u d lt nonempty =
      let count = length xs in
      let active = get_active_count s count in
      let (low, high) = active_count_bounds s count u nonempty in
      elim (Bool-cases (active == count)) [
        | inl e ↦ rw e (xs, refl, λ p. refl)
        | inr e ↦
            let drawn : draw (count - active) < count - active =
              d (count - active) (ground arith) in
            let (c, ec) = get_elem?_lt xs (draw (count - active) + active) (omega arith) in
            let (a, ea) = get_elem?_lt xs current (omega arith) in
            let in_range : (ltb count active || active == 0) ≡ false = ground arith in
            rw (estimator_update, e, in_range, ec, ea)
              (weigh-Keeps now xs active (draw (count - active) + active) current c a low high ec
                ea)
      ]

  -- What a choice leaves.
  pub record IsPicked (st : ServersInfo Average T) (ys : List (ServerInfo Average T))
      (s : ServerInfo Average T) : Type 0 where
    pub place : ℕ
    pub active : place < get_active_count st.lb_strategy (length st.inner)
    pub stands : get_elem? ys place ≡ some s
    pub same : SameNames ys st.inner

  -- A choice among one server or more never panics, whatever is drawn: it returns one of the servers
  -- that the strategy uses, and leaves the same servers by name, each as often. The draws are below
  -- their bounds, and a strategy over n servers has n at least 1.
  pub get_one_picks :
      (st : ServersInfo Average T) (draw draw' : ℕ → ℕ) (now : ℕ)
      → IsUsable st.lb_strategy
      → IsDraw draw
      → IsDraw draw'
      → 0 < length st.inner
      → (ys : List (ServerInfo Average T)) × (s : ServerInfo Average T) × (get_one m st draw draw'
            now
          ≡ some (ys, some s))
        × IsPicked st ys s
  unfolding get_one
  get_one_picks st draw draw' now u d d' nonempty =
      let (i, ei, lt) = candidate_lt st.lb_strategy draw (length st.inner) u d nonempty in
      let some_there : (length st.inner == 0) ≡ false = ground arith in
      let (ys, ey, same) = updated i lt in
      let (low, high) = active_count_bounds st.lb_strategy (length st.inner) u nonempty in
      let (s, es) = get_elem?_lt ys i (omega (arith, length-SameNames ys st.inner same)) in
      (
        ys,
        s,
        rw (get_one, some_there, ei, ey, es),
        record { place = i; active = lt; stands = es; same = same },
      )
    where
      updated :
          (i : ℕ)
          → i < get_active_count st.lb_strategy (length st.inner)
          → Keeps
              (if st.lb_estimator
                then estimator_update m st.lb_strategy draw' now st.inner i
                else some st.inner)
              st.inner
      updated i lt = elim (Bool-cases st.lb_estimator) [
        | inl e ↦ rw e (estimator_update-Keeps st.lb_strategy draw' now st.inner i u d' lt nonempty)
        | inr e ↦ rw e (st.inner, refl, λ p. refl)
      ]

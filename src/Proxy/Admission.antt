-- ===== src/Proxy/Admission.antt =====
-- proxy.go: how many clients are served at once.
use sourcegraph_testing_dnsc.Base.{
  ==→eq, All, All-get_elem?, All-set, Bool, Bool-cases, List, Option, ap, arith, count, count-set,
  false, get_elem?, get_elem?-set_other, get_elem?-set_self, if◌then◌else◌, inl, inr, leb, one_if,
  refl, some, true, ℕ, ◌%◌, ◌+◌, ◌<◌, ◌==◌, ◌^◌, ◌∙◌, ◌≡◌, ◌≢◌, ◌≤◌, ◌⊎◌,
}
use sourcegraph_testing_dnsc.Proxy.Clients.{
  Phase, Pool, Step, Steps, dec_load, dec_swap, entering, here, idle, inc_load, inc_swap, leaving,
  load_dec, load_inc, move, next, serving, swap_dec, swap_inc,
}

-- A thread that counts as a client.
abbrev pub is_admitted : Phase → Bool
is_admitted idle = false
is_admitted serving = true
is_admitted (entering c) = false
is_admitted (leaving c) = true

-- What a thread has loaded before it enters was below the limit.
abbrev LoadedBelow : ℕ → Phase → Type 0
LoadedBelow n idle = Unit {0}
LoadedBelow n serving = Unit {0}
LoadedBelow n (entering c) = c < n
LoadedBelow n (leaving c) = Unit {0}

-- The count is of the clients admitted, and is within the limit.
pub record IsCounted (max_clients : ℕ) (p : Pool) : Type 0 where
  pub counted : p.clients_count ≡ count is_admitted p.phases
  pub within : p.clients_count ≤ max_clients
  pub loaded : All (LoadedBelow max_clients) p.phases

one_admitted :
    (ps : List Phase) (i : ℕ) (ph : Phase)
    → get_elem? ps i ≡ some ph
    → is_admitted ph ≡ true
    → 0 < count is_admitted ps
one_admitted ps i ph e a =
    let same : one_if is_admitted ph ≡ 1 = rw a in
    omega (arith, count-set is_admitted ps i ph idle e, same)

module _ {max_clients : ℕ} (fits : max_clients < 2 ^ 32) where
  moved :
      (p : Pool) (i : ℕ) (old new : Phase)
      → get_elem? p.phases i ≡ some old
      → is_admitted new ≡ is_admitted old
      → LoadedBelow max_clients new
      → IsCounted max_clients p
      → IsCounted max_clients (move p i new)
  moved p i old new e same below v =
      let weight : one_if is_admitted new ≡ one_if is_admitted old =
        ap (λ (b : Bool). if b then 1 else 0) same in
      record {
        counted = omega (arith, v.counted, count-set is_admitted p.phases i old new e, weight);
        within = v.within;
        loaded = All-set (LoadedBelow max_clients) p.phases i new v.loaded below;
      }

  Step-IsCounted :
      {p q : Pool} → Step max_clients p q → IsCounted max_clients p → IsCounted max_clients q
  unfolding inc_load inc_swap dec_load dec_swap
  Step-IsCounted (load_inc p i e) v = elim (Bool-cases (leb max_clients p.clients_count)) [
    | inl f ↦ rw f v
    | inr f ↦ rw f (moved p i idle (entering p.clients_count) e refl (below p.clients_count f) v)
  ]
    where
      below : (n : ℕ) → leb max_clients n ≡ false → n < max_clients
      below n f = ground arith
  Step-IsCounted (swap_inc p i c e) v = elim (Bool-cases (p.clients_count == c)) [
    | inr f ↦ rw f (moved p i (entering c) idle e refl tt v)
    | inl f ↦
        let same = ==→eq p.clients_count c f in
        let small = All-get_elem? (LoadedBelow max_clients) p.phases i (entering c) v.loaded e in
        let wraps : (c + 1) % 2 ^ 32 ≡ c + 1 = omega arith in
        rw f (record {
          counted =
              omega (arith, v.counted, count-set is_admitted p.phases i (entering c) serving e);
          within = omega arith;
          loaded = All-set (LoadedBelow max_clients) p.phases i serving v.loaded tt;
        })
  ]
  Step-IsCounted (load_dec p i e) v = elim (Bool-cases (p.clients_count == 0)) [
    | inl f ↦ absurd (
        omega (arith, v.counted, ==→eq p.clients_count 0 f, one_admitted p.phases i serving e refl))
    | inr f ↦ rw f (moved p i serving (leaving p.clients_count) e refl tt v)
  ]
  Step-IsCounted (swap_dec p i c e) v = elim (Bool-cases (p.clients_count == c)) [
    | inr f ↦ rw f (moved p i (leaving c) serving e refl tt v)
    | inl f ↦
        let same = ==→eq p.clients_count c f in
        rw f (record {
          counted = omega (
            arith,
            v.counted,
            count-set is_admitted p.phases i (leaving c) idle e,
            one_admitted p.phases i (leaving c) e refl,
          );
          within = omega (arith, v.within);
          loaded = All-set (LoadedBelow max_clients) p.phases i idle v.loaded tt;
        })
  ]

  -- However the threads of the clients interleave, the count is the number of clients admitted and
  -- never passes the limit, which fits in 32 bits.
  pub Steps-IsCounted :
      {p q : Pool} → IsCounted max_clients p → Steps max_clients p q → IsCounted max_clients q
  Steps-IsCounted v here = v
  Steps-IsCounted v (next r s) = Step-IsCounted s (Steps-IsCounted v r)

  -- The thread that makes a step.
  abbrev pub thread_of : {p q : Pool} → Step max_clients p q → ℕ
  thread_of (load_inc p i e) = i
  thread_of (swap_inc p i c e) = i
  thread_of (load_dec p i e) = i
  thread_of (swap_dec p i c e) = i

  -- Steps of other threads than the `i`-th.
  abbrev pub ByOthers : ℕ → {p q : Pool} → Steps max_clients p q → Type 0
  ByOthers i here = Unit {0}
  ByOthers i (next r s) = ByOthers i r × ((thread_of s == i) ≡ false)

  abbrev phase_at : ℕ → Pool → Option Phase
  phase_at i p = get_elem? p.phases i

  Step-phase_at :
      (i : ℕ) {p q : Pool} (s : Step max_clients p q)
      → (thread_of s == i) ≡ false
      → phase_at i q ≡ phase_at i p
  unfolding inc_load inc_swap dec_load dec_swap
  Step-phase_at i (load_inc p j e) d = elim (Bool-cases (leb max_clients p.clients_count)) [
    | inl f ↦ rw f refl
    | inr f ↦ rw f (get_elem?-set_other p.phases j i (entering p.clients_count) d)
  ]
  Step-phase_at i (swap_inc p j c e) d = elim (Bool-cases (p.clients_count == c)) [
    | inl f ↦ rw f (get_elem?-set_other p.phases j i serving d)
    | inr f ↦ rw f (get_elem?-set_other p.phases j i idle d)
  ]
  Step-phase_at i (load_dec p j e) d = elim (Bool-cases (p.clients_count == 0)) [
    | inl f ↦ rw f (get_elem?-set_other p.phases j i idle d)
    | inr f ↦ rw f (get_elem?-set_other p.phases j i (leaving p.clients_count) d)
  ]
  Step-phase_at i (swap_dec p j c e) d = elim (Bool-cases (p.clients_count == c)) [
    | inl f ↦ rw f (get_elem?-set_other p.phases j i idle d)
    | inr f ↦ rw f (get_elem?-set_other p.phases j i serving d)
  ]

  ByOthers-phase_at :
      (i : ℕ) {p q : Pool} (r : Steps max_clients p q) → ByOthers i r → phase_at i q ≡ phase_at i p
  ByOthers-phase_at i here h = refl
  ByOthers-phase_at i (next r s) h = Step-phase_at i s h.1 ∙ ByOthers-phase_at i r h.0

  -- With room for one more, an idle client's thread loads the count, and other threads make any
  -- steps before it swaps. Its swap admits it, and counts it, if the count is then what it loaded;
  -- otherwise another thread has changed the count, and this one is idle as before, to try again.
  pub admits :
      (p q : Pool) (i : ℕ)
      → p.clients_count < max_clients
      → get_elem? p.phases i ≡ some idle
      → (r : Steps max_clients (inc_load max_clients p i) q) → ByOthers i r
      → let after = inc_swap q i p.clients_count in
        Step max_clients q after
        × (((q.clients_count ≡ p.clients_count)
              × (get_elem? after.phases i ≡ some serving)
              × (after.clients_count ≡ p.clients_count + 1))
            ⊎ ((q.clients_count ≢ p.clients_count)
                × (get_elem? after.phases i ≡ some idle)
                × (after.clients_count ≡ q.clients_count)))
  unfolding inc_load inc_swap
  admits p q i room e r others =
      let c : ℕ = p.clients_count in
      let on : leb max_clients c ≡ false = ground arith in
      let wraps : (c + 1) % 2 ^ 32 ≡ c + 1 = omega arith in
      let loads : phase_at i (inc_load max_clients p i) ≡ some (entering c) =
        rw (inc_load, on) (get_elem?-set_self p.phases i idle (entering c) e) in
      let at : phase_at i q ≡ some (entering c) = ByOthers-phase_at i r others ∙ loads in
      (
        swap_inc q i c at,
        elim (Bool-cases (q.clients_count == c)) [
          | inl f ↦ inl (
            ==→eq q.clients_count c f,
            rw (inc_swap, f) (get_elem?-set_self q.phases i (entering c) serving at),
            rw (inc_swap, f) wraps,
          )
          | inr f ↦ inr (
            differs q.clients_count c f,
            rw (inc_swap, f) (get_elem?-set_self q.phases i (entering c) idle at),
            rw (inc_swap, f) refl,
          )
        ],
      )
    where
      differs : (n m : ℕ) → (n == m) ≡ false → n ≢ m
      differs n m h e = ground arith

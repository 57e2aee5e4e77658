-- ===== src/Exchange/Choice.antt =====
-- dnsutils.go, `DNSExchange`: which response is chosen.
use mathlib.Core.Path.{subst}
use sourcegraph_testing_dnsc.Base.{
  All, All-implies, Any, Bool, Bool-cases, Error, List, Option, Option-cases, [], ap, arith, err,
  false, if◌then◌else◌, inl, inr, none, ok, refl, some, sym, true, ℕ, ◌&&◌, ◌<◌, ◌==◌, ◌∙◌, ◌∷◌,
  ◌≡◌, ◌≤◌, ◌⊎◌,
}
use sourcegraph_testing_dnsc.Exchange.{
  Choice, DnsExchangeResponse, Exchanged, after_round, better, choose_loop, dns_exchange,
  exchange_error, outcome,
}
use sourcegraph_testing_dnsc.Exchange.Steps.{
  Ahead, AtLeastAsGood, choose_error, choose_kept, choose_last, choose_new, choose_none,
}
use sourcegraph_testing_dnsc.Exchange.Finals.{
  Final, Final-last, Final-new, choose_from, is_zero, not_zero,
}

abbrev pub HasError : DnsExchangeResponse → Type 0
HasError r = (x : Error) × (r.error ≡ some x)

-- The response that is chosen came in without an error, and it ends the loop or no other is better.
record IsChosen (best : DnsExchangeResponse) (rs : List DnsExchangeResponse) : Type 0 where
  pub among : Any (λ r. best ≡ r) rs
  pub no_error : best.error ≡ none
  pub as_good : All (AtLeastAsGood best) rs

-- The first response without an error that has priority 0: it ends the loop.
abbrev pub first_zero : List DnsExchangeResponse → Option DnsExchangeResponse
first_zero [] = none
first_zero (r ∷ rs) = elim r.error [
  | some e ↦ first_zero rs
  | none ↦ if r.priority == 0 then some r else first_zero rs
]

-- Neither an earlier priority nor, at the same one, a shorter time; a response with an error is never
-- better.
abbrev pub NotWorse : DnsExchangeResponse → DnsExchangeResponse → Type 0
NotWorse x y =
    HasError y ⊎ ((x.priority < y.priority) ⊎ ((x.priority ≡ y.priority) × (x.rtt ≤ y.rtt)))

-- The response that is returned came in without an error: it is the first of priority 0, or there is
-- none of priority 0 and no other is better.
pub record IsBest (best : DnsExchangeResponse) (rs : List DnsExchangeResponse) : Type 0 where
  pub among : Any (λ r. best ≡ r) rs
  pub no_error : best.error ≡ none
  pub rank : (first_zero rs ≡ some best) ⊎ ((first_zero rs ≡ none) × All (NotWorse best) rs)

abbrev Chosen : Choice → List DnsExchangeResponse → Type 0
Chosen c rs =
    ((c.0 ≡ none) × All HasError rs)
    ⊎ ((best : DnsExchangeResponse) × (c.0 ≡ some best) × IsChosen best rs)

Chosen-Final :
    (c : Choice) (r : DnsExchangeResponse) (rs : List DnsExchangeResponse)
    → Final c r (r ∷ rs)
    → Chosen c (r ∷ rs)
Chosen-Final c r rs f = inr (
  f.final,
  f.chosen,
  record {
    among = elim f.among [ inl m ↦ inl m | inr m ↦ m ];
    no_error = f.no_error;
    as_good = f.as_good;
  },
)

Chosen-error :
    (c c' : Choice) (r : DnsExchangeResponse) (rs : List DnsExchangeResponse) (x : Error)
    → r.error ≡ some x
    → c' ≡ c
    → Chosen c rs
    → Chosen c' (r ∷ rs)
Chosen-error c c' r rs x h same (inl (e, all)) = inl (ap (λ t. t.0) same ∙ e, ((x, h), all))
Chosen-error c c' r rs x h same (inr (best, e, b)) = inr (
  best,
  ap (λ t. t.0) same ∙ e,
  record {
    among = inr b.among;
    no_error = b.no_error;
    as_good = (λ g. absurd (error_none r.error x g h), b.as_good);
  },
)
  where
    error_none : (o : Option Error) (x : Error) → o ≡ none → o ≡ some x → ⊥
    error_none o x g h = cc

-- Without one.
choose_first :
    (rs : List DnsExchangeResponse) (error : Option Error)
    → Chosen (choose_loop rs (none, error)) rs
unfolding better
choose_first [] error = inl (choose_none error, tt)
choose_first (r ∷ rs) error = elim (Option-cases r.error) [
  | inr (x, e) ↦
      Chosen-error _ _ r rs x e (choose_error r rs none error x e) (choose_first rs (some x))
  | inl e ↦ elim (Bool-cases (r.priority == 0)) [
    | inl z ↦ Chosen-Final (choose_loop (r ∷ rs) (none, error)) r rs (
        Final-last (choose_loop (r ∷ rs) (none, error)) r r rs e (is_zero r.priority z)
          (ap (λ t. t.0) (choose_last r rs none error e refl z)))
    | inr z ↦ Chosen-Final _ r rs (
        Final-new _ _ r r rs e (not_zero r.priority z) (λ x. inr (inr (refl, omega arith)))
          (choose_new r rs none error e refl z) (choose_from rs r error e (not_zero r.priority z)))
  ]
]

-- Without a response of priority 0 so far.
abbrev NonZero : Option DnsExchangeResponse → Type 0
NonZero none = Unit {0}
NonZero (some r) = (r.priority == 0) ≡ false

better_zero :
    (x : DnsExchangeResponse) (best : Option DnsExchangeResponse)
    → (x.priority == 0) ≡ true
    → NonZero best
    → better x best ≡ true
unfolding better
better_zero x none z n = refl
better_zero x (some b) z n = ground arith

choose_first_zero :
    (rs : List DnsExchangeResponse) (best : Option DnsExchangeResponse) (error : Option Error)
    (r : DnsExchangeResponse)
    → NonZero best
    → first_zero rs ≡ some r
    → (choose_loop rs (best, error)).0 ≡ some r
choose_first_zero [] best error r n h = absurd (cc)
choose_first_zero (x ∷ xs) best error r n h = elim (Option-cases x.error) [
  | inr (e, k) ↦
      ap (λ c. c.0) (choose_error x xs best error e k)
      ∙ choose_first_zero xs best (some e) r n (rw (first_zero, k) at h)
  | inl k ↦ elim (Bool-cases (x.priority == 0)) [
    | inl z ↦
        ap (λ c. c.0) (choose_last x xs best error k (better_zero x best z n) z)
        ∙ (rw (first_zero, k, z) at h)
    | inr z ↦
        let h' : first_zero xs ≡ some r = rw (first_zero, k, z) at h in
        elim (Bool-cases (better x best)) [
          | inl w ↦
              ap (λ c. c.0) (choose_new x xs best error k w z)
              ∙ choose_first_zero xs (some x) error r z h'
          | inr w ↦
              ap (λ c. c.0) (choose_kept x xs best error k w)
              ∙ choose_first_zero xs best error r n h'
        ]
  ]
]

-- Where there is none of priority 0, one without an error has another priority.
zero_absent :
    (best : DnsExchangeResponse) (rs : List DnsExchangeResponse)
    → Any (λ r. best ≡ r) rs
    → best.error ≡ none
    → first_zero rs ≡ none
    → (best.priority == 0) ≡ false
zero_absent best [] (m) e h = absurd m
zero_absent best (x ∷ xs) (inl m) e h = elim (Bool-cases (best.priority == 0)) [
  | inr z ↦ z
  | inl z ↦
      let k : x.error ≡ none = subst (λ (r : DnsExchangeResponse). r.error ≡ none) m e in
      let z' : (x.priority == 0) ≡ true =
        subst (λ (r : DnsExchangeResponse). (r.priority == 0) ≡ true) m z in
      absurd (some_none x (rw (first_zero, k, z') at h))
]
  where
    some_none : (x : DnsExchangeResponse) → some x ≡ none → ⊥
    some_none x h = cc
zero_absent best (x ∷ xs) (inr m) e h = zero_absent best xs m e (later x xs h)
  where
    later :
        (x : DnsExchangeResponse) (xs : List DnsExchangeResponse)
        → first_zero (x ∷ xs) ≡ none
        → first_zero xs ≡ none
    later x xs h = elim (Option-cases x.error) [
      | inr (e, k) ↦ rw (first_zero, k) at h
      | inl k ↦ elim (Bool-cases (x.priority == 0)) [
        | inl z ↦ absurd (some_none x (rw (first_zero, k, z) at h))
        | inr z ↦ rw (first_zero, k, z) at h
      ]
    ]
      where
        some_none : (x : DnsExchangeResponse) → some x ≡ none → ⊥
        some_none x h = cc

AtLeastAsGood-NotWorse :
    (x y : DnsExchangeResponse) → (x.priority == 0) ≡ false → AtLeastAsGood x y → NotWorse x y
AtLeastAsGood-NotWorse x y z g = elim (Option-cases y.error) [
  | inr (e, k) ↦ inl (e, k)
  | inl k ↦ inr (ahead x.priority x.rtt y.priority y.rtt z (g k))
]
  where
    ahead : (p t q u : ℕ) → (p == 0) ≡ false → Ahead p t q u → (p < q) ⊎ ((p ≡ q) × (t ≤ u))
    ahead p t q u z (inl e) = absurd (ground arith)
    ahead p t q u z (inr a) = a

IsChosen-IsBest :
    (best : DnsExchangeResponse) (rs : List DnsExchangeResponse)
    → (choose_loop rs (none, none)).0 ≡ some best
    → IsChosen best rs
    → IsBest best rs
IsChosen-IsBest best rs e b = record {
  among = b.among;
  no_error = b.no_error;
  rank = elim (Option-cases (first_zero rs)) [
    | inr (r, h) ↦ inl (h ∙ (sym (choose_first_zero rs none none r tt h) ∙ e))
    | inl h ↦ inr (
      h,
      All-implies (AtLeastAsGood best) (NotWorse best) rs
          (λ y g. AtLeastAsGood-NotWorse best y (zero_absent best rs b.among b.no_error h) g)
          b.as_good,
    )
  ];
}

-- What the loop ends with.
abbrev Picked : Choice → List DnsExchangeResponse → Type 0
Picked c rs =
    ((c.0 ≡ none) × All HasError rs)
    ⊎ ((best : DnsExchangeResponse) × (c.0 ≡ some best) × IsBest best rs)

choose_loop-Picked : (rs : List DnsExchangeResponse) → Picked (choose_loop rs (none, none)) rs
choose_loop-Picked rs = elim (choose_first rs none) [
  | inl h ↦ inl h
  | inr (best, e, b) ↦ inr (best, e, IsChosen-IsBest best rs e b)
]

-- What an exchange returns for a response.
abbrev pub returned : DnsExchangeResponse → Exchanged
returned r = ok (r.response, r.rtt, r.fragments_blocked)

outcome-some : (c : Choice) (r : DnsExchangeResponse) → c.0 ≡ some r → outcome c ≡ returned r
unfolding outcome
outcome-some (o, error) r h = subst (λ o. outcome (o, error) ≡ returned r) (sym h) refl

after_round-some :
    (again : Bool) (c next : Choice) (r : DnsExchangeResponse)
    → c.0 ≡ some r
    → after_round again c next ≡ returned r
unfolding after_round outcome
after_round-some again (o, error) next r h =
    subst (λ o. after_round again (o, error) next ≡ returned r) (sym h) refl

after_round-none :
    (again : Bool) (c next : Choice)
    → c.0 ≡ none
    → after_round again c next ≡ (if again then outcome next else err (exchange_error c.1))
unfolding after_round outcome
after_round-none again (o, error) next h =
    subst
      (λ o.
        after_round again (o, error) next
        ≡ (if again then outcome next else err (exchange_error error)))
      (sym h) refl

outcome-none : (c : Choice) → c.0 ≡ none → outcome c ≡ err (exchange_error c.1)
unfolding outcome
outcome-none (o, error) h =
    subst (λ o. outcome (o, error) ≡ err (exchange_error error)) (sym h) refl

-- A response without an error is returned where one came in: the first of its round that has priority
-- 0, which ends the round, or one of a round without priority 0 that no other of the round is better
-- than. A round in which all failed is followed by one without the relay if there was a relay and the
-- fallback is on; otherwise, or when that round fails as well, an error is returned.
pub dns_exchange-IsBest :
    (arrivals : Bool → List DnsExchangeResponse) (relay fallback : Bool)
    → ((best : DnsExchangeResponse) × IsBest best (arrivals relay)
        × (dns_exchange arrivals relay fallback ≡ returned best))
      ⊎ (All HasError (arrivals relay)
          × (((relay && fallback ≡ true)
                × (best : DnsExchangeResponse) × IsBest best (arrivals false)
                × (dns_exchange arrivals relay fallback ≡ returned best))
              ⊎ (((relay && fallback ≡ false) ⊎ All HasError (arrivals false))
                  × (x : Error) × (dns_exchange arrivals relay fallback ≡ err x))))
unfolding dns_exchange after_round
dns_exchange-IsBest arrivals relay fallback =
    let first = choose_loop (arrivals relay) (none, none) in
    let next = choose_loop (arrivals false) (none, none) in
    elim (choose_loop-Picked (arrivals relay)) [
      | inr (best, e, b) ↦ inl (best, b, after_round-some (relay && fallback) first next best e)
      | inl (e, all) ↦
          inr (all, second (relay && fallback) first next e (choose_loop-Picked (arrivals false)))
    ]
  where
    second :
        (again : Bool) (first next : Choice)
        → first.0 ≡ none
        → Picked next (arrivals false)
        → ((again ≡ true)
            × (best : DnsExchangeResponse) × IsBest best (arrivals false)
            × (after_round again first next ≡ returned best))
          ⊎ (((again ≡ false) ⊎ All HasError (arrivals false))
              × (x : Error) × (after_round again first next ≡ err x))
    second false first next e c =
        inr (inl refl, exchange_error first.1, after_round-none false first next e)
    second true first next e (inr (best, e', b)) =
        inl (refl, best, b, after_round-none true first next e ∙ outcome-some next best e')
    second true first next e (inl (e', all)) =
        inr (
          inr all,
          exchange_error next.1,
          after_round-none true first next e ∙ outcome-none next e',
        )

-- ===== src/Exchange/Finals.antt =====
-- dnsutils.go, `DNSExchange`: what the loop ends with, from a best response on.
use sourcegraph_testing_dnsc.Base.{
  All, Any, Bool-cases, Error, List, Option, Option-cases, [], ap, arith, false, inl, inr, none,
  refl, some, true, ℕ, ◌==◌, ◌∙◌, ◌∷◌, ◌≡◌, ◌≢◌, ◌⊎◌,
}
use sourcegraph_testing_dnsc.Exchange.{Choice, DnsExchangeResponse, better, choose_loop}
use sourcegraph_testing_dnsc.Exchange.Steps.{
  Ahead-kept, Ahead-new, Ahead-trans, AtLeastAsGood, choose_error, choose_kept, choose_last,
  choose_new, choose_nil,
}

all_of : {A : Type 0} (P : A → Type 0) (xs : List A) → ((x : A) → P x) → All P xs
all_of P [] f = tt
all_of P (x ∷ xs) f = (f x, all_of P xs f)

-- The response that is chosen after `best`.
pub record Final (c : Choice) (best : DnsExchangeResponse) (rs : List DnsExchangeResponse)
    : Type 0 where
  pub final : DnsExchangeResponse
  pub chosen : c.0 ≡ some final
  pub among : (final ≡ best) ⊎ Any (λ r. final ≡ r) rs
  pub no_error : final.error ≡ none
  pub after_best : AtLeastAsGood final best
  pub as_good : All (AtLeastAsGood final) rs

-- The next response is an error, no better than the best one before, or in its place.
pub Final-error :
    (c c' : Choice) (r best : DnsExchangeResponse) (rs : List DnsExchangeResponse) (x : Error)
    → r.error ≡ some x
    → c' ≡ c
    → Final c best rs
    → Final c' best (r ∷ rs)
Final-error c c' r best rs x h same f = record {
  final = f.final;
  chosen = ap (λ t. t.0) same ∙ f.chosen;
  among = elim f.among [ inl m ↦ inl m | inr m ↦ inr (inr m) ];
  no_error = f.no_error;
  after_best = f.after_best;
  as_good = (λ g. absurd (error_none r.error x g h), f.as_good);
}
  where
    error_none : (o : Option Error) (x : Error) → o ≡ none → o ≡ some x → ⊥
    error_none o x g h = cc

Final-kept :
    (c c' : Choice) (r best : DnsExchangeResponse) (rs : List DnsExchangeResponse)
    → best.error ≡ none
    → best.priority ≢ 0
    → AtLeastAsGood best r
    → c' ≡ c
    → Final c best rs
    → Final c' best (r ∷ rs)
Final-kept c c' r best rs h n g same f = record {
  final = f.final;
  chosen = ap (λ t. t.0) same ∙ f.chosen;
  among = elim f.among [ inl m ↦ inl m | inr m ↦ inr (inr m) ];
  no_error = f.no_error;
  after_best = f.after_best;
  as_good = (λ x. Ahead-trans _ _ _ _ _ _ (f.after_best h) (g x) n, f.as_good);
}

pub Final-new :
    (c c' : Choice) (r best : DnsExchangeResponse) (rs : List DnsExchangeResponse)
    → r.error ≡ none
    → r.priority ≢ 0
    → AtLeastAsGood r best
    → c' ≡ c
    → Final c r rs
    → Final c' best (r ∷ rs)
Final-new c c' r best rs h n g same f = record {
  final = f.final;
  chosen = ap (λ t. t.0) same ∙ f.chosen;
  among = inr f.among;
  no_error = f.no_error;
  after_best = λ x. Ahead-trans _ _ _ _ _ _ (f.after_best h) (g x) n;
  as_good = (f.after_best, f.as_good);
}

pub not_zero : (n : ℕ) → (n == 0) ≡ false → n ≢ 0
not_zero n h e = ground arith

pub is_zero : (n : ℕ) → (n == 0) ≡ true → n ≡ 0
is_zero n h = ground arith

pub Final-last :
    (c : Choice) (r best : DnsExchangeResponse) (rs : List DnsExchangeResponse)
    → r.error ≡ none
    → r.priority ≡ 0
    → c.0 ≡ some r
    → Final c best (r ∷ rs)
Final-last c r best rs h z same = record {
  final = r;
  chosen = same;
  among = inr (inl refl);
  no_error = h;
  after_best = λ x. inl z;
  as_good = (λ x. inl z, all_of (AtLeastAsGood r) rs (λ x y. inl z));
}

-- With a best response that the loop goes on from.
pub choose_from :
    (rs : List DnsExchangeResponse) (best : DnsExchangeResponse) (error : Option Error)
    → best.error ≡ none
    → best.priority ≢ 0
    → Final (choose_loop rs (some best, error)) best rs
unfolding better
choose_from [] best error h n = record {
  final = best;
  chosen = choose_nil best error;
  among = inl refl;
  no_error = h;
  after_best = λ x. inr (inr (refl, omega arith));
  as_good = tt;
}
choose_from (r ∷ rs) best error h n = elim (Option-cases r.error) [
  | inr (x, e) ↦
      Final-error _ _ r best rs x e (choose_error r rs (some best) error x e)
        (choose_from rs best (some x) h n)
  | inl e ↦ elim (Bool-cases (better r (some best))) [
    | inr k ↦
        Final-kept _ _ r best rs h n (λ x. Ahead-kept best.priority best.rtt r.priority r.rtt k)
          (choose_kept r rs (some best) error e k) (choose_from rs best error h n)
    | inl k ↦ elim (Bool-cases (r.priority == 0)) [
      | inl z ↦
          Final-last _ r best rs e (is_zero r.priority z)
            (ap (λ t. t.0) (choose_last r rs (some best) error e k z))
      | inr z ↦
          Final-new _ _ r best rs e (not_zero r.priority z)
            (λ x. Ahead-new best.priority best.rtt r.priority r.rtt k)
            (choose_new r rs (some best) error e k z)
            (choose_from rs r error e (not_zero r.priority z))
    ]
  ]
]

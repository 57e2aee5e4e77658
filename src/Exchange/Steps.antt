-- ===== src/Exchange/Steps.antt =====
-- dnsutils.go, `DNSExchange`: the steps of the loop over the responses.
use sourcegraph_testing_dnsc.Base.{
  Error, List, Option, [], arith, false, inl, inr, ltb, none, refl, some, true, ℕ, ◌&&◌, ◌<◌, ◌==◌,
  ◌||◌, ◌∷◌, ◌≡◌, ◌≢◌, ◌≤◌, ◌⊎◌,
}
use sourcegraph_testing_dnsc.Exchange.{DnsExchangeResponse, better, choose_loop}

-- Priority and time of two responses: the first ends the loop, or it is preferred or as good.
abbrev pub Ahead : ℕ → ℕ → ℕ → ℕ → Type 0
Ahead p t q u = (p ≡ 0) ⊎ ((p < q) ⊎ ((p ≡ q) × (t ≤ u)))

abbrev pub AtLeastAsGood : DnsExchangeResponse → DnsExchangeResponse → Type 0
AtLeastAsGood x y = (y.error ≡ none) → Ahead x.priority x.rtt y.priority y.rtt

pub Ahead-trans : (p t q u r v : ℕ) → Ahead p t q u → Ahead q u r v → q ≢ 0 → Ahead p t r v
Ahead-trans p t q u r v (inl x) b n = inl x
Ahead-trans p t q u r v (inr x) (inl b) n = absurd (n b)
Ahead-trans p t q u r v (inr (inl x)) (inr (inl b)) n = inr (inl (omega arith))
Ahead-trans p t q u r v (inr (inl x)) (inr (inr b)) n = inr (inl (omega arith))
Ahead-trans p t q u r v (inr (inr x)) (inr (inl b)) n = inr (inl (omega arith))
Ahead-trans p t q u r v (inr (inr x)) (inr (inr b)) n = inr (inr (omega arith, omega arith))

pub Ahead-kept : (p t q u : ℕ) → (ltb q p || (q == p && ltb u t)) ≡ false → Ahead p t q u
Ahead-kept p t q u h = ground arith

pub Ahead-new : (p t q u : ℕ) → (ltb q p || (q == p && ltb u t)) ≡ true → Ahead q u p t
Ahead-new p t q u h = ground arith

pub choose_error :
    (r : DnsExchangeResponse) (rs : List DnsExchangeResponse) (best : Option DnsExchangeResponse)
    (error : Option Error) (x : Error)
    → r.error ≡ some x
    → choose_loop (r ∷ rs) (best, error) ≡ choose_loop rs (best, some x)
unfolding choose_loop
choose_error r rs best error x h = rw (choose_loop, h) refl

pub choose_kept :
    (r : DnsExchangeResponse) (rs : List DnsExchangeResponse) (best : Option DnsExchangeResponse)
    (error : Option Error)
    → r.error ≡ none
    → better r best ≡ false
    → choose_loop (r ∷ rs) (best, error) ≡ choose_loop rs (best, error)
unfolding choose_loop
choose_kept r rs best error h k = rw (choose_loop, h, k) refl

pub choose_last :
    (r : DnsExchangeResponse) (rs : List DnsExchangeResponse) (best : Option DnsExchangeResponse)
    (error : Option Error)
    → r.error ≡ none
    → better r best ≡ true
    → (r.priority == 0) ≡ true
    → choose_loop (r ∷ rs) (best, error) ≡ (some r, error)
unfolding choose_loop
choose_last r rs best error h k z = simp (choose_loop, h, k, z)

pub choose_new :
    (r : DnsExchangeResponse) (rs : List DnsExchangeResponse) (best : Option DnsExchangeResponse)
    (error : Option Error)
    → r.error ≡ none
    → better r best ≡ true
    → (r.priority == 0) ≡ false
    → choose_loop (r ∷ rs) (best, error) ≡ choose_loop rs (some r, error)
unfolding choose_loop
choose_new r rs best error h k z = simp (choose_loop, h, k, z)

pub choose_nil :
    (best : DnsExchangeResponse) (error : Option Error)
    → (choose_loop [] (some best, error)).0 ≡ some best
unfolding choose_loop
choose_nil best error = refl

pub choose_none : (error : Option Error) → (choose_loop [] (none, error)).0 ≡ none
unfolding choose_loop
choose_none error = refl

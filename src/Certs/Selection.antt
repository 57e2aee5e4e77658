-- ===== src/Certs/Selection.antt =====
-- dnscrypt_certs.go, `FetchCurrentDNSCryptCert`: which certificate the loop ends with.
use mathlib.Core.Path.{subst}
use sourcegraph_testing_dnsc.Base.{
  All, All-implies, Any, Bool-cases, List, Option-cases, [], ap, arith, err, false, inl, inr,
  no_usable_certificate, ok, refl, some, sym, true, ℕ, ◌<◌, ◌==◌, ◌∙◌, ◌∷◌, ◌≡◌, ◌⊎◌,
}
use sourcegraph_testing_dnsc.Dns.{Rr}
use sourcegraph_testing_dnsc.Certs.{
  Cert, CertEnv, CertInfo, CertState, answer_step, cert_of, consider, no_cert, rank, select,
  select_loop,
}
use sourcegraph_testing_dnsc.Certs.Order.{
  Before, Before-refl, Behind, Behind-trans, Considered, Core, Usable, consider-Considered, core,
  core_of,
}
use sourcegraph_testing_dnsc.Certs.Reading.{cert_of-rank, none-some, some_eq}

-- The record that a state comes from.
abbrev pub Source : CertEnv → Core → Rr → Type 0
Source env after rr =
    (cert : Cert) × (cert_of rr.rdata ≡ some cert) × Usable env cert × (after ≡ core_of env cert)

-- No usable certificate of the record is newer or of a better construction.
abbrev pub Covers : CertEnv → Core → Rr → Type 0
Covers env after rr =
    (cert : Cert) → cert_of rr.rdata ≡ some cert → Usable env cert → Before (core_of env cert) after

-- A part of the loop.
record Passed (env : CertEnv) (before after : Core) (rrs : List Rr) : Type 0 where
  advances : Before before after
  covers : All (Covers env after) rrs
  source : (after ≡ before) ⊎ Any (Source env after) rrs

Before-trans : (x y z : Core) → Before x y → Before y z → Before x z
Before-trans x y z h k = Behind-trans _ _ _ _ _ _ h k

Before-eq : (x y : Core) → y ≡ x → Before x y
Before-eq x y e = subst (λ t. Before x t) (sym e) (Before-refl x)

Passed-skip :
    (env : CertEnv) (x y : Core) (rr : Rr) (rrs : List Rr)
    → Covers env x rr
    → Passed env x y rrs
    → Passed env x y (rr ∷ rrs)
Passed-skip env x y rr rrs c p = record {
  advances = p.advances;
  covers = (λ cert e u. Before-trans (core_of env cert) x y (c cert e u) p.advances, p.covers);
  source = elim p.source [ inl e ↦ inl e | inr s ↦ inr (inr s) ];
}

Passed-take :
    (env : CertEnv) (x y z : Core) (rr : Rr) (rrs : List Rr)
    → Before x y
    → Covers env y rr
    → Source env y rr
    → Passed env y z rrs
    → Passed env x z (rr ∷ rrs)
Passed-take env x y z rr rrs b c (cert, e, u, same) p = record {
  advances = Before-trans x y z b p.advances;
  covers = (λ cert e u. Before-trans (core_of env cert) y z (c cert e u) p.advances, p.covers);
  source = elim p.source [ inl e' ↦ inr (inl (cert, e, u, e' ∙ same)) | inr s ↦ inr (inr s) ];
}

Covers-one :
    (env : CertEnv) (y : Core) (rr : Rr) (cert : Cert)
    → cert_of rr.rdata ≡ some cert
    → (Usable env cert → Before (core_of env cert) y)
    → Covers env y rr
Covers-one env y rr cert e f cert' e' u =
    let same = some_eq (sym e ∙ e') in
    subst (λ c. Before (core_of env c) y) same (f (subst (λ c. Usable env c) (sym same) u))

select_step-Passed :
    (env : CertEnv) (x y z : Core) (rr : Rr) (rrs : List Rr) (cert : Cert)
    → cert_of rr.rdata ≡ some cert
    → Considered env cert x y
    → Passed env y z rrs
    → Passed env x z (rr ∷ rrs)
select_step-Passed env x y z rr rrs cert e (inl (same, behind)) p =
    Passed-skip env x z rr rrs (Covers-one env x rr cert e behind)
      (subst (λ t. Passed env t z rrs) same p)
select_step-Passed env x y z rr rrs cert e (inr (same, usable, ahead)) p =
    Passed-take env x y z rr rrs (subst (λ t. Before x t) (sym same) ahead)
      (Covers-one env y rr cert e (λ u. Before-eq (core_of env cert) y same))
      (cert, e, usable, same) p

select_loop-Passed :
    (env : CertEnv) (rrs : List Rr) (st : CertState)
    → Passed env (core st) (core (select_loop env rrs st)) rrs
unfolding select_loop
select_loop-Passed env [] st = record {
  advances = Before-refl (core st);
  covers = tt;
  source = inl refl;
}
select_loop-Passed env (rr ∷ rrs) st = elim (Option-cases (cert_of rr.rdata)) [
  | inl e ↦
      Passed-skip env (core st) (core (select_loop env rrs (answer_step env (cert_of rr.rdata) st)))
        rr rrs (λ cert e' u. absurd (none-some (sym e ∙ e')))
        (subst (λ t. Passed env (core st) (core (select_loop env rrs (answer_step env t st))) rrs)
          (sym e) (select_loop-Passed env rrs st))
  | inr (cert, e) ↦
      subst
        (λ t. Passed env (core st) (core (select_loop env rrs (answer_step env t st))) (rr ∷ rrs))
        (sym e)
        (select_step-Passed env (core st) (core (consider env cert st)) _ rr rrs cert e
          (consider-Considered env cert st (cert_of-rank rr.rdata cert e))
          (select_loop-Passed env rrs (consider env cert st)))
]

Any-implies :
    {A : Type 0} (P Q : A → Type 0) (xs : List A) → ((x : A) → P x → Q x) → Any P xs → Any Q xs
Any-implies P Q [] f h = h
Any-implies P Q (x ∷ xs) f (inl h) = inl (f x h)
Any-implies P Q (x ∷ xs) f (inr h) = inr (Any-implies P Q xs f h)

-- The certificate is that of the record, usable, and no usable one of the answers is newer, or as
-- new with a better construction.
abbrev pub Best : CertEnv → List Rr → CertInfo → Rr → Type 0
Best env answers info rr =
    (cert : Cert) × (cert_of rr.rdata ≡ some cert)
    × Usable env cert
    × (info.server_pk ≡ cert.server_pk)
    × (info.shared_key ≡ env.compute_shared_key cert.construction cert.server_pk)
    × (info.magic_query ≡ cert.magic_query)
    × (info.crypto_construction ≡ cert.construction)
    × All (Covers env (core_of env cert)) answers

abbrev pub HasNone : CertEnv → Rr → Type 0
HasNone env rr = (cert : Cert) → cert_of rr.rdata ≡ some cert → Usable env cert → ⊥

no_rank : (n : ℕ) → (n == 0) ≡ true → n ≡ 0
no_rank n h = ground arith

some_rank : (n : ℕ) → (n == 0) ≡ false → 0 < n
some_rank n h = ground arith

Source-rank : (env : CertEnv) (z : Core) (rrs : List Rr) → Any (Source env z) rrs → 0 < rank (z.3)
Source-rank env z [] h = absurd h
Source-rank env z (rr ∷ rrs) (inl (cert, e, u, same)) =
    subst (λ t. 0 < rank (t.3)) (sym same) (some_rank _ (cert_of-rank rr.rdata cert e))
Source-rank env z (rr ∷ rrs) (inr h) = Source-rank env z rrs h

none_left :
    (env : CertEnv) (z : Core) (rr : Rr)
    → z.4 ≡ 0
    → rank (z.3) ≡ 0
    → Covers env z rr
    → HasNone env rr
none_left env z rr h r c cert e u =
    go _ _ _ _ h r (some_rank _ (cert_of-rank rr.rdata cert e)) (c cert e u)
  where
    go : (a s b t : ℕ) → b ≡ 0 → t ≡ 0 → 0 < s → Behind a s b t → ⊥
    go a s b t h r k (inl x) = omega arith
    go a s b t h r k (inr x) = omega arith

Best-of :
    (env : CertEnv) (answers : List Rr) (st : CertState)
    → All (Covers env (core st)) answers
    → (rr : Rr) → Source env (core st) rr
    → Best env answers st.cert_info rr
Best-of env answers st all rr (cert, e, u, same) = (
  cert,
  e,
  u,
  ap (λ t. t.0) same,
  ap (λ t. t.1) same,
  ap (λ t. t.2) same,
  ap (λ t. t.3) same,
  subst (λ t. All (Covers env t) answers) same all,
)

-- A certificate is returned where an answer has a usable one, and it is the newest of these, with
-- the better construction among the newest: its key, its magic and the shared key are kept
-- together. Without a usable one an error is returned. To be usable, a certificate is well-formed,
-- signed by the provider's key, ends after it begins, and is in time unless that is ignored.
pub select-Best :
    (env : CertEnv) (answers : List Rr)
    → ((info : CertInfo) × (select env answers ≡ ok info) × Any (Best env answers info) answers)
      ⊎ ((select env answers ≡ err no_usable_certificate) × All (HasNone env) answers)
unfolding select
select-Best env answers =
    let final = select_loop env answers no_cert in
    let passed = select_loop-Passed env answers no_cert in
    elim (Bool-cases (rank final.cert_info.crypto_construction == 0)) [
      | inl z ↦ inr (
        rw (select, z) refl,
        elim passed.source [
          | inl e ↦
              All-implies (Covers env (core final)) (HasNone env) answers
                (λ rr c. none_left env (core final) rr (ap (λ t. t.4) e) (no_rank _ z) c)
                passed.covers
          | inr s ↦ absurd (positive _ (Source-rank env (core final) answers s) (no_rank _ z))
        ],
      )
      | inr z ↦ inl (
        final.cert_info,
        rw (select, z) refl,
        elim passed.source [
          | inl e ↦ absurd (positive _ (some_rank _ z) (ap (λ t. rank (t.3)) e))
          | inr s ↦
              Any-implies (Source env (core final)) (Best env answers final.cert_info) answers
                (Best-of env answers final passed.covers) s
        ],
      )
    ]
  where
    positive : (n : ℕ) → 0 < n → n ≡ 0 → ⊥
    positive n h k = omega arith

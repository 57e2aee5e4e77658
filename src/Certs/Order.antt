-- ===== src/Certs/Order.antt =====
-- dnscrypt_certs.go: when a certificate takes the place of the one before.
use sourcegraph_testing_dnsc.Base.{
  Bool, Bool-cases, Bytes, arith, false, inl, inr, leb, ltb, not, refl, sym, true, ℕ, ◌&&◌, ◌<◌,
  ◌==◌, ◌||◌, ◌∙◌, ◌≡◌, ◌≤◌, ◌⊎◌,
}
use sourcegraph_testing_dnsc.Crypto.{CryptoConstruction}
use sourcegraph_testing_dnsc.Certs.{
  Cert, CertEnv, CertState, consider, in_time, mark_forward_security, rank, superseded, use_cert,
}

-- A certificate that may be used at all.
pub record Usable (env : CertEnv) (cert : Cert) : Type 0 where
  pub signed : env.verify cert.signed cert.signature ≡ true
  pub ordered : cert.ts_begin < cert.ts_end
  pub current :
      (env.cert_ignore_timestamp ≡ true) ⊎ ((cert.ts_begin ≤ env.now) × (env.now ≤ cert.ts_end))

-- A newer serial comes first, then the better construction.
abbrev pub Behind : ℕ → ℕ → ℕ → ℕ → Type 0
Behind a r b s = (a < b) ⊎ ((a ≡ b) × (r ≤ s))

pub Behind-trans : (a r b s c t : ℕ) → Behind a r b s → Behind b s c t → Behind a r c t
Behind-trans a r b s c t (inl x) (inl y) = inl (omega arith)
Behind-trans a r b s c t (inl x) (inr y) = inl (omega arith)
Behind-trans a r b s c t (inr x) (inl y) = inl (omega arith)
Behind-trans a r b s c t (inr x) (inr y) = inr (omega arith, omega arith)

abbrev pub Core : Type 0
Core = Bytes × Bytes × Bytes × CryptoConstruction × ℕ

-- A state without the note on the lifetime, and what a certificate makes of it.
abbrev pub core : CertState → Core
core st =
    let info = st.cert_info in
    (info.server_pk, info.shared_key, info.magic_query, info.crypto_construction, st.highest_serial)

abbrev pub core_of : CertEnv → Cert → Core
core_of env cert = (
  cert.server_pk,
  env.compute_shared_key cert.construction cert.server_pk,
  cert.magic_query,
  cert.construction,
  cert.serial,
)

-- By its core, a state is behind another.
abbrev pub Before : Core → Core → Type 0
Before x y = Behind (x.4) (rank (x.3)) (y.4) (rank (y.3))

pub Before-refl : (x : Core) → Before x x
Before-refl x = inr (refl, omega arith)

superseded_before : (a r b s : ℕ) → (ltb a b || (a == b && ltb r s)) ≡ true → Behind a r b s
superseded_before a r b s h = ground arith

not_superseded_before : (a r b s : ℕ) → (ltb a b || (a == b && ltb r s)) ≡ false → Behind b s a r
not_superseded_before a r b s h = ground arith

in_time_current :
    (env : CertEnv) (cert : Cert)
    → in_time env cert ≡ true
    → (env.cert_ignore_timestamp ≡ true) ⊎ ((cert.ts_begin ≤ env.now) × (env.now ≤ cert.ts_end))
unfolding in_time
in_time_current env cert h = go env.cert_ignore_timestamp env.now cert.ts_begin cert.ts_end h
  where
    go :
        (i : Bool) (now from to : ℕ)
        → (i || not (ltb to now || ltb now from)) ≡ true
        → (i ≡ true) ⊎ ((from ≤ now) × (now ≤ to))
    go true now from to h = inl refl
    go false now from to h = inr (ground arith, ground arith)

current_in_time :
    (env : CertEnv) (cert : Cert)
    → in_time env cert ≡ false
    → (env.cert_ignore_timestamp ≡ true) ⊎ ((cert.ts_begin ≤ env.now) × (env.now ≤ cert.ts_end))
    → ⊥
unfolding in_time
current_in_time env cert h c = go env.cert_ignore_timestamp env.now cert.ts_begin cert.ts_end h c
  where
    go :
        (i : Bool) (now from to : ℕ)
        → (i || not (ltb to now || ltb now from)) ≡ false
        → (i ≡ true) ⊎ ((from ≤ now) × (now ≤ to))
        → ⊥
    go true now from to h c = cc
    go false now from to h (inl x) = cc
    go false now from to h (inr x) = ground arith

-- A certificate is skipped, and then it may not be used or is behind the state; or else it may be
-- used, is not behind, and replaces the state.
abbrev pub Considered : CertEnv → Cert → Core → Core → Type 0
Considered env cert before after =
    ((after ≡ before) × (Usable env cert → Before (core_of env cert) before))
    ⊎ ((after ≡ core_of env cert) × Usable env cert × Before before (core_of env cert))

pub consider-Considered :
    (env : CertEnv) (cert : Cert) (st : CertState)
    → (rank cert.construction == 0) ≡ false
    → Considered env cert (core st) (core (consider env cert st))
unfolding consider mark_forward_security use_cert superseded
consider-Considered env cert st n = elim (Bool-cases (env.verify cert.signed cert.signature)) [
  | inr v ↦ rw (consider, v) (inl (refl, λ u. absurd (true_false (sym u.signed ∙ v))))
  | inl v ↦ elim (Bool-cases (leb cert.ts_end cert.ts_begin)) [
    | inl o ↦ rw (consider, v, o) (inl (refl, λ u. absurd (backwards _ _ o u.ordered)))
    | inr o ↦ elim (Bool-cases (in_time env cert)) [
      | inr t ↦
          rw (consider, v, o, t) (inl (refl, λ u. absurd (current_in_time env cert t u.current)))
      | inl t ↦ elim (Bool-cases (superseded cert (mark_forward_security cert st))) [
        | inl s ↦ rw (consider, v, o, t, s) (inl (refl, λ u. superseded_before _ _ _ _ s))
        | inr s ↦
            rw (consider, v, o, t, s, n)
              (inr (
                refl,
                record {
                  signed = v;
                  ordered = forwards _ _ o;
                  current = in_time_current env cert t;
                },
                not_superseded_before _ _ _ _ s,
              ))
      ]
    ]
  ]
]
  where
    true_false : true ≡ false → ⊥
    true_false e = cc

    backwards : (x y : ℕ) → leb x y ≡ true → y < x → ⊥
    backwards x y h k = ground arith

    forwards : (x y : ℕ) → leb x y ≡ false → y < x
    forwards x y h = ground arith

-- ===== src/Certs/Reading.antt =====
-- dnscrypt_certs.go: a certificate that is read has a construction.
use mathlib.Core.Path.{subst}
use sourcegraph_testing_dnsc.Base.{
  Bool-cases, Bytes, Option, ap, bytes_eq, false, inl, inr, length, ltb, none, not, refl, some,
  take, ℕ, ◌==◌, ◌≡◌,
}
use sourcegraph_testing_dnsc.Common.{cert_magic}
use sourcegraph_testing_dnsc.Crypto.{CryptoConstruction}
use sourcegraph_testing_dnsc.Dns.{
  Rdata, a_rr, aaaa_rr, cname, hinfo, https, opt, other, ptr, soa, svcb, txt,
}
use sourcegraph_testing_dnsc.Dns.CertText.{pack_txt_rr}
use sourcegraph_testing_dnsc.Certs.{
  Cert, big_endian, cert_of, construction_of, joined, rank, read_cert, read_construction, slice,
}

pub some_eq : {A : Type 0} {x y : A} → some x ≡ some y → x ≡ y
some_eq {x = x} e = ap (λ o. elim o [ none ↦ x | some t ↦ t ]) e

pub none-some : {A : Type 0} {x : A} → none ≡ some x → ⊥
none-some e = cc

abbrev Known : Option CryptoConstruction → Type 0
Known none = Unit {0}
Known (some c) = (rank c == 0) ≡ false

construction_of-Known : (v : ℕ) → Known (construction_of v)
construction_of-Known v = elim (Bool-cases (v == 1)) [
  | inl e ↦ rw e refl
  | inr e ↦ elim (Bool-cases (v == 2)) [ inl f ↦ rw (e, f) refl | inr f ↦ rw (e, f) tt ]
]

read_construction-rank :
    (bin_cert : Bytes) (o : Option CryptoConstruction) (cert : Cert)
    → Known o
    → read_construction bin_cert o ≡ some cert
    → (rank cert.construction == 0) ≡ false
unfolding read_construction
read_construction-rank bin_cert none cert k h = absurd (none-some h)
read_construction-rank bin_cert (some c) cert k h =
    subst (λ c'. (rank c' == 0) ≡ false) (ap (λ x. x.construction) (some_eq h)) k

read_cert-rank :
    (bin_cert : Bytes) (cert : Cert)
    → read_cert bin_cert ≡ some cert
    → (rank cert.construction == 0) ≡ false
unfolding read_cert
read_cert-rank bin_cert cert h = elim (Bool-cases (ltb (length bin_cert) 124)) [
  | inl e ↦ absurd (none-some (rw (read_cert, e) at h))
  | inr e ↦ elim (Bool-cases (not (bytes_eq (take 4 bin_cert) cert_magic))) [
    | inl f ↦ absurd (none-some (rw (read_cert, e, f) at h))
    | inr f ↦
        let v = big_endian 0 (slice 4 6 bin_cert) in
        read_construction-rank bin_cert (construction_of v) cert (construction_of-Known v)
          (rw (read_cert, e, f) at h)
  ]
]

pub cert_of-rank :
    (rdata : Rdata) (cert : Cert)
    → cert_of rdata ≡ some cert
    → (rank cert.construction == 0) ≡ false
unfolding cert_of
cert_of-rank (txt parts) cert h = read_cert-rank (pack_txt_rr (joined parts)) cert h
cert_of-rank (a_rr ip) cert h = absurd (none-some h)
cert_of-rank (aaaa_rr ip) cert h = absurd (none-some h)
cert_of-rank (cname target) cert h = absurd (none-some h)
cert_of-rank (ptr target) cert h = absurd (none-some h)
cert_of-rank (hinfo cpu os) cert h = absurd (none-some h)
cert_of-rank (svcb priority rest) cert h = absurd (none-some h)
cert_of-rank (https priority rest) cert h = absurd (none-some h)
cert_of-rank (opt options) cert h = absurd (none-some h)
cert_of-rank (soa ns mbox numbers) cert h = absurd (none-some h)
cert_of-rank (other bytes) cert h = absurd (none-some h)

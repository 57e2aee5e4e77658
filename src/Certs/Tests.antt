-- ===== src/Certs/Tests.antt =====
-- dnscrypt_certs.go: runs at concrete inputs, with every signature taken for good.
use sourcegraph_testing_dnsc.Base.{
  All, Any, Bytes, List, [], err, false, no_usable_certificate, ok, replicate, true, ℕ, ◌++◌, ◌∷◌,
  ◌≡◌, ◌⊎◌,
}
use sourcegraph_testing_dnsc.Common.{cert_magic}
use sourcegraph_testing_dnsc.Dns.{Rr, class_inet, txt, type_txt}
use sourcegraph_testing_dnsc.Dns.CertText.{escape}
use sourcegraph_testing_dnsc.Certs.{CertEnv, CertInfo, select}
use sourcegraph_testing_dnsc.Certs.Selection.{Best, HasNone, select-Best}

abbrev env : CertEnv
env = record {
  verify = λ signed signature. true;
  compute_shared_key = λ c pk. pk;
  now = 1000;
  cert_ignore_timestamp = false;
}

-- A certificate of a version, a serial and an end, with the public key of bytes `k`, as text.
abbrev cert_text : ℕ → ℕ → ℕ → ℕ → Bytes
cert_text version serial k end = escape (
    cert_magic
    ++ ((0 ∷ version ∷ 0 ∷ 0 ∷ [])
        ++ (replicate 64 1
            ++ (replicate 32 k
                ++ (replicate 8 k
                    ++ ((0 ∷ 0 ∷ 0 ∷ serial ∷ [])
                        ++ ((0 ∷ 0 ∷ 0 ∷ 0 ∷ []) ++ (0 ∷ 0 ∷ end ∷ 0 ∷ []))))))))

abbrev cert_rr : Bytes → Rr
cert_rr text = record {
  header = record { name = []; rrtype = type_txt; class = class_inet; ttl = 0 };
  rdata = txt (text ∷ []);
}

-- The third has the highest serial, but it has ended.
abbrev answers : List Rr
answers =
    cert_rr (cert_text 1 5 11 100)
    ∷ cert_rr (cert_text 2 5 12 100)
    ∷ cert_rr (cert_text 2 9 13 1)
    ∷ []

select-Best_example :
    ((info : CertInfo) × (select env answers ≡ ok info) × Any (Best env answers info) answers)
    ⊎ ((select env answers ≡ err no_usable_certificate) × All (HasNone env) answers)
select-Best_example = select-Best env answers

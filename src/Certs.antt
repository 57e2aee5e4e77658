-- ===== src/Certs.antt =====
-- dnscrypt-proxy/dnscrypt_certs.go: fetching the certificates of a server, and which is used.
-- The exchange is Exchange's; the signature check and the key exchange are of other libraries.
pub mod Order
mod Reading
pub mod Selection
mod Tests
use sourcegraph_testing_dnsc.Base.{
  Bool, Bytes, List, Option, Result, [], bytes_eq, codes, drop, err, false, has_prefix, has_suffix,
  if◌then◌else◌, invalid_key_length, leb, length, ltb, no_usable_certificate, none, not, ok,
  replicate, some, take, ℕ, ◌&&◌, ◌*◌, ◌++◌, ◌+◌, ◌-◌, ◌/◌, ◌==◌, ◌^◌, ◌||◌, ◌∷◌,
}
use sourcegraph_testing_dnsc.Common.{cert_magic}
use sourcegraph_testing_dnsc.Crypto.{
  CryptoConstruction, undefined_construction, xchacha20_poly1305, xsalsa20_poly1305,
}
use sourcegraph_testing_dnsc.Dns.{
  Msg, Rdata, Rr, a_rr, aaaa_rr, cname, hinfo, https, opt, other, ptr, soa, svcb, txt,
}
use sourcegraph_testing_dnsc.Dns.CertText.{pack_txt_rr}

pub record CertInfo : Type 0 where
  pub server_pk : Bytes
  pub shared_key : Bytes
  pub magic_query : Bytes
  pub crypto_construction : CryptoConstruction
  pub forward_security : Bool

-- The variables of the loop over the answers.
pub record CertState : Type 0 where
  pub cert_info : CertInfo
  pub highest_serial : ℕ

-- A certificate as it is read.
pub record Cert : Type 0 where
  pub construction : CryptoConstruction
  pub signature : Bytes
  pub signed : Bytes
  pub server_pk : Bytes
  pub magic_query : Bytes
  pub serial : ℕ
  pub ts_begin : ℕ
  pub ts_end : ℕ

-- What the loop is given: `ed25519.Verify` for the provider's key, `ComputeSharedKey` with the
-- proxy's secret key, the time, and the option to ignore it.
pub record CertEnv : Type 0 where
  pub verify : Bytes → Bytes → Bool
  pub compute_shared_key : CryptoConstruction → Bytes → Bytes
  pub now : ℕ
  pub cert_ignore_timestamp : Bool

abbrev slice : ℕ → ℕ → Bytes → Bytes
slice from to s = take (to - from) (drop from s)

-- `binary.BigEndian` on a slice of two or four bytes.
abbrev big_endian : ℕ → Bytes → ℕ
big_endian n [] = n
big_endian n (b ∷ s) = big_endian (n * 2 ^ 8 + b) s

abbrev construction_of : ℕ → Option CryptoConstruction
construction_of v =
    if v == 1 then some xsalsa20_poly1305 else if v == 2 then some xchacha20_poly1305 else none

-- The numbers of the constants.
abbrev pub rank : CryptoConstruction → ℕ
rank undefined_construction = 0
rank xsalsa20_poly1305 = 1
rank xchacha20_poly1305 = 2

read_construction : Bytes → Option CryptoConstruction → Option Cert
read_construction bin_cert none = none
read_construction bin_cert (some c) = some (record {
  construction = c;
  signature = slice 8 72 bin_cert;
  signed = drop 72 bin_cert;
  server_pk = slice 72 104 bin_cert;
  magic_query = slice 104 112 bin_cert;
  serial = big_endian 0 (slice 112 116 bin_cert);
  ts_begin = big_endian 0 (slice 116 120 bin_cert);
  ts_end = big_endian 0 (slice 120 124 bin_cert);
})

-- The checks of the size, the magic and the version.
unfoldable pub read_cert : Bytes → Option Cert
unfolding read_construction
read_cert bin_cert =
    if ltb (length bin_cert) 124
    then none
    else if not (bytes_eq (take 4 bin_cert) cert_magic)
    then none
    else read_construction bin_cert (construction_of (big_endian 0 (slice 4 6 bin_cert)))

abbrev joined : List Bytes → Bytes
joined [] = []
joined (s ∷ ss) = s ++ joined ss

-- The text of a TXT record; other records are skipped.
unfoldable pub cert_of : Rdata → Option Cert
cert_of (txt parts) = read_cert (pack_txt_rr (joined parts))
cert_of (a_rr ip) = none
cert_of (aaaa_rr ip) = none
cert_of (cname target) = none
cert_of (ptr target) = none
cert_of (hinfo cpu os) = none
cert_of (svcb priority rest) = none
cert_of (https priority rest) = none
cert_of (opt options) = none
cert_of (soa ns mbox numbers) = none
cert_of (other bytes) = none

-- Whether a certificate is long-lived is noted before it is looked at further.
mark_forward_security : Cert → CertState → CertState
mark_forward_security cert st = record {
  cert_info = record st.cert_info {
    forward_security = not (ltb (86400 * 7) (cert.ts_end - cert.ts_begin));
  };
  highest_serial = st.highest_serial;
}

use_cert : CertEnv → Cert → CertState → CertState
use_cert env cert st = record {
  cert_info = record {
    server_pk = cert.server_pk;
    shared_key = env.compute_shared_key cert.construction cert.server_pk;
    magic_query = cert.magic_query;
    crypto_construction = cert.construction;
    forward_security = st.cert_info.forward_security;
  };
  highest_serial = cert.serial;
}

in_time : CertEnv → Cert → Bool
in_time env cert =
    env.cert_ignore_timestamp || not (ltb cert.ts_end env.now || ltb env.now cert.ts_begin)

-- `Superseded by a previous certificate`, or of the same serial and a construction that is behind.
superseded : Cert → CertState → Bool
superseded cert st =
    ltb cert.serial st.highest_serial
    || (cert.serial == st.highest_serial
        && ltb (rank cert.construction) (rank st.cert_info.crypto_construction))

-- The body of the loop from the signature on.
pub consider : CertEnv → Cert → CertState → CertState
unfolding mark_forward_security use_cert in_time superseded
consider env cert st =
    let marked = mark_forward_security cert st in
    if not (env.verify cert.signed cert.signature)
    then st
    else if leb cert.ts_end cert.ts_begin
    then st
    else if not (in_time env cert)
    then marked
    else if superseded cert marked
    then marked
    else if rank cert.construction == 0
    then marked
    else use_cert env cert marked

abbrev answer_step : CertEnv → Option Cert → CertState → CertState
answer_step env none st = st
answer_step env (some cert) st = consider env cert st

unfoldable pub select_loop : CertEnv → List Rr → CertState → CertState
unfolding consider
select_loop env [] st = st
select_loop env (rr ∷ rrs) st = select_loop env rrs (answer_step env (cert_of rr.rdata) st)

abbrev zeros : ℕ → Bytes
zeros n = replicate n 0

abbrev pub no_cert : CertState
no_cert = record {
  cert_info = record {
    server_pk = zeros 32;
    shared_key = zeros 32;
    magic_query = zeros 8;
    crypto_construction = undefined_construction;
    forward_security = false;
  };
  highest_serial = 0;
}

unfoldable pub select : CertEnv → List Rr → Result CertInfo
unfolding select_loop
select env answers =
    let info = (select_loop env answers no_cert).cert_info in
    if rank info.crypto_construction == 0 then err no_usable_certificate else ok info

-- The name that is asked for.
abbrev dotted : Bytes → Bytes
dotted name = if has_suffix name (codes ".") then name else name ++ codes "."

-- Whether the relay is kept: it is dropped for a name that is not standard, unless a relay must not
-- be gone around.
abbrev keeps_relay : Bytes → Bool → Bool → Bool
keeps_relay name relay fallback =
    if has_prefix name (codes "2.dnscrypt-cert.") then relay else relay && not fallback

-- `FetchCurrentDNSCryptCert`: the exchange is given the name, the relay and whether to try
-- fragments. The result has the certificate, the time in ms and whether fragments are blocked.
unfoldable pub fetch_current_dnscrypt_cert :
    (Bytes → Bool → Bool → Result (Msg × ℕ × Bool))
    → CertEnv
    → Bytes
    → Bytes
    → Bool
    → Bool
    → Bool
    → Result (CertInfo × ℕ × Bool)
fetch_current_dnscrypt_cert exchange env pk provider_name relay fallback fragments_blocked =
    let name = dotted provider_name in
    let answered = exchange name (keeps_relay name relay fallback) (not fragments_blocked) in
    if not (length pk == 32) then err invalid_key_length else elim answered [
      | err e ↦ err e
      | ok (msg, rtt, blocked) ↦ elim (select env msg.answer) [
        | err e ↦ err e
        | ok info ↦ ok (info, rtt / 1000000, blocked)
      ]
    ]

-- ===== src/Odoh.antt =====
-- dnscrypt-proxy/oblivious_doh.go: the configurations of a target, and the messages exchanged with it.
-- The package for HPKE is an argument. A slice may reach into what is left of its array beyond its
-- length, which is an argument too; `none` is a panic, by a slice or an index out of range.
pub mod Configs
pub mod Messages
mod Tests
use sourcegraph_testing_dnsc.Base.{
  Bool, Bytes, List, Option, Result, [], codes, decryption_failed, drop, encryption_failed, err,
  false, get_elem?, if◌then◌else◌, leb, length, ltb, malformed, none, not, ok, some, suc, take,
  true, unsupported_suite, zero, ℕ, ◌%◌, ◌&&◌, ◌++◌, ◌+◌, ◌-◌, ◌/◌, ◌==◌, ◌>>=◌, ◌^◌, ◌||◌, ◌∷◌,
}
use sourcegraph_testing_dnsc.Dns.Padding.{byte_at}
use sourcegraph_testing_dnsc.Common.{uint16}

pub record Hpke : Type 1 where
  pub Suite : Type 0
  pub Context : Type 0
  pub new_suite : ℕ → ℕ → ℕ → Option Suite
  pub new_client_context : Suite → Bytes → Option (Context × Bytes)
  pub extract : Suite → Bytes → Bytes → Bytes
  pub expand : Suite → Bytes → Bytes → ℕ → Option Bytes
  pub hash_size : Suite → ℕ
  pub key_bytes : Suite → ℕ
  pub nonce_bytes : Suite → ℕ
  pub encrypt_to_server : Context → Bytes → Bytes → Option Bytes
  pub export_secret : Context → Bytes → ℕ → Option Bytes
  pub new_raw_cipher : Suite → Bytes → Option (Bytes → Bytes → Bytes → Option Bytes)

pub record OdohTargetConfig (Suite : Type 0) : Type 0 where
  pub suite : Suite
  pub key_id : Bytes
  pub public_key : Bytes

pub record OdohQuery (Suite Context : Type 0) : Type 0 where
  pub suite : Suite
  pub ctx : Context
  pub odoh_plaintext : Bytes
  pub odoh_message : Bytes

abbrev pub odoh_version : ℕ
odoh_version = 0x0001

abbrev pub odoh_test_version : ℕ
odoh_test_version = 0xff06

abbrev pub max_odoh_configs : ℕ
max_odoh_configs = 10

-- `s[lo:hi]`, where `spare` follows `s` in its array.
unfoldable pub slice : Bytes → Bytes → ℕ → ℕ → Option Bytes
slice s spare lo hi =
    if leb lo hi && leb hi (length s + length spare)
    then some (take (hi - lo) (drop lo (s ++ spare)))
    else none

-- Two bytes at an index.
abbrev pub uint16_at : Bytes → ℕ → ℕ
uint16_at s i = uint16 (drop i s)

abbrev pub two_bytes : ℕ → Bytes
two_bytes n = n / 256 % 256 ∷ n % 256 ∷ []

unfoldable pub encode_length_value : Bytes → Bytes
encode_length_value b = two_bytes (length b) ++ b

-- What a loop over the configurations ends with.
pub data Parsed (A : Type 0) : Type 0 where
  out_of_fuel panicked : Parsed A
  parsed : List A → Parsed A

module _ (h : Hpke) where
  open h use {
    Suite, Context, new_suite, new_client_context, extract, expand, hash_size, key_bytes,
    nonce_bytes, encrypt_to_server, export_secret, new_raw_cipher,
  }

  unfoldable pub parse_odoh_target_config : Bytes → Result (OdohTargetConfig Suite)
  unfolding encode_length_value
  parse_odoh_target_config config =
      let public_key = drop 8 config in
      if ltb (length config) 8
      then err malformed
      else if not (length public_key == uint16_at config 6)
      then err malformed
      else elim (new_suite (uint16_at config 0) (uint16_at config 2) (uint16_at config 4)) [
        | none ↦ err unsupported_suite
        | some suite ↦ elim (new_client_context suite public_key) [
          | none ↦ err encryption_failed
          | some context ↦
              elim (expand suite (extract suite config []) (codes "odoh key id")
                (hash_size suite)) [
                  | none ↦ err encryption_failed
                  | some key_id ↦ ok (record {
                    suite = suite;
                    key_id = encode_length_value key_id;
                    public_key = public_key;
                  })
                ]
        ]
      ]

  abbrev is_known : ℕ → Bool
  is_known version = version == odoh_version || version == odoh_test_version

  abbrev with_target :
      List (OdohTargetConfig Suite)
      → Result (OdohTargetConfig Suite)
      → List (OdohTargetConfig Suite)
  with_target targets (err e) = targets
  with_target targets (ok target) = targets ++ target ∷ []

  -- One round reads the configuration at the offset.
  unfoldable pub configs_loop :
      ℕ → Bytes → Bytes → ℕ → List (OdohTargetConfig Suite) → Parsed (OdohTargetConfig Suite)
  configs_loop zero configs spare offset targets = out_of_fuel
  configs_loop (suc fuel) configs spare offset targets =
      let config_length = uint16_at configs (offset + 2) in
      let after = offset + config_length + 4 in
      elim (ltb (length configs) (offset + 4) || leb max_odoh_configs (length targets)) [
        | true ↦ parsed targets
        | false ↦ elim (is_known (uint16_at configs offset)) [
          | false ↦ configs_loop fuel configs spare after targets
          | true ↦ elim (slice configs spare (offset + 4) (offset + 4 + config_length)) [
            | none ↦ panicked
            | some config ↦
                configs_loop fuel configs spare after
                  (with_target targets (parse_odoh_target_config config))
          ]
        ]
      ]

  -- Each round moves the offset by four bytes or more, so that the length is fuel enough.
  unfoldable pub parse_odoh_target_configs :
      Bytes → Bytes → Result (Parsed (OdohTargetConfig Suite))
  unfolding configs_loop
  parse_odoh_target_configs configs spare =
      if leb (length configs) 2
      then err malformed
      else if not (length configs == uint16 configs + 2)
      then err malformed
      else ok (configs_loop (length configs) configs spare 2 [])

  unfoldable pub encrypt_query : OdohTargetConfig Suite → Bytes → Result (OdohQuery Suite Context)
  unfolding encode_length_value
  encrypt_query t query =
      let odoh_plaintext = two_bytes (length query) ++ query ++ 0 ∷ 0 ∷ [] in
      let aad = 0x01 ∷ t.key_id in
      elim (new_client_context t.suite t.public_key) [
        | none ↦ err encryption_failed
        | some (context, encrypted_shared_secret) ↦
            elim (encrypt_to_server context odoh_plaintext aad) [
              | none ↦ err encryption_failed
              | some ciphertext ↦ ok (record {
                suite = t.suite;
                ctx = context;
                odoh_plaintext = odoh_plaintext;
                odoh_message = aad ++ encode_length_value (encrypted_shared_secret ++ ciphertext);
              })
            ]
      ]

  -- The loop over the padding, which reads the response where its plaintext is meant.
  unfoldable pub padding_loop : Bytes → ℕ → ℕ → Option Bool
  padding_loop response zero i = some true
  padding_loop response (suc left) i = elim (get_elem? response i) [
    | none ↦ none
    | some b ↦ elim (padding_loop response left (i + 1)) [
      | none ↦ none
      | some valid ↦ some (b == 0 && valid)
    ]
  ]

  unfoldable pub read_plaintext : Bytes → Bytes → Bytes → Option (Result Bytes)
  unfolding padding_loop slice
  read_plaintext response plaintext spare = do
    size ← slice plaintext spare 0 2
    let n = uint16 size
    valid ← padding_loop response (length plaintext - (4 + n)) (4 + n)
    if valid
        then elim (slice plaintext spare 2 (2 + n)) [ none ↦ none | some r ↦ some (ok r) ]
        else some (err malformed)

  -- The cipher of a response, from the secret of the query and the nonce of the response.
  unfoldable pub response_cipher :
      OdohQuery Suite Context → Bytes → Result ((Bytes → Bytes → Option Bytes))
  response_cipher q response_nonce_enc =
      elim (export_secret q.ctx (codes "odoh response") (key_bytes q.suite)) [
        | none ↦ err decryption_failed
        | some secret ↦
            let prk = extract q.suite secret (q.odoh_plaintext ++ response_nonce_enc) in
            elim (expand q.suite prk (codes "odoh key") (key_bytes q.suite)) [
              | none ↦ err decryption_failed
              | some key ↦ elim (expand q.suite prk (codes "odoh nonce") (nonce_bytes q.suite)) [
                | none ↦ err decryption_failed
                | some nonce ↦ elim (new_raw_cipher q.suite key) [
                  | none ↦ err decryption_failed
                  | some unseal ↦ ok (unseal nonce)
                ]
              ]
            ]
      ]

  -- What follows the test of the type, for a nonce of the length that the response states.
  unfoldable pub decrypt_with :
      OdohQuery Suite Context → Bytes → Bytes → Bytes → ℕ → Option (Result Bytes)
  decrypt_with q response spare plaintext_spare nonce_length =
      let ct = drop (5 + nonce_length) response in
      if ltb (length response) (5 + nonce_length)
      then some (err malformed)
      else elim (slice response spare 1 ((3 + nonce_length) % 2 ^ 16)) [
        | none ↦ none
        | some response_nonce_enc ↦ elim (response_cipher q response_nonce_enc) [
          | err e ↦ some (err e)
          | ok unseal ↦
              if not (uint16_at response (3 + nonce_length) == length ct)
              then some (err malformed)
              else elim (unseal ct (take (3 + nonce_length) response)) [
                | none ↦ some (err decryption_failed)
                | some plaintext ↦ read_plaintext response plaintext plaintext_spare
              ]
        ]
      ]

  unfoldable pub decrypt_response :
      OdohQuery Suite Context → Bytes → Bytes → Bytes → Option (Result Bytes)
  decrypt_response q response spare plaintext_spare =
      if ltb (length response) 3
      then some (err malformed)
      else if not (byte_at response 0 == 0x02)
      then some (err malformed)
      else decrypt_with q response spare plaintext_spare (uint16_at response 1)

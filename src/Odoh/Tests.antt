-- ===== src/Odoh/Tests.antt =====
-- oblivious_doh.go at concrete inputs, over primitives that seal by adding sixteen bytes.
use sourcegraph_testing_dnsc.Base.{
  Bytes, Error, Option, [], arith, codes, err, length, malformed, ok, refl, replicate, some, take,
  ℕ, ◌++◌, ◌-◌, ◌∷◌, ◌≡◌, ◌⊎◌,
}
use sourcegraph_testing_dnsc.Odoh.{
  Hpke, OdohQuery, OdohTargetConfig, Parsed, configs_loop, decrypt_response, encode_length_value,
  panicked, parse_odoh_target_config, parse_odoh_target_configs, parsed, response_cipher, slice,
  two_bytes,
}
use sourcegraph_testing_dnsc.Odoh.Configs.{
  Ends, parse_odoh_target_configs-Ends, parse_odoh_target_configs_panics,
}
use sourcegraph_testing_dnsc.Odoh.Messages.{
  decrypt_response_padded, decrypt_response_unpadded, sealed, written,
}

abbrev plain : Hpke
plain = record {
  Suite = ℕ;
  Context = Bytes;
  new_suite = λ kem kdf aead. some kem;
  new_client_context = λ suite pk. some (pk, 1 ∷ []);
  extract = λ suite secret salt. secret;
  expand = λ suite prk info n. some (replicate n 7);
  hash_size = λ suite. 4;
  key_bytes = λ suite. 16;
  nonce_bytes = λ suite. 12;
  encrypt_to_server = λ ctx plaintext aad. some (plaintext ++ replicate 16 0);
  export_secret = λ ctx label n. some (replicate n 3);
  new_raw_cipher = λ suite key. some (λ nonce ct aad. some (take (length ct - 16) ct));
}

abbrev query : OdohQuery ℕ Bytes
query = record { suite = 1; ctx = []; odoh_plaintext = []; odoh_message = [] }

abbrev unseal : Bytes → Bytes → Option Bytes
unseal ct aad = some (take (length ct - 16) ct)

abbrev tag : Bytes
tag = replicate 16 9

abbrev answer : Bytes
answer = codes "response"

abbrev nonce : Bytes
nonce = 5 ∷ 6 ∷ []

opens : response_cipher plain query (two_bytes 2 ++ nonce) ≡ ok unseal
unfolding response_cipher
opens = refl

decrypt_response_unpadded_example :
    decrypt_response plain query (sealed nonce (written answer [] ++ tag)) [] [] ≡ some (ok answer)
decrypt_response_unpadded_example =
    decrypt_response_unpadded plain query nonce (written answer [] ++ tag) answer [] [] unseal
      (omega arith) (omega arith) (omega arith) opens refl

-- One zero of padding; the byte of the ciphertext that is tested is the `p` of the response.
decrypt_response_padded_example :
    decrypt_response plain query (sealed nonce (written answer (0 ∷ []) ++ tag)) [] []
    ≡ some (err malformed)
decrypt_response_padded_example =
    decrypt_response_padded plain query nonce (written answer (0 ∷ []) ++ tag) answer (0 ∷ []) [] []
      unseal b'p' (omega arith) (omega arith) (omega arith) (omega arith) (omega arith) opens refl
      refl (omega arith)

-- One configuration of a single byte, of no use.
abbrev one : Bytes
one = 0 ∷ 5 ∷ 0 ∷ 1 ∷ 0 ∷ 1 ∷ 7 ∷ []

parse_odoh_target_configs-Ends_example :
    ((e : Error) × (parse_odoh_target_configs plain one [] ≡ err e))
    ⊎ ((p : Parsed (OdohTargetConfig ℕ)) × (parse_odoh_target_configs plain one [] ≡ ok p)
        × Ends plain p)
parse_odoh_target_configs-Ends_example = parse_odoh_target_configs-Ends plain one []

-- It claims two bytes.
abbrev short : Bytes
short = 0 ∷ 5 ∷ 0 ∷ 1 ∷ 0 ∷ 2 ∷ 7 ∷ []

parse_odoh_target_configs_panics_example : parse_odoh_target_configs plain short [] ≡ ok panicked
parse_odoh_target_configs_panics_example =
    parse_odoh_target_configs_panics plain short [] (omega arith) refl refl (omega arith)

-- A configuration of two keys' bytes is read.
abbrev good : Bytes
good = 0 ∷ 1 ∷ 0 ∷ 2 ∷ 0 ∷ 3 ∷ 0 ∷ 2 ∷ 8 ∷ 9 ∷ []

read_good :
    parse_odoh_target_configs plain (0 ∷ 14 ∷ 0 ∷ 1 ∷ 0 ∷ 10 ∷ good) []
    ≡ ok (
        parsed
          (record { suite = 1; key_id = 0 ∷ 4 ∷ 7 ∷ 7 ∷ 7 ∷ 7 ∷ []; public_key = 8 ∷ 9 ∷ [] } ∷ []))
unfolding parse_odoh_target_configs configs_loop slice parse_odoh_target_config encode_length_value
read_good = refl

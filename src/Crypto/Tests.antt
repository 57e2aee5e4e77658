-- ===== src/Crypto/Tests.antt =====
-- crypto.go at concrete inputs, over primitives that seal by adding sixteen zeros.
use sourcegraph_testing_dnsc.Base.{
  Bytes, [], arith, codes, drop, false, length, length-append, length-replicate, ok, refl,
  replicate, some, take, ℕ, ◌++◌, ◌∷◌, ◌≡◌, ◌≤◌,
}
use sourcegraph_testing_dnsc.Common.{server_magic}
use sourcegraph_testing_dnsc.Crypto.Queries.{HasSizes, ReadsBack, encrypt-ReadsBack}
use sourcegraph_testing_dnsc.Crypto.Responses.{decrypt-sealed, decrypt_sound}
use sourcegraph_testing_dnsc.Crypto.{
  Encrypted, IsSealing, Primitives, ProxyKeys, ServerKeys, bad_nonce, bad_size_or_prefix, decrypt,
  encrypt, finish, pad, padded_length, tag_size, udp, unpad, xchacha20_poly1305,
}

abbrev plain : Primitives
plain = record {
  shared_key = λ sk pk. some sk;
  weak_key = λ sk pk. sk;
  precompute = λ pk sk. sk;
  sha512_256 = λ m. take 32 m;
  scalar_base_mult = λ sk. replicate 32 9;
  seal = λ c nonce message key. replicate tag_size 0 ++ message;
  unseal = λ c nonce box key. some (drop tag_size box);
}

plain-IsSealing : IsSealing plain
plain-IsSealing = record {
  length-seal = λ c nonce message key.
      omega (arith, length-append (replicate {A = ℕ} 16 0) message, length-replicate {A = ℕ} 16 0);
  unseal-seal = λ c nonce message key. refl;
  length-scalar_base_mult = λ sk. refl;
}

abbrev server : ServerKeys
server = record {
  construction = xchacha20_poly1305;
  server_pk = replicate 32 1;
  shared_key = replicate 32 2;
  magic_query = replicate 8 3;
  fragments_blocked = false;
  relayed = false;
}

abbrev proxy : ProxyKeys
proxy = record {
  ephemeral_keys = false;
  proxy_secret_key = replicate 32 4;
  proxy_public_key = replicate 32 5;
  min_question_size = 128;
}

abbrev nonce : Bytes
nonce = replicate 12 6

abbrev question : Bytes
question = codes "seventeen bytes!!"

abbrev sent : Encrypted
sent = record {
  key = replicate 32 2;
  packet =
      replicate 8 3
      ++ (replicate 32 5
          ++ (replicate 12 6 ++ (replicate 16 0 ++ (question ++ 0x80 ∷ replicate 106 0))));
  client_nonce = nonce;
}

sends : encrypt plain [] nonce 0 proxy server question udp ≡ ok sent
unfolding encrypt padded_length pad
sends = refl

has_sizes : HasSizes proxy server nonce
has_sizes = record { magic = refl; public_key = refl; nonce = refl }

unpads : unpad (1 ∷ 0x80 ∷ 0 ∷ []) ≡ ok (1 ∷ [])
unfolding unpad
unpads = refl

encrypt-ReadsBack_example :
    ReadsBack plain plain-IsSealing [] nonce 0 proxy server has_sizes question
      (padded_length server udp 128 0 17)
      sent
encrypt-ReadsBack_example =
    encrypt-ReadsBack plain plain-IsSealing [] nonce 0 proxy server has_sizes question udp sent
      sends

abbrev reply : Bytes
reply = server_magic ++ ((nonce ++ replicate 12 7) ++ (replicate 16 0 ++ (question ++ 0x80 ∷ [])))

opens : decrypt plain server (replicate 32 2) reply nonce ≡ ok question
unfolding decrypt bad_size_or_prefix bad_nonce finish unpad
opens = refl

decrypt_sound_example :
    (take 8 reply ≡ server_magic)
    × (take 12 nonce ≡ take 12 (take 24 (drop 8 reply)))
    × (17 ≤ length question)
    × (n : ℕ) × (Primitives.unseal plain xchacha20_poly1305
          (take 24 (drop 8 reply))
          (drop 32 reply)
          (replicate 32 2)
        ≡ some (question ++ 0x80 ∷ replicate n 0))
decrypt_sound_example = decrypt_sound plain server (replicate 32 2) reply nonce question opens

decrypt-sealed_example :
    decrypt plain server
      (replicate 32 2)
      (server_magic
        ++ ((nonce ++ replicate 12 7)
            ++ Primitives.seal plain xchacha20_poly1305
                (nonce ++ replicate 12 7)
                (pad question 64)
                (replicate 32 2)))
      nonce
    ≡ ok question
decrypt-sealed_example =
    decrypt-sealed plain plain-IsSealing server (replicate 32 2) nonce (replicate 12 7) question 64
      refl refl (omega arith) (omega arith) (omega arith)

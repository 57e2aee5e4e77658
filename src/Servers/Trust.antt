-- ===== src/Servers/Trust.antt =====
-- serversInfo.go: what holds of a server that is accepted.
use mathlib.Core.Path.{subst}
use sourcegraph_testing_dnsc.Base.{
  Any, Bool, Bool-cases, Bytes, List, Option, Option-cases, Result, Result-cases, [], any, ap,
  arith, bytes_eq→eq, err, false, inl, inr, length, none, not, ok, refl, some, suc, sym, true, ℕ,
  ◌&&◌, ◌/◌, ◌==◌, ◌∷◌, ◌≡◌, ◌⊎◌,
}
use sourcegraph_testing_dnsc.Servers.{RegisteredServer, ServerInfo, ServerStamp, Url, doh}
use sourcegraph_testing_dnsc.Servers.Routes.{RouteEnv}
use sourcegraph_testing_dnsc.Servers.Fetch.{
  FetchEnv, HttpAnswer, Tls, blank, check_response, doh_checked, doh_nx_test_packet,
  doh_test_packet, fetch_doh_server_info, hash_found, https, is_expected, method_of,
}

-- What holds of a result, where there is one.
abbrev pub IfOk : {A : Type 0} → (A → Type 0) → Result A → Type 0
IfOk P (err e) = Unit {0}
IfOk P (ok a) = P a

abbrev pub IfFetched : {A C : Type 0} → (A → Type 0) → Option (Result A × C) → Type 0
IfFetched P none = Unit {0}
IfFetched P (some (r, c)) = IfOk P r

any-Any : {A : Type 0} (p : A → Bool) (xs : List A) → any p xs ≡ true → Any (λ x. p x ≡ true) xs
any-Any p [] h = cc
any-Any p (x ∷ xs) h = elim (Bool-cases (p x)) [
  | inl e ↦ inl e
  | inr e ↦ inr (any-Any p xs (rw e at h))
]

Any-implies :
    {A : Type 0} (P Q : A → Type 0) (xs : List A) → ((x : A) → P x → Q x) → Any P xs → Any Q xs
Any-implies P Q [] f h = h
Any-implies P Q (x ∷ xs) f (inl h) = inl (f x h)
Any-implies P Q (x ∷ xs) f (inr h) = inr (Any-implies P Q xs f h)

-- A certificate's hash is among those listed, unless none is.
abbrev pub IsListed : (Bytes → Bytes) → List Bytes → List Bytes → Type 0
IsListed sha256 hashes certs =
    (hashes ≡ []) ⊎ Any (λ cert. Any (λ hash. sha256 cert ≡ hash) hashes) certs

listed :
    (sha256 : Bytes → Bytes) (hashes certs : List Bytes)
    → (not (hash_found sha256 hashes certs) && not (length hashes == 0)) ≡ false
    → IsListed sha256 hashes certs
unfolding hash_found
listed sha256 [] certs h = inl refl
listed sha256 (x ∷ hashes) certs h = inr (
    Any-implies _ _ certs
      (λ cert any_hash.
        Any-implies _ _ (x ∷ hashes)
          (λ hash e. bytes_eq→eq (sha256 cert) hash (and_right (length hash == 32) _ e))
          (any-Any _ (x ∷ hashes) any_hash))
      (any-Any _ certs (found _ (length hashes) h)))
  where
    and_right : (a b : Bool) → (a && b) ≡ true → b ≡ true
    and_right a b e = ground arith

    found : (b : Bool) (n : ℕ) → (not b && not (suc n == 0)) ≡ false → b ≡ true
    found b n e = ground arith

module _ (R : RouteEnv) {A T : Type 0} (env : FetchEnv T) (no_average : A)
    (registered relays : List RegisteredServer) where
  check_response-ok :
      (hashes certs : List Bytes) (response : Bytes) (info : ServerInfo A T)
      → IfOk
          (λ i. (i ≡ info) × IsListed env.sha256 hashes certs × (is_expected response ≡ true))
          (check_response R env no_average registered relays hashes certs response info)
  unfolding check_response
  check_response-ok hashes certs response info = elim (Option-cases (env.lib.unpack response)) [
    | inl e ↦ rw (check_response, e) tt
    | inr (msg, e) ↦
        elim (Bool-cases (not (hash_found env.sha256 hashes certs) && not (length hashes == 0))) [
          | inl f ↦ rw (check_response, e, f) tt
          | inr f ↦ elim (Bool-cases (is_expected response)) [
            | inr g ↦ rw (check_response, e, f, g) tt
            | inl g ↦ rw (check_response, e, f, g) (refl, listed env.sha256 hashes certs f, refl)
          ]
        ]
  ]

  -- What holds of a server that is reached by DoH.
  pub record IsDohServer (name : Bytes) (stamp : ServerStamp) (info : ServerInfo A T) : Type 0 where
    pub packet : Bytes
    pub sent : doh_nx_test_packet R {A = A} env no_average registered relays ≡ some packet
    pub answer : HttpAnswer
    pub connection : Tls
    pub answered :
        env.doh_query info.use_get (https stamp.provider_name stamp.path) packet ≡ ok answer
    pub connected : answer.tls_state ≡ some connection
    pub complete : connection.handshake_complete ≡ true
    pub hash : IsListed env.sha256 stamp.hashes connection.peer_certificates
    pub expected : is_expected answer.body ≡ true
    pub named : info.name ≡ name

  doh_checked-IsDohServer :
      (name packet : Bytes) (stamp : ServerStamp) (use_get : Bool)
      → doh_nx_test_packet R {A = A} env no_average registered relays ≡ some packet
      → IfOk (IsDohServer name stamp) (
          doh_checked R env no_average registered relays stamp use_get
            (https stamp.provider_name stamp.path)
            name
            (env.doh_query use_get (https stamp.provider_name stamp.path) packet))
  unfolding doh_checked
  doh_checked-IsDohServer name packet stamp use_get sent =
      elim (Result-cases (env.doh_query use_get url packet)) [
        | inr (e, h) ↦ rw (doh_checked, h) tt
        | inl (answer, h) ↦ elim (Option-cases answer.tls_state) [
          | inl k ↦ rw (doh_checked, h, k) tt
          | inr (connection, k) ↦ elim (Bool-cases connection.handshake_complete) [
            | inr l ↦ rw (doh_checked, h, k, l) tt
            | inl l ↦
                rw (doh_checked, h, k, l)
                  (go answer connection h k l
                    (check_response R env no_average registered relays stamp.hashes
                      connection.peer_certificates answer.body (info_of answer))
                    (check_response-ok stamp.hashes connection.peer_certificates answer.body
                      (info_of answer)))
          ]
        ]
      ]
    where
      url : Url
      url = https stamp.provider_name stamp.path

      info_of : HttpAnswer → ServerInfo A T
      info_of answer = record (blank R env no_average registered relays doh name) {
        url = some url;
        host_name = stamp.provider_name;
        initial_rtt = answer.rtt / 1000000;
        use_get = use_get;
      }

      go :
          (answer : HttpAnswer) (connection : Tls)
          → env.doh_query use_get url packet ≡ ok answer
          → answer.tls_state ≡ some connection
          → connection.handshake_complete ≡ true
          → (r : Result (ServerInfo A T))
          → IfOk
              (λ i.
                (i ≡ info_of answer)
                × IsListed env.sha256 stamp.hashes connection.peer_certificates
                × (is_expected answer.body ≡ true))
              r
          → IfOk (IsDohServer name stamp) r
      go answer connection h k l (err e) c = tt
      go answer connection h k l (ok info) (same, hash, expected) = record {
        packet = packet;
        sent = sent;
        answer = answer;
        connection = connection;
        answered =
            subst (λ (i : ServerInfo A T). env.doh_query i.use_get url packet ≡ ok answer)
              (sym same) h;
        connected = k;
        complete = l;
        hash = hash;
        expected = expected;
        named = ap (λ (i : ServerInfo A T). i.name) same;
      }

  -- A server of DoH is accepted only if it answered the second test query, for the name made of
  -- random letters, by the method that is kept, over a connection whose handshake is complete, with
  -- a response that has the number of the query and counts one question, and if one of its
  -- certificates has a hash of the stamp, unless the stamp has none.
  pub fetch_doh-IsDohServer :
      (name : Bytes) (stamp : ServerStamp)
      → IfFetched
          (IsDohServer name stamp)
          (fetch_doh_server_info R env no_average registered relays name stamp)
  unfolding fetch_doh_server_info
  fetch_doh-IsDohServer name stamp =
      elim (Option-cases (doh_test_packet R {A = A} env no_average registered relays)) [
        | inl e ↦ rw (fetch_doh_server_info, e) tt
        | inr (body, e) ↦
            elim (Result-cases
              (method_of env.doh_query (https stamp.provider_name stamp.path) body)) [
                | inr (x, f) ↦ rw (fetch_doh_server_info, e, f) tt
                | inl (use_get, f) ↦
                    elim (Option-cases
                      (doh_nx_test_packet R {A = A} env no_average registered relays)) [
                        | inl g ↦ rw (fetch_doh_server_info, e, f, g) tt
                        | inr (packet, g) ↦
                            rw (fetch_doh_server_info, e, f, g)
                              (doh_checked-IsDohServer name packet stamp use_get g)
                      ]
              ]
      ]

-- ===== src/Base/Results.antt =====
-- Go's pair of a value and an error.
use mathlib.Core.List.{List, [], ◌∷◌, ◌++◌, append-nil, append_assoc}
use mathlib.Core.Path.{◌≡◌, refl, ◌∙◌}
use mathlib.Core.Logic.{◌⊎◌, inl, inr}

-- The errors that the modelled code returns, one for each message.
pub data Error : Type 0 where
  packet_too_large packet_too_short read_failed : Error
  short_padding delimiter_not_found question_too_large : Error
  invalid_size_or_prefix unexpected_nonce incorrect_tag incorrect_padding : Error
  syntax_error time_syntax_error : Error
  not_ascii unpack_failed pack_failed unexpected_questions question_not_found : Error
  no_usable_certificate invalid_key_length log_not_initialized plugin_failed : Error
  exchange_failed cache_failed unknown_range : Error
  unsupported_protocol no_such_relay no_valid_relay invalid_relay relay_not_found : Error
  unreachable_anonymously no_odoh_relay wrong_relay_type : Error
  tls_failed certificate_hash_not_found unexpected_response : Error
  no_odoh_config empty_odoh_config config_changed no_working_config bad_http_status : Error
  malformed unsupported_suite no_prefix too_many_clients : Error
  address_error dial_failed write_failed timed_out encryption_failed decryption_failed : Error

pub data Result {ℓ} (A : Type ℓ) : Type ℓ where
  ok : A → Result A
  err : Error → Result A

pub Result-cases {ℓ} :
    {A : Type ℓ} (r : Result A) → ((a : A) × (r ≡ ok a)) ⊎ ((e : Error) × (r ≡ err e))
Result-cases (ok a) = inl (a, refl)
Result-cases (err e) = inr (e, refl)

module _ {ℓ κ} {A : Type ℓ} {B : Type κ} where
  -- A loop that appends one result for each element, and returns the first error.
  abbrev pub collect : (A → Result B) → List A → List B → Result (List B)
  collect f [] done = ok done
  collect f (x ∷ xs) done = elim (f x) [ err e ↦ err e | ok y ↦ collect f xs (done ++ y ∷ []) ]

module _ {A B : Type 0} where
  -- The results of a loop that met no error, one for each element.
  abbrev pub AllResults : (A → Result B) → List A → List B → Type 0
  AllResults f [] [] = Unit {0}
  AllResults f [] (y ∷ ys) = ⊥
  AllResults f (x ∷ xs) [] = ⊥
  AllResults f (x ∷ xs) (y ∷ ys) = (f x ≡ ok y) × AllResults f xs ys

  pub collect_ok :
      (f : A → Result B) (xs : List A) (done zs : List B)
      → collect f xs done ≡ ok zs
      → (ys : List B) × (zs ≡ done ++ ys) × AllResults f xs ys
  collect_ok f [] done zs h = ([], rw append-nil (cc), tt)
  collect_ok f (x ∷ xs) done zs h = elim (Result-cases (f x)) [
    | inl (y, e) ↦
        let (ys, same, all) = collect_ok f xs (done ++ y ∷ []) zs (rw (e, collect) at h) in
        (y ∷ ys, same ∙ append_assoc done (y ∷ []) ys, (e, all))
    | inr (x', e) ↦ absurd (let h' : err x' ≡ ok zs = rw (e, collect) at h in cc)
  ]

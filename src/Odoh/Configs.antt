-- ===== src/Odoh/Configs.antt =====
-- oblivious_doh.go: reading the configurations of a target.
use sourcegraph_testing_dnsc.Base.{
  Bool-cases, Bytes, Error, List, Option-cases, Result, [], ap, arith, err, false, inl, inr, leb,
  length, length-append, ltb, malformed, ok, refl, suc, true, zero, ℕ, ◌&&◌, ◌*◌, ◌+◌, ◌<◌, ◌==◌,
  ◌||◌, ◌∷◌, ◌≡◌, ◌≤◌, ◌⊎◌,
}
use sourcegraph_testing_dnsc.Common.{uint16}
use sourcegraph_testing_dnsc.Odoh.{
  Hpke, OdohTargetConfig, Parsed, configs_loop, is_known, max_odoh_configs, out_of_fuel, panicked,
  parse_odoh_target_config, parse_odoh_target_configs, parsed, slice, uint16_at, with_target,
}

module _ (h : Hpke) where
  open h use {Suite}

  -- The loop ends, by a panic or with at most ten targets.
  abbrev pub Ends : Parsed (OdohTargetConfig Suite) → Type 0
  Ends out_of_fuel = ⊥
  Ends panicked = Unit {0}
  Ends (parsed targets) = length targets ≤ max_odoh_configs

  length-with_target :
      (targets : List (OdohTargetConfig Suite)) (r : Result (OdohTargetConfig Suite))
      → length (with_target h targets r) ≤ length targets + 1
  length-with_target targets (err e) = omega arith
  length-with_target targets (ok t) = omega (arith, length-append targets (t ∷ []))

  configs_loop-Ends :
      (fuel : ℕ) (configs spare : Bytes) (offset : ℕ) (targets : List (OdohTargetConfig Suite))
      → 0 < fuel
      → length configs < offset + 4 * fuel
      → length targets ≤ max_odoh_configs
      → Ends (configs_loop h fuel configs spare offset targets)
  unfolding configs_loop
  configs_loop-Ends zero configs spare offset targets some_fuel enough few = absurd (omega arith)
  configs_loop-Ends (suc fuel) configs spare offset targets some_fuel enough few =
      let config_length = uint16_at configs (offset + 2) in
      let after = offset + config_length + 4 in
      elim (Bool-cases
        (ltb (length configs) (offset + 4) || leb max_odoh_configs (length targets))) [
          | inl e ↦ rw (configs_loop, e) few
          | inr e ↦
              let more : offset + 4 ≤ length configs =
                goes_on (length configs) (offset + 4) (length targets) e in
              let room : length targets < max_odoh_configs =
                has_room (length configs) (offset + 4) (length targets) e in
              elim (Bool-cases (is_known h (uint16_at configs offset))) [
                | inr f ↦
                    rw (configs_loop, e, f)
                      (configs_loop-Ends fuel configs spare after targets (omega arith)
                        (omega arith) few)
                | inl f ↦
                    elim (Option-cases
                      (slice configs spare (offset + 4) (offset + 4 + config_length))) [
                        | inl g ↦ rw (configs_loop, e, f, g) tt
                        | inr (config, g) ↦
                            rw (configs_loop, e, f, g)
                              (configs_loop-Ends fuel configs spare after
                                (with_target h targets (parse_odoh_target_config h config))
                                (omega arith) (omega arith)
                                (omega (
                                  arith,
                                  length-with_target targets (parse_odoh_target_config h config),
                                )))
                      ]
              ]
        ]
    where
      goes_on : (n m k : ℕ) → (ltb n m || leb max_odoh_configs k) ≡ false → m ≤ n
      goes_on n m k e = ground arith

      has_room : (n m k : ℕ) → (ltb n m || leb max_odoh_configs k) ≡ false → k < max_odoh_configs
      has_room n m k e = ground arith

  -- The reading of a target's configurations comes to an end for every input: it refuses the input,
  -- panics, or returns at most ten targets.
  pub parse_odoh_target_configs-Ends :
      (configs spare : Bytes)
      → ((e : Error) × (parse_odoh_target_configs h configs spare ≡ err e))
        ⊎ ((p : Parsed (OdohTargetConfig Suite)) × (parse_odoh_target_configs h configs spare
              ≡ ok p)
            × Ends p)
  unfolding parse_odoh_target_configs
  parse_odoh_target_configs-Ends configs spare = elim (Bool-cases (leb (length configs) 2)) [
    | inl e ↦ inl (malformed, rw e)
    | inr e ↦ elim (Bool-cases (length configs == uint16 configs + 2)) [
      | inr f ↦ inl (malformed, rw (e, f))
      | inl f ↦
          let long = longer (length configs) e in
          inr (
            configs_loop h (length configs) configs spare 2 [],
            rw (e, f),
            configs_loop-Ends (length configs) configs spare 2 [] (omega arith) (omega arith)
                (omega arith),
          )
    ]
  ]
    where
      longer : (n : ℕ) → leb n 2 ≡ false → 2 < n
      longer n e = ground arith

  configs_loop_panics :
      (n : ℕ) (configs spare : Bytes)
      → 6 ≤ length configs
      → is_known h (uint16_at configs 2) ≡ true
      → length configs + length spare < 6 + uint16_at configs 4
      → configs_loop h (suc n) configs spare 2 [] ≡ panicked
  unfolding configs_loop slice
  configs_loop_panics n configs spare long known beyond =
      let on : (ltb (length configs) 6 || leb max_odoh_configs 0) ≡ false = ground arith in
      let out = refused (6 + uint16_at configs 4) (length configs + length spare) beyond in
      rw (configs_loop, on, known, out)
    where
      refused : (n m : ℕ) → m < n → (leb 6 n && leb n m) ≡ false
      refused n m lt = ground arith

  -- A first configuration of a known version that claims more bytes than are left of the input and of
  -- its array makes the reading panic, although the input itself has the length that it states.
  pub parse_odoh_target_configs_panics :
      (configs spare : Bytes)
      → 6 ≤ length configs
      → length configs ≡ uint16 configs + 2
      → is_known h (uint16_at configs 2) ≡ true
      → length configs + length spare < 6 + uint16_at configs 4
      → parse_odoh_target_configs h configs spare ≡ ok panicked
  unfolding parse_odoh_target_configs
  parse_odoh_target_configs_panics configs spare long stated known beyond =
      let enough : leb (length configs) 2 ≡ false = ground arith in
      let fits : (length configs == uint16 configs + 2) ≡ true = ground arith in
      rw (enough, fits) (ap ok (go (length configs) refl))
    where
      go : (n : ℕ) → length configs ≡ n → configs_loop h n configs spare 2 [] ≡ panicked
      go zero e = absurd (omega arith)
      go (suc n) e = configs_loop_panics n configs spare long known beyond

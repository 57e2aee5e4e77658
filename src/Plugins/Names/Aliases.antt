-- ===== src/Plugins/Names/Aliases.antt =====
-- plugin_block_name.go: the aliases in a response.
use mathlib.Core.Path.{subst}
use sourcegraph_testing_dnsc.Base.{
  Bool, Bool-cases, Bytes, Error, List, Option, Option-cases, Result-cases, [], arith, err, false,
  inl, inr, none, ok, refl, some, suc, true, zero, ℕ, ◌-◌, ◌==◌, ◌∷◌, ◌≡◌, ◌⊎◌,
}
use sourcegraph_testing_dnsc.Dns.{Msg, Rr}
use sourcegraph_testing_dnsc.Dns.Names.{normalize_q_name}
use sourcegraph_testing_dnsc.Patterns.Tries.{Trie}
use sourcegraph_testing_dnsc.TimeRanges.{WeeklyRanges}
use sourcegraph_testing_dnsc.Plugins.{
  Evaluated, PluginsState, action_reject, code_reject, evaluated, failed,
}
use sourcegraph_testing_dnsc.Plugins.Logging.{Log, name_line, write_to}
use sourcegraph_testing_dnsc.Plugins.Names.{
  NamePlugin, alias_loop, alias_reason, aliases_limit, block_name_response_eval, check, listed,
  target_of,
}

-- The names that the answers point to, in their order.
abbrev pub alias_targets : List Rr → List Bytes
alias_targets [] = []
alias_targets (rr ∷ rrs) = elim (target_of rr) [
  | none ↦ alias_targets rrs
  | some target ↦ target ∷ alias_targets rrs
]

module _ (t : Trie (Option WeeklyRanges)) (glob_match : Bytes → Bytes → Option Bool) where
  -- The alias is the name of a rule that is in force, or of none.
  abbrev pub IsListed : NamePlugin t glob_match → Bytes → Type 0
  IsListed plugin target =
      (name : Bytes) × (reason : Bytes) × (normalize_q_name target ≡ ok name)
      × (listed t glob_match plugin.rules plugin.now name ≡ some reason)

  abbrev pub IsUnlisted : NamePlugin t glob_match → Bytes → Type 0
  IsUnlisted plugin target =
      (name : Bytes) × (normalize_q_name target ≡ ok name)
      × (listed t glob_match plugin.rules plugin.now name ≡ none)

  abbrev pub IsRefused : Bytes → Type 0
  IsRefused target = (e : Error) × (normalize_q_name target ≡ err e)

  -- The aliases up to a limit are unlisted and the state is as it was, or the first that is not is
  -- listed and the response is rejected, or it is no name and an error is returned.
  pub data Checked (plugin : NamePlugin t glob_match) (st : PluginsState)
      : ℕ → List Bytes → Evaluated Log → Type 0 where
    all_passed :
        (log : Log) (msg : Msg) (left : ℕ) → Checked plugin st left [] (evaluated log st msg)
    limit_reached :
        (log : Log) (msg : Msg) (targets : List Bytes)
        → Checked plugin st 0 targets (evaluated log st msg)
    passed_by :
        (left : ℕ) (target : Bytes) (targets : List Bytes) (out : Evaluated Log)
        → IsUnlisted plugin target
        → Checked plugin st left targets out
        → Checked plugin st (suc left) (target ∷ targets) out
    rejected :
        (left : ℕ) (target : Bytes) (targets : List Bytes) (log : Log) (msg : Msg)
        → IsListed plugin target
        → Checked plugin st
            (suc left)
            (target ∷ targets)
            (evaluated log (record st { action = action_reject; return_code = code_reject }) msg)
    no_name :
        (left : ℕ) (target : Bytes) (targets : List Bytes) (log : Log) (msg : Msg) (e : Error)
        → IsRefused target
        → Checked plugin st (suc left) (target ∷ targets) (failed log st msg e)

  check-none :
      (plugin : NamePlugin t glob_match) (log : Log) (st : PluginsState) (name : Bytes)
      (alias : Option Bytes)
      → listed t glob_match plugin.rules plugin.now name ≡ none
      → check t glob_match plugin log st name alias ≡ none
  unfolding check
  check-none plugin log st name alias h = simp (check, h)

  check-some :
      (plugin : NamePlugin t glob_match) (log : Log) (st : PluginsState) (name reason : Bytes)
      (alias : Option Bytes)
      → listed t glob_match plugin.rules plugin.now name ≡ some reason
      → (log' : Log) × (check t glob_match plugin log st name alias
          ≡ some (log', record st { action = action_reject; return_code = code_reject }))
  unfolding check
  check-some plugin log st name reason alias h = (
    write_to plugin.logger
        (λ f. name_line plugin.env f st name (alias_reason t glob_match alias reason)) log,
    simp (check, h),
  )

  continued :
      (plugin : NamePlugin t glob_match) (targets : List Bytes) (rrs : List Rr) (log : Log)
      (st : PluginsState) (msg : Msg) (left : ℕ)
      → ((l : ℕ)
          → Checked plugin st
              (suc l)
              targets
              (alias_loop t glob_match plugin rrs (suc l) log st msg))
      → Checked plugin st left targets (elim (suc left - 1 == 0) [
        | true ↦ evaluated log st msg
        | false ↦ alias_loop t glob_match plugin rrs (suc left - 1) log st msg
      ])
  continued plugin targets rrs log st msg zero f = limit_reached log msg targets
  continued plugin targets rrs log st msg (suc l) f =
      let one_less : suc l ≡ suc (suc l) - 1 = omega arith in
      let positive : (suc l == 0) ≡ false = ground arith in
      subst
        (λ n. Checked plugin st (suc l) targets (elim (n == 0) [
          | true ↦ evaluated log st msg
          | false ↦ alias_loop t glob_match plugin rrs n log st msg
        ]))
        one_less (rw positive (f l))

  alias_loop-Checked :
      (plugin : NamePlugin t glob_match) (rrs : List Rr) (left : ℕ) (log : Log) (st : PluginsState)
      (msg : Msg)
      → Checked plugin st
          (suc left)
          (alias_targets rrs)
          (alias_loop t glob_match plugin rrs (suc left) log st msg)
  unfolding alias_loop
  alias_loop-Checked plugin [] left log st msg = all_passed log msg (suc left)
  alias_loop-Checked plugin (rr ∷ rrs) left log st msg = elim (Option-cases (target_of rr)) [
    | inl n ↦ rw (alias_loop, alias_targets, n) (alias_loop-Checked plugin rrs left log st msg)
    | inr (target, y) ↦ elim (Result-cases (normalize_q_name target)) [
      | inr (e, z) ↦ rw (alias_loop, alias_targets, y, z) (no_name left target _ log msg e (e, z))
      | inl (name, z) ↦ elim (Option-cases (listed t glob_match plugin.rules plugin.now name)) [
        | inr (reason, l) ↦
            let (log', c) = check-some plugin log st name reason (some st.q_name) l in
            rw (alias_loop, alias_targets, y, z, c)
              (rejected left target _ log' msg (name, reason, z, l))
        | inl l ↦
            let c = check-none plugin log st name (some st.q_name) l in
            rw (alias_loop, alias_targets, y, z, c)
              (passed_by left target _ _ (name, z, l)
                (continued plugin (alias_targets rrs) rrs log st msg left
                  (λ l'. alias_loop-Checked plugin rrs l' log st msg)))
      ]
    ]
  ]

  -- A response to a whitelisted query is left alone. Any other is checked against the rules, alias by
  -- alias and up to the eighth: it is left alone where no alias is listed, rejected at the first that
  -- is, and an error is returned at the first that is no name.
  pub block_name_response-Checked :
      (plugin : NamePlugin t glob_match) (log : Log) (st : PluginsState) (msg : Msg)
      → ((st.whitelisted ≡ true)
          × (block_name_response_eval t glob_match plugin log st msg ≡ evaluated log st msg))
        ⊎ ((st.whitelisted ≡ false)
            × Checked plugin st aliases_limit
                (alias_targets msg.answer)
                (block_name_response_eval t glob_match plugin log st msg))
  unfolding block_name_response_eval
  block_name_response-Checked plugin log st msg = elim (Bool-cases st.whitelisted) [
    | inl h ↦ inl (h, simp (block_name_response_eval, h) refl)
    | inr h ↦
        inr (
          h,
          simp (block_name_response_eval, h) (alias_loop-Checked plugin msg.answer 7 log st msg),
        )
  ]

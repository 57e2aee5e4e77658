-- ===== src/Plugins/Runs.antt =====
-- dnscrypt-proxy/plugins.go: what the loop over the plugins ends with.
use mathlib.Core.Path.{subst}
use sourcegraph_testing_dnsc.Base.{
  Bool-cases, Error, List, Option-cases, [], ap, false, inl, inr, none, refl, some, true, ◌∷◌, ◌≡◌,
  ◌≢◌,
}
use sourcegraph_testing_dnsc.Dns.{DnsLib, Msg}
use sourcegraph_testing_dnsc.Plugins.{
  Evaluated, Plugin, PluginsAction, PluginsState, action_continue, action_drop, action_none,
  action_reject, action_synth, evaluated, failed,
}
use sourcegraph_testing_dnsc.Plugins.Pipeline.{
  Globals, answer_reject, is_continue, is_reject, plugin_loop,
}

module _ {W : Type 0} (lib : DnsLib) (globals : Globals W) where
  -- The rules of the loop, one plugin at a time.
  pub data Run : List (Plugin W) → W → PluginsState → Msg → Evaluated W → Type 0 where
    ended : (w : W) (st : PluginsState) (msg : Msg) → Run [] w st msg (evaluated w st msg)
    dropped :
        (plugin : Plugin W) (plugins : List (Plugin W)) (w : W) (st : PluginsState) (msg : Msg)
        (ev : Evaluated W) (e : Error)
        → plugin w st msg ≡ ev
        → ev.error ≡ some e
        → Run
            (plugin ∷ plugins)
            w
            st
            msg
            (failed ev.world (record ev.state { action = action_drop }) ev.msg e)
    decided :
        (plugin : Plugin W) (plugins : List (Plugin W)) (w : W) (st : PluginsState) (msg : Msg)
        (ev : Evaluated W)
        → plugin w st msg ≡ ev
        → ev.error ≡ none
        → ev.state.action ≢ action_continue
        → Run
            (plugin ∷ plugins)
            w
            st
            msg
            (evaluated ev.world (answer_reject lib globals ev.state ev.msg) ev.msg)
    passed :
        (plugin : Plugin W) (plugins : List (Plugin W)) (w : W) (st : PluginsState) (msg : Msg)
        (ev out : Evaluated W)
        → plugin w st msg ≡ ev
        → ev.error ≡ none
        → ev.state.action ≡ action_continue
        → Run plugins ev.world ev.state ev.msg out
        → Run (plugin ∷ plugins) w st msg out

  is_continue_eq : (x : PluginsAction) → is_continue x ≡ true → x ≡ action_continue
  is_continue_eq action_none h = cc
  is_continue_eq action_continue h = refl
  is_continue_eq action_drop h = cc
  is_continue_eq action_reject h = cc
  is_continue_eq action_synth h = cc

  is_continue_ne : (x : PluginsAction) → is_continue x ≡ false → x ≢ action_continue
  is_continue_ne x h e = let k : is_continue x ≡ true = ap is_continue e in cc

  loop_ended :
      (w : W) (st : PluginsState) (msg : Msg)
      → evaluated w st msg ≡ plugin_loop lib globals [] w st msg
  unfolding plugin_loop
  loop_ended w st msg = refl

  loop_dropped :
      (plugin : Plugin W) (plugins : List (Plugin W)) (w : W) (st : PluginsState) (msg : Msg)
      (e : Error)
      → (plugin w st msg).error ≡ some e
      → let ev = plugin w st msg in
        failed ev.world (record ev.state { action = action_drop }) ev.msg e
        ≡ plugin_loop lib globals (plugin ∷ plugins) w st msg
  unfolding plugin_loop
  loop_dropped plugin plugins w st msg e h = simp (plugin_loop, h)

  loop_decided :
      (plugin : Plugin W) (plugins : List (Plugin W)) (w : W) (st : PluginsState) (msg : Msg)
      → (plugin w st msg).error ≡ none
      → is_continue (plugin w st msg).state.action ≡ false
      → let ev = plugin w st msg in
        evaluated ev.world (answer_reject lib globals ev.state ev.msg) ev.msg
        ≡ plugin_loop lib globals (plugin ∷ plugins) w st msg
  unfolding plugin_loop
  loop_decided plugin plugins w st msg h c = simp (plugin_loop, h, c)

  not_reject : (x : PluginsAction) → is_continue x ≡ true → is_reject x ≡ false
  not_reject action_none h = cc
  not_reject action_continue h = refl
  not_reject action_drop h = cc
  not_reject action_reject h = cc
  not_reject action_synth h = cc

  answer_continue :
      (st : PluginsState) (msg : Msg)
      → is_continue st.action ≡ true
      → answer_reject lib globals st msg ≡ st
  unfolding answer_reject
  answer_continue st msg c = simp (answer_reject, not_reject st.action c)

  loop_passed :
      (plugin : Plugin W) (plugins : List (Plugin W)) (w : W) (st : PluginsState) (msg : Msg)
      → (plugin w st msg).error ≡ none
      → is_continue (plugin w st msg).state.action ≡ true
      → let ev = plugin w st msg in
        plugin_loop lib globals plugins ev.world ev.state ev.msg
        ≡ plugin_loop lib globals (plugin ∷ plugins) w st msg
  unfolding plugin_loop
  loop_passed plugin plugins w st msg h c =
      simp (plugin_loop, h, c, answer_continue (plugin w st msg).state (plugin w st msg).msg c)

  -- The loop over the plugins follows the rules of `Run`: the plugins run in their order, each on
  -- the world, the state and the message that the one before left; an error drops the request, an
  -- action other than to continue ends the loop, and a rejected request gets its response.
  pub plugin_loop-Run :
      (plugins : List (Plugin W)) (w : W) (st : PluginsState) (msg : Msg)
      → Run plugins w st msg (plugin_loop lib globals plugins w st msg)
  plugin_loop-Run [] w st msg =
      subst (λ out. Run [] w st msg out) (loop_ended w st msg) (ended w st msg)
  plugin_loop-Run (plugin ∷ plugins) w st msg =
      let ev = plugin w st msg in
      let P : Evaluated W → Type 0 = λ out. Run (plugin ∷ plugins) w st msg out in
      elim (Option-cases ev.error) [
        | inr (e, h) ↦
            subst P (loop_dropped plugin plugins w st msg e h)
              (dropped plugin plugins w st msg ev e refl h)
        | inl h ↦ elim (Bool-cases (is_continue ev.state.action)) [
          | inr c ↦
              subst P (loop_decided plugin plugins w st msg h c)
                (decided plugin plugins w st msg ev refl h (is_continue_ne _ c))
          | inl c ↦ subst P (loop_passed plugin plugins w st msg h c) (
              passed plugin plugins w st msg ev _ refl h (is_continue_eq _ c)
                (plugin_loop-Run plugins ev.world ev.state ev.msg))
        ]
      ]

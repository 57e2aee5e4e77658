-- ===== src/Plugins/Outcomes.antt =====
-- dnscrypt-proxy/plugins.go: what a stage returns to the proxy.
use sourcegraph_testing_dnsc.Base.{
  Bool, Bool-cases, Bytes, Error, List, Option-cases, Result-cases, [], ap, false, inl, inr, none,
  pack_failed, refl, some, sym, true, unexpected_questions, unpack_failed, ◌&&◌, ◌∙◌, ◌∷◌, ◌≡◌, ◌⊎◌,
}
use sourcegraph_testing_dnsc.Dns.{DnsLib, Msg, Question}
use sourcegraph_testing_dnsc.Dns.Replies.{refused_response_from_message}
use sourcegraph_testing_dnsc.Plugins.{
  Evaluated, Plugin, PluginsAction, PluginsState, action_continue, action_drop, action_reject,
}
use sourcegraph_testing_dnsc.Plugins.Pipeline.{
  Applied, Globals, answer_reject, apply_query_plugins, finish_query, is_continue, is_nil,
  is_reject, named_query, one_question, pad_query, plugin_loop,
}
use sourcegraph_testing_dnsc.Plugins.Runs.{Run, decided, dropped, ended, passed, plugin_loop-Run}
use sourcegraph_testing_dnsc.Dns.Names.{normalize_q_name}

module _ {W : Type 0} (lib : DnsLib) (globals : Globals W) where
  -- The response for a rejected message.
  abbrev pub refusal : PluginsState → Msg → Msg
  refusal st msg =
      refused_response_from_message lib globals.to4 globals.to16 msg
        globals.blocked.refused_code_in_responses globals.blocked.respond_with_ipv4
        globals.blocked.respond_with_ipv6 st.reject_ttl

  -- A loop ends with an error and the request dropped, or without; a rejected one has its response.
  abbrev pub Outcome : Evaluated W → Type 0
  Outcome out =
      ((e : Error) × (out.error ≡ some e) × (out.state.action ≡ action_drop))
      ⊎ ((out.error ≡ none)
          × (out.state.action ≡ action_reject
              → out.state.synth_response ≡ some (refusal out.state out.msg)))

  answer_action :
      (st : PluginsState) (msg : Msg) → (answer_reject lib globals st msg).action ≡ st.action
  unfolding answer_reject
  answer_action st msg = elim (Bool-cases (is_reject st.action)) [
    | inl e ↦ simp (answer_reject, e)
    | inr e ↦ simp (answer_reject, e)
  ]

  answered :
      (st : PluginsState) (msg : Msg)
      → (answer_reject lib globals st msg).action ≡ action_reject
      → (answer_reject lib globals st msg).synth_response
        ≡ some (refusal (answer_reject lib globals st msg) msg)
  unfolding answer_reject
  answered st msg h = elim (Bool-cases (is_reject st.action)) [
    | inl e ↦ simp (answer_reject, e)
    | inr e ↦ absurd (true_false (sym (ap is_reject (sym (answer_action st msg) ∙ h)) ∙ e))
  ]
    where
      true_false : true ≡ false → ⊥
      true_false e = cc

  not_rejected : (x : PluginsAction) → x ≡ action_continue → x ≡ action_reject → ⊥
  not_rejected x c r = let k : false ≡ true = ap is_reject (sym c ∙ r) in cc

  Run-Outcome :
      (plugins : List (Plugin W)) (w : W) (st : PluginsState) (msg : Msg) (out : Evaluated W)
      → Run lib globals plugins w st msg out
      → st.action ≡ action_continue
      → Outcome out
  Run-Outcome _ _ _ _ _ (ended w st msg) c = inr (refl, λ r. absurd (not_rejected st.action c r))
  Run-Outcome _ _ _ _ _ (dropped plugin plugins w st msg ev e same h) c = inl (e, refl, refl)
  Run-Outcome _ _ _ _ _ (decided plugin plugins w st msg ev same h n) c =
      inr (refl, answered ev.state ev.msg)
  Run-Outcome _ _ _ _ _ (passed plugin plugins w st msg ev out same h k run) c =
      Run-Outcome plugins ev.world ev.state ev.msg out run k

  -- What the query stage returns: with an error the packet as it came, or what a failed packing has
  -- left of it; and a rejected query with its response.
  abbrev pub QueryOutcome : Bytes → Applied W → Type 0
  QueryOutcome packet out =
      ((e : Error) × (out.error ≡ some e)
        × ((out.packet ≡ packet)
            ⊎ ((e ≡ pack_failed) × (msg : Msg) × (out.packet ≡ DnsLib.spoiled lib packet msg))))
      ⊎ ((out.error ≡ none)
          × (out.state.action ≡ action_reject
              → (msg : Msg) × (out.state.question_msg ≡ some msg)
                × (out.state.synth_response ≡ some (refusal out.state msg))))

  continue_rejected : (x : PluginsAction) → is_continue x ≡ true → x ≡ action_reject → ⊥
  continue_rejected x c r = let k : is_continue x ≡ false = ap is_continue r in cc

  pad_query-QueryOutcome :
      (w : W) (st : PluginsState) (msg : Msg) (packet packet2 : Bytes) (needs : Bool)
      → (st.action ≡ action_reject → st.synth_response ≡ some (refusal st msg))
      → QueryOutcome packet (pad_query lib globals w st msg packet2 needs)
  unfolding pad_query
  pad_query-QueryOutcome w st msg packet packet2 false f = inr (refl, λ r. (msg, refl, f r))
  pad_query-QueryOutcome w st msg packet packet2 true f =
      elim (Bool-cases (is_continue st.action)) [
        | inl c ↦ rw (pad_query, c) (inr (refl, λ r. absurd (continue_rejected st.action c r)))
        | inr c ↦ rw (pad_query, c) (inr (refl, λ r. (msg, refl, f r)))
      ]

  finish_query-QueryOutcome :
      (packet : Bytes) (needs : Bool) (ev : Evaluated W)
      → Outcome ev
      → QueryOutcome packet (finish_query lib globals packet needs ev)
  unfolding finish_query
  finish_query-QueryOutcome packet needs ev (inl (e, h, d)) =
      rw (finish_query, h) (inl (e, refl, inl refl))
  finish_query-QueryOutcome packet needs ev (inr (h, f)) =
      elim (Option-cases (DnsLib.pack lib ev.msg)) [
        | inl n ↦ rw (finish_query, h, n) (inl (pack_failed, refl, inr (refl, ev.msg, refl)))
        | inr (packet2, y) ↦
            rw (finish_query, h, y)
              (pad_query-QueryOutcome ev.world ev.state ev.msg packet packet2 needs f)
      ]

  named_query-QueryOutcome :
      (w : W) (st : PluginsState) (msg : Msg) (q_name packet : Bytes) (needs : Bool)
      → st.action ≡ action_continue
      → QueryOutcome packet (named_query lib globals w st msg q_name packet needs)
  unfolding named_query
  named_query-QueryOutcome w st msg q_name packet needs c =
      let named : PluginsState = record st { q_name = q_name; question_msg = some msg } in
      let loop = plugin_loop lib globals globals.query w named msg in
      let runs = plugin_loop-Run lib globals globals.query w named msg in
      elim (Bool-cases (is_nil globals.query && is_nil globals.logging)) [
        | inl n ↦ rw (named_query, n) (inr (refl, λ r. absurd (not_rejected st.action c r)))
        | inr n ↦
            rw (named_query, n)
              (finish_query-QueryOutcome packet needs loop
                (Run-Outcome globals.query w named msg loop runs c))
      ]

  one_question-QueryOutcome :
      (w : W) (st : PluginsState) (msg : Msg) (qs : List Question) (packet : Bytes) (needs : Bool)
      → st.action ≡ action_continue
      → QueryOutcome packet (one_question lib globals w st msg qs packet needs)
  unfolding one_question
  one_question-QueryOutcome w st msg [] packet needs c = inl (unexpected_questions, refl, inl refl)
  one_question-QueryOutcome w st msg (q ∷ q' ∷ qs) packet needs c =
      inl (unexpected_questions, refl, inl refl)
  one_question-QueryOutcome w st msg (q ∷ []) packet needs c =
      elim (Result-cases (normalize_q_name q.name)) [
        | inr (e, h) ↦ rw (one_question, h) (inl (e, refl, inl refl))
        | inl (q_name, h) ↦
            rw (one_question, h) (named_query-QueryOutcome w st msg q_name packet needs c)
      ]

  -- From a state that continues, the query stage ends in an error, with the packet as it came, or, if
  -- the error is that of packing, with what packing has left in its buffer; or it ends without one,
  -- and if a query is rejected then, its response is the refusal of the message that the state
  -- points to.
  pub apply_query_plugins-QueryOutcome :
      (w : W) (st : PluginsState) (packet : Bytes) (needs : Bool)
      → st.action ≡ action_continue
      → QueryOutcome packet (apply_query_plugins lib globals w st packet needs)
  unfolding apply_query_plugins
  apply_query_plugins-QueryOutcome w st packet needs c =
      elim (Option-cases (DnsLib.unpack lib packet)) [
        | inl n ↦ rw (apply_query_plugins, n) (inl (unpack_failed, refl, inl refl))
        | inr (msg, y) ↦
            rw (apply_query_plugins, y)
              (one_question-QueryOutcome w st msg msg.question packet needs c)
      ]

-- ===== src/Plugins/Cache/Tests.antt =====
-- plugin_cache.go at concrete inputs, over a cache of one response and no hash.
use sourcegraph_testing_dnsc.Base.{
  Bytes, Option, arith, bytes_eq, bytes_eq_refl, if◌then◌else◌, none, refl, some, ◌*◌, ◌+◌, ◌-◌,
  ◌≡◌,
}
use sourcegraph_testing_dnsc.Dns.{Msg}
use sourcegraph_testing_dnsc.Dns.Lifetimes.{get_min_ttl, second}
use sourcegraph_testing_dnsc.Plugins.{action_synth, new_plugins_state}
use sourcegraph_testing_dnsc.Plugins.Tests.{query, response, start}
use sourcegraph_testing_dnsc.Plugins.Cache.{
  Arc, CachedResponse, cache_eval, cache_response_eval, compute_cache_key, is_cacheable,
}
use sourcegraph_testing_dnsc.Plugins.Cache.Hits.{
  AnswersFrom, IsArc, cache_eval-stored, held, kept_for, stored,
}

abbrev one_arc : Arc
one_arc = record {
  Cache = Option (Bytes × CachedResponse);
  new_arc = λ n. some none;
  get = λ c k. elim c [ none ↦ none | some (j, v) ↦ if bytes_eq j k then some v else none ];
  add = λ k v c. some (k, v);
}

one_arc-IsArc : IsArc one_arc
one_arc-IsArc = record { get-add = λ k v c. rw (bytes_eq_refl k) refl }

-- The cache after the response is stored, and a later one that still holds it.
abbrev cache_then : Option (Option (Bytes × CachedResponse))
cache_then = (cache_response_eval one_arc (λ s. s) (5 * second) (some none) start response).world

abbrev later : Option (Bytes × CachedResponse)
later = some (
  compute_cache_key (λ s. s) start response,
  stored one_arc one_arc-IsArc (λ s. s) (5 * second) start response,
)

holds_later :
    Arc.get one_arc later (compute_cache_key (λ s. s) start response)
    ≡ held one_arc one_arc-IsArc (λ s. s) cache_then (compute_cache_key (λ s. s) start response)
unfolding new_plugins_state get_min_ttl is_cacheable cache_response_eval
holds_later = rw (bytes_eq_refl (compute_cache_key (λ s. s) start response)) refl

cache_eval-stored_example :
    let out = (cache_eval one_arc (λ s. s) (20 * second) (some later) start query).state in
    (out.action ≡ action_synth)
    × (synth : Msg) × (out.synth_response ≡ some synth)
    × AnswersFrom one_arc one_arc-IsArc
        (λ s. s)
        (5 * second + kept_for one_arc one_arc-IsArc (λ s. s) start response - 20 * second)
        query
        response
        synth
unfolding new_plugins_state get_min_ttl is_cacheable
cache_eval-stored_example =
    cache_eval-stored one_arc one_arc-IsArc (λ s. s) (5 * second) (20 * second) none later start
      start response query refl refl (omega arith) holds_later

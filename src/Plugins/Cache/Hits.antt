-- ===== src/Plugins/Cache/Hits.antt =====
-- plugin_cache.go: what is read is what was written.
use sourcegraph_testing_dnsc.Base.{
  All, Bytes, Option, ap, arith, false, ltb, map, none, refl, some, sym, true, ℕ, ◌+◌, ◌-◌, ◌∙◌,
  ◌≡◌, ◌≤◌,
}
use sourcegraph_testing_dnsc.Dns.{Msg}
use sourcegraph_testing_dnsc.Dns.Lifetimes.{
  get_min_ttl, rdata_of, rounded_ttl, ttl_of, update_ttl, update_ttl_answers,
}
use sourcegraph_testing_dnsc.Plugins.{PluginsState, action_synth}
use sourcegraph_testing_dnsc.Plugins.Cache.{
  Arc, CachedResponse, cache_eval, cache_response_eval, compute_cache_key, first_question,
  is_cacheable, key_bytes, synth_of,
}

-- What is documented of the cache: a response that was just added is found.
pub record IsArc (arc : Arc) : Type 1 where
  pub get-add :
      (k : Bytes) (v : CachedResponse) (c : Arc.Cache arc)
      → Arc.get arc (Arc.add arc k v c) k ≡ some v

module _ (arc : Arc) (laws : IsArc arc) (sha512_256 : Bytes → Bytes) where
  -- The lifetime of a response in the cache.
  abbrev pub kept_for : PluginsState → Msg → ℕ
  kept_for st msg =
      get_min_ttl msg st.cache_min_ttl st.cache_max_ttl st.cache_neg_min_ttl st.cache_neg_max_ttl

  abbrev pub stored : ℕ → PluginsState → Msg → CachedResponse
  stored now st msg = record {
    expiration = now + kept_for st msg;
    msg = update_ttl msg (now + kept_for st msg) now;
  }

  writes :
      (now : ℕ) (c : Arc.Cache arc) (st : PluginsState) (msg : Msg)
      → is_cacheable arc sha512_256 msg ≡ true
      → (cache_response_eval arc sha512_256 now (some c) st msg).world
        ≡ some (Arc.add arc (compute_cache_key sha512_256 st msg) (stored now st msg) c)
  unfolding cache_response_eval
  writes now c st msg h = simp (cache_response_eval, h)

  reads :
      (now : ℕ) (c : Arc.Cache arc) (st : PluginsState) (msg : Msg) (cached : CachedResponse)
      → Arc.get arc c (compute_cache_key sha512_256 st msg) ≡ some cached
      → now ≤ cached.expiration
      → let out = cache_eval arc sha512_256 now (some c) st msg in
        (out.state.action ≡ action_synth)
        × (out.state.cache_hit ≡ true)
        × (out.state.synth_response
            ≡ some (update_ttl (synth_of arc sha512_256 msg cached) cached.expiration now))
  unfolding cache_eval
  reads now c st msg cached h fresh =
      let later : ltb cached.expiration now ≡ false = ground arith in
      (simp (cache_eval, h, later), simp (cache_eval, h, later), simp (cache_eval, h, later))

  -- An answer from the cache: the query's number and question, and the data of the response that
  -- was stored, with what is left of its lifetime.
  abbrev pub AnswersFrom : ℕ → Msg → Msg → Msg → Type 0
  AnswersFrom left query response synth =
      (synth.id ≡ query.id)
      × (synth.question ≡ query.question)
      × (synth.response ≡ true)
      × (synth.rcode ≡ response.rcode)
      × All (λ rr. ttl_of rr ≡ rounded_ttl left) synth.answer
      × (map rdata_of synth.answer ≡ map rdata_of response.answer)

  synth-AnswersFrom :
      (now now' : ℕ) (st : PluginsState) (response query : Msg)
      → let expiration = now + kept_for st response in
        AnswersFrom
          (expiration - now')
          query
          response
          (update_ttl (synth_of arc sha512_256 query (stored now st response)) expiration now')
  unfolding update_ttl
  synth-AnswersFrom now now' st response query =
      let expiration = now + kept_for st response in
      let (all, kept) =
        update_ttl_answers (synth_of arc sha512_256 query (stored now st response)) expiration
          now' in
      let (all', kept') = update_ttl_answers response expiration now in
      (refl, refl, refl, refl, all, kept ∙ kept')

  -- What a cache holds under a key.
  abbrev pub held : Option (Arc.Cache arc) → Bytes → Option CachedResponse
  held none k = none
  held (some c) k = Arc.get arc c k

  holds_stored :
      (now : ℕ) (c : Arc.Cache arc) (st : PluginsState) (response : Msg)
      → is_cacheable arc sha512_256 response ≡ true
      → held
          (cache_response_eval arc sha512_256 now (some c) st response).world
          (compute_cache_key sha512_256 st response)
        ≡ some (stored now st response)
  holds_stored now c st response h =
      let key = compute_cache_key sha512_256 st response in
      ap (λ o. held o key) (writes now c st response h)
      ∙ laws.get-add key (stored now st response) c

  same_key :
      (st st' : PluginsState) (response query : Msg)
      → key_bytes st.dnssec (first_question response.question)
        ≡ key_bytes st'.dnssec (first_question query.question)
      → compute_cache_key sha512_256 st' query ≡ compute_cache_key sha512_256 st response
  unfolding compute_cache_key
  same_key st st' response query same = ap sha512_256 (sym same)

  -- After a cacheable response is stored, a query is answered from the cache if the cache, whatever
  -- has happened to it since, still holds under the response's key what it held just after the
  -- store; the query comes within the lifetime, and asks for the same type, class and DNSSEC bit, and
  -- the same name but for capitals: `key_bytes`. The answer has the query's number and question, and
  -- the code and the data of the response's answers, with the lifetime that is left.
  pub cache_eval-stored :
      (now now' : ℕ) (c later : Arc.Cache arc) (st st' : PluginsState) (response query : Msg)
      → is_cacheable arc sha512_256 response ≡ true
      → key_bytes st.dnssec (first_question response.question)
        ≡ key_bytes st'.dnssec (first_question query.question)
      → now' ≤ now + kept_for st response
      → Arc.get arc later (compute_cache_key sha512_256 st response)
        ≡ held
            (cache_response_eval arc sha512_256 now (some c) st response).world
            (compute_cache_key sha512_256 st response)
      → let out = (cache_eval arc sha512_256 now' (some later) st' query).state in
        (out.action ≡ action_synth)
        × (synth : Msg) × (out.synth_response ≡ some synth)
        × AnswersFrom (now + kept_for st response - now') query response synth
  cache_eval-stored now now' c later st st' response query h same fresh holds =
      let found =
        ap (Arc.get arc later) (same_key st st' response query same)
        ∙ (holds ∙ holds_stored now c st response h) in
      let (synth', hit, answer) = reads now' later st' query (stored now st response) found fresh in
      (synth', _, answer, synth-AnswersFrom now now' st response query)

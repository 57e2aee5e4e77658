-- ===== src/Plugins/Cache.antt =====
-- dnscrypt-proxy/plugin_cache.go: the cache of responses. The cache itself and the hash are of other
-- libraries.
pub mod Hits
mod Tests
use sourcegraph_testing_dnsc.Base.{
  Bool, Bytes, List, Option, [], cache_failed, if◌then◌else◌, ltb, none, not, some, true, ℕ, ◌%◌,
  ◌&&◌, ◌*◌, ◌+◌, ◌/◌, ◌==◌, ◌^◌, ◌||◌, ◌∷◌,
}
use sourcegraph_testing_dnsc.Dns.{Msg, Question, rcode_name_error, rcode_not_auth, rcode_success}
use sourcegraph_testing_dnsc.Dns.Lifetimes.{get_min_ttl, second, update_ttl}
use sourcegraph_testing_dnsc.Dns.Names.{normalize_raw_q_name}
use sourcegraph_testing_dnsc.Plugins.{Plugin, PluginsState, action_synth, evaluated, failed}

-- 30 seconds.
abbrev pub stale_response_ttl : ℕ
stale_response_ttl = 30 * second

-- Times are in ns.
pub record CachedResponse : Type 0 where
  pub expiration : ℕ
  pub msg : Msg

-- What the code calls of `lru.ARCCache`, from keys to responses.
pub record Arc : Type 1 where
  pub Cache : Type 0
  pub new_arc : ℕ → Option Cache
  pub get : Cache → Bytes → Option CachedResponse
  pub add : Bytes → CachedResponse → Cache → Cache

-- The bytes that are hashed: the type, the class, whether DNSSEC is asked for, and the name in lower
-- case.
unfoldable pub key_bytes : Bool → Question → Bytes
key_bytes dnssec q =
    (q.qtype % 2 ^ 8)
    ∷ (q.qtype / 2 ^ 8 % 2 ^ 8)
    ∷ (q.qclass % 2 ^ 8)
    ∷ (q.qclass / 2 ^ 8 % 2 ^ 8)
    ∷ (if dnssec then 1 else 0)
    ∷ normalize_raw_q_name q.name

abbrev no_question : Question
no_question = record { name = []; qtype = 0; qclass = 0 }

-- A message without a question never gets here.
abbrev first_question : List Question → Question
first_question [] = no_question
first_question (q ∷ qs) = q

unfoldable pub compute_cache_key : (Bytes → Bytes) → PluginsState → Msg → Bytes
compute_cache_key sha512_256 st msg = sha512_256 (key_bytes st.dnssec (first_question msg.question))

module _ (arc : Arc) (sha512_256 : Bytes → Bytes) where
  open arc use {Cache, new_arc, get, add}

  -- The copy that answers a query.
  abbrev pub synth_of : Msg → CachedResponse → Msg
  synth_of msg cached = record cached.msg {
    id = msg.id;
    response = true;
    compress = true;
    question = msg.question;
  }

  answer_cached : ℕ → PluginsState → Msg → CachedResponse → PluginsState
  answer_cached now st msg cached =
      if ltb cached.expiration now
      then record st {
        stale = some (update_ttl (synth_of msg cached) (now + stale_response_ttl) now);
      }
      else record st {
        synth_response = some (update_ttl (synth_of msg cached) cached.expiration now);
        action = action_synth;
        cache_hit = true;
      }

  lookup : Option Cache → Bytes → Option CachedResponse
  lookup none key = none
  lookup (some cache) key = get cache key

  -- `PluginCache.Eval`; `none` is a cache that is not there yet.
  unfoldable pub cache_eval : ℕ → Plugin (Option Cache)
  unfolding answer_cached lookup
  cache_eval now cache st msg = elim (lookup cache (compute_cache_key sha512_256 st msg)) [
    | none ↦ evaluated cache st msg
    | some cached ↦ evaluated cache (answer_cached now st msg cached) msg
  ]

  unfoldable pub is_cacheable : Msg → Bool
  is_cacheable msg =
      (msg.rcode == rcode_success || (msg.rcode == rcode_name_error || msg.rcode == rcode_not_auth))
      && not msg.truncated

  cache_or_new : ℕ → Option Cache → Option Cache
  cache_or_new size none = new_arc size
  cache_or_new size (some cache) = some cache

  -- `PluginCacheResponse.Eval`. The stored message shares its records with the one that goes on, so
  -- that both have the new TTLs.
  unfoldable pub cache_response_eval : ℕ → Plugin (Option Cache)
  unfolding is_cacheable cache_or_new
  cache_response_eval now cache st msg =
      let ttl =
        get_min_ttl msg st.cache_min_ttl st.cache_max_ttl st.cache_neg_min_ttl
          st.cache_neg_max_ttl in
      let updated = update_ttl msg (now + ttl) now in
      if is_cacheable msg
      then elim (cache_or_new st.cache_size cache) [
        | none ↦ failed none st msg cache_failed
        | some c ↦
            evaluated
              (some (
                add (compute_cache_key sha512_256 st msg)
                  (record { expiration = now + ttl; msg = updated }) c))
              st updated
      ]
      else evaluated cache st msg

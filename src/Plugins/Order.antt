-- ===== src/Plugins/Order.antt =====
-- dnscrypt-proxy/plugins.go, `InitPluginsGlobals`: the order in which the plugins run.
use sourcegraph_testing_dnsc.Base.{
  All, All-append, All-implies, Bool, List, [], arith, false, refl, suc, true, ℕ, ◌++◌, ◌<◌, ◌||◌,
  ◌∷◌, ◌≡◌,
}
use sourcegraph_testing_dnsc.Plugins.Config.{
  PluginKind, PluginSettings, allow_name, allowed_ip, append_if, block_ip, block_ipv6, block_name,
  block_name_response, block_undelegated, block_unqualified, cache, cache_response, captive_portal,
  cloak, dns64, ecs, firefox, forward, get_set_payload_size, nx_log, query_log, query_meta,
  query_plugins, response_plugins,
}

-- The order of the query plugins, and that of the response plugins.
abbrev pub place : PluginKind → ℕ
place captive_portal = 0
place query_meta = 1
place allow_name = 2
place firefox = 3
place ecs = 4
place block_name = 5
place block_ipv6 = 6
place cloak = 7
place get_set_payload_size = 8
place cache = 9
place forward = 10
place block_unqualified = 11
place block_undelegated = 12
place nx_log = 0
place allowed_ip = 1
place block_name_response = 2
place block_ip = 3
place dns64 = 4
place cache_response = 5
place query_log = 0

-- Each plugin stands before all that follow it, and none is there twice.
abbrev pub IsOrdered : List PluginKind → Type 0
IsOrdered [] = Unit {0}
IsOrdered (k ∷ ks) = All (λ j. place k < place j) ks × IsOrdered ks

-- Ordered, with all places below a number.
record Below (n : ℕ) (ks : List PluginKind) : Type 0 where
  ordered : IsOrdered ks
  below : All (λ k. place k < n) ks

IsOrdered-append :
    (ks : List PluginKind) (k : PluginKind)
    → IsOrdered ks
    → All (λ j. place j < place k) ks
    → IsOrdered (ks ++ k ∷ [])
IsOrdered-append [] k o b = (tt, tt)
IsOrdered-append (j ∷ ks) k o b =
    (All-append (λ i. place j < place i) ks (k ∷ []) o.0 (b.0, tt), IsOrdered-append ks k o.1 b.1)

Below-append :
    (n : ℕ) (ks : List PluginKind) (k : PluginKind)
    → place k ≡ n
    → Below n ks
    → Below (suc n) (ks ++ k ∷ [])
Below-append n ks k e b = record {
  ordered =
      IsOrdered-append ks k b.ordered (All-implies _ _ ks (λ j h. omega (arith, e, h)) b.below);
  below =
      All-append (λ j. place j < suc n) ks (k ∷ [])
        (All-implies _ _ ks (λ j h. omega (arith, h)) b.below) (omega (arith, e), tt);
}

Below-append_if :
    (n : ℕ) (test : Bool) (ks : List PluginKind) (k : PluginKind)
    → place k ≡ n
    → Below n ks
    → Below (suc n) (append_if test k ks)
Below-append_if n true ks k e b = Below-append n ks k e b
Below-append_if n false ks k e b = record {
  ordered = b.ordered;
  below = All-implies _ _ ks (λ j h. omega (arith, h)) b.below;
}

Below-nil : Below 0 []
Below-nil = record { ordered = tt; below = tt }

-- Whatever is configured, the query plugins and the response plugins stand in the order of `place`,
-- each at most once: the names that are allowed are known before names are blocked, and the cache
-- is asked after names were blocked, and filled last.
pub plugins-IsOrdered :
    (proxy : PluginSettings) → IsOrdered (query_plugins proxy) × IsOrdered (response_plugins proxy)
unfolding query_plugins response_plugins
plugins-IsOrdered proxy =
    let b1 = Below-append_if 0 proxy.captive_portal_map [] captive_portal refl Below-nil in
    let b2 = Below-append_if 1 proxy.query_meta_set _ query_meta refl b1 in
    let b3 = Below-append_if 2 proxy.allow_name_file _ allow_name refl b2 in
    let b4 = Below-append 3 _ firefox refl b3 in
    let b5 = Below-append_if 4 proxy.edns_client_subnets _ ecs refl b4 in
    let b6 = Below-append_if 5 proxy.block_name_file _ block_name refl b5 in
    let b7 = Below-append_if 6 proxy.plugin_block_ipv6 _ block_ipv6 refl b6 in
    let b8 = Below-append_if 7 proxy.cloak_file _ cloak refl b7 in
    let b9 = Below-append 8 _ get_set_payload_size refl b8 in
    let b10 = Below-append_if 9 proxy.cache_on _ cache refl b9 in
    let b11 = Below-append_if 10 proxy.forward_file _ forward refl b10 in
    let b12 = Below-append_if 11 proxy.plugin_block_unqualified _ block_unqualified refl b11 in
    let b13 = Below-append_if 12 proxy.plugin_block_undelegated _ block_undelegated refl b12 in
    let r1 = Below-append_if 0 proxy.nx_log_file [] nx_log refl Below-nil in
    let r2 = Below-append_if 1 proxy.allowed_ip_file _ allowed_ip refl r1 in
    let r3 = Below-append_if 2 proxy.block_name_file _ block_name_response refl r2 in
    let r4 = Below-append_if 3 proxy.block_ip_file _ block_ip refl r3 in
    let r5 = Below-append_if 4 (proxy.dns64_resolvers || proxy.dns64_prefixes) _ dns64 refl r4 in
    let r6 = Below-append_if 5 proxy.cache_on _ cache_response refl r5 in (b13.ordered, r6.ordered)

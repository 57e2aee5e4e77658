-- ===== src/Lib.antt =====
-- dnscrypt-proxy, a DNS proxy that encrypts: the parts that decide about queries and responses.
--
-- A client's query is read (Common), checked by the query plugins (Plugins), padded and encrypted
-- for a server (Crypto, Estimator) whose certificate was chosen before (Exchange, Certs), and the
-- response is decrypted, checked by the response plugins, and sent back. The paths below are from
-- the root of the repository, in dnscrypt-proxy/.
--
-- Base holds what the other modules share: tests on numbers, lists, byte strings with Go's string
-- functions, integers, results with the errors of the code, and decimal numbers.
--
-- Common, common.go: `prefix_with_size` and `read_prefixed` frame packets on TCP; the reader's
-- chunks are an argument. Text fields, comments, reversal, host and port.
--
-- Estimator, estimators.go: the least size of a padded question as it is adjusted.
--
-- Crypto, crypto.go: `pad`, `unpad`, `encrypt`, `decrypt`. The primitives are the record
-- `Primitives`, and `IsSealing` says what is documented of them. Random draws are arguments.
--
-- TimeRanges, time_ranges.go: times of day, ranges of a week, and whether a moment is in one.
--
-- Patterns, pattern_matcher.go: `add` and `eval` of name rules. Tries are the record `Trie`, with
-- what is documented in `IsTrie`; ListTrie is an instance. `filepath.Match` is an argument.
--
-- Dns, dnsutils.go: messages as far as the code reads them, and the library's calls on them as the
-- record `DnsLib`. Names, Lifetimes, Replies, CertText and Padding follow the functions of the file.
--
-- Exchange, dnsutils.go, `DNSExchange`: the probes that are sent, and the choice among what comes
-- back, in the order in which it comes: an argument. At most two rounds are run, so that no fuel
-- is needed. Steps and Finals are about the loop, Choice about what is returned.
--
-- Certs, dnscrypt_certs.go: the loop over the answers of a certificate query. Order says when a
-- certificate replaces another, Selection what the loop ends with.
--
-- Plugins, plugins.go: `PluginsState` is the record that a request's plugins share. A plugin maps
-- a world (a log, the cache), the state and the message to new ones and perhaps an error. Config
-- has the lists of plugins and the setting for blocked queries, Order in which order they stand,
-- Pipeline the three stages, Runs the rules of the loop over the plugins, and Outcomes what the
-- query stage returns.
-- Names is plugin_block_name.go and plugin_allow_name.go, Addresses is plugin_block_ip.go and
-- plugin_allow_ip.go, Cache is plugin_cache.go, Forward is plugin_forward.go, and Logging is
-- plugin_query_log.go, plugin_nx_log.go and the lines that the other plugins log. Synthetic is the
-- plugins that answer at once or change a query: plugin_firefox.go, plugin_block_unqualified.go,
-- plugin_block_undelegated.go, plugin_block_ipv6.go, plugin_querymeta.go, plugin_captive_portal.go,
-- with the lookup of coldstart.go, and plugin_get_set_payload_size.go.
--
-- Plugins.Dns64, plugin_dns64.go: translation of addresses, prefixes found in a resolver's answers,
-- and the plugin. The proxy's own answer to the query for A records is an argument.
--
-- Plugins.Cloak, plugin_cloak.go: the entries are a store that `cloak_loop` fills from the lines of
-- the file and `cloak_eval` changes when it looks a name up. Lookups and shuffling are arguments.
--
-- Plugins.Ecs, plugin_ecs.go: the subnet that a query names, with the packing as an argument.
--
-- Servers, serversInfo.go: `ServersInfo` is the record of the registered servers and relays and of
-- those in use. Named is the lists by name, Balancing the choice of a server for a query, Refresh
-- the loop over the registered servers, Routes the relay in front of a server, Fetch the probe of
-- a server by DNSCrypt or DoH, Targets that of an oblivious one. A query to a server, the parser
-- of stamps, random draws and the floating-point average of latencies are arguments. `retry` has
-- the three attempts of the code as its fuel.
--
-- Odoh, oblivious_doh.go: `parse_odoh_target_configs`, `encrypt_query` and `decrypt_response`,
-- with the package for HPKE as arguments. `configs_loop` has the length of the input as its fuel,
-- of which each round takes four bytes or more; a read past a slice's capacity is a panic.
--
-- Proxy, proxy.go: Clients is the count of clients, changed by loads and swaps of several
-- goroutines in any order; Upstream the exchange with a server over each protocol, where
-- `udp_loop` reads twice at most as in the code; Requests is `processIncomingQuery`, with Plugins
-- for its stages, Crypto and Odoh for its packets, and the notices that Servers take from it. What
-- a server or a relay sends is an argument.
--
-- The other loops are structural recursion on the list that the code ranges over. Text is ASCII
-- bytes, times are seconds or nanoseconds as in the code, and the clock is an argument.
--
-- Not modelled: the network, files, locks, the messages of the program's own log, the listeners
-- and the start of the proxy, the sources, the HTTP transport, the configuration file, the resolving
-- tool, the local DoH server, and the code of the platforms.
pub mod Base
pub mod Common
pub mod Estimator
pub mod Crypto
pub mod TimeRanges
pub mod Patterns
pub mod Dns
pub mod Exchange
pub mod Certs
pub mod Plugins
pub mod Servers
pub mod Odoh
pub mod Proxy

-- ===== src/Exchange.antt =====
-- dnscrypt-proxy/dnsutils.go, `DNSExchange`: probing a server with and without fragments.
-- What the probes bring back, and in which order, is an argument.
mod Steps
mod Finals
pub mod Choice
mod Tests
use sourcegraph_testing_dnsc.Base.{
  Bool, Error, List, Option, Result, [], err, exchange_failed, false, if◌then◌else◌, ltb, none, ok,
  some, suc, true, zero, ℕ, ◌%◌, ◌&&◌, ◌*◌, ◌+◌, ◌==◌, ◌^◌, ◌||◌, ◌∷◌,
}
use sourcegraph_testing_dnsc.Dns.{Msg}

pub record DnsExchangeResponse : Type 0 where
  pub response : Msg
  pub rtt : ℕ
  pub priority : ℕ
  pub fragments_blocked : Bool
  pub error : Option Error

-- A query sent in the background: its packet, the size it is padded to, and its delay in ms.
pub record Probe : Type 0 where
  pub query : Msg
  pub padded_len : ℕ
  pub delay : ℕ
  pub blocked : Bool

abbrev pub max_tries : ℕ
max_tries = 3

-- The number of a probe is the query's, with the probes before it counted up.
abbrev numbered : Msg → ℕ → Msg
numbered query options = record query { id = (query.id + options) % 2 ^ 16 }

-- The probes from the try `tries` on, of which `left` are left.
probes_loop : Bool → Msg → ℕ → ℕ → ℕ → List Probe
probes_loop try_fragments query zero tries options = []
probes_loop true query (suc left) tries options =
    record {
      query = numbered query options;
      padded_len = 1500;
      delay = 200 * tries;
      blocked = false;
    }
    ∷ record {
      query = numbered query (options + 1);
      padded_len = 480;
      delay = 250 * tries;
      blocked = true;
    }
    ∷ probes_loop true query left (tries + 1) (options + 2)
probes_loop false query (suc left) tries options =
    record { query = numbered query options; padded_len = 480; delay = 250 * tries; blocked = true }
    ∷ probes_loop false query left (tries + 1) (options + 1)

pub probes : Bool → Msg → List Probe
unfolding probes_loop
probes try_fragments query = probes_loop try_fragments query max_tries 0 0

-- The response of a probe, as it is marked before it is sent to the channel.
unfoldable pub answer_of : Probe → Result (Msg × ℕ) → DnsExchangeResponse
answer_of probe (ok (response, rtt)) = record {
  response = response;
  rtt = rtt;
  priority = if probe.blocked then 1 else 0;
  fragments_blocked = probe.blocked;
  error = none;
}
answer_of probe (err e) = record {
  response = probe.query;
  rtt = 0;
  priority = if probe.blocked then 1 else 0;
  fragments_blocked = probe.blocked;
  error = some e;
}

pub better : DnsExchangeResponse → Option DnsExchangeResponse → Bool
better r none = true
better r (some best) =
    ltb r.priority best.priority || (r.priority == best.priority && ltb r.rtt best.rtt)

abbrev pub Choice : Type 0
Choice = Option DnsExchangeResponse × Option Error

-- The loop over the channel: a response of priority 0 ends it.
unfoldable pub choose_loop : List DnsExchangeResponse → Choice → Choice
unfolding better
choose_loop [] (best, error) = (best, error)
choose_loop (r ∷ rs) (best, error) = elim r.error [
  | some e ↦ choose_loop rs (best, some e)
  | none ↦ elim (better r best) [
    | true ↦ elim (r.priority == 0) [
      | true ↦ (some r, error)
      | false ↦ choose_loop rs (some r, error)
    ]
    | false ↦ choose_loop rs (best, error)
  ]
]

abbrev pub Exchanged : Type 0
Exchanged = Result (Msg × ℕ × Bool)

exchange_error : Option Error → Error
exchange_error none = exchange_failed
exchange_error (some e) = e

-- A round that is the last.
unfoldable pub outcome : Choice → Exchanged
unfolding exchange_error
outcome (none, error) = err (exchange_error error)
outcome (some best, error) = ok (best.response, best.rtt, best.fragments_blocked)

unfoldable pub after_round : Bool → Choice → Choice → Exchanged
unfolding outcome
after_round again (none, error) next = if again then outcome next else outcome (none, error)
after_round again (some best, error) next = outcome (some best, error)

-- `DNSExchange`: the arrivals of a round depend on whether it goes through the relay, and only a
-- round through the relay is followed by another.
unfoldable pub dns_exchange : (Bool → List DnsExchangeResponse) → Bool → Bool → Exchanged
unfolding choose_loop after_round
dns_exchange arrivals relay fallback =
    after_round (relay && fallback) (choose_loop (arrivals relay) (none, none))
      (choose_loop (arrivals false) (none, none))

-- ===== src/Exchange/Tests.antt =====
-- dnsutils.go, `DNSExchange`: runs at concrete inputs.
use sourcegraph_testing_dnsc.Base.{
  All, Bool, Error, List, [], err, false, map, none, read_failed, refl, some, true, ℕ, ◌&&◌, ◌==◌,
  ◌∷◌, ◌≡◌, ◌⊎◌,
}
use sourcegraph_testing_dnsc.Dns.{Msg}
use sourcegraph_testing_dnsc.Exchange.{
  DnsExchangeResponse, Exchanged, after_round, better, choose_loop, dns_exchange, outcome, probes,
}
use sourcegraph_testing_dnsc.Exchange.Choice.{HasError, IsBest, dns_exchange-IsBest, returned}

abbrev query : Msg
query = record {
  id = 65535;
  response = false;
  truncated = false;
  recursion_desired = true;
  recursion_available = false;
  authenticated_data = false;
  checking_disabled = false;
  rcode = 0;
  compress = false;
  question = [];
  answer = [];
  ns = [];
  extra = [];
}

abbrev came : ℕ → ℕ → DnsExchangeResponse
came priority rtt = record {
  response = query;
  rtt = rtt;
  priority = priority;
  fragments_blocked = priority == 1;
  error = none;
}

abbrev timed_out : DnsExchangeResponse
timed_out = record (came 0 0) { error = some read_failed }

-- Through the relay nothing comes back; without it, the fast answer is not the preferred one.
abbrev arrivals : Bool → List DnsExchangeResponse
arrivals true = timed_out ∷ timed_out ∷ []
arrivals false = timed_out ∷ came 1 5 ∷ came 0 9 ∷ came 0 1 ∷ []

abbrev result : Exchanged
result = dns_exchange arrivals true true

dns_exchange-IsBest_example :
    ((best : DnsExchangeResponse) × IsBest best (arrivals true) × (result ≡ returned best))
    ⊎ (All HasError (arrivals true)
        × (((true && true ≡ true)
              × (best : DnsExchangeResponse) × IsBest best (arrivals false)
              × (result ≡ returned best))
            ⊎ (((true && true ≡ false) ⊎ All HasError (arrivals false))
                × (x : Error) × (result ≡ err x))))
dns_exchange-IsBest_example = dns_exchange-IsBest arrivals true true

falls_back : result ≡ returned (came 0 9)
unfolding dns_exchange after_round outcome choose_loop better
falls_back = refl

-- The numbers wrap around.
probe_ids : map (λ p. p.query.id) (probes true query) ≡ 65535 ∷ 0 ∷ 1 ∷ 2 ∷ 3 ∷ 4 ∷ []
unfolding probes
probe_ids = refl

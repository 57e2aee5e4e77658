-- ===== src/Plugins/Ecs/Tests.antt =====
-- plugin_ecs.go at concrete inputs.
use sourcegraph_testing_dnsc.Base.{All, List, [], arith, codes, none, refl, some, ℕ, ◌∷◌, ◌≡◌}
use sourcegraph_testing_dnsc.Dns.{DnsLib, EdnsOption, Msg, Rr, opt, type_opt}
use sourcegraph_testing_dnsc.Plugins.{PluginsState, evaluated}
use sourcegraph_testing_dnsc.Plugins.Tests.{query, start}
use sourcegraph_testing_dnsc.Plugins.Ecs.{
  Subnet, SubnetPacking, append_option, ecs_eval, ecs_msg, family, find_options, options_of,
  renewed, with_subnet,
}
use sourcegraph_testing_dnsc.Plugins.Ecs.Once.{IsSized, MakesOpt, NamesSubnet, ecs_eval_once}

abbrev opt_rr : List EdnsOption → Rr
opt_rr options = record {
  header = record { name = codes "."; rrtype = type_opt; class = 1232; ttl = 0 };
  rdata = opt options;
}

abbrev with_opt : DnsLib
with_opt = record {
  unpack = λ s. none;
  pack = λ m. none;
  is_edns0 = λ m. none;
  set_edns0 = λ n d m. record m { extra = opt_rr [] ∷ [] };
  set_options = λ o m. m;
  spoiled = λ s m. s;
}

with_opt-MakesOpt : MakesOpt with_opt
unfolding find_options options_of
with_opt-MakesOpt size d msg = ([], refl)

abbrev packed : SubnetPacking
packed f bits scope address = 0 ∷ f ∷ bits ∷ scope ∷ address

abbrev nets : List Subnet
nets = record { address = 192 ∷ 0 ∷ 2 ∷ []; bits = 24; total_size = 32 } ∷ []

nets-IsSized : All IsSized nets
unfolding family
nets-IsSized = ((1, refl), tt)

names_subnet :
    ecs_eval with_opt packed nets 0 tt start query
    ≡ some (
        evaluated (tt {0}) start (record query {
          extra =
              opt_rr (record { code = 8; payload = 0 ∷ 1 ∷ 24 ∷ 0 ∷ 192 ∷ 0 ∷ 2 ∷ [] } ∷ []) ∷ [];
        }))
unfolding ecs_eval ecs_msg find_options options_of renewed with_subnet family append_option
names_subnet = refl

ecs_eval_once_example :
    (msg' : Msg) × (ecs_eval with_opt packed nets 0 (tt {0}) start query
      ≡ some (evaluated tt start msg'))
    × NamesSubnet msg'.extra
    × ((drawn' : ℕ) (st' : PluginsState)
        → ecs_eval with_opt packed nets drawn' (tt {0}) st' msg' ≡ some (evaluated tt st' msg'))
ecs_eval_once_example =
    ecs_eval_once with_opt packed nets with_opt-MakesOpt nets-IsSized 0 tt start query (omega arith)

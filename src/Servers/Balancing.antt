-- ===== src/Servers/Balancing.antt =====
-- serversInfo.go: the strategies that balance the load, and the choice of a server for a query.
-- A random draw is an argument; `none` is a panic, by an index or a draw out of range.
use sourcegraph_testing_dnsc.Base.{
  List, Option, [], false, get_elem?, if◌then◌else◌, length, ltb, none, set, some, true, ℕ, ◌&&◌,
  ◌+◌, ◌-◌, ◌/◌, ◌==◌, ◌>>=◌, ◌||◌, ◌∷◌,
}
use sourcegraph_testing_dnsc.Common.{max, min}
use sourcegraph_testing_dnsc.Servers.{
  LbStrategy, RttAverage, ServerInfo, ServersInfo, first, p2, ph, pn, random,
}

-- `rand.Intn(n)`, with the number that it draws.
abbrev pub intn : (ℕ → ℕ) → ℕ → Option ℕ
intn draw n = if n == 0 then none else some (draw n)

unfoldable pub get_active_count : LbStrategy → ℕ → ℕ
unfolding min max
get_active_count p2 servers_count = min servers_count 2
get_active_count (pn n) servers_count = min servers_count n
get_active_count ph servers_count = max (min servers_count 2) (servers_count / 2)
get_active_count first servers_count = 1
get_active_count random servers_count = servers_count

unfoldable pub get_candidate : LbStrategy → (ℕ → ℕ) → ℕ → Option ℕ
unfolding min max
get_candidate p2 draw servers_count = intn draw (min servers_count 2)
get_candidate (pn n) draw servers_count = intn draw (min servers_count n)
get_candidate ph draw servers_count = intn draw (max (min servers_count 2) (servers_count / 2))
get_candidate first draw servers_count = some 0
get_candidate random draw servers_count = intn draw servers_count

abbrev pub one_minute : ℕ
one_minute = 60000000000

module _ (m : RttAverage) {T : Type 0} where
  open m use {
    Average, Float, add, assign, value_of, float_of, float_lt, float_le, plus, half, times4,
  }

  abbrev pub with_rtt : Average → ServerInfo Average T → ServerInfo Average T
  with_rtt rtt s = record s { rtt = rtt }

  abbrev pub rtt_value : ServerInfo Average T → Float
  rtt_value s = value_of s.rtt

  -- One pass over neighbours, which leaves a server that it moves back in the next place.
  unfoldable pub carry :
      ServerInfo Average T → List (ServerInfo Average T) → List (ServerInfo Average T)
  carry s [] = s ∷ []
  carry s (t ∷ ts) = elim (float_lt (rtt_value t) (rtt_value s)) [
    | true ↦ t ∷ carry s ts
    | false ↦ s ∷ carry t ts
  ]

  unfoldable pub partial_sort : List (ServerInfo Average T) → List (ServerInfo Average T)
  unfolding carry
  partial_sort [] = []
  partial_sort (s ∷ ss) = carry s ss

  -- A candidate far slower than the servers in use, and not used for a minute, gets another chance.
  unfoldable pub new_chance :
      ℕ
      → List (ServerInfo Average T)
      → ℕ
      → ℕ
      → ServerInfo Average T
      → Option (List (ServerInfo Average T))
  unfolding partial_sort
  new_chance now inner active_count candidate c = elim (get_elem? inner 0) [
    | none ↦ none
    | some best ↦ elim (get_elem? inner (active_count - 1)) [
      | none ↦ none
      | some last ↦
          if float_le (times4 (half (plus (rtt_value best) (rtt_value last)))) (rtt_value c)
            && ltb one_minute (now - c.last_action_ts)
          then some
              (partial_sort (set inner candidate (with_rtt (add (half (rtt_value c)) c.rtt) c)))
          else some inner
    ]
  ]

  -- The candidate and the server in use are compared.
  unfoldable pub weigh :
      ℕ
      → List (ServerInfo Average T)
      → ℕ
      → ℕ
      → ℕ
      → ServerInfo Average T
      → ServerInfo Average T
      → Option (List (ServerInfo Average T))
  unfolding new_chance partial_sort
  weigh now inner active_count candidate current c a =
      if float_lt (rtt_value a) (float_of 0)
      then some (set inner current (with_rtt (assign (rtt_value c) a.rtt) a))
      else if float_lt (rtt_value c) (rtt_value a)
      then some (partial_sort (set (set inner candidate a) current c))
      else if float_lt (float_of 0) (rtt_value c)
      then new_chance now inner active_count candidate c
      else some inner

  unfoldable pub estimator_update :
      LbStrategy
      → (ℕ → ℕ)
      → ℕ
      → List (ServerInfo Average T)
      → ℕ
      → Option (List (ServerInfo Average T))
  unfolding get_active_count weigh
  estimator_update strategy draw now inner current =
      let servers_count = length inner in
      let active_count = get_active_count strategy servers_count in
      let candidate = draw (servers_count - active_count) + active_count in
      if active_count == servers_count
      then some inner
      else if ltb servers_count active_count || active_count == 0
      then none
      else elim (get_elem? inner candidate) [
        | none ↦ none
        | some c ↦ elim (get_elem? inner current) [
          | none ↦ none
          | some a ↦ weigh now inner active_count candidate current c a
        ]
      ]

  -- `getOne`: the servers that it leaves, and the one it returns, if there are any.
  unfoldable pub get_one :
      ServersInfo Average T
      → (ℕ → ℕ)
      → (ℕ → ℕ)
      → ℕ
      → Option (List (ServerInfo Average T) × Option (ServerInfo Average T))
  unfolding get_candidate estimator_update
  get_one st draw draw' now =
      let servers_count = length st.inner in
      if servers_count == 0 then some (st.inner, none) else do
        candidate ← get_candidate st.lb_strategy draw servers_count
        inner ←
            (if st.lb_estimator
              then estimator_update st.lb_strategy draw' now st.inner candidate
              else some st.inner)
        server ← get_elem? inner candidate
        some (inner, some server)

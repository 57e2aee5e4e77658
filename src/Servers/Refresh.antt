-- ===== src/Servers/Refresh.antt =====
-- serversInfo.go: `refreshServer` and `refresh`. What a server answers is a function of its name, its
-- stamp and whether it is new: what `fetchServerInfo` returns in this refresh, or `none` where it ends
-- the program.
use sourcegraph_testing_dnsc.Base.{
  Bool, Bytes, Error, List, Option, Result, [], bytes_eq, err, if◌then◌else◌, is_some, ltb, none,
  not, ok, some, ℕ, ◌++◌, ◌+◌, ◌∷◌,
}
use sourcegraph_testing_dnsc.Servers.{
  RegisteredServer, RttAverage, ServerInfo, ServerStamp, ServersInfo, find_named, register_server,
  replace_or_append,
}

-- The program ends, or the refresh fails and changes nothing, or it succeeds.
pub data Refreshing (A T : Type 0) : Type 0 where
  exited : Refreshing A T
  failed : Error → Refreshing A T
  refreshed : ServersInfo A T → Refreshing A T

-- The servers after a refresh of all, how many of them answered, and the last call's error.
pub record RefreshedAll (A T : Type 0) : Type 0 where
  pub servers : ServersInfo A T
  pub live : ℕ
  pub error : Option Error

-- `sort.SliceStable` by the initial latency.
module _ {A T : Type 0} where
  unfoldable pub insert_by_rtt : ServerInfo A T → List (ServerInfo A T) → List (ServerInfo A T)
  insert_by_rtt s [] = s ∷ []
  insert_by_rtt s (t ∷ ts) =
      if ltb t.initial_rtt s.initial_rtt then t ∷ insert_by_rtt s ts else s ∷ t ∷ ts

  unfoldable pub sort_by_rtt : List (ServerInfo A T) → List (ServerInfo A T)
  unfolding insert_by_rtt
  sort_by_rtt [] = []
  sort_by_rtt (s ∷ ss) = insert_by_rtt s (sort_by_rtt ss)

module _ (m : RttAverage) {T : Type 0}
    (fetch : Bytes → ServerStamp → Bool → Option (Result (ServerInfo m.Average T))) where
  open m use {Average, new_moving_average, assign, float_of}

  -- A new moving average, at the initial latency.
  abbrev pub with_initial : ServerInfo Average T → ServerInfo Average T
  with_initial s = record s { rtt = assign (float_of s.initial_rtt) new_moving_average }

  unfoldable pub install :
      Bytes → ServerStamp → ServerInfo Average T → ServersInfo Average T → ServersInfo Average T
  unfolding find_named replace_or_append register_server
  install name stamp new st =
      if is_some (find_named (λ s. s.name) name st.inner)
      then record st { inner = replace_or_append (λ s. s.name) new st.inner }
      else register_server name stamp (record st { inner = st.inner ++ new ∷ [] })

  unfoldable pub refresh_server : Bytes → ServerStamp → ServersInfo Average T → Refreshing Average T
  unfolding install find_named
  refresh_server name stamp st =
      let is_new = not (is_some (find_named (λ s. s.name) name st.inner)) in
      elim (fetch name stamp is_new) [
        | none ↦ exited
        | some (err e) ↦ failed e
        | some (ok new) ↦
            if bytes_eq name new.name
            then refreshed (install name stamp (with_initial new) st)
            else exited
      ]

  unfoldable pub refresh_loop :
      List RegisteredServer
      → ServersInfo Average T
      → ℕ
      → Option Error
      → Option (RefreshedAll Average T)
  unfolding refresh_server
  refresh_loop [] st live error = some (record { servers = st; live = live; error = error })
  refresh_loop (r ∷ rs) st live error = elim (refresh_server r.name r.stamp st) [
    | exited ↦ none
    | failed e ↦ refresh_loop rs st live (some e)
    | refreshed st' ↦ refresh_loop rs st' (live + 1) none
  ]

  -- `none` is the end of the program.
  unfoldable pub refresh : ServersInfo Average T → Option (RefreshedAll Average T)
  unfolding refresh_loop sort_by_rtt
  refresh st = elim (refresh_loop st.registered_servers st 0 none) [
    | none ↦ none
    | some all ↦
        some (record all { servers = record all.servers { inner = sort_by_rtt all.servers.inner } })
  ]

-- ===== src/Servers/Refreshed.antt =====
-- serversInfo.go: what a refresh of all registered servers leaves.
use mathlib.Core.Path.{subst}
use sourcegraph_testing_dnsc.Base.{
  All, All-implies, Any, Bool, Bytes, Error, List, Option, Option-cases, Result, Result-cases, [],
  ap, arith, bytes_eq, bytes_eq_refl, err, false, inl, inr, is_some, none, not, ok, refl, some, sym,
  true, ℕ, ◌++◌, ◌+◌, ◌∙◌, ◌∷◌, ◌≡◌, ◌⊎◌,
}
use sourcegraph_testing_dnsc.Servers.{
  RegisteredServer, RttAverage, ServerInfo, ServerStamp, ServersInfo, find_named, register_server,
  replace_or_append,
}
use sourcegraph_testing_dnsc.Servers.Named.{
  IsUnique, Lacks, bytes_eq_sym, find_named-Lacks, find_named-replace_or_append,
  replace_or_append-IsUnique,
}
use sourcegraph_testing_dnsc.Servers.Refresh.{
  RefreshedAll, exited, failed, install, refresh, refresh_loop, refresh_server, refreshed,
  sort_by_rtt, with_initial,
}
use sourcegraph_testing_dnsc.Servers.Sorting.{IsSorted, find-sort, sort-IsSorted, sort-IsUnique}

replace-append :
    {A : Type 0} (name_of : A → Bytes) (new : A) (xs : List A)
    → Lacks name_of (name_of new) xs
    → replace_or_append name_of new xs ≡ xs ++ new ∷ []
unfolding replace_or_append
replace-append name_of new [] h = refl
replace-append name_of new (x ∷ xs) h = rw (h.0, replace-append name_of new xs h.1)

module _ (m : RttAverage) {T : Type 0}
    (fetch : Bytes → ServerStamp → Bool → Option (Result (ServerInfo m.Average T))) where
  open m use {Average}

  abbrev pub find : Bytes → List (ServerInfo Average T) → Option (ServerInfo Average T)
  find = find_named (λ s. s.name)

  -- A server has the name under which it is fetched.
  abbrev pub IsNaming : Type 0
  IsNaming =
      (name : Bytes) (stamp : ServerStamp) (is_new : Bool) (s : ServerInfo Average T)
      → fetch name stamp is_new ≡ some (ok s)
      → s.name ≡ name

  -- What is known of a registered server after a refresh, from what was known before.
  abbrev pub now_known :
      RegisteredServer → Option (ServerInfo Average T) → Option (ServerInfo Average T)
  now_known r old = elim (fetch r.name r.stamp (not (is_some old))) [
    | none ↦ old
    | some (err e) ↦ old
    | some (ok s) ↦ some (with_initial m fetch s)
  ]

  abbrev pub answers : RegisteredServer → Option (ServerInfo Average T) → ℕ
  answers r old = elim (fetch r.name r.stamp (not (is_some old))) [
    | none ↦ 0
    | some (err e) ↦ 0
    | some (ok s) ↦ 1
  ]

  abbrev pub live_count : List RegisteredServer → List (ServerInfo Average T) → ℕ
  live_count [] ss = 0
  live_count (r ∷ rs) ss = answers r (find r.name ss) + live_count rs ss

  install-inner :
      (name : Bytes) (stamp : ServerStamp) (new : ServerInfo Average T) (st : ServersInfo Average T)
      → new.name ≡ name
      → (install m fetch name stamp new st).inner ≡ replace_or_append (λ s. s.name) new st.inner
  unfolding install register_server
  install-inner name stamp new st same = elim (Option-cases (find name st.inner)) [
    | inr (s, e) ↦ rw e
    | inl e ↦
        let lacks = find_named-Lacks (λ s. s.name) name st.inner e in
        rw e (
          sym (
            replace-append (λ s. s.name) new st.inner
              (subst (λ n. Lacks (λ s. s.name) n st.inner) (sym same) lacks)))
  ]

  -- The fetching of one of the servers ends the program.
  abbrev pub Exits : List RegisteredServer → Type 0
  Exits = Any (λ r. (is_new : Bool) × (fetch r.name r.stamp is_new ≡ none))

  -- One step of the loop: an end of the program, an error, or a server that takes its name's place.
  abbrev Stepped : RegisteredServer → ServersInfo Average T → Type 0
  Stepped r st =
      ((refresh_server m fetch r.name r.stamp st ≡ exited)
        × (is_new : Bool) × (fetch r.name r.stamp is_new ≡ none))
      ⊎ ((e : Error) × (refresh_server m fetch r.name r.stamp st ≡ failed e)
          × (now_known r (find r.name st.inner) ≡ find r.name st.inner)
          × (answers r (find r.name st.inner) ≡ 0))
      ⊎ ((s : ServerInfo Average T) × (st' : ServersInfo Average T) × (refresh_server m fetch r.name
              r.stamp st
            ≡ refreshed st')
          × (s.name ≡ r.name)
          × (st'.inner ≡ replace_or_append (λ t. t.name) s st.inner)
          × (now_known r (find r.name st.inner) ≡ some s)
          × (answers r (find r.name st.inner) ≡ 1))

  refresh_server-Stepped :
      IsNaming → (r : RegisteredServer) (st : ServersInfo Average T) → Stepped r st
  unfolding refresh_server
  refresh_server-Stepped naming r st =
      let is_new : Bool = not (is_some (find r.name st.inner)) in
      elim (Option-cases (fetch r.name r.stamp is_new)) [
        | inl h ↦ inl (rw (refresh_server, h) refl, is_new, h)
        | inr (x, h) ↦ elim (Result-cases x) [
          | inr (e, k) ↦
              let h' = h ∙ ap some k in
              inr (
                inl
                  (e, rw (refresh_server, h') refl, rw (now_known, h') refl, rw (answers, h') refl))
          | inl (s, k) ↦
              let h' = h ∙ ap some k in
              let same = naming r.name r.stamp is_new s h' in
              inr (
                inr (
                  with_initial m fetch s,
                  install m fetch r.name r.stamp (with_initial m fetch s) st,
                  rw (refresh_server, h', same, bytes_eq_refl r.name) refl,
                  same,
                  install-inner r.name r.stamp (with_initial m fetch s) st same,
                  rw (now_known, h') refl,
                  rw (answers, h') refl,
                ))
        ]
      ]

  -- What the servers are after the registered ones in `rs` were refreshed, and `live` counts them.
  record AllRefreshed (rs : List RegisteredServer) (before after : List (ServerInfo Average T))
      (live live' : ℕ) : Type 0 where
    pub found : All (λ r. find r.name after ≡ now_known r (find r.name before)) rs
    pub others : (name : Bytes) → Lacks (λ r. r.name) name rs → find name after ≡ find name before
    pub unique : IsUnique (λ s. s.name) after
    pub counted : live' ≡ live + live_count rs before

  other_name :
      (s : ServerInfo Average T) (r r' : RegisteredServer)
      → s.name ≡ r.name
      → bytes_eq r'.name r.name ≡ false
      → bytes_eq s.name r'.name ≡ false
  other_name s r r' e h = rw e (bytes_eq_sym r.name r'.name ∙ h)

  -- A server that takes the place of its name leaves what is found under the other names.
  found_later :
      (s : ServerInfo Average T) (r : RegisteredServer) (rs : List RegisteredServer)
      (before after : List (ServerInfo Average T))
      → s.name ≡ r.name
      → Lacks (λ r'. r'.name) r.name rs
      → All
          (λ r'.
            find r'.name after
            ≡ now_known r' (find r'.name (replace_or_append (λ t. t.name) s before)))
          rs
      → All (λ r'. find r'.name after ≡ now_known r' (find r'.name before)) rs
  found_later s r [] before after e lacks h = tt
  found_later s r (r' ∷ rs) before after e lacks h = (
    h.0
        ∙ ap (now_known r') (
            rw (
              find_named-replace_or_append (λ t. t.name) r'.name s before,
              other_name s r r' e (lacks.0),
            )),
    found_later s r rs before after e lacks.1 h.1,
  )

  live_later :
      (s : ServerInfo Average T) (r : RegisteredServer) (rs : List RegisteredServer)
      (before : List (ServerInfo Average T))
      → s.name ≡ r.name
      → Lacks (λ r'. r'.name) r.name rs
      → live_count rs (replace_or_append (λ t. t.name) s before) ≡ live_count rs before
  live_later s r [] before e lacks = refl
  live_later s r (r' ∷ rs) before e lacks =
      rw (find_named-replace_or_append (λ t. t.name) r'.name s before, other_name s r r' e lacks.0)
        (ap (λ n. answers r' (find r'.name before) + n) (live_later s r rs before e lacks.1))

  abbrev LoopRefreshed : List RegisteredServer → ServersInfo Average T → ℕ → Option Error → Type 0
  LoopRefreshed rs st live error =
      ((refresh_loop m fetch rs st live error ≡ none) × Exits rs)
      ⊎ ((all : RefreshedAll Average T) × (refresh_loop m fetch rs st live error ≡ some all)
          × AllRefreshed rs st.inner all.servers.inner live all.live)

  loop_failed :
      (r : RegisteredServer) (rs : List RegisteredServer)
      (before after : List (ServerInfo Average T)) (live live' : ℕ)
      → now_known r (find r.name before) ≡ find r.name before
      → answers r (find r.name before) ≡ 0
      → Lacks (λ r'. r'.name) r.name rs
      → AllRefreshed rs before after live live'
      → AllRefreshed (r ∷ rs) before after live live'
  loop_failed r rs before after live live' known none_live lacks a = record {
    found = (a.others r.name lacks ∙ sym known, a.found);
    others = λ name h. a.others name h.1;
    unique = a.unique;
    counted = omega (arith, a.counted, none_live);
  }

  loop_refreshed :
      (r : RegisteredServer) (rs : List RegisteredServer) (s : ServerInfo Average T)
      (before after : List (ServerInfo Average T)) (live live' : ℕ)
      → s.name ≡ r.name
      → now_known r (find r.name before) ≡ some s
      → answers r (find r.name before) ≡ 1
      → Lacks (λ r'. r'.name) r.name rs
      → AllRefreshed rs (replace_or_append (λ t. t.name) s before) after (live + 1) live'
      → AllRefreshed (r ∷ rs) before after live live'
  loop_refreshed r rs s before after live live' same known one_live lacks a =
      let self : bytes_eq s.name r.name ≡ true =
        subst (λ n. bytes_eq n r.name ≡ true) (sym same) (bytes_eq_refl r.name) in
      record {
        found = (
          a.others r.name lacks
              ∙ rw (find_named-replace_or_append (λ t. t.name) r.name s before, self) (sym known),
          found_later s r rs before after same lacks a.found,
        );
        others = λ name h.
            a.others name h.1
            ∙ rw (find_named-replace_or_append (λ t. t.name) name s before, same, h.0);
        unique = a.unique;
        counted = omega (arith, a.counted, one_live, live_later s r rs before same lacks);
      }

  loop-LoopRefreshed :
      IsNaming
      → (rs : List RegisteredServer) (st : ServersInfo Average T) (live : ℕ) (error : Option Error)
      → IsUnique (λ r. r.name) rs
      → IsUnique (λ s. s.name) st.inner
      → LoopRefreshed rs st live error
  unfolding refresh_loop
  loop-LoopRefreshed naming [] st live error u v = inr (
    record { servers = st; live = live; error = error },
    refl,
    record { found = tt; others = λ name h. refl; unique = v; counted = omega arith },
  )
  loop-LoopRefreshed naming (r ∷ rs) st live error u v = elim (refresh_server-Stepped naming r st) [
    | inl (step, is_new, end) ↦ inl (rw (refresh_loop, step) refl, inl (is_new, end))
    | inr (inl (e, step, known, none_live)) ↦
        elim (loop-LoopRefreshed naming rs st live (some e) u.1 v) [
          | inl (run, end) ↦ inl (rw (refresh_loop, step) run, inr end)
          | inr (all, run, a) ↦ inr (
            all,
            rw (refresh_loop, step) run,
            loop_failed r rs st.inner _ live _ known none_live u.0 a,
          )
        ]
    | inr (inr (s, st', step, same, inner, known, one_live)) ↦
        let v' =
          subst (IsUnique (λ s. s.name)) (sym inner)
            (replace_or_append-IsUnique (λ t. t.name) s st.inner v) in
        elim (loop-LoopRefreshed naming rs st' (live + 1) none u.1 v') [
          | inl (run, end) ↦ inl (rw (refresh_loop, step) run, inr end)
          | inr (all, run, a) ↦ inr (
            all,
            rw (refresh_loop, step) run,
            loop_refreshed r rs s st.inner _ live _ same known one_live u.0
                (subst (λ ss. AllRefreshed rs ss all.servers.inner (live + 1) all.live) inner a),
          )
        ]
  ]

  -- What a refresh leaves of the servers `before`.
  pub record IsRefreshed (st : ServersInfo Average T) (all : RefreshedAll Average T) : Type 0 where
    pub sorted : IsSorted all.servers.inner
    pub unique : IsUnique (λ s. s.name) all.servers.inner
    pub found :
        All
          (λ r. find r.name all.servers.inner ≡ now_known r (find r.name st.inner))
          st.registered_servers
    pub others :
        (name : Bytes)
        → Lacks (λ r. r.name) name st.registered_servers
        → find name all.servers.inner ≡ find name st.inner
    pub counted : all.live ≡ live_count st.registered_servers st.inner

  -- A refresh ends the program only where the fetching of a registered server does. Otherwise each
  -- registered server that answered is known by its new data, each that did not by its old data or
  -- still not at all, and no other server has changed; no name stands twice, the servers are in the
  -- order of their initial latencies, and the count is of the servers that answered. Before, no name
  -- stands twice in either list, and a server is fetched under its name.
  pub refresh-IsRefreshed :
      IsNaming
      → (st : ServersInfo Average T) → IsUnique (λ r. r.name) st.registered_servers
      → IsUnique (λ s. s.name) st.inner
      → ((refresh m fetch st ≡ none) × Exits st.registered_servers)
        ⊎ ((all : RefreshedAll Average T) × (refresh m fetch st ≡ some all) × IsRefreshed st all)
  unfolding refresh
  refresh-IsRefreshed naming st u v =
      elim (loop-LoopRefreshed naming st.registered_servers st 0 none u v) [
        | inl (run, end) ↦ inl (rw (refresh, run) refl, end)
        | inr (all, run, a) ↦ inr (
          record all { servers = record all.servers { inner = sort_by_rtt all.servers.inner } },
          rw (refresh, run) refl,
          record {
            sorted = sort-IsSorted all.servers.inner;
            unique = sort-IsUnique all.servers.inner a.unique;
            found =
                All-implies _ _ st.registered_servers
                  (λ r h. find-sort r.name all.servers.inner a.unique ∙ h) a.found;
            others = λ name h. find-sort name all.servers.inner a.unique ∙ a.others name h;
            counted = a.counted ∙ omega arith;
          },
        )
      ]

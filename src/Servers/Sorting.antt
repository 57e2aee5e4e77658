-- ===== src/Servers/Sorting.antt =====
-- serversInfo.go: the order of the servers by their initial latency.
use sourcegraph_testing_dnsc.Base.{
  All, All-implies, Bool-cases, Bytes, List, [], ap, arith, bytes_eq, bytes_eq→eq, false,
  if◌then◌else◌, inl, inr, ltb, refl, some, true, ℕ, ◌==◌, ◌∙◌, ◌∷◌, ◌≡◌, ◌≤◌,
}
use sourcegraph_testing_dnsc.Servers.{ServerInfo, find_named}
use sourcegraph_testing_dnsc.Servers.Named.{IsUnique, Lacks, bytes_eq_sym}
use sourcegraph_testing_dnsc.Servers.Refresh.{insert_by_rtt, sort_by_rtt}

module _ {A T : Type 0} where
  abbrev pub IsSorted : List (ServerInfo A T) → Type 0
  IsSorted [] = Unit {0}
  IsSorted (s ∷ ss) = All (λ t. s.initial_rtt ≤ t.initial_rtt) ss × IsSorted ss

  -- The servers that stand at one latency, in their order.
  abbrev pub at_rtt : ℕ → List (ServerInfo A T) → List (ServerInfo A T)
  at_rtt n [] = []
  at_rtt n (s ∷ ss) = if s.initial_rtt == n then s ∷ at_rtt n ss else at_rtt n ss

  All-insert {κ} :
      (P : ServerInfo A T → Type κ) (s : ServerInfo A T) (ss : List (ServerInfo A T))
      → P s
      → All P ss
      → All P (insert_by_rtt s ss)
  unfolding insert_by_rtt
  All-insert P s [] p h = (p, tt)
  All-insert P s (t ∷ ts) p h = elim (Bool-cases (ltb t.initial_rtt s.initial_rtt)) [
    | inl e ↦ rw e (h.0, All-insert P s ts p h.1)
    | inr e ↦ rw e (p, h)
  ]

  insert-IsSorted :
      (s : ServerInfo A T) (ss : List (ServerInfo A T))
      → IsSorted ss
      → IsSorted (insert_by_rtt s ss)
  unfolding insert_by_rtt
  insert-IsSorted s [] h = (tt, tt)
  insert-IsSorted s (t ∷ ts) h = elim (Bool-cases (ltb t.initial_rtt s.initial_rtt)) [
    | inl e ↦ rw e (All-insert _ s ts (below e) h.0, insert-IsSorted s ts h.1)
    | inr e ↦ rw e ((above e, All-implies _ _ ts (λ u le. trans e u le) h.0), h)
  ]
    where
      below : ltb t.initial_rtt s.initial_rtt ≡ true → t.initial_rtt ≤ s.initial_rtt
      below e = ground arith

      above : ltb t.initial_rtt s.initial_rtt ≡ false → s.initial_rtt ≤ t.initial_rtt
      above e = ground arith

      trans :
          ltb t.initial_rtt s.initial_rtt ≡ false
          → (u : ServerInfo A T) → t.initial_rtt ≤ u.initial_rtt
          → s.initial_rtt ≤ u.initial_rtt
      trans e u le = ground arith

  pub sort-IsSorted : (ss : List (ServerInfo A T)) → IsSorted (sort_by_rtt ss)
  unfolding sort_by_rtt
  sort-IsSorted [] = tt
  sort-IsSorted (s ∷ ss) = insert-IsSorted s (sort_by_rtt ss) (sort-IsSorted ss)

  at_rtt-insert :
      (n : ℕ) (s : ServerInfo A T) (ss : List (ServerInfo A T))
      → at_rtt n (insert_by_rtt s ss) ≡ at_rtt n (s ∷ ss)
  unfolding insert_by_rtt
  at_rtt-insert n s [] = refl
  at_rtt-insert n s (t ∷ ts) = elim (Bool-cases (ltb t.initial_rtt s.initial_rtt)) [
    | inl e ↦ rw e (later e (at_rtt n ts) (at_rtt n (insert_by_rtt s ts)) (at_rtt-insert n s ts))
    | inr e ↦ rw e
  ]
    where
      later :
          ltb t.initial_rtt s.initial_rtt ≡ true
          → (us vs : List (ServerInfo A T)) → vs ≡ (if s.initial_rtt == n then s ∷ us else us)
          → (if t.initial_rtt == n then t ∷ vs else vs) ≡ (
              if s.initial_rtt == n
              then s ∷ (if t.initial_rtt == n then t ∷ us else us)
              else if t.initial_rtt == n
              then t ∷ us
              else us)
      later e us vs h = ground arith

  -- The sort is stable: at each latency it leaves the servers and their order, so that it only
  -- rearranges them.
  pub at_rtt-sort : (n : ℕ) (ss : List (ServerInfo A T)) → at_rtt n (sort_by_rtt ss) ≡ at_rtt n ss
  unfolding sort_by_rtt
  at_rtt-sort n [] = refl
  at_rtt-sort n (s ∷ ss) =
      at_rtt-insert n s (sort_by_rtt ss)
      ∙ ap (λ us. if s.initial_rtt == n then s ∷ us else us) (at_rtt-sort n ss)

  find-insert :
      (name : Bytes) (s : ServerInfo A T) (ss : List (ServerInfo A T))
      → Lacks (λ t. t.name) s.name ss
      → find_named (λ t. t.name) name (insert_by_rtt s ss)
        ≡ (if bytes_eq s.name name then some s else find_named (λ t. t.name) name ss)
  unfolding insert_by_rtt find_named
  find-insert name s [] h = refl
  find-insert name s (t ∷ ts) h = elim (Bool-cases (ltb t.initial_rtt s.initial_rtt)) [
    | inr e ↦ rw e
    | inl e ↦ rw e (elim (Bool-cases (bytes_eq t.name name)) [
      | inl f ↦
          let same = bytes_eq→eq t.name name f in
          let other = bytes_eq_sym s.name t.name ∙ h.0 in rw (f, rw same at other)
      | inr f ↦ rw f (find-insert name s ts h.1)
    ])
  ]

  Lacks-sort :
      (name : Bytes) (ss : List (ServerInfo A T))
      → Lacks (λ t. t.name) name ss
      → Lacks (λ t. t.name) name (sort_by_rtt ss)
  unfolding sort_by_rtt
  Lacks-sort name [] h = h
  Lacks-sort name (s ∷ ss) h = All-insert _ s (sort_by_rtt ss) h.0 (Lacks-sort name ss h.1)

  pub find-sort :
      (name : Bytes) (ss : List (ServerInfo A T))
      → IsUnique (λ t. t.name) ss
      → find_named (λ t. t.name) name (sort_by_rtt ss) ≡ find_named (λ t. t.name) name ss
  unfolding sort_by_rtt find_named
  find-sort name [] u = refl
  find-sort name (s ∷ ss) u =
      find-insert name s (sort_by_rtt ss) (Lacks-sort s.name ss u.0)
      ∙ ap (λ o. if bytes_eq s.name name then some s else o) (find-sort name ss u.1)

  insert-IsUnique :
      (s : ServerInfo A T) (ss : List (ServerInfo A T))
      → Lacks (λ t. t.name) s.name ss
      → IsUnique (λ t. t.name) ss
      → IsUnique (λ t. t.name) (insert_by_rtt s ss)
  unfolding insert_by_rtt
  insert-IsUnique s [] h u = (tt, tt)
  insert-IsUnique s (t ∷ ts) h u = elim (Bool-cases (ltb t.initial_rtt s.initial_rtt)) [
    | inr e ↦ rw e (h, u)
    | inl e ↦
        rw e
          (All-insert _ s ts (bytes_eq_sym s.name t.name ∙ h.0) u.0, insert-IsUnique s ts h.1 u.1)
  ]

  pub sort-IsUnique :
      (ss : List (ServerInfo A T))
      → IsUnique (λ t. t.name) ss
      → IsUnique (λ t. t.name) (sort_by_rtt ss)
  unfolding sort_by_rtt
  sort-IsUnique [] u = u
  sort-IsUnique (s ∷ ss) u =
      insert-IsUnique s (sort_by_rtt ss) (Lacks-sort s.name ss u.0) (sort-IsUnique ss u.1)

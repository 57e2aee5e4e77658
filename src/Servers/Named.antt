-- ===== src/Servers/Named.antt =====
-- serversInfo.go: lists in which a name stands once.
use mathlib.Core.Path.{subst}
use sourcegraph_testing_dnsc.Base.{
  All, Bool, Bool-cases, Bytes, List, [], arith, bytes_eq, bytes_eq→eq, false, if◌then◌else◌, inl,
  inr, none, refl, some, true, ◌∙◌, ◌∷◌, ◌≡◌,
}
use sourcegraph_testing_dnsc.Servers.{
  RegisteredServer, ServerStamp, ServersInfo, find_named, register_relay, register_server,
  replace_or_append,
}

pub bytes_eq_sym : (s t : Bytes) → bytes_eq s t ≡ bytes_eq t s
bytes_eq_sym [] [] = refl
bytes_eq_sym [] (y ∷ ys) = refl
bytes_eq_sym (x ∷ xs) [] = refl
bytes_eq_sym (x ∷ xs) (y ∷ ys) = ground (arith, bytes_eq_sym xs ys)

module _ {A : Type 0} (name_of : A → Bytes) where
  abbrev pub Lacks : Bytes → List A → Type 0
  Lacks name xs = All (λ x. bytes_eq (name_of x) name ≡ false) xs

  abbrev pub IsUnique : List A → Type 0
  IsUnique [] = Unit {0}
  IsUnique (x ∷ xs) = Lacks (name_of x) xs × IsUnique xs

  pub find_named_lacking :
      (name : Bytes) (xs : List A) → Lacks name xs → find_named name_of name xs ≡ none
  unfolding find_named
  find_named_lacking name [] h = refl
  find_named_lacking name (x ∷ xs) h = rw (h.0) (find_named_lacking name xs h.1)

  pub find_named-Lacks :
      (name : Bytes) (xs : List A) → find_named name_of name xs ≡ none → Lacks name xs
  unfolding find_named
  find_named-Lacks name [] h = tt
  find_named-Lacks name (x ∷ xs) h = elim (Bool-cases (bytes_eq (name_of x) name)) [
    | inl e ↦ absurd (let h' : some x ≡ none = rw e at h in cc)
    | inr e ↦ (e, find_named-Lacks name xs (rw e at h))
  ]

  -- What a lookup finds after a new element has taken its name's place.
  pub find_named-replace_or_append :
      (name : Bytes) (new : A) (xs : List A)
      → find_named name_of name (replace_or_append name_of new xs)
        ≡ (if bytes_eq (name_of new) name then some new else find_named name_of name xs)
  unfolding find_named replace_or_append
  find_named-replace_or_append name new [] = refl
  find_named-replace_or_append name new (x ∷ xs) =
      elim (Bool-cases (bytes_eq (name_of x) (name_of new))) [
        | inl e ↦ rw e (
            let same = bytes_eq→eq (name_of x) (name_of new) e in
            rw same (go (bytes_eq (name_of new) name)))
        | inr e ↦ rw e (elim (Bool-cases (bytes_eq (name_of x) name)) [
          | inl f ↦ rw f (rw (differs e f))
          | inr f ↦ rw f (find_named-replace_or_append name new xs)
        ])
      ]
    where
      go :
          (b : Bool)
          → (if b then some new else find_named name_of name xs)
            ≡ (if b then some new else if b then some x else find_named name_of name xs)
      go true = refl
      go false = refl

      differs :
          bytes_eq (name_of x) (name_of new) ≡ false
          → bytes_eq (name_of x) name ≡ true
          → bytes_eq (name_of new) name ≡ false
      differs e f =
          let same = bytes_eq→eq (name_of x) name f in
          bytes_eq_sym (name_of new) name ∙ (rw same at e)

  Lacks-replace_or_append :
      (name : Bytes) (new : A) (xs : List A)
      → bytes_eq (name_of new) name ≡ false
      → Lacks name xs
      → Lacks name (replace_or_append name_of new xs)
  unfolding replace_or_append
  Lacks-replace_or_append name new [] e h = (e, tt)
  Lacks-replace_or_append name new (x ∷ xs) e h =
      elim (Bool-cases (bytes_eq (name_of x) (name_of new))) [
        | inl f ↦ rw f (e, h.1)
        | inr f ↦ rw f (h.0, Lacks-replace_or_append name new xs e h.1)
      ]

  pub replace_or_append-IsUnique :
      (new : A) (xs : List A) → IsUnique xs → IsUnique (replace_or_append name_of new xs)
  unfolding replace_or_append
  replace_or_append-IsUnique new [] h = (tt, tt)
  replace_or_append-IsUnique new (x ∷ xs) h =
      elim (Bool-cases (bytes_eq (name_of x) (name_of new))) [
        | inl f ↦ rw f (
          (let same = bytes_eq→eq (name_of x) (name_of new) f in subst (λ n. Lacks n xs) same h.0),
          h.1,
        )
        | inr f ↦ rw f (
          Lacks-replace_or_append (name_of x) new xs (bytes_eq_sym (name_of new) (name_of x) ∙ f)
              h.0,
          replace_or_append-IsUnique new xs h.1,
        )
      ]

-- Registering a server or a relay keeps each name once, gives its name the new stamp, leaves the
-- others, and does not touch the other registry.
pub register-IsUnique :
    {A T : Type 0} (name other : Bytes) (stamp : ServerStamp) (st : ServersInfo A T)
    → IsUnique (λ r. r.name) st.registered_servers
    → IsUnique (λ r. r.name) st.registered_relays
    → let new : RegisteredServer = record { name = name; stamp = stamp } in
      let st' = register_server name stamp st in
      let st'' = register_relay name stamp st in
      IsUnique (λ r. r.name) st'.registered_servers
      × IsUnique (λ r. r.name) st''.registered_relays
      × (find_named (λ r. r.name) other st'.registered_servers ≡ (
          if bytes_eq name other
          then some new
          else find_named (λ r. r.name) other st.registered_servers))
      × (find_named (λ r. r.name) other st''.registered_relays ≡ (
          if bytes_eq name other
          then some new
          else find_named (λ r. r.name) other st.registered_relays))
      × (st'.registered_relays ≡ st.registered_relays)
      × (st''.registered_servers ≡ st.registered_servers)
unfolding register_server register_relay
register-IsUnique name other stamp st u v =
    let new : RegisteredServer = record { name = name; stamp = stamp } in
    (
      replace_or_append-IsUnique (λ r. r.name) new st.registered_servers u,
      replace_or_append-IsUnique (λ r. r.name) new st.registered_relays v,
      find_named-replace_or_append (λ r. r.name) other new st.registered_servers,
      find_named-replace_or_append (λ r. r.name) other new st.registered_relays,
      refl,
      refl,
    )

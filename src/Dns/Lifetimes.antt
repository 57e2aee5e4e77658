-- ===== src/Dns/Lifetimes.antt =====
-- dnscrypt-proxy/dnsutils.go: `getMinTTL`, `setMaxTTL` and `updateTTL`.
use sourcegraph_testing_dnsc.Base.{
  All, All-implies, Bool-cases, List, [], ap, arith, false, if◌then◌else◌, inl, inr, leb, length,
  ltb, map, not, refl, ℕ, ◌%◌, ◌&&◌, ◌*◌, ◌+◌, ◌-◌, ◌/◌, ◌<◌, ◌==◌, ◌^◌, ◌||◌, ◌∷◌, ◌≡◌, ◌≤◌, ◌⊎◌,
}
use sourcegraph_testing_dnsc.Dns.{Msg, Rdata, Rr, rcode_name_error, rcode_success, type_opt}

-- A `time.Duration` counts nanoseconds.
abbrev pub second : ℕ
second = 1_000_000_000

abbrev pub ttl_of : Rr → ℕ
ttl_of rr = rr.header.ttl

abbrev with_ttl : ℕ → Rr → Rr
with_ttl ttl rr = record rr { header = record (rr.header) { ttl = ttl } }

-- The least TTL of the records, from `ttl` on.
min_loop : ℕ → List Rr → ℕ
min_loop ttl [] = ttl
min_loop ttl (rr ∷ rrs) = min_loop (if ltb (ttl_of rr) ttl then ttl_of rr else ttl) rrs

abbrev raise : ℕ → ℕ → ℕ
raise ttl least = if ltb ttl least then least else ttl

-- The records that count: the answers, or the authorities if there is no answer.
abbrev pub counted : Msg → List Rr
counted msg = if ltb 0 (length msg.answer) then msg.answer else msg.ns

unfoldable pub get_min_ttl : Msg → ℕ → ℕ → ℕ → ℕ → ℕ
unfolding min_loop
get_min_ttl msg min_ttl max_ttl cache_neg_min_ttl cache_neg_max_ttl =
    let success = msg.rcode == rcode_success in
    if (not success && not (msg.rcode == rcode_name_error))
      || (length msg.answer == 0 && length msg.ns == 0)
    then cache_neg_min_ttl * second
    else (let start = if success then max_ttl else cache_neg_max_ttl in
        let ttl = min_loop start (counted msg) in
        raise ttl (if success then min_ttl else cache_neg_min_ttl) * second)

-- Loops over the records of a section.
cap_ttl : ℕ → List Rr → List Rr
cap_ttl ttl [] = []
cap_ttl ttl (rr ∷ rrs) = (if ltb ttl (ttl_of rr) then with_ttl ttl rr else rr) ∷ cap_ttl ttl rrs

cap_ttl_extra : ℕ → List Rr → List Rr
cap_ttl_extra ttl [] = []
cap_ttl_extra ttl (rr ∷ rrs) =
    (if rr.header.rrtype == type_opt
      then rr
      else if ltb ttl (ttl_of rr)
      then with_ttl ttl rr
      else rr)
    ∷ cap_ttl_extra ttl rrs

unfoldable pub set_max_ttl : Msg → ℕ → Msg
unfolding cap_ttl cap_ttl_extra
set_max_ttl msg ttl = record msg {
  answer = cap_ttl ttl msg.answer;
  ns = cap_ttl ttl msg.ns;
  extra = cap_ttl_extra ttl msg.extra;
}

-- The seconds of a duration, rounded to the nearest; `until` is 0 where the time has passed.
unfoldable pub rounded_ttl : ℕ → ℕ
rounded_ttl until =
    let ttl = until / second % 2 ^ 32 in
    if ltb 0 until
    then (if leb (second / 2) (until - ttl * second) then (ttl + 1) % 2 ^ 32 else ttl)
    else 0

assign_ttl : ℕ → List Rr → List Rr
assign_ttl ttl [] = []
assign_ttl ttl (rr ∷ rrs) = with_ttl ttl rr ∷ assign_ttl ttl rrs

assign_ttl_extra : ℕ → List Rr → List Rr
assign_ttl_extra ttl [] = []
assign_ttl_extra ttl (rr ∷ rrs) =
    (if not (rr.header.rrtype == type_opt) then with_ttl ttl rr else rr) ∷ assign_ttl_extra ttl rrs

-- `updateTTL`, with the time of the call: `time.Until(expiration)` is what is left.
unfoldable pub update_ttl : Msg → ℕ → ℕ → Msg
unfolding assign_ttl assign_ttl_extra
update_ttl msg expiration now =
    let ttl = rounded_ttl (expiration - now) in
    record msg {
      answer = assign_ttl ttl msg.answer;
      ns = assign_ttl ttl msg.ns;
      extra = assign_ttl_extra ttl msg.extra;
    }

min_loop_bounds :
    (ttl : ℕ) (rrs : List Rr)
    → (min_loop ttl rrs ≤ ttl) × All (λ rr. min_loop ttl rrs ≤ ttl_of rr) rrs
unfolding min_loop
min_loop_bounds ttl [] = (omega arith, tt)
min_loop_bounds ttl (rr ∷ rrs) =
    let next = if ltb (ttl_of rr) ttl then ttl_of rr else ttl in
    let (low, all) = min_loop_bounds next rrs in
    let next_ttl : next ≤ ttl = ground arith in
    let next_rr : next ≤ ttl_of rr = ground arith in (omega arith, (omega arith, all))

get_min_ttl_success :
    (msg : Msg) (lo hi neg_lo neg_hi : ℕ)
    → msg.rcode ≡ rcode_success
    → 0 < length (counted msg)
    → get_min_ttl msg lo hi neg_lo neg_hi ≡ raise (min_loop hi (counted msg)) lo * second
unfolding get_min_ttl
get_min_ttl_success msg lo hi neg_lo neg_hi success some' =
    elim (Bool-cases (ltb 0 (length msg.answer))) [
      | inl e ↦ rw (e, success) (ground arith)
      | inr e ↦ rw (e, success) (ground (arith, some_ns e))
    ]
  where
    some_ns : ltb 0 (length msg.answer) ≡ false → 0 < length msg.ns
    some_ns e = rw e at some'

raise_bounds :
    (least lo hi : ℕ) (rrs : List Rr)
    → least ≤ hi
    → All (λ rr. least ≤ ttl_of rr) rrs
    → (lo * second ≤ raise least lo * second)
      × ((raise least lo * second ≡ lo * second)
          ⊎ ((raise least lo * second ≤ hi * second)
              × All (λ rr. raise least lo * second ≤ ttl_of rr * second) rrs))
raise_bounds least lo hi rrs low all = elim (Bool-cases (ltb least lo)) [
  | inl e ↦ rw e (omega arith, inl refl)
  | inr e ↦ rw e (ground arith, inr (omega arith, All-implies _ _ rrs (λ rr h. omega arith) all))
]

-- The time for which a response is kept is at least the configured minimum. Of a response that
-- counts it is the minimum, or it exceeds neither the configured maximum nor any counted TTL.
pub get_min_ttl_bounds :
    (msg : Msg) (lo hi neg_lo neg_hi : ℕ)
    → let ttl = get_min_ttl msg lo hi neg_lo neg_hi in
      (msg.rcode ≡ rcode_success)
      → (0 < length (counted msg))
      → (lo * second ≤ ttl)
        × ((ttl ≡ lo * second)
            ⊎ ((ttl ≤ hi * second) × All (λ rr. ttl ≤ ttl_of rr * second) (counted msg)))
unfolding get_min_ttl
get_min_ttl_bounds msg lo hi neg_lo neg_hi success some' =
    let least = min_loop hi (counted msg) in
    let (low, all) = min_loop_bounds hi (counted msg) in
    rw (get_min_ttl_success msg lo hi neg_lo neg_hi success some')
      (raise_bounds least lo hi (counted msg) low all)

-- Rounding is to the nearest second, for as long as 136 years.
pub rounded_ttl_nearest :
    (until : ℕ)
    → until < (2 ^ 32 - 1) * second
    → (until ≤ rounded_ttl until * second + second / 2)
      × (rounded_ttl until * second ≤ until + second / 2)
unfolding rounded_ttl
rounded_ttl_nearest until h = ground arith

abbrev IsCapped : ℕ → Rr → Type 0
IsCapped ttl rr = ttl_of rr ≤ ttl

abbrev IsCappedExtra : ℕ → Rr → Type 0
IsCappedExtra ttl rr = (rr.header.rrtype ≡ type_opt) ⊎ (ttl_of rr ≤ ttl)

cap_ttl-IsCapped : (ttl : ℕ) (rrs : List Rr) → All (IsCapped ttl) (cap_ttl ttl rrs)
unfolding cap_ttl
cap_ttl-IsCapped ttl [] = tt
cap_ttl-IsCapped ttl (rr ∷ rrs) = (ground arith, cap_ttl-IsCapped ttl rrs)

cap_ttl_extra-IsCappedExtra :
    (ttl : ℕ) (rrs : List Rr) → All (IsCappedExtra ttl) (cap_ttl_extra ttl rrs)
unfolding cap_ttl_extra
cap_ttl_extra-IsCappedExtra ttl [] = tt
cap_ttl_extra-IsCappedExtra ttl (rr ∷ rrs) = (ground arith, cap_ttl_extra-IsCappedExtra ttl rrs)

cap_ttl_kept : (ttl : ℕ) (rrs : List Rr) → All (IsCapped ttl) rrs → cap_ttl ttl rrs ≡ rrs
unfolding cap_ttl
cap_ttl_kept ttl [] h = refl
cap_ttl_kept ttl (rr ∷ rrs) h = ground (arith, cap_ttl_kept ttl rrs h.1, h.0)

cap_ttl_extra_kept :
    (ttl : ℕ) (rrs : List Rr) → All (IsCappedExtra ttl) rrs → cap_ttl_extra ttl rrs ≡ rrs
unfolding cap_ttl_extra
cap_ttl_extra_kept ttl [] h = refl
cap_ttl_extra_kept ttl (rr ∷ rrs) h = ground (arith, cap_ttl_extra_kept ttl rrs h.1, h.0)

-- After `setMaxTTL` no record of a section outlives the cap, but for the pseudo-record of EDNS0, and
-- a message in which none does is left as it is.
pub set_max_ttl_caps :
    (msg : Msg) (ttl : ℕ)
    → let m = set_max_ttl msg ttl in
      All (IsCapped ttl) m.answer
      × All (IsCapped ttl) m.ns
      × All (IsCappedExtra ttl) m.extra
      × (set_max_ttl m ttl ≡ m)
unfolding set_max_ttl
set_max_ttl_caps msg ttl =
    let answers = cap_ttl-IsCapped ttl msg.answer in
    let authorities = cap_ttl-IsCapped ttl msg.ns in
    let extras = cap_ttl_extra-IsCappedExtra ttl msg.extra in
    (
      answers,
      authorities,
      extras,
      λ i. record msg {
        answer = cap_ttl_kept ttl (cap_ttl ttl msg.answer) answers i;
        ns = cap_ttl_kept ttl (cap_ttl ttl msg.ns) authorities i;
        extra = cap_ttl_extra_kept ttl (cap_ttl_extra ttl msg.extra) extras i;
      },
    )

abbrev pub rdata_of : Rr → Rdata
rdata_of rr = rr.rdata

assign_ttl_lem :
    (ttl : ℕ) (rrs : List Rr)
    → All (λ rr. ttl_of rr ≡ ttl) (assign_ttl ttl rrs)
      × (map rdata_of (assign_ttl ttl rrs) ≡ map rdata_of rrs)
unfolding assign_ttl
assign_ttl_lem ttl [] = (tt, refl)
assign_ttl_lem ttl (rr ∷ rrs) =
    let (all, same) = assign_ttl_lem ttl rrs in ((refl, all), ap (λ t. rr.rdata ∷ t) same)

-- After `updateTTL` each answer has what is left of the lifetime, and the data are as they were.
pub update_ttl_answers :
    (msg : Msg) (expiration now : ℕ)
    → let m = update_ttl msg expiration now in
      All (λ rr. ttl_of rr ≡ rounded_ttl (expiration - now)) m.answer
      × (map rdata_of m.answer ≡ map rdata_of msg.answer)
unfolding update_ttl
update_ttl_answers msg expiration now = assign_ttl_lem (rounded_ttl (expiration - now)) msg.answer

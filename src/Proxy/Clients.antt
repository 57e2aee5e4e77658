-- ===== src/Proxy/Clients.antt =====
-- proxy.go: `clientsCountInc` and `clientsCountDec`, in the clients' threads at once. A thread loads
-- the count, and then swaps it if it is still what was loaded; a swap that fails is tried again.
use sourcegraph_testing_dnsc.Base.{
  List, get_elem?, if◌then◌else◌, leb, set, some, ℕ, ◌%◌, ◌+◌, ◌-◌, ◌==◌, ◌^◌, ◌≡◌,
}

-- Where a client's thread is: not admitted, about to swap after a load, admitted, or about to swap
-- again at its end.
pub data Phase : Type 0 where
  idle serving : Phase
  entering leaving : ℕ → Phase

pub record Pool : Type 0 where
  pub clients_count : ℕ
  pub phases : List Phase

abbrev pub move : Pool → ℕ → Phase → Pool
move p i phase = record p { phases = set p.phases i phase }

module _ (max_clients : ℕ) where
  -- The load: with too many clients the client is refused.
  unfoldable pub inc_load : Pool → ℕ → Pool
  inc_load p i = if leb max_clients p.clients_count then p else move p i (entering p.clients_count)

-- The swap of the value loaded before.
unfoldable pub inc_swap : Pool → ℕ → ℕ → Pool
inc_swap p i loaded =
    if p.clients_count == loaded
    then record { clients_count = (loaded + 1) % 2 ^ 32; phases = set p.phases i serving }
    else move p i idle

unfoldable pub dec_load : Pool → ℕ → Pool
dec_load p i = if p.clients_count == 0 then move p i idle else move p i (leaving p.clients_count)

unfoldable pub dec_swap : Pool → ℕ → ℕ → Pool
dec_swap p i loaded =
    if p.clients_count == loaded
    then record { clients_count = loaded - 1; phases = set p.phases i idle }
    else move p i serving

-- A step of any thread.
pub data Step (max_clients : ℕ) : Pool → Pool → Type 0 where
  load_inc :
      (p : Pool) (i : ℕ)
      → get_elem? p.phases i ≡ some idle
      → Step max_clients p (inc_load max_clients p i)
  swap_inc :
      (p : Pool) (i c : ℕ)
      → get_elem? p.phases i ≡ some (entering c)
      → Step max_clients p (inc_swap p i c)
  load_dec :
      (p : Pool) (i : ℕ) → get_elem? p.phases i ≡ some serving → Step max_clients p (dec_load p i)
  swap_dec :
      (p : Pool) (i c : ℕ)
      → get_elem? p.phases i ≡ some (leaving c)
      → Step max_clients p (dec_swap p i c)

pub data Steps (max_clients : ℕ) (start : Pool) : Pool → Type 0 where
  here : Steps max_clients start start
  next : {p q : Pool} → Steps max_clients start p → Step max_clients p q → Steps max_clients start q

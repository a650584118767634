-- ===== src/Hosts.antt =====
-- The endpoints of a shard: shard-endpoints.ts and the getters of host-config.ts. An endpoint is of
-- any type: the source has connections and addresses.
pub mod RoundRobin
mod Examples
use mtdd.Prelude.{
  ℕ, suc, ◌+◌, ◌%◌, Bool, List, [], ◌∷◌, Option, none, some, length, get_or, get_elem?, ◌==◌,
  if◌then◌else◌,
}
use mtdd.Js.Text.{Text}
use mtdd.Js.Map.{get, put}
use mtdd.Routing.Executor.{Role, read, write}

pub record Shard (E : Type 0) : Type 0 where
  pub write_endpoint : E
  pub reads : List E
  pub read_counter : ℕ

module _ {E : Type 0} where
  abbrev pick : List E → Shard E → E × Shard E
  pick [] shard = (shard.write_endpoint, shard)
  pick (e ∷ reads) shard = (
    get_or (e ∷ reads) (shard.read_counter % length (e ∷ reads)) e,
    record shard { read_counter = suc shard.read_counter },
  )

  -- The index is below the number of the read endpoints, so the last argument of `get_or` is not used.
  unfoldable pub pick_read_endpoint : Shard E → E × Shard E
  pick_read_endpoint shard = pick shard.reads shard

  unfoldable pub resolve_shard_endpoint : Role → Shard E → E × Shard E
  unfolding pick_read_endpoint
  resolve_shard_endpoint read shard = pick_read_endpoint shard
  resolve_shard_endpoint write shard = (shard.write_endpoint, shard)

-- An entry of the configured hosts: an address, or an object with `write` and `read`.
pub data HostEntry : Type 0 where
  address : Text → HostEntry
  replicated : Text → Option (List Text) → HostEntry

unfoldable pub get_write_host : HostEntry → Text
get_write_host (address ip) = ip
get_write_host (replicated write_ip reads) = write_ip

unfoldable pub get_read_hosts : HostEntry → List Text
get_read_hosts (address ip) = []
get_read_hosts (replicated write_ip none) = []
get_read_hosts (replicated write_ip (some reads)) = reads

-- `counters`, by the index of a host
abbrev pub Counters : Type 0
Counters = List (ℕ × ℕ)

abbrev same_index : ℕ → ℕ → Bool
same_index a b = a == b

abbrev counter : Option ℕ → ℕ
counter none = 0
counter (some n) = n

abbrev pick_host : List Text → HostEntry → Counters → ℕ → Text × Counters
pick_host [] entry counters i = (get_write_host entry, counters)
pick_host (ip ∷ reads) entry counters i =
    let n = counter (get same_index i counters) in
    (get_or (ip ∷ reads) (n % length (ip ∷ reads)) ip, put same_index i (suc n) counters)

unfoldable pub pick_read_host_from_entry : HostEntry → Counters → ℕ → Text × Counters
unfolding get_write_host get_read_hosts get put
pick_read_host_from_entry entry counters i = pick_host (get_read_hosts entry) entry counters i

unfoldable pub resolve_host_ip : HostEntry → Role → Counters → ℕ → Text × Counters
unfolding pick_read_host_from_entry get_write_host
resolve_host_ip entry read counters i = pick_read_host_from_entry entry counters i
resolve_host_ip entry write counters i = (get_write_host entry, counters)

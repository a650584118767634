-- ===== src/Hosts/Examples.antt =====
-- The round robin over two read endpoints.
use mtdd.Prelude.{ℕ, ◌<◌, ◌≡◌, refl, [], ◌∷◌, length}
use mtdd.Hosts.{Shard, pick_read_endpoint}
use mtdd.Hosts.RoundRobin.{after_reads, pick_read_endpoint-reaches}

abbrev shard : Shard ℕ
shard = record { write_endpoint = 10; reads = 11 ∷ 12 ∷ []; read_counter = 7 }

pick_read_endpoint-reaches_example :
    (i : ℕ) × (i < length shard.reads) × ((pick_read_endpoint (after_reads i shard)).0 ≡ 11)
pick_read_endpoint-reaches_example = pick_read_endpoint-reaches shard 0 11 refl

-- ===== src/Proxy/BackendPool.antt =====
-- proxy/backend-pool.ts: the counters of the backend pools. The pools themselves are those of the
-- library `pg`; what they answer is a parameter of the session.
use mtdd.Prelude.{ℕ, ◌+◌, List, replicate, get_or, set}

pub record Pools : Type 0 where
  pub backend_connects : List ℕ
  pub backend_queries : List ℕ

unfoldable pub create : ℕ → Pools
create n = record { backend_connects = replicate n 0; backend_queries = replicate n 0 }

abbrev pub bump : List ℕ → ℕ → List ℕ
bump counts i = set counts i (get_or counts i 0 + 1)

-- the handler of the pool's event `connect`
unfoldable pub on_connect : ℕ → Pools → Pools
on_connect i p = record p { backend_connects = bump p.backend_connects i }

unfoldable pub note_query : ℕ → Pools → Pools
note_query i p = record p { backend_queries = bump p.backend_queries i }

-- `metrics()`
unfoldable pub metrics : Pools → List ℕ × List ℕ
metrics p = (p.backend_connects, p.backend_queries)

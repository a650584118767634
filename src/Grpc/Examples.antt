-- ===== src/Grpc/Examples.antt =====
-- The theorems on the connections at concrete inputs: one host with a read endpoint, whose first
-- query runs into its deadline.
use mtdd.Prelude.{ℕ, ◌≡◌, refl, false, List, [], ◌∷◌, none, some}
use mtdd.Js.Effect.{Result, ok, err}
use mtdd.Js.Text.{codes}
use mtdd.Js.Buffer.{error}
use mtdd.Routing.Executor.{read, write}
use mtdd.Hosts.{Shard, HostEntry, replicated}
use mtdd.Grpc.{Endpoint, Failure, Event, State, Env, accepted, with_grpc_retries, query_endpoint}
use mtdd.Grpc.Hub.{init_grpc_hub, query_shard}
use mtdd.Grpc.Sends.{Tries, query_shard-Tries}
use mtdd.Grpc.Resent.{SentTwice, with_grpc_retries-SentTwice}
use mtdd.Grpc.Connected.{IsConnected, init_grpc_hub-IsConnected}

abbrev deadline : Failure
deadline = record { code = some 4; thrown = error (codes "DEADLINE_EXCEEDED") }

abbrev answer : List (Event ℕ) → Result Failure ℕ
answer [] = err deadline
answer (event ∷ log) = ok 1

abbrev env : Env ℕ ℕ
env = record {
  settings = record { unix_socket = []; tls = false; port = ok 50051 };
  connect = λ log e. accepted;
  query = λ log e request. answer log;
  max_retries = 2;
}

abbrev hosts : List HostEntry
hosts = replicated (codes "10.0.0.1") (some (codes "10.0.0.2" ∷ [])) ∷ []

abbrev writer : Endpoint
writer = record { host = codes "10.0.0.1"; host_index = 0; role = write }

abbrev reader : Endpoint
reader = record { host = codes "10.0.0.2"; host_index = 0; role = read }

abbrev shard : Shard Endpoint
shard = record { write_endpoint = writer; reads = reader ∷ []; read_counter = 0 }

abbrev idle : State ℕ
idle = record { shards = none; log = [] }

abbrev ready : State ℕ
ready = record { shards = some (shard ∷ []); log = [] }

init_lem : (init_grpc_hub env hosts idle).0 ≡ ok (shard ∷ [])
unfolding init_grpc_hub
init_lem = refl

init_grpc_hub-IsConnected_example :
    IsConnected env hosts (shard ∷ []) (init_grpc_hub env hosts idle).1
init_grpc_hub-IsConnected_example =
    init_grpc_hub-IsConnected env hosts idle (shard ∷ []) refl init_lem

query_shard-Tries_example : Tries reader 7 3 [] (query_shard env 0 7 read ready).1.log
unfolding mtdd.Hosts.resolve_shard_endpoint
query_shard-Tries_example = query_shard-Tries env 0 7 read ready (shard ∷ []) shard refl refl

with_grpc_retries-SentTwice_example :
    SentTwice env writer 7 [] (with_grpc_retries (query_endpoint env writer 7) 2 ready).1.log
unfolding mtdd.Grpc.is_retryable_grpc_error
with_grpc_retries-SentTwice_example =
    with_grpc_retries-SentTwice env writer 7 1 ready deadline refl refl

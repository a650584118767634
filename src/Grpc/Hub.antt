-- ===== src/Grpc/Hub.antt =====
-- initGrpcHub, queryShard and closeGrpcHub of grpc-hub.ts.
use mtdd.Prelude.{
  ℕ, List, [], ◌∷◌, ◌++◌, Option, none, some, ◌==◌, length, get_elem?, set, if◌then◌else◌,
}
use mtdd.Js.Effect.{Result, ok, err, pure, throw, lift, gets, modify, ◌>>=◌, ◌>>◌, catch}
use mtdd.Js.Text.{Text, codes, decimal}
use mtdd.Routing.Executor.{Role}
use mtdd.Hosts.{Shard, HostEntry, resolve_shard_endpoint}
use mtdd.Grpc.{
  Endpoint, Failure, Env, Action, emit, failure, disconnecting, closed, connect_all, query_endpoint,
  with_grpc_retries,
}

abbrev not_initialized : Text
not_initialized =
    codes
      "@advcomm/mtdd: gRPC hub is not initialized. Ensure @advcomm/mtdd/register loaded successfully."

module _ {Q R : Type 0} (env : Env Q R) where
  abbrev pub keep_shards : List HostEntry → List (Shard Endpoint) → Action Q (List (Shard Endpoint))
  keep_shards hosts shards =
      if length shards == length hosts
      then modify (λ s. record s { shards = some shards }) >> pure shards
      else throw (
          failure (
            codes "@advcomm/mtdd: expected "
            ++ (decimal (length hosts)
                ++ (codes " gRPC shard connections, got " ++ decimal (length shards)))))

  abbrev pub init_if :
      List HostEntry → Option (List (Shard Endpoint)) → Action Q (List (Shard Endpoint))
  init_if hosts (some shards) = pure shards
  init_if hosts none = do
    shards ←
        catch (connect_all env 0 hosts) (λ e. modify (λ s. record s { shards = none }) >> throw e)
    keep_shards hosts shards

  unfoldable pub init_grpc_hub : List HostEntry → Action Q (List (Shard Endpoint))
  unfolding ◌>>=◌ connect_all catch decimal
  init_grpc_hub hosts = do before ← gets (λ s. s.shards); init_if hosts before

  abbrev require_shard_state :
      Option (List (Shard Endpoint)) → Result Failure (List (Shard Endpoint))
  require_shard_state none = err (failure not_initialized)
  require_shard_state (some shards) = ok shards

  abbrev pub query_found :
      ℕ → Q → Role → List (Shard Endpoint) → Option (Shard Endpoint) → Action Q R
  query_found i request role shards none =
      throw (failure (codes "@advcomm/mtdd: no gRPC connection for host_index " ++ decimal i))
  query_found i request role shards (some shard) = do
    let chosen = resolve_shard_endpoint role shard
    modify (λ s. record s { shards = some (set shards i chosen.1) })
    with_grpc_retries (query_endpoint env chosen.0 request) env.max_retries

  unfoldable pub query_shard : ℕ → Q → Role → Action Q R
  unfolding ◌>>=◌ query_endpoint with_grpc_retries resolve_shard_endpoint decimal
  query_shard i request role = do
    before ← gets (λ s. s.shards)
    shards ← lift (require_shard_state before)
    query_found i request role shards (get_elem? shards i)

  -- The answer to a Disconnect does not matter.
  abbrev pub disconnect : Endpoint → Action Q (Unit {0})
  disconnect e = emit Q (disconnecting e) >> emit Q (closed e)

  unfoldable pub disconnect_endpoints : List Endpoint → Action Q (Unit {0})
  unfolding ◌>>=◌
  disconnect_endpoints [] = pure tt
  disconnect_endpoints (e ∷ endpoints) = disconnect e >> disconnect_endpoints endpoints

  unfoldable pub disconnect_all : List (Shard Endpoint) → Action Q (Unit {0})
  unfolding ◌>>=◌ disconnect_endpoints
  disconnect_all [] = pure tt
  disconnect_all (shard ∷ shards) =
      disconnect_endpoints (shard.write_endpoint ∷ shard.reads) >> disconnect_all shards

  abbrev close_if : Option (List (Shard Endpoint)) → Action Q (Unit {0})
  close_if none = pure tt
  close_if (some shards) = disconnect_all shards >> modify (λ s. record s { shards = none })

  unfoldable pub close_grpc_hub : Action Q (Unit {0})
  unfolding ◌>>=◌ disconnect_all
  close_grpc_hub = do before ← gets (λ s. s.shards); close_if before

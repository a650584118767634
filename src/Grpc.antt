-- ===== src/Grpc.antt =====
-- The connections to the shards: grpc-hub.ts with its real transport. The service of a shard and
-- the codec of requests and results are parameters; Target is grpc-target.ts. The
-- endpoints are disconnected one after another.
pub mod Target
pub mod Hub
pub mod Sends
pub mod Resent
pub mod Grows
pub mod ShardsOf
pub mod Connected
mod Examples
use mtdd.Prelude.{
  ℕ, zero, suc, ◌+◌, ◌*◌, ◌^◌, min, Bool, true, false, ◌||◌, List, [], ◌∷◌, ◌++◌, Option, none,
  some, ◌==◌, if◌then◌else◌,
}
use mtdd.Js.Effect.{Result, ok, err, Effect, pure, throw, lift, gets, modify, ◌>>=◌, ◌>>◌, catch}
use mtdd.Js.Text.{Text, codes, decimal}
use mtdd.Js.Buffer.{JsError, error}
use mtdd.Routing.Executor.{Role, read, write}
use mtdd.Grpc.Target.{Settings, resolve_shard_grpc_target}
use mtdd.Hosts.{Shard, HostEntry, get_write_host, get_read_hosts}

pub record Endpoint : Type 0 where
  pub host : Text
  pub host_index : ℕ
  pub role : Role

-- An error and its `code`.
pub record Failure : Type 0 where
  pub code : Option ℕ
  pub thrown : JsError

abbrev pub failure : Text → Failure
failure message = record { code = none; thrown = error message }

-- What the answer to a Connect says: it fails with a message, or is refused with one, which may be
-- empty.
pub data Connect : Type 0 where
  failed refused : Text → Connect
  accepted : Connect

-- What was done with requests of the type `Q`.
pub data Event (Q : Type 0) : Type 0 where
  connecting : Endpoint → Event Q
  warned : Text → ℕ → Text → Event Q
  sent : Endpoint → Q → Event Q
  waited : ℕ → Event Q
  disconnecting closed : Endpoint → Event Q

-- `shardState.shards`, and what was done, the last first.
pub record State (Q : Type 0) : Type 0 where
  pub shards : Option (List (Shard Endpoint))
  pub log : List (Event Q)

pub record Env (Q R : Type 0) : Type 0 where
  pub settings : Settings
  pub connect : List (Event Q) → Endpoint → Connect
  pub query : List (Event Q) → Endpoint → Q → Result Failure R
  pub max_retries : ℕ

module _ (Q : Type 0) where
  abbrev pub Action : Type 0 → Type 0
  Action A = Effect (State Q) Failure A

  abbrev pub emit : Event Q → Action (Unit {0})
  emit e = modify (λ s. record s { log = e ∷ s.log })

abbrev retryable_code : ℕ → Bool
retryable_code code = code == 14 || code == 4 || code == 13

unfoldable pub is_retryable_grpc_error : Failure → Bool
is_retryable_grpc_error e = elim e.code [ none ↦ false | some code ↦ retryable_code code ]

abbrev pub backoff : ℕ → ℕ
backoff attempt = min (100 * 2 ^ attempt) 1000

module _ {Q A : Type 0} (fn : Action Q A) where
  -- the attempts from this one on, where so many may follow it
  unfoldable pub attempts : ℕ → ℕ → Action Q A
  unfolding ◌>>=◌ catch is_retryable_grpc_error
  attempts zero attempt = fn
  attempts (suc left) attempt =
      let rest = attempts left (suc attempt) in
      catch fn (λ e.
        if is_retryable_grpc_error e then emit Q (waited (backoff attempt)) >> rest else throw e)

  unfoldable pub with_grpc_retries : ℕ → Action Q A
  unfolding attempts
  with_grpc_retries max_retries = attempts max_retries 0

abbrev role_name : Role → Text
role_name read = codes "read"
role_name write = codes "write"

abbrev or_unknown : Text → Text
or_unknown [] = codes "unknown error"
or_unknown (c ∷ message) = c ∷ message

abbrev pub to_failure : {A : Type 0} → Result JsError A → Result Failure A
to_failure (ok a) = ok a
to_failure (err e) = err (record { code = none; thrown = e })

-- ` failed for … (host_index …): …`
abbrev connect_message : Text → Endpoint → Text → Text
connect_message what e message =
    codes "gRPC Connect "
    ++ (what
        ++ (codes " for "
            ++ (role_name e.role
                ++ (codes " host "
                    ++ (e.host
                        ++ (codes " (host_index "
                            ++ (decimal e.host_index ++ (codes "): " ++ message))))))))

abbrev pub connect_result : Endpoint → Connect → Result Failure Endpoint
connect_result e (failed message) = err (failure (connect_message (codes "failed") e message))
connect_result e (refused message) =
    err (failure (connect_message (codes "rejected") e (or_unknown message)))
connect_result e accepted = ok e

module _ {Q R : Type 0} (env : Env Q R) where
  unfoldable pub connect_endpoint : Endpoint → Action Q Endpoint
  unfolding ◌>>=◌ decimal resolve_shard_grpc_target
  connect_endpoint e = do
    address ← lift (to_failure (resolve_shard_grpc_target env.settings e.host))
    before ← gets (λ s. s.log)
    emit Q (connecting e)
    lift (connect_result e (env.connect before e))

  -- A read endpoint that cannot be connected is left out, with a warning.
  unfoldable pub connect_reads : Text → ℕ → List Text → Action Q (List Endpoint)
  unfolding ◌>>=◌ catch connect_endpoint
  connect_reads write_host i [] = pure []
  connect_reads write_host i (host ∷ hosts) = do
    found ←
        catch
          (connect_endpoint (record { host = host; host_index = i; role = read }) >>= λ e.
            pure (e ∷ []))
          (λ thrown. emit Q (warned write_host i host) >> pure [])
    rest ← connect_reads write_host i hosts
    pure (found ++ rest)

  unfoldable pub connect_shard : ℕ → HostEntry → Action Q (Shard Endpoint)
  unfolding ◌>>=◌ connect_endpoint connect_reads get_write_host get_read_hosts
  connect_shard i entry = do
    writer ← connect_endpoint (record { host = get_write_host entry; host_index = i; role = write })
    readers ← connect_reads (get_write_host entry) i (get_read_hosts entry)
    pure (record { write_endpoint = writer; reads = readers; read_counter = 0 })

  -- the hosts from this index on
  unfoldable pub connect_all : ℕ → List HostEntry → Action Q (List (Shard Endpoint))
  unfolding ◌>>=◌ connect_shard
  connect_all i [] = pure []
  connect_all i (entry ∷ hosts) = do
    shard ← connect_shard i entry
    rest ← connect_all (suc i) hosts
    pure (shard ∷ rest)

  unfoldable pub query_endpoint : Endpoint → Q → Action Q R
  unfolding ◌>>=◌
  query_endpoint e request = do
    before ← gets (λ s. s.log)
    emit Q (sent e request)
    lift (env.query before e request)

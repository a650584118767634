-- ===== src/Proxy/Session.antt =====
-- proxy/session.ts: the state of a connection, its environment, and running statements on it.
-- Pump has the protocol loop. A session handles one event at a time: the awaits of a method are not
-- interleaved with other events of the same connection.
pub mod Pump
pub mod Uses
pub mod Routing
mod Examples
use mtdd.Prelude.{
  ℕ, zero, suc, ◌+◌, Bool, true, false, ◌&&◌, not, List, [], ◌∷◌, ◌++◌, Option, none, some, ◌==◌,
  if◌then◌else◌, length,
}
use mtdd.Prelude.Int.{ℤ, pos}
use mtdd.Js.Text.{Text, codes, decimal}
use mtdd.Js.Buffer.{Bytes, JsError, error}
use mtdd.Js.Effect.{Result, ok, err, Effect, pure, throw, lift, gets, modify, ◌>>=◌, ◌>>◌, catch}
use mtdd.Proxy.TidSql.{
  Kind, set_tid, reset_tid, begin, commit, rollback, forward, split_statements, classify_statement,
}
use mtdd.Proxy.Wire.{PgResult, command_complete, encode_result}
use mtdd.Proxy.Lookup.{Response, check_response}
use mtdd.Proxy.BackendPool.{Pools, note_query}

pub data Phase : Type 0 where
  first auth ready : Phase

-- `txStatus`
pub data Status : Type 0 where
  idle in_transaction failed : Status

-- Whether a query goes through `pool.query` or through the client of the transaction.
pub data Channel : Type 0 where
  pooled pinned : Channel

-- What the session does to the world, with the shard's index.
pub data Event : Type 0 where
  looked_up : Text → Event
  connected connect_failed released : ℕ → Event
  queried : Channel → ℕ → Text → List (Option Text) → Event
  wrote : Bytes → Event
  ended : Event

-- The configuration, and what the environment answers, which may depend on all that happened.
pub record Env : Type 0 where
  pub shard_count : ℕ
  pub password : Text
  pub pid : ℤ
  pub secret : ℤ
  pub fetch : List Event → Text → Response
  -- the error of `pool.connect()`, if it rejects
  pub connect : List Event → ℕ → Option JsError
  pub query : List Event → ℕ → Text → List (Option Text) → Result JsError PgResult

-- `tx_client` holds the shard that the client was taken from. The last event of `log` comes first.
pub record Session : Type 0 where
  pub buf : Bytes
  pub phase : Phase
  pub pending_tid : Option Text
  pub in_tx : Bool
  pub pinned_index : Option ℕ
  pub tx_client : Option ℕ
  pub backend_in_tx : Bool
  pub unnamed_sql : Option Text
  pub unnamed_values : Option (List (Option Text))
  pub tx_status : Status
  pub startup_user : Option Text
  pub pools : Pools
  pub log : List Event

-- the constructor
unfoldable pub new_session : Pools → Session
new_session pools = record {
  buf = [];
  phase = first;
  pending_tid = none;
  in_tx = false;
  pinned_index = none;
  tx_client = none;
  backend_in_tx = false;
  unnamed_sql = none;
  unnamed_values = none;
  tx_status = idle;
  startup_user = none;
  pools = pools;
  log = [];
}

abbrev pub Action : Type 0 → Type 0
Action A = Effect Session JsError A

pub emit : Event → Action (Unit {0})
emit e = modify (λ s. record s { log = e ∷ s.log })

-- `this.socket.write(bytes)`
unfoldable pub write : Bytes → Action (Unit {0})
unfolding emit
write b = emit (wrote b)

pub set_pending : Option Text → Action (Unit {0})
set_pending tid = modify (λ s. record s { pending_tid = tid })

pub note : Option ℕ → Action (Unit {0})
unfolding note_query
note none = pure tt
note (some i) = modify (λ s. record s { pools = note_query i s.pools })

-- `await lookupHostIndex(this.config.lookupUrl, tid, this.config.shards.length)`
pub lookup_host_index : Env → Text → Action ℕ
unfolding emit
lookup_host_index env tid = do
  before ← gets (λ s. s.log)
  emit (looked_up tid)
  lift (check_response (env.fetch before tid) tid env.shard_count)

abbrev query_message : Text
query_message = codes "Cannot read properties of null (reading 'query')"

-- `await this.txClient.query(sql, values)`
pub client_query : Env → Text → List (Option Text) → Option ℕ → Action PgResult
unfolding emit
client_query env sql values none =
    throw (record { name = codes "TypeError"; message = query_message })
client_query env sql values (some i) = do
  before ← gets (λ s. s.log)
  emit (queried pinned i sql values)
  lift (env.query before i sql values)

abbrev connect_event : Option JsError → ℕ → Event
connect_event none i = connected i
connect_event (some e) i = connect_failed i

abbrev or_reject : Option JsError → Result JsError (Unit {0})
or_reject none = ok tt
or_reject (some e) = err e

-- `this.txClient = await this.pools.connect(hostIndex)`
pub connect_client : Env → ℕ → Action (Unit {0})
unfolding emit
connect_client env i = do
  before ← gets (λ s. s.log)
  emit (connect_event (env.connect before i) i)
  lift (or_reject (env.connect before i))
  modify (λ s. record s { tx_client = some i })

-- `BEGIN` on the backend, if the session is in a transaction that the backend does not know of
pub begin_backend : Env → ℕ → Bool → Action (Unit {0})
unfolding note client_query
begin_backend env i false = pure tt
begin_backend env i true = do
  note (some i)
  client ← gets (λ s. s.tx_client)
  client_query env (codes "BEGIN") [] client
  modify (λ s. record s { backend_in_tx = true })

abbrev mismatch : ℕ → ℕ → JsError
mismatch next i = error (
    codes "tid maps to shard "
    ++ (decimal next ++ (codes " but transaction is pinned to shard " ++ decimal i)))

pub pin_to : Env → ℕ → Option ℕ → Action ℕ
unfolding connect_client begin_backend
pin_to env i (some p) = if p == i then pure i else throw (mismatch i p)
pin_to env i none = do
  modify (λ s. record s { pinned_index = some i })
  connect_client env i
  fresh ← gets (λ s. s.in_tx && not s.backend_in_tx)
  begin_backend env i fresh
  pure i

unfoldable pub ensure_pinned : Env → Text → Action ℕ
unfolding lookup_host_index pin_to
ensure_pinned env tid = do
  i ← lookup_host_index env tid
  index ← gets (λ s. s.pinned_index)
  pin_to env i index

abbrev unset_message : Text
unset_message = codes "mtdd.tid is not set. Issue SET mtdd.tid = '<tid>' before this statement"

-- `await this.pools.query(hostIndex, sql, values)`
pub pool_query : Env → ℕ → Text → List (Option Text) → Action PgResult
unfolding note emit
pool_query env i sql values = do
  note (some i)
  before ← gets (λ s. s.log)
  emit (queried pooled i sql values)
  lift (env.query before i sql values)

pub run_in_tx : Env → Text → Text → List (Option Text) → Action Bytes
unfolding ensure_pinned note client_query
run_in_tx env tid sql values = do
  ensure_pinned env tid
  index ← gets (λ s. s.pinned_index)
  note index
  client ← gets (λ s. s.tx_client)
  result ← client_query env sql values client
  pure (encode_result result)

pub run_once : Env → Text → Text → List (Option Text) → Action Bytes
unfolding lookup_host_index set_pending pool_query
run_once env tid sql values = do
  i ← lookup_host_index env tid
  set_pending none
  result ← pool_query env i sql values
  pure (encode_result result)

abbrev run_with_tid : Env → Option Text → Bool → Text → List (Option Text) → Action Bytes
run_with_tid env none in_tx sql values = throw (error unset_message)
run_with_tid env (some []) in_tx sql values = throw (error unset_message)
run_with_tid env (some (c ∷ tid)) true sql values = run_in_tx env (c ∷ tid) sql values
run_with_tid env (some (c ∷ tid)) false sql values = run_once env (c ∷ tid) sql values

unfoldable pub run_data : Env → Text → List (Option Text) → Action Bytes
unfolding run_in_tx run_once
run_data env sql values = do
  tid ← gets (λ s. s.pending_tid)
  in_tx ← gets (λ s. s.in_tx)
  run_with_tid env tid in_tx sql values

-- the test of `SET mtdd.tid` in a transaction that is pinned
pub check_pinned : Env → Text → Bool → Option ℕ → Action (Unit {0})
unfolding lookup_host_index
check_pinned env tid true (some i) = do
  next ← lookup_host_index env tid
  if next == i then pure tt else throw (mismatch next i)
check_pinned env tid true none = pure tt
check_pinned env tid false _ = pure tt

unfoldable pub run_set : Env → Text → Action Bytes
unfolding check_pinned set_pending
run_set env [] = throw (error (codes "mtdd.tid must be a non-empty string"))
run_set env (c ∷ tid) = do
  in_tx ← gets (λ s. s.in_tx)
  index ← gets (λ s. s.pinned_index)
  check_pinned env (c ∷ tid) in_tx index
  set_pending (some (c ∷ tid))
  pure (command_complete (codes "SET"))

unfoldable pub run_reset : Action Bytes
unfolding set_pending
run_reset = do
  in_tx ← gets (λ s. s.in_tx)
  if in_tx
      then throw (error (codes "RESET mtdd.tid is not allowed inside a transaction"))
      else do set_pending none; pure (command_complete (codes "RESET"))

pub pin_pending : Env → Option Text → Action (Unit {0})
unfolding ensure_pinned
pin_pending env none = pure tt
pin_pending env (some []) = pure tt
pin_pending env (some (c ∷ tid)) = do ensure_pinned env (c ∷ tid); pure tt

unfoldable pub run_begin : Env → Action Bytes
unfolding pin_pending
run_begin env = do
  modify (λ s. record s { in_tx = true })
  tid ← gets (λ s. s.pending_tid)
  pin_pending env tid
  modify (λ s. record s { tx_status = in_transaction })
  pure (command_complete (codes "BEGIN"))

-- the client's part of COMMIT and ROLLBACK
pub finish_client : Env → Text → Option ℕ → Action (Unit {0})
unfolding note client_query emit
finish_client env tag none = pure tt
finish_client env tag (some i) = do
  index ← gets (λ s. s.pinned_index)
  note index
  client_query env tag [] (some i)
  emit (released i)
  modify (λ s. record s { tx_client = none })

abbrev end_tx : Session → Session
end_tx s = record s {
  in_tx = false;
  backend_in_tx = false;
  pinned_index = none;
  pending_tid = none;
  tx_status = idle;
}

unfoldable pub run_end : Env → Text → Action Bytes
unfolding finish_client
run_end env tag = do
  client ← gets (λ s. s.tx_client)
  finish_client env tag client
  modify end_tx
  pure (command_complete tag)

unfoldable pub dispatch : Env → Kind → List (Option Text) → Action Bytes
dispatch env (set_tid tid) values = run_set env tid
dispatch env reset_tid values = run_reset
dispatch env begin values = run_begin env
dispatch env commit values = run_end env (codes "COMMIT")
dispatch env rollback values = run_end env (codes "ROLLBACK")
dispatch env (forward sql) values = run_data env sql values

-- the loop over the statements; the chunks come back in order
unfoldable pub run_statements : Env → List Text → List (Option Text) → Action (List Bytes)
run_statements env [] values = pure []
run_statements env (stmt ∷ stmts) values = do
  part ← dispatch env (classify_statement stmt) values
  parts ← run_statements env stmts values
  pure (part ∷ parts)

abbrev status_of : Bool → Status
status_of true = in_transaction
status_of false = idle

pub run_all : Env → List Text → List (Option Text) → Action (List Bytes)
unfolding run_statements
run_all env [] values = pure (command_complete (codes "EMPTY") ∷ [])
run_all env (stmt ∷ stmts) values = do
  chunks ← run_statements env (stmt ∷ stmts) values
  modify (λ s. record s { tx_status = status_of s.in_tx })
  pure chunks

unfoldable pub run_sql : Env → Text → List (Option Text) → Action (List Bytes)
unfolding run_all
run_sql env sql values = run_all env (split_statements sql) values

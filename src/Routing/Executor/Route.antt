-- ===== src/Routing/Executor/Route.antt =====
-- The routing of query-executor.ts: one shard by the lookup, all shards, or the pinned shard.
use mtdd.Prelude.{ℕ, Bool, true, false, List, Option, none, some, if◌then◌else◌, ◌||◌, ◌==◌}
use mtdd.Js.Text.{Text, codes}
use mtdd.Js.Buffer.{JsError, error}
use mtdd.Js.Effect.{ok, pure, throw, lift, gets, ◌>>=◌, ◌>>◌}
use mtdd.Routing.Parse.{CommandType, select, insert, call, function}
use mtdd.Routing.Cache.Transparency.{classification}
use mtdd.Routing.Merge.{QueryResult, merge_fan_out_results, discarded_call_result}
use mtdd.Routing.FanOut.{all, run_fan_out}
use mtdd.Routing.Executor.{
  Tid, all_shards, write, Way, single, broadcast, fan_out, own, pinned_client, looked_up, notified,
  no_sub_target, grpc_session, pg_client, Pin, Meta, Request, Env, has_tenant_tid, insert_message,
  call_message, function_message, Action, emit, set_req,
}
use mtdd.Routing.Executor.Checks.{
  attach_query_classification, is_query, is_listen_notify_command, assert_insert_requires_tid,
  assert_call_tid, assert_function_requires_tid, assert_transaction_routing, refuse_if,
}
use mtdd.Routing.Executor.Shard.{
  assert_host_index, run_query, query_shard, execute_query_on_shard, session_of,
}

abbrev no_insert : Text
no_insert =
    codes "@advcomm/mtdd: INSERT cannot fan out; provide tid for lookup-based routing to one shard."

abbrev no_call : Text
no_call =
    codes "@advcomm/mtdd: CALL cannot fan out; provide a tenant tid or tid: null for all shards."

abbrev no_function : Text
no_function =
    codes
      "@advcomm/mtdd: stored function queries cannot fan out; provide a tenant tid for lookup routing."

abbrev no_select : Text
no_select = codes "@advcomm/mtdd: SELECT with tid cannot fan out; tid routes to a single shard."

abbrev no_broadcast : Text
no_broadcast =
    codes "@advcomm/mtdd: broadcast CALL is not supported on a pinned transaction client."

abbrev no_connection : Text
no_connection = codes "@advcomm/mtdd: pinned checkout client is missing an underlying connection"

abbrev no_query : JsError
no_query = record {
  name = codes "TypeError";
  message = codes "Cannot read properties of undefined (reading 'bind')";
}

module _ {F R : Type 0} (env : Env F R) where
  -- the tasks of a fan-out, which have no target
  unfoldable pub query_on_host_index : Meta → Request F R → ℕ → Action F R (QueryResult F R)
  unfolding execute_query_on_shard
  query_on_host_index meta req i = execute_query_on_shard env meta false i req

  abbrev pub keep_results : List (QueryResult F R) → Action F R (Unit {0})
  keep_results results = set_req (λ r. record r { shard_results = results })

  unfoldable pub fan_out_select_with_local_merge : Meta → Text → Action F R (QueryResult F R)
  unfolding ◌>>=◌ set_req query_on_host_index run_fan_out
  fan_out_select_with_local_merge meta fan_out_text = do
    req ← gets (λ s. s.req)
    results ←
        run_fan_out env.policy meta.hosts
          (query_on_host_index meta (record req { text = some fan_out_text }))
    keep_results results
    set_req (λ r. record r { local_merge = true; fan_out_sql = some fan_out_text })
    before ← gets (λ s. s.log)
    lift (env.merge_locally before req.text results)

  abbrev pub fan_out_and_merge : Meta → Action F R (QueryResult F R)
  fan_out_and_merge meta = do
    req ← gets (λ s. s.req)
    results ← run_fan_out env.policy meta.hosts (query_on_host_index meta req)
    keep_results results
    c ← lift (classification env.parse req.text)
    lift (merge_fan_out_results req.has_returning c results)

  abbrev pub fan_out_split : Meta → Option Text → Action F R (QueryResult F R)
  fan_out_split meta none = fan_out_and_merge meta
  fan_out_split meta (some text) = fan_out_select_with_local_merge meta text

  abbrev pub fan_out_select : Meta → Bool → Action F R (QueryResult F R)
  fan_out_select meta true = throw (error no_select)
  fan_out_select meta false = do
    text ← gets (λ s. s.req.text)
    split ← lift (env.split text)
    fan_out_split meta split

  abbrev pub fan_out_by : Meta → Tid → Option CommandType → Action F R (QueryResult F R)
  fan_out_by meta tid (some insert) = throw (error no_insert)
  fan_out_by meta tid (some call) = throw (error no_call)
  fan_out_by meta tid (some function) = throw (error no_function)
  fan_out_by meta tid (some select) = fan_out_select meta (has_tenant_tid tid)
  fan_out_by meta tid _ = fan_out_and_merge meta

  unfoldable pub fan_out_query : Meta → Action F R (QueryResult F R)
  unfolding ◌>>=◌ attach_query_classification fan_out_select_with_local_merge set_req run_fan_out
      query_on_host_index merge_fan_out_results classification has_tenant_tid
  fan_out_query meta = do
    attach_query_classification env
    req ← gets (λ s. s.req)
    fan_out_by meta req.tid req.command_type

  abbrev pub route : Way → Option ℕ → Action F R (Unit {0})
  route way i = set_req (λ r. record r { routing = some way; host_index = i })

  unfoldable pub lookup_host_index : Tid → ℕ → Action F R ℕ
  unfolding ◌>>=◌ emit assert_host_index
  lookup_host_index tid n = do
    before ← gets (λ s. s.log)
    emit (looked_up tid)
    found ← lift (env.resolve before tid)
    lift (assert_host_index found n)

  -- The hook `onSelectHost`, which does nothing unless the program replaces it, is left out.
  unfoldable pub route_with_lookup_tid : Meta → Action F R (QueryResult F R)
  unfolding ◌>>=◌ set_req lookup_host_index execute_query_on_shard
  route_with_lookup_tid meta = do
    set_req (λ r. record r { routing = some single })
    tid ← gets (λ s. s.req.tid)
    i ← lookup_host_index tid meta.hosts
    route single (some i)
    req ← gets (λ s. s.req)
    execute_query_on_shard env meta true i req

  abbrev pub to_all : Meta → Option Pin → Action F R (QueryResult F R)
  to_all meta (some p) = throw (error no_broadcast)
  to_all meta none = do
    set_req (λ r. record r { routing = some broadcast })
    req ← gets (λ s. s.req)
    results ← run_fan_out (ok all) meta.hosts (query_on_host_index meta req)
    pure discarded_call_result

  -- its `Promise.all` is the one of the policy `all`
  unfoldable pub broadcast_call_query : Meta → Action F R (QueryResult F R)
  unfolding ◌>>=◌ set_req run_fan_out query_on_host_index discarded_call_result
  broadcast_call_query meta = do pin ← gets (λ s. s.pin); to_all meta pin

  -- The pin of a session has no `query`, for a hub that is no longer ready.
  abbrev pub to_sub_target : Pin → Request F R → Action F R (QueryResult F R)
  to_sub_target p req = elim p.sub_target [
    | no_sub_target ↦ throw (error no_connection)
    | grpc_session id ↦ throw no_query
    | pg_client ↦ run_query env (pinned_client p.host_index) req
  ]

  unfoldable pub query_pinned : Pin → Action F R (QueryResult F R)
  unfolding ◌>>=◌ set_req query_shard run_query
  query_pinned p = do
    route single (some p.host_index)
    req ← gets (λ s. s.req)
    if env.grpc_ready
        then query_shard env p.host_index req (session_of (some p)) write
        else to_sub_target p req

  unfoldable pub query_only_host : Meta → Action F R (QueryResult F R)
  unfolding ◌>>=◌ set_req is_query execute_query_on_shard
  query_only_host meta = do
    refuse_if env insert true insert_message
    refuse_if env call true call_message
    refuse_if env function true function_message
    route single (some 0)
    req ← gets (λ s. s.req)
    execute_query_on_shard env meta true 0 req

  -- the types that are always routed by the lookup
  abbrev pub is_looked_up : Option CommandType → Bool
  is_looked_up (some insert) = true
  is_looked_up (some call) = true
  is_looked_up (some function) = true
  is_looked_up _ = false

  abbrev pub query_all_hosts : Meta → Action F R (QueryResult F R)
  query_all_hosts meta = set_req (λ r. record r { routing = some fan_out }) >> fan_out_query meta

  abbrev pub query_unpinned : Meta → Request F R → Action F R (QueryResult F R)
  query_unpinned meta req =
      if is_looked_up req.command_type || has_tenant_tid req.tid
      then route_with_lookup_tid meta
      else if meta.hosts == 1
      then query_only_host meta
      else query_all_hosts meta

  abbrev pub query_by_pin : Meta → Request F R → Option Pin → Action F R (QueryResult F R)
  query_by_pin meta req (some p) = query_pinned p
  query_by_pin meta req none = query_unpinned meta req

  abbrev pub is_broadcast : Bool → Tid → Bool
  is_broadcast calls all_shards = calls
  is_broadcast calls _ = false

  abbrev pub query_routed : Meta → Action F R (QueryResult F R)
  query_routed meta = do
    tid ← gets (λ s. s.req.tid)
    assert_insert_requires_tid env tid
    assert_call_tid env tid
    assert_function_requires_tid env tid
    assert_transaction_routing env meta
    req ← gets (λ s. s.req)
    pin ← gets (λ s. s.pin)
    calls ← lift (is_query env call req)
    if is_broadcast calls tid then broadcast_call_query meta else query_by_pin meta req pin

  abbrev pub execute_listen_notify_command : Action F R (QueryResult F R)
  execute_listen_notify_command = do
    before ← gets (λ s. s.log)
    text ← gets (λ s. s.req.text)
    emit (notified text)
    lift (env.listen_notify before text)

  abbrev pub query_facade : Meta → Action F R (QueryResult F R)
  query_facade meta = do
    attach_query_classification env
    req ← gets (λ s. s.req)
    notifies ← lift (is_listen_notify_command env req)
    if notifies then execute_listen_notify_command else query_routed meta

  abbrev pub query_target : Option Meta → Request F R → Action F R (QueryResult F R)
  query_target none req = run_query env own req
  query_target (some meta) req = query_facade meta

  unfoldable pub execute_routed_query : Option Meta → Action F R (QueryResult F R)
  unfolding ◌>>=◌ attach_query_classification is_listen_notify_command emit
      assert_insert_requires_tid assert_call_tid assert_function_requires_tid
      assert_transaction_routing is_query broadcast_call_query query_pinned route_with_lookup_tid
      query_only_host set_req fan_out_query has_tenant_tid run_query
  execute_routed_query meta = do req ← gets (λ s. s.req); query_target meta req

  -- fanOutOnly
  abbrev pub fan_out_to : Option Meta → Request F R → Action F R (List (QueryResult F R))
  fan_out_to none req =
      throw (error (codes "@advcomm/mtdd: fanOutOnly requires a sharded pool or client facade"))
  fan_out_to (some meta) req = do
    set_req (λ r. record r { routing = some fan_out })
    sent ← gets (λ s. s.req)
    results ← run_fan_out env.policy meta.hosts (query_on_host_index meta sent)
    keep_results results
    pure results

  unfoldable pub fan_out_only : Option Meta → Action F R (List (QueryResult F R))
  unfolding ◌>>=◌ set_req run_fan_out query_on_host_index
  fan_out_only meta = do req ← gets (λ s. s.req); fan_out_to meta req

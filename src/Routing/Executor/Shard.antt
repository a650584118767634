-- ===== src/Routing/Executor/Shard.antt =====
-- The query on one shard, of query-executor.ts, with the pins of pool-facade.ts and the query of grpc-hub.ts.
use mtdd.Prelude.{ℕ, Bool, true, false, ◌&&◌, ◌++◌, Option, none, some, ltb, ◌-◌, if◌then◌else◌}
use mtdd.Prelude.Int.{ℤ, pos, negsuc}
use mtdd.Js.Text.{Text, codes, decimal}
use mtdd.Js.Buffer.{JsError, error, show_ℤ}
use mtdd.Js.Effect.{Result, ok, err, pure, throw, lift, gets, ◌>>=◌, ◌>>◌}
use mtdd.Routing.Parse.{select}
use mtdd.Routing.Merge.{QueryResult}
use mtdd.Proxy.Lookup.{HostIndex, not_an_integer, integer}
-- `req.tid`: undefined, null, or a text
use mtdd.Routing.Executor.{
  TargetKind, pool, client, checkout, Role, read, write, Endpoint, sub_pool, sub_client,
  pinned_client, grpc, connected, queried, grpc_session, pg_client, Pin, Meta, Request, Env,
  is_checkout, Action, emit, set_pin,
}
use mtdd.Routing.Executor.Checks.{is_query}

abbrev pub session_of : Option Pin → Option Text
session_of none = none
session_of (some p) = elim p.sub_target [ grpc_session id ↦ some id | _ ↦ none ]

abbrev range_message : ℤ → ℕ → Text
range_message i n =
    codes "Lookup returned hostIndex "
    ++ (show_ℤ i
        ++ (codes " out of range [0, "
            ++ (show_ℤ (if ltb 0 n then pos (n - 1) else negsuc 0) ++ codes "]")))

-- assertHostIndex, its message up to the tid
unfoldable pub assert_host_index : HostIndex → ℕ → Result JsError ℕ
assert_host_index not_an_integer n =
    err (error (codes "Lookup did not resolve to an integer hostIndex"))
assert_host_index (integer (negsuc i)) n = err (error (range_message (negsuc i) n))
assert_host_index (integer (pos i)) n =
    if ltb i n then ok i else err (error (range_message (pos i) n))

abbrev missing_shard : ℕ → Text
missing_shard i = codes "@advcomm/mtdd: no gRPC connection for host_index " ++ decimal i

abbrev null_target : JsError
null_target = record {
  name = codes "TypeError";
  message = codes "Cannot set properties of null (setting 'Symbol(@advcomm/mtdd.pinnedHostIndex)')";
}

module _ {F R : Type 0} (env : Env F R) where
  -- runNativeQuery, and the call of the hub's transport
  unfoldable pub run_query : Endpoint → Request F R → Action F R (QueryResult F R)
  unfolding ◌>>=◌ emit
  run_query endpoint req = do
    before ← gets (λ s. s.log)
    emit (queried endpoint req.text)
    lift (env.answer before endpoint req.text)

  unfoldable pub query_shard : ℕ → Request F R → Option Text → Role → Action F R (QueryResult F R)
  unfolding run_query
  query_shard i req session role =
      if ltb i env.grpc_shards
      then run_query (grpc i role session) req
      else throw (error (missing_shard i))

  abbrev pub pin_unless : Option Pin → ℕ → Action F R (Unit {0})
  pin_unless (some p) i = pure tt
  pin_unless none i = do
    before ← gets (λ s. s.log)
    set_pin (record { host_index = i; sub_target = grpc_session (env.new_session_id before) })

  unfoldable pub ensure_checkout_pin : ℕ → Action F R (Unit {0})
  unfolding ◌>>=◌ set_pin
  ensure_checkout_pin i = do pin ← gets (λ s. s.pin); pin_unless pin i

  abbrev pub or_connected : Option JsError → ℕ → Action F R (Unit {0})
  or_connected (some e) i = throw e
  or_connected none i = emit (connected i)

  -- The client's `release`, which the target takes over, is left out.
  abbrev pub take_client : Bool → ℕ → Request F R → Action F R (QueryResult F R)
  take_client target i req = do
    before ← gets (λ s. s.log)
    or_connected (env.connect before i) i
    if target
        then set_pin (record { host_index = i; sub_target = pg_client })
          >> run_query (pinned_client i) req
        else throw null_target

  abbrev pub query_native :
      TargetKind → Bool → ℕ → Request F R → Role → Action F R (QueryResult F R)
  query_native pool target i req role = run_query (sub_pool i role) req
  query_native client target i req role = run_query (sub_client i role) req
  query_native checkout target i req role = take_client target i req

  abbrev pub query_hub : TargetKind → Bool → ℕ → Request F R → Role → Action F R (QueryResult F R)
  query_hub kind target i req role = do
    if target && is_checkout kind then ensure_checkout_pin i else pure tt
    pin ← gets (λ s. s.pin)
    query_shard i req (if target then session_of pin else none) role

  -- resolveEndpointRole
  abbrev pub role_of : Bool → Role
  role_of true = read
  role_of false = write

  -- `target` tells whether there is a target: a fan-out has none.
  unfoldable pub execute_query_on_shard :
      Meta → Bool → ℕ → Request F R → Action F R (QueryResult F R)
  unfolding ◌>>=◌ is_query query_shard run_query ensure_checkout_pin set_pin emit
  execute_query_on_shard meta target i req = do
    selects ← lift (is_query env select req)
    if env.grpc_ready
        then query_hub meta.kind target i req (role_of selects)
        else query_native meta.kind target i req (role_of selects)

-- ===== src/Routing/Executor/Paths.antt =====
-- Which way a statement takes through query-executor.ts: to the shard of its tid, to the pinned
-- shard, or nowhere.
use mtdd.Prelude.{
  ℕ, ◌<◌, ◌≡◌, refl, ap, ◌∙◌, leb, lt→ltb, Bool, true, false, ◌&&◌, ◌||◌, ◌∷◌, none, some,
  if◌then◌else◌, arith,
}
use mtdd.Prelude.Int.{pos}
use mtdd.Proxy.Lookup.{integer}
use mtdd.Js.Text.{Text}
use mtdd.Js.Buffer.{JsError}
use mtdd.Js.Effect.{Result, ok, ◌>>=◌}
use mtdd.Routing.Parse.{
  CommandType, insert, call, function, Classification, is_listen_notify_command_type,
}
use mtdd.Routing.Cache.Transparency.{classification}
use mtdd.Routing.Merge.{QueryResult}
use mtdd.Routing.Executor.{
  Tid, tenant, single, looked_up, Pin, Meta, Request, Env, State, is, has_tenant_tid, write, grpc,
  queried,
}
use mtdd.Routing.Executor.Checks.{
  attach_query_classification, is_query, is_listen_notify_command, assert_insert_requires_tid,
  assert_call_tid, assert_function_requires_tid, assert_transaction_routing, refuse_if,
}
use mtdd.Routing.Executor.Shard.{
  assert_host_index, execute_query_on_shard, session_of, query_shard, run_query,
}
use mtdd.Routing.Executor.Route.{
  execute_routed_query, route_with_lookup_tid, lookup_host_index, query_routed, query_by_pin,
  is_broadcast, is_looked_up, query_pinned,
}

-- The request with the classification of its text.
abbrev pub classified : {F R : Type 0} → Classification → Request F R → Request F R
classified c req = record req {
  command_type = some c.command_type;
  has_returning = some c.has_returning;
}

module _ {F R : Type 0} (env : Env F R) where
  module _ (s : State F R) {c : Classification}
      (known : classification env.parse s.req.text ≡ ok c) where
    attach_lem : attach_query_classification env s ≡ (ok tt, record s { req = classified c s.req })
    unfolding attach_query_classification ◌>>=◌
    attach_lem = rw known

    pub is_query-classified :
        (d : CommandType) → is_query env d (classified c s.req) ≡ ok (is c.command_type d)
    unfolding is_query
    is_query-classified d = ground (arith, known)

    listen_notify-classified :
        is_listen_notify_command env (classified c s.req)
        ≡ ok (is_listen_notify_command_type c.command_type)
    unfolding is_listen_notify_command
    listen_notify-classified = ground (arith, known)

  pub refuse_if-passes :
      (d : CommandType) (test : Bool) (m : Text) (s : State F R) (b : Bool)
      → is_query env d s.req ≡ ok b
      → (b && test) ≡ false
      → refuse_if env d test m s ≡ (ok tt, s)
  unfolding ◌>>=◌
  refuse_if-passes d test m s b h k = rw (h, k)

  lookup_lem :
      (tid : Tid) (n i : ℕ) (s : State F R)
      → env.resolve s.log tid ≡ ok (integer (pos i))
      → i < n
      → lookup_host_index env tid n s ≡ (ok i, record s { log = looked_up tid ∷ s.log })
  unfolding lookup_host_index assert_host_index ◌>>=◌
  lookup_lem tid n i s h lt = rw (h, lt→ltb i n lt)

  -- what is left to run once the lookup has named a host
  abbrev pub on_shard : Meta → ℕ → State F R → Result JsError (QueryResult F R) × State F R
  on_shard meta i s =
      let req = record s.req { routing = some single; host_index = some i } in
      execute_query_on_shard env meta true i req
        (record s { req = req; log = looked_up s.req.tid ∷ s.log })

  route_lem :
      (meta : Meta) (i : ℕ) (s : State F R)
      → env.resolve s.log s.req.tid ≡ ok (integer (pos i))
      → i < meta.hosts
      → route_with_lookup_tid env meta s ≡ on_shard meta i s
  unfolding route_with_lookup_tid ◌>>=◌
  route_lem meta i s h lt = rw (
      lookup_lem s.req.tid meta.hosts i (record s { req = record s.req { routing = some single } })
        h lt)

  if_at :
      {S T : Type 0} (b : Bool) (f g : S → T) (s : S) {r : T}
      → f s ≡ r
      → g s ≡ r
      → (if b then f else g) s ≡ r
  if_at true f g s h k = h
  if_at false f g s h k = k

  module _ (meta : Meta) (s : State F R) (ch : ℕ) (t : Text)
      (own : s.req.tid ≡ tenant (ch ∷ t)) where
    assert_routing-tenant : assert_transaction_routing env meta s ≡ (ok tt, s)
    unfolding assert_transaction_routing ◌>>=◌
    assert_routing-tenant = if_at (leb meta.hosts 1) _ _ s refl (rw own)

    not_broadcast : (b : Bool) → is_broadcast env b s.req.tid ≡ false
    not_broadcast b = rw own

    module _ (answers : CommandType → Bool)
        (tests : (d : CommandType) → is_query env d s.req ≡ ok (answers d)) where
      insert-tenant : assert_insert_requires_tid env s.req.tid s ≡ (ok tt, s)
      unfolding assert_insert_requires_tid
      insert-tenant =
          refuse_if-passes insert _ _ s (answers insert) (tests insert) (ground (arith, own))

      call-tenant : assert_call_tid env s.req.tid s ≡ (ok tt, s)
      unfolding assert_call_tid
      call-tenant = refuse_if-passes call _ _ s (answers call) (tests call) (ground (arith, own))

      function-tenant : assert_function_requires_tid env s.req.tid s ≡ (ok tt, s)
      unfolding assert_function_requires_tid has_tenant_tid
      function-tenant =
          refuse_if-passes function _ _ s (answers function) (tests function) (ground (arith, own))

      routed-tenant : query_routed env meta s ≡ query_by_pin env meta s.req s.pin s
      unfolding ◌>>=◌
      routed-tenant = rw (
        insert-tenant,
        call-tenant,
        function-tenant,
        assert_routing-tenant,
        tests call,
        not_broadcast (answers call),
      )

  or_true : (b : Bool) → (b || true) ≡ true
  or_true true = refl
  or_true false = refl

  by_pin-tenant :
      (meta : Meta) (req : Request F R) {ch : ℕ} {t : Text} (s : State F R)
      → req.tid ≡ tenant (ch ∷ t)
      → query_by_pin env meta req none s ≡ route_with_lookup_tid env meta s
  unfolding has_tenant_tid
  by_pin-tenant meta req s own = rw (own, or_true (is_looked_up env req.command_type))

  pinned_log :
      (p : Pin) (s : State F R)
      → env.grpc_ready ≡ true
      → p.host_index < env.grpc_shards
      → (query_pinned env p s).1.log
        ≡ queried (grpc p.host_index write (session_of (some p))) s.req.text ∷ s.log
  unfolding query_pinned query_shard run_query ◌>>=◌
  pinned_log p s ready lt = rw (ready, lt→ltb p.host_index env.grpc_shards lt)

  abbrev pub attached : Classification → State F R → State F R
  attached c s = record s { req = classified c s.req }

  module _ (meta : Meta) (s : State F R) {c : Classification}
      (known : classification env.parse s.req.text ≡ ok c)
      (sql : is_listen_notify_command_type c.command_type ≡ false) where
    pub execute-attached :
        execute_routed_query env (some meta) s ≡ query_routed env meta (attached c s)
    unfolding execute_routed_query ◌>>=◌
    execute-attached = rw (attach_lem s known, listen_notify-classified s known, sql)

    module _ (ch : ℕ) (t : Text) (own : s.req.tid ≡ tenant (ch ∷ t)) where
      execute-by_pin :
          execute_routed_query env (some meta) s
          ≡ query_by_pin env meta (classified c s.req) s.pin (attached c s)
      execute-by_pin =
          execute-attached
          ∙ routed-tenant meta (attached c s) ch t own (is c.command_type)
              (λ d. is_query-classified s known d)

      -- What is left to run on a target that is not pinned; Tenant has what that contacts.
      pub execute-on_shard :
          (i : ℕ)
          → s.pin ≡ none
          → env.resolve s.log s.req.tid ≡ ok (integer (pos i))
          → i < meta.hosts
          → execute_routed_query env (some meta) s ≡ on_shard meta i (attached c s)
      unfolding has_tenant_tid
      execute-on_shard i unpinned h lt =
          execute-by_pin
          ∙ ap (λ pin. query_by_pin env meta (classified c s.req) pin (attached c s)) unpinned
          ∙ by_pin-tenant meta (classified c s.req) (attached c s) own
          ∙ route_lem meta i (attached c s) h lt

      -- On a target that is pinned to a host, a statement that is classified, is no LISTEN, UNLISTEN
      -- or NOTIFY and carries the tid of a tenant is sent to that host, over the hub where it is
      -- ready and has a connection for the host, whatever the tid is: nothing is looked up.
      pub execute-pinned :
          (p : Pin)
          → s.pin ≡ some p
          → env.grpc_ready ≡ true
          → p.host_index < env.grpc_shards
          → (execute_routed_query env (some meta) s).1.log
            ≡ queried (grpc p.host_index write (session_of (some p))) s.req.text ∷ s.log
      execute-pinned p pinned ready lt =
          ap (λ r. r.1.log) execute-by_pin
          ∙ ap (λ pin. (query_by_pin env meta (classified c s.req) pin (attached c s)).1.log) pinned
          ∙ (pinned_log p (attached c s) ready lt)

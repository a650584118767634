-- ===== src/Routing/Executor/Checks.antt =====
-- query-classifier.ts and the assertions of query-executor.ts.
use mtdd.Prelude.{Bool, true, not, ◌&&◌, [], map, Option, none, some, leb, if◌then◌else◌}
use mtdd.Js.Text.{Text, codes, text_eq, trim}
use mtdd.Js.Buffer.{JsError, error}
use mtdd.Js.Effect.{Result, ok, err, pure, throw, lift, gets, ◌>>=◌, ◌>>◌}
use mtdd.Routing.Parse.{CommandType, insert, call, function, is_listen_notify_command_type}
use mtdd.Routing.Cache.Transparency.{classification}
use mtdd.Routing.Merge.{or_else}
-- `req.tid`: undefined, null, or a text
use mtdd.Routing.Executor.{
  Tid, Pin, Meta, Request, Env, is, is_absent, has_tenant_tid, is_falsy, upper_case, is_checkout,
  insert_message, call_message, function_message, Action, set_req,
}

module _ {F R : Type 0} where
  module _ (env : Env F R) where
    unfoldable pub attach_query_classification : Action F R (Unit {0})
    unfolding ◌>>=◌ set_req
    attach_query_classification = do
      req ← gets (λ s. s.req)
      c ← lift (classification env.parse req.text)
      set_req (λ r. record r {
        command_type = some c.command_type;
        has_returning = some c.has_returning;
      })

    abbrev test_text : (CommandType → Bool) → Request F R → Result JsError Bool
    test_text p req = elim (classification env.parse req.text) [
      | ok c ↦ ok (p c.command_type)
      | err e ↦ err e
    ]

    -- isInsertQuery, isCallQuery, isFunctionQuery, isSelectQuery: the type that is attached, and
    -- else that of the text
    unfoldable pub is_query : CommandType → Request F R → Result JsError Bool
    is_query c req = elim req.command_type [
      | some d ↦ if is d c then ok true else test_text (λ t. is t c) req
      | none ↦ test_text (λ t. is t c) req
    ]

    unfoldable pub is_listen_notify_command : Request F R → Result JsError Bool
    unfolding is_listen_notify_command_type
    is_listen_notify_command req = elim req.command_type [
      | some d ↦
          if is_listen_notify_command_type d
          then ok true
          else test_text is_listen_notify_command_type req
      | none ↦ test_text is_listen_notify_command_type req
    ]

    -- `if (isQuery(req) && test) { throw … }`
    abbrev pub refuse_if : CommandType → Bool → Text → Action F R (Unit {0})
    refuse_if c test message = do
      req ← gets (λ s. s.req)
      b ← lift (is_query c req)
      if b && test then throw (error message) else pure tt

    unfoldable pub assert_insert_requires_tid : Tid → Action F R (Unit {0})
    unfolding ◌>>=◌ is_query
    assert_insert_requires_tid tid = refuse_if insert (is_falsy tid) insert_message

    unfoldable pub assert_call_tid : Tid → Action F R (Unit {0})
    unfolding ◌>>=◌ is_query
    assert_call_tid tid = refuse_if call (is_absent tid) call_message

    unfoldable pub assert_function_requires_tid : Tid → Action F R (Unit {0})
    unfolding ◌>>=◌ is_query has_tenant_tid
    assert_function_requires_tid tid =
        refuse_if function (not (has_tenant_tid tid)) function_message

-- isBeginQuery
unfoldable pub is_begin_query : {F R : Type 0} → Request F R → Bool
is_begin_query req =
    text_eq (map upper_case (trim (or_else req.text (or_else req.first_arg [])))) (codes "BEGIN")

abbrev begin_message : Text
begin_message =
    codes
      "@advcomm/mtdd: BEGIN on a multi-host pool requires tid (or an earlier pinned query with tid) so the transaction uses a single shard."

abbrev checkout_message : Text
checkout_message =
    codes
      "@advcomm/mtdd: fan-out queries are not supported on pool.connect() clients. Provide tid on each query or only use single-shard operations."

abbrev pinned_message : Text
pinned_message =
    codes
      "@advcomm/mtdd: fan-out queries are not supported on a pinned transaction client. Provide tid for shard routing."

module _ {F R : Type 0} (env : Env F R) (meta : Meta) where
  abbrev pub refuse_when : Bool → Text → Action F R (Unit {0})
  refuse_when b message = if b then throw (error message) else pure tt

  -- a query without a tid, on several hosts
  abbrev pub without_tid : Option Pin → Action F R (Unit {0})
  without_tid (some p) = throw (error pinned_message)
  without_tid none = do
    refuse_if env insert true insert_message
    refuse_if env call true call_message
    refuse_if env function true function_message
    req ← gets (λ s. s.req)
    refuse_when (is_begin_query req) begin_message
    refuse_when (is_checkout meta.kind) checkout_message

  abbrev pub on_several_hosts : Action F R (Unit {0})
  on_several_hosts = do
    tid ← gets (λ s. s.req.tid)
    pin ← gets (λ s. s.pin)
    if is_absent tid then without_tid pin else pure tt

  unfoldable pub assert_transaction_routing : Action F R (Unit {0})
  unfolding ◌>>=◌ is_query is_begin_query
  assert_transaction_routing = if leb meta.hosts 1 then pure tt else on_several_hosts

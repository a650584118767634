-- ===== src/Notify/Handler.antt =====
-- executeListenNotifyCommand of listen-notify-handler.ts with the transport in memory, and the
-- teardown of a released client. What the handler notes on the request is left out.
use mtdd.Prelude.{List, [], ◌∷◌, ◌++◌, ℕ, Option, none, some}
use mtdd.Js.Text.{Text, codes}
use mtdd.Js.Buffer.{JsError, error}
use mtdd.Js.Effect.{ok, Effect, pure, throw, lift, modify, ◌>>=◌, ◌>>◌}
use mtdd.Routing.Parse.{
  ListenNotify, listens, unlistens_all, unlistens, notifies, parse_listen_notify_statement,
}
use mtdd.Routing.Merge.{QueryResult, no_rows}
use mtdd.Routing.Executor.{Tid, TargetKind, checkout}
use mtdd.Notify.{
  Hub, resolve_tid_scope, get_logical_client_id, add_channel_subscription,
  remove_channel_subscription, clear_channel_subscriptions, get_channel_subscriptions,
  remove_client,
}
use mtdd.Notify.Transport.{
  Limits, subscribe, unsubscribe, unsubscribe_all, publish, validate_notify_channel,
  validate_notify_payload,
}

abbrev pub Action : Type 0 → Type 0
Action A = Effect Hub JsError A

-- `getLogicalClientId(target)` as an action
abbrev logical_id : ℕ → Action ℕ
logical_id target hub = let found = get_logical_client_id target hub in (ok found.0, found.1)

module _ {F R : Type 0} where
  -- syntheticListenResult, syntheticUnlistenResult, syntheticNotifyResult
  unfoldable pub empty_pg_result : Text → QueryResult F R
  empty_pg_result command = no_rows command none 0

  unfoldable pub run_command : Limits → ℕ → ℕ → Text → ListenNotify → Action (QueryResult F R)
  unfolding ◌>>=◌ subscribe unsubscribe unsubscribe_all publish add_channel_subscription
      remove_channel_subscription clear_channel_subscriptions validate_notify_channel
      validate_notify_payload empty_pg_result
  run_command limits target id tid_scope (listens channel) = do
    name ← lift (validate_notify_channel limits channel)
    modify (subscribe id name tid_scope)
    modify (add_channel_subscription target name tid_scope)
    pure (empty_pg_result (codes "LISTEN"))
  run_command limits target id tid_scope unlistens_all = do
    modify (unsubscribe_all id)
    modify (clear_channel_subscriptions target)
    pure (empty_pg_result (codes "UNLISTEN"))
  run_command limits target id tid_scope (unlistens channel) = do
    name ← lift (validate_notify_channel limits channel)
    modify (unsubscribe id name tid_scope)
    modify (remove_channel_subscription target name tid_scope)
    pure (empty_pg_result (codes "UNLISTEN"))
  run_command limits target id tid_scope (notifies channel payload) = do
    name ← lift (validate_notify_channel limits channel)
    text ← lift (validate_notify_payload limits payload)
    modify (publish name text tid_scope)
    pure (empty_pg_result (codes "NOTIFY"))

  abbrev pub run_parsed : Limits → ℕ → Tid → Text → Option ListenNotify → Action (QueryResult F R)
  run_parsed limits target tid text none =
      throw (error (codes "@advcomm/mtdd: invalid LISTEN/UNLISTEN/NOTIFY statement: " ++ text))
  run_parsed limits target tid text (some parsed) = do
    id ← logical_id target
    run_command limits target id (resolve_tid_scope tid) parsed

  unfoldable pub execute_listen_notify_command : Limits → ℕ → Tid → Text → Action (QueryResult F R)
  unfolding ◌>>=◌ get_logical_client_id run_command resolve_tid_scope
  execute_listen_notify_command limits target tid text =
      run_parsed limits target tid text (parse_listen_notify_statement text)

abbrev pub drop_client : List (Text × Text) → ℕ → Hub → Hub
drop_client [] target hub = remove_client target hub
drop_client (s ∷ subscriptions) target hub =
    let found = get_logical_client_id target hub in
    remove_client target (unsubscribe_all found.0 found.1)

-- teardownNotifySubscriptions, for a facade of this kind
unfoldable pub teardown_notify_subscriptions : TargetKind → ℕ → Hub → Hub
unfolding get_channel_subscriptions remove_client unsubscribe_all get_logical_client_id
teardown_notify_subscriptions checkout target hub =
    drop_client (get_channel_subscriptions target hub) target hub
teardown_notify_subscriptions _ target hub = hub

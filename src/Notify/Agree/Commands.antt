-- ===== src/Notify/Agree/Commands.antt =====
-- Agreement of the registry and the transport after LISTEN, UNLISTEN, NOTIFY and a teardown.
use mtdd.Prelude.{ℕ, ◌≡◌, refl, sym, subst, List, [], ◌∷◌, Option, none, some}
use mtdd.Js.Text.{Text, text_eq}
use mtdd.Js.Map.{get, add, has}
use mtdd.Js.Map.Laws.{==-IsEquality, get-delete_self}
use mtdd.Js.Buffer.{JsError}
use mtdd.Js.Effect.{Result, ok, err, lift, ◌>>=◌}
use mtdd.Routing.Parse.{
  ListenNotify, listens, unlistens_all, unlistens, notifies, parse_listen_notify_statement,
}
use mtdd.Routing.Executor.{Tid, TargetKind, pool, client, checkout}
use mtdd.Notify.{
  Hub, same_id, channel_key, change_channels, changed_target, known_client, get_logical_client_id,
  add_channel_subscription, remove_channel_subscription, clear_channel_subscriptions, of_target,
  remove_client, removed, resolve_tid_scope, get_channel_subscriptions, empty_hub,
}
use mtdd.Notify.Transport.{
  Limits, bucket, subscribe, unsubscribe, unsubscribe_all, publish, validate_notify_channel,
  validate_notify_payload,
}
use mtdd.Notify.Handler.{
  Action, run_command, run_parsed, execute_listen_notify_command, teardown_notify_subscriptions,
  drop_client,
}
use mtdd.Notify.Agree.{
  IsConsistent, Moves, subscribe-Moves, unsubscribe-Moves, unsubscribe_all-Moves,
}
use mtdd.Notify.Agree.Handled.{Moves-IsConsistent, not_registered}
use mtdd.Notify.Agree.Clients.{
  get_logical_client_id-IsNamed, removed-IsConsistent, dispatch_all-IsConsistent,
}

-- A change of the buckets and then of the channels of the target with this id.
module _ (target id : ℕ) (hub after : Hub) (f : List Text → List Text) (k : IsConsistent hub)
    (known : get same_id target hub.ids ≡ some id) (m : Moves id f hub after) where
  changed-IsConsistent : IsConsistent (change_channels f id after)
  changed-IsConsistent = Moves-IsConsistent id f hub after m k (k.issued target id known)

  still_known : get same_id target after.ids ≡ some id
  still_known = rw m.ids known

  of_target-IsConsistent : IsConsistent (of_target f target after)
  of_target-IsConsistent =
      subst (λ o. IsConsistent (changed_target f o after)) (sym still_known) changed-IsConsistent

module _ (limits : Limits) (target id : ℕ) (scope : Text) (hub : Hub) (k : IsConsistent hub)
    (known : get same_id target hub.ids ≡ some id) where
  listen-IsConsistent :
      (channel : Text)
      → IsConsistent
          (add_channel_subscription target channel scope (subscribe id channel scope hub))
  unfolding add_channel_subscription get_logical_client_id
  listen-IsConsistent channel =
      let m = subscribe-Moves id channel scope hub in
      let after = subscribe id channel scope hub in
      subst
        (λ o. IsConsistent (
          change_channels (add text_eq (channel_key channel scope)) (known_client o target after).0
            (known_client o target after).1))
        (sym (still_known target id hub after _ k known m))
        (changed-IsConsistent target id hub after _ k known m)

  unlisten-IsConsistent :
      (channel : Text)
      → IsConsistent
          (remove_channel_subscription target channel scope (unsubscribe id channel scope hub))
  unfolding remove_channel_subscription
  unlisten-IsConsistent channel =
      of_target-IsConsistent target id hub _ _ k known (unsubscribe-Moves id channel scope hub)

  unlisten_all-IsConsistent :
      IsConsistent (clear_channel_subscriptions target (unsubscribe_all id hub))
  unfolding clear_channel_subscriptions
  unlisten_all-IsConsistent =
      of_target-IsConsistent target id hub _ _ k known (unsubscribe_all-Moves id hub)

  publish-IsConsistent : (channel payload : Text) → IsConsistent (publish channel payload scope hub)
  unfolding publish
  publish-IsConsistent channel payload =
      dispatch_all-IsConsistent (bucket (channel_key channel scope) hub)
        (record { process_id = 0; channel = channel; payload = payload }) hub k

-- A check before the rest of a command.
checked :
    {A B : Type 0} (r : Result JsError A) (rest : A → Action B) (hub : Hub)
    → IsConsistent hub
    → ((a : A) → IsConsistent (rest a hub).1)
    → IsConsistent ((lift r >>= rest) hub).1
unfolding ◌>>=◌
checked (ok a) rest hub k h = h a
checked (err e) rest hub k h = k

module _ (F R : Type 0) (limits : Limits) (target : ℕ) where
  run_command-IsConsistent :
      (id : ℕ) (scope : Text) (hub : Hub)
      → IsConsistent hub
      → get same_id target hub.ids ≡ some id
      → (command : ListenNotify)
      → IsConsistent (run_command {F = F} {R = R} limits target id scope command hub).1
  unfolding run_command ◌>>=◌
  run_command-IsConsistent id scope hub k known (listens channel) =
      checked (validate_notify_channel limits channel) _ hub k
        (listen-IsConsistent limits target id scope hub k known)
  run_command-IsConsistent id scope hub k known unlistens_all =
      unlisten_all-IsConsistent limits target id scope hub k known
  run_command-IsConsistent id scope hub k known (unlistens channel) =
      checked (validate_notify_channel limits channel) _ hub k
        (unlisten-IsConsistent limits target id scope hub k known)
  run_command-IsConsistent id scope hub k known (notifies channel payload) =
      checked (validate_notify_channel limits channel) _ hub k (λ name.
        checked (validate_notify_payload limits payload) _ hub k
          (publish-IsConsistent limits target id scope hub k known name))

  run_parsed-IsConsistent :
      (tid : Tid) (text : Text) (parsed : Option ListenNotify) (hub : Hub)
      → IsConsistent hub
      → IsConsistent (run_parsed {F = F} {R = R} limits target tid text parsed hub).1
  unfolding ◌>>=◌
  run_parsed-IsConsistent tid text none hub k = k
  run_parsed-IsConsistent tid text (some command) hub k =
      let named = get_logical_client_id-IsNamed target hub k in
      run_command-IsConsistent (get_logical_client_id target hub).0 (resolve_tid_scope tid)
        (get_logical_client_id target hub).1 named.consistent named.id command

  execute-IsConsistent :
      (tid : Tid) (text : Text) (hub : Hub)
      → IsConsistent hub
      → IsConsistent (execute_listen_notify_command {F = F} {R = R} limits target tid text hub).1
  unfolding execute_listen_notify_command
  execute-IsConsistent tid text hub k =
      run_parsed-IsConsistent tid text (parse_listen_notify_statement text) hub k

module _ (target id : ℕ) (hub : Hub) (k : IsConsistent hub)
    (known : get same_id target hub.ids ≡ some id) where
  removed-Moves :
      Moves id (λ channels. []) (removed (some id) hub) (removed (some id) (unsubscribe_all id hub))
  unfolding bucket unsubscribe_all has
  removed-Moves = record {
    clients = refl;
    ids = refl;
    next = refl;
    own = (unsubscribe_all-Moves id hub).own;
    others = (unsubscribe_all-Moves id hub).others;
  }

  left-IsConsistent : IsConsistent (removed (some id) (unsubscribe_all id hub))
  unfolding unsubscribe_all
  left-IsConsistent =
      not_registered id (λ channels. []) (removed (some id) hub)
        (removed (some id) (unsubscribe_all id hub)) removed-Moves
        (removed-IsConsistent (some id) hub k) (k.issued target id known)
        (get-delete_self ==-IsEquality id hub.clients)

  known_after : get same_id target (unsubscribe_all id hub).ids ≡ some id
  unfolding unsubscribe_all
  known_after = known

  left : IsConsistent (remove_client target (unsubscribe_all id hub))
  unfolding remove_client
  left =
      subst (λ o. IsConsistent (removed o (unsubscribe_all id hub))) (sym known_after)
        left-IsConsistent

drop_client-IsConsistent :
    (subscriptions : List (Text × Text)) (target : ℕ) (hub : Hub)
    → IsConsistent hub
    → IsConsistent (drop_client subscriptions target hub)
unfolding remove_client
drop_client-IsConsistent [] target hub k = removed-IsConsistent (get same_id target hub.ids) hub k
drop_client-IsConsistent (s ∷ subscriptions) target hub k =
    let named = get_logical_client_id-IsNamed target hub k in
    left target (get_logical_client_id target hub).0 (get_logical_client_id target hub).1
      named.consistent named.id

teardown-IsConsistent :
    (kind : TargetKind) (target : ℕ) (hub : Hub)
    → IsConsistent hub
    → IsConsistent (teardown_notify_subscriptions kind target hub)
unfolding teardown_notify_subscriptions
teardown-IsConsistent checkout target hub k =
    drop_client-IsConsistent (get_channel_subscriptions target hub) target hub k
teardown-IsConsistent pool target hub k = k
teardown-IsConsistent client target hub k = k

empty_hub-IsConsistent : IsConsistent empty_hub
unfolding empty_hub get bucket has
empty_hub-IsConsistent = record {
  agree = λ id c key h. cc;
  owner = λ t id c h g. cc;
  issued = λ t id h. cc;
  unused = λ id h. refl;
  silent = λ id key h. refl;
}

-- What happens to the hub: a command of a target, or the release of one.
pub data Step : Type 0 where
  command : Limits → ℕ → Tid → Text → Step
  teardown : TargetKind → ℕ → Step

module _ (F R : Type 0) where
  unfoldable pub run_step : Step → Hub → Hub
  run_step (command limits target tid text) hub =
      (execute_listen_notify_command {F = F} {R = R} limits target tid text hub).1
  run_step (teardown kind target) hub = teardown_notify_subscriptions kind target hub

  unfoldable pub run_steps : List Step → Hub → Hub
  unfolding run_step
  run_steps [] hub = hub
  run_steps (s ∷ steps) hub = run_steps steps (run_step s hub)

  steps-IsConsistent :
      (steps : List Step) (hub : Hub) → IsConsistent hub → IsConsistent (run_steps steps hub)
  unfolding run_steps
  steps-IsConsistent [] hub k = k
  steps-IsConsistent (command limits target tid text ∷ steps) hub k =
      steps-IsConsistent steps _ (execute-IsConsistent F R limits target tid text hub k)
  steps-IsConsistent (teardown kind target ∷ steps) hub k =
      steps-IsConsistent steps _ (teardown-IsConsistent kind target hub k)

  -- After any sequence of commands, of any targets and tids, and of releases, the registry and the
  -- transport agree: a registered client is in the bucket of a key exactly if the key is among its
  -- channels, an entry belongs to the target of its id, and ids that were not given have no entry
  -- and are in no bucket.
  pub run_steps-IsConsistent : (steps : List Step) → IsConsistent (run_steps steps empty_hub)
  run_steps-IsConsistent steps = steps-IsConsistent steps empty_hub empty_hub-IsConsistent

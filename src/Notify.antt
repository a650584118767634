-- ===== src/Notify.antt =====
-- LISTEN, UNLISTEN and NOTIFY of the driver. Here: notification-registry.ts, and the state that it has
-- with the transport in memory, which Transport has; Handler has the commands. A target is a
-- number, which stands for the identity of the object, and so is a logical id, for the number that
-- its text ends in. No handler of notifications is installed.
pub mod Transport
pub mod Handler
pub mod Key
pub mod Buckets
pub mod Agree
pub mod Delivery
pub mod Crosstalk
mod Examples
use mtdd.Prelude.{
  ℕ, suc, ◌+◌, Bool, true, false, List, [], ◌∷◌, ◌++◌, Option, none, some, ◌==◌, ltb, if◌then◌else◌,
  length, take, drop,
}
use mtdd.Js.Text.{Text, codes, text_eq, decimal}
use mtdd.Js.Utf8 as Utf8
use mtdd.Js.Buffer.{JsError, error}
use mtdd.Js.Effect.{Result, ok, err, Effect, pure, throw, lift, gets, modify, ◌>>=◌, ◌>>◌}
use mtdd.Js.Map.{get, put, delete, has, add, discard}
use mtdd.Routing.Parse.{
  ListenNotify, listens, unlistens_all, unlistens, notifies, parse_listen_notify_statement,
}
use mtdd.Routing.Merge.{QueryResult, no_rows}
use mtdd.Routing.Executor.{Tid, absent, all_shards, tenant, TargetKind, checkout, pool, client}

pub record Notification : Type 0 where
  pub process_id : ℕ
  pub channel : Text
  pub payload : Text

-- an entry of `logicalIdToEntry`
pub record Client : Type 0 where
  pub target : ℕ
  pub channels : List Text

-- The state of the registry, the buckets of the transport, and the notifications that were emitted,
-- the last first.
pub record Hub : Type 0 where
  pub ids : List (ℕ × ℕ)
  pub clients : List (ℕ × Client)
  pub next_id : ℕ
  pub subscriptions : List (Text × List ℕ)
  pub emitted : List (ℕ × Notification)

unfoldable pub empty_hub : Hub
empty_hub = record { ids = []; clients = []; next_id = 1; subscriptions = []; emitted = [] }

abbrev pub same_id : ℕ → ℕ → Bool
same_id a b = a == b

-- `subscriptionKey` and `channelKey`
unfoldable pub channel_key : Text → Text → Text
channel_key channel tid_scope = tid_scope ++ b':' ∷ channel

unfoldable pub resolve_tid_scope : Tid → Text
resolve_tid_scope (tenant tid) = tid
resolve_tid_scope _ = codes "__global__"

abbrev pub new_client : ℕ → Hub → ℕ × Hub
new_client target hub = (
  hub.next_id,
  record hub {
    ids = put same_id target hub.next_id hub.ids;
    clients = put same_id hub.next_id (record { target = target; channels = [] }) hub.clients;
    next_id = suc hub.next_id;
  },
)

abbrev pub known_client : Option ℕ → ℕ → Hub → ℕ × Hub
known_client (some id) target hub = (id, hub)
known_client none target hub = new_client target hub

unfoldable pub get_logical_client_id : ℕ → Hub → ℕ × Hub
unfolding get put
get_logical_client_id target hub = known_client (get same_id target hub.ids) target hub

abbrev pub changed_client : (List Text → List Text) → ℕ → Hub → Option Client → Hub
changed_client f id hub none = hub
changed_client f id hub (some c) = record hub {
  clients = put same_id id (record c { channels = f c.channels }) hub.clients;
}

-- a change to the channels of an entry, if it is there
unfoldable pub change_channels : (List Text → List Text) → ℕ → Hub → Hub
unfolding get put
change_channels f id hub = changed_client f id hub (get same_id id hub.clients)

abbrev pub changed_target : (List Text → List Text) → Option ℕ → Hub → Hub
changed_target f none hub = hub
changed_target f (some id) hub = change_channels f id hub

-- a change to the channels of a target that has an id
abbrev pub of_target : (List Text → List Text) → ℕ → Hub → Hub
of_target f target hub = changed_target f (get same_id target hub.ids) hub

unfoldable pub add_channel_subscription : ℕ → Text → Text → Hub → Hub
unfolding get_logical_client_id change_channels channel_key add
add_channel_subscription target channel tid_scope hub =
    let found = get_logical_client_id target hub in
    change_channels (add text_eq (channel_key channel tid_scope)) found.0 found.1

unfoldable pub remove_channel_subscription : ℕ → Text → Text → Hub → Hub
unfolding change_channels channel_key discard get
remove_channel_subscription target channel tid_scope hub =
    of_target (discard text_eq (channel_key channel tid_scope)) target hub

unfoldable pub clear_channel_subscriptions : ℕ → Hub → Hub
unfolding change_channels get
clear_channel_subscriptions target hub = of_target (λ channels. []) target hub

-- `key.indexOf(':')`
unfoldable pub index_of_colon : Text → Option ℕ
index_of_colon [] = none
index_of_colon (c ∷ s) =
    let rest = index_of_colon s in
    if c == b':' then some 0 else elim rest [ none ↦ none | some i ↦ some (suc i) ]

abbrev pub split_at : Option ℕ → Text → Option (Text × Text)
split_at (some (suc i)) key = some (take (suc i) key, drop (suc (suc i)) key)
split_at _ key = none

-- the scope and the channel of a key; a key without a scope has none
unfoldable pub split_key : Text → Option (Text × Text)
unfolding index_of_colon
split_key key = split_at (index_of_colon key) key

abbrev kept : Option (Text × Text) → List (Text × Text) → List (Text × Text)
kept none out = out
kept (some k) out = k ∷ out

unfoldable pub split_keys : List Text → List (Text × Text)
unfolding split_key
split_keys [] = []
split_keys (key ∷ keys) = kept (split_key key) (split_keys keys)

unfoldable pub get_channel_subscriptions : ℕ → Hub → List (Text × Text)
unfolding split_keys get
get_channel_subscriptions target hub = elim (get same_id target hub.ids) [
  | none ↦ []
  | some id ↦ elim (get same_id id hub.clients) [ none ↦ [] | some c ↦ split_keys c.channels ]
]

abbrev pub removed : Option ℕ → Hub → Hub
removed none hub = hub
removed (some id) hub = record hub { clients = delete same_id id hub.clients }

-- The logical id of the target stays in `clientToLogicalId`.
unfoldable pub remove_client : ℕ → Hub → Hub
unfolding delete get
remove_client target hub = removed (get same_id target hub.ids) hub

abbrev pub emit_to : Option Client → Notification → Hub → Hub
emit_to none notification hub = hub
emit_to (some c) notification hub = record hub { emitted = (c.target, notification) ∷ hub.emitted }

unfoldable pub dispatch_to_logical_client : ℕ → Notification → Hub → Hub
unfolding get
dispatch_to_logical_client id notification hub =
    emit_to (get same_id id hub.clients) notification hub

-- ===== src/Notify/Transport.antt =====
-- The transport in memory of mtdd-notify-transport.ts, and validateNotifyChannel and
-- validateNotifyPayload of notify-policy.ts.
use mtdd.Prelude.{ℕ, List, [], ◌∷◌, ◌++◌, Option, none, some, ltb, if◌then◌else◌, length}
use mtdd.Js.Text.{Text, codes, text_eq, decimal}
use mtdd.Js.Utf8 as Utf8
use mtdd.Js.Buffer.{JsError, error}
use mtdd.Js.Effect.{Result, ok, err}
use mtdd.Js.Map.{get, put, delete, add, discard}
use mtdd.Notify.{Hub, Notification, same_id, channel_key, dispatch_to_logical_client}

abbrev pub or_empty : Option (List ℕ) → List ℕ
or_empty none = []
or_empty (some bucket) = bucket

-- the bucket of a key, empty if there is none
unfoldable pub bucket : Text → Hub → List ℕ
unfolding get
bucket key hub = or_empty (get text_eq key hub.subscriptions)

unfoldable pub subscribe : ℕ → Text → Text → Hub → Hub
unfolding bucket channel_key put add
subscribe id channel tid_scope hub =
    let key = channel_key channel tid_scope in
    record hub {
      subscriptions = put text_eq key (add same_id id (bucket key hub)) hub.subscriptions;
    }

-- A bucket that is left empty is deleted.
abbrev pub store : Text → List ℕ → List (Text × List ℕ) → List (Text × List ℕ)
store key [] subscriptions = delete text_eq key subscriptions
store key (id ∷ ids) subscriptions = put text_eq key (id ∷ ids) subscriptions

abbrev pub without : Option (List ℕ) → Text → ℕ → Hub → Hub
without none key id hub = hub
without (some ids) key id hub = record hub {
  subscriptions = store key (discard same_id id ids) hub.subscriptions;
}

unfoldable pub unsubscribe : ℕ → Text → Text → Hub → Hub
unfolding channel_key put delete get discard
unsubscribe id channel tid_scope hub =
    let key = channel_key channel tid_scope in
    without (get text_eq key hub.subscriptions) key id hub

unfoldable pub discard_everywhere : ℕ → List (Text × List ℕ) → List (Text × List ℕ)
unfolding discard
discard_everywhere id [] = []
discard_everywhere id (e ∷ subscriptions) =
    (e.0, discard same_id id e.1) ∷ discard_everywhere id subscriptions

unfoldable pub unsubscribe_all : ℕ → Hub → Hub
unfolding discard_everywhere
unsubscribe_all id hub = record hub { subscriptions = discard_everywhere id hub.subscriptions }

unfoldable pub dispatch_all : List ℕ → Notification → Hub → Hub
unfolding dispatch_to_logical_client
dispatch_all [] notification hub = hub
dispatch_all (id ∷ ids) notification hub =
    dispatch_all ids notification (dispatch_to_logical_client id notification hub)

unfoldable pub publish : Text → Text → Text → Hub → Hub
unfolding dispatch_all bucket channel_key
publish channel payload tid_scope hub =
    dispatch_all (bucket (channel_key channel tid_scope) hub)
      (record { process_id = 0; channel = channel; payload = payload }) hub

-- `getMaxNotifyChannelBytes` and `getMaxNotifyPayloadBytes`, which may throw
pub record Limits : Type 0 where
  pub channel_bytes : Result JsError ℕ
  pub payload_bytes : Result JsError ℕ

abbrev check_length : Result JsError ℕ → ℕ → JsError → Text → Result JsError Text
check_length (err e) n too_long text = err e
check_length (ok max) n too_long text = if ltb max n then err too_long else ok text

abbrev channel_error : Result JsError ℕ → JsError
channel_error (ok max) = error (
    codes "@advcomm/mtdd: channel exceeds MTDD_MAX_NOTIFY_CHANNEL_BYTES ("
    ++ (decimal max ++ codes ")"))
channel_error (err e) = e

abbrev payload_error : Result JsError ℕ → JsError
payload_error (ok max) = error (
    codes "@advcomm/mtdd: NOTIFY payload exceeds MTDD_MAX_NOTIFY_PAYLOAD_BYTES ("
    ++ (decimal max ++ codes ")"))
payload_error (err e) = e

unfoldable pub validate_notify_channel : Limits → Text → Result JsError Text
validate_notify_channel limits [] =
    err (error (codes "@advcomm/mtdd: NOTIFY/LISTEN channel is required"))
validate_notify_channel limits (c ∷ name) =
    check_length limits.channel_bytes (length (Utf8.encode (c ∷ name)))
      (channel_error limits.channel_bytes) (c ∷ name)

unfoldable pub validate_notify_payload : Limits → Text → Result JsError Text
validate_notify_payload limits text =
    check_length limits.payload_bytes (length (Utf8.encode text))
      (payload_error limits.payload_bytes) text

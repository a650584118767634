-- ===== src/Notify/Crosstalk.antt =====
-- Notifications of mtdd-notify-transport.ts that cross from one tenant to another.
use mtdd.Prelude.{ℕ, ◌≡◌, refl, sym, ap, ◌∙◌, subst, true, ◌∷◌, ◌++◌, some, append_assoc}
use mtdd.Js.Text.{Text}
use mtdd.Js.Map.{get, has}
use mtdd.Js.Map.Laws.{==-IsEquality, has-add_self}
use mtdd.Notify.{Hub, Client, same_id, channel_key}
use mtdd.Notify.Transport.{bucket, subscribe, publish}
use mtdd.Notify.Buckets.{bucket-subscribe_self}
use mtdd.Notify.Delivery.{Among, note, dispatch_all_lem, emissions-reach}

module _ (id : ℕ) (c : Client) (a b channel payload : Text) (hub : Hub) where
  same_key : channel_key channel (a ++ b':' ∷ b) ≡ channel_key (b ++ b':' ∷ channel) a
  unfolding channel_key
  same_key = append_assoc a (b':' ∷ b) (b':' ∷ channel)

  abbrev after : Hub
  after = subscribe id channel (a ++ b':' ∷ b) hub

  in_bucket : has same_id id (bucket (channel_key (b ++ b':' ∷ channel) a) after) ≡ true
  in_bucket =
      subst (λ key. has same_id id (bucket key after) ≡ true) same_key
        (rw (bucket-subscribe_self id channel (a ++ b':' ∷ b) hub)
          (has-add_self ==-IsEquality id (bucket (channel_key channel (a ++ b':' ∷ b)) hub)))

  clients_lem : after.clients ≡ hub.clients
  unfolding subscribe
  clients_lem = refl

  -- A registered client that the transport subscribes to a channel `c` for the tenant `a:b` gets
  -- what the tenant `a` publishes on the channel `b:c`, whatever `a`, `b` and `c` are.
  pub publish-subscribe_crosses :
      get same_id id hub.clients ≡ some c
      → Among
          (c.target, note (b ++ b':' ∷ channel) payload)
          (publish
            (b ++ b':' ∷ channel)
            payload
            a
            (subscribe id channel (a ++ b':' ∷ b) hub)).emitted
  unfolding publish
  publish-subscribe_crosses there =
      let names = bucket (channel_key (b ++ b':' ∷ channel) a) after in
      let message = note (b ++ b':' ∷ channel) payload in
      subst (Among (c.target, message))
        (sym (ap (λ h. h.emitted) (dispatch_all_lem names message after)))
        (emissions-reach after.clients message id c (ap (get same_id id) clients_lem ∙ there) names
          after.emitted in_bucket)

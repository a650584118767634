-- ===== src/Notify/Agree.antt =====
-- The registry and the transport agree: a registered client is in the bucket of a key exactly if
-- the key is among its channels. Every operation keeps this.
pub mod Handled
pub mod Clients
pub mod Commands
use mtdd.Prelude.{
  ℕ, suc, ◌≤◌, ◌<◌, ◌≡◌, ◌≢◌, refl, sym, ap, ◌∙◌, Bool, true, false, List, [], ◌∷◌, Option, none,
  some, Option-cases, inl, inr, arith,
}
use mtdd.Js.Text.{Text, text_eq}
use mtdd.Js.Map.{get, put, delete, has, add, discard}
use mtdd.Js.Map.Laws.{
  text_eq-IsEquality, ==-IsEquality, same-cases, get-put_self, get-put_ne, get-delete_self,
  get-delete_ne, has-add_self, has-add_ne, has-discard_self, has-discard_ne,
}
use mtdd.Notify.{Hub, Client, same_id, channel_key, change_channels, new_client}
use mtdd.Notify.Transport.{bucket, subscribe, unsubscribe, unsubscribe_all, without}
use mtdd.Notify.Buckets.{
  bucket-subscribe_self, bucket-subscribe_ne, bucket-unsubscribe_self, bucket-unsubscribe_ne,
  bucket-unsubscribe_all,
}

-- Whether the client of the id gets what is published under the key.
abbrev pub listening : ℕ → Text → Hub → Bool
listening id key hub = has same_id id (bucket key hub)

pub record IsConsistent (hub : Hub) : Type 0 where
  pub agree :
      (id : ℕ) (c : Client) (key : Text)
      → get same_id id hub.clients ≡ some c
      → has text_eq key c.channels ≡ listening id key hub
  pub owner :
      (target id : ℕ) (c : Client)
      → get same_id target hub.ids ≡ some id
      → get same_id id hub.clients ≡ some c
      → c.target ≡ target
  pub issued : (target id : ℕ) → get same_id target hub.ids ≡ some id → id < hub.next_id
  pub unused : (id : ℕ) → hub.next_id ≤ id → get same_id id hub.clients ≡ none
  pub silent : (id : ℕ) (key : Text) → hub.next_id ≤ id → listening id key hub ≡ false

-- A change of the buckets for the client of one id, beside the change `f` of its channels.
pub record Moves (id : ℕ) (f : List Text → List Text) (hub after : Hub) : Type 0 where
  pub clients : after.clients ≡ hub.clients
  pub ids : after.ids ≡ hub.ids
  pub next : after.next_id ≡ hub.next_id
  pub own :
      (channels : List Text) (key : Text)
      → has text_eq key channels ≡ listening id key hub
      → has text_eq key (f channels) ≡ listening id key after
  pub others : (j : ℕ) (key : Text) → id ≢ j → listening j key after ≡ listening j key hub

module _ (id : ℕ) (channel scope : Text) (hub : Hub) where
  subscribe_own :
      (channels : List Text) (key : Text)
      → has text_eq key channels ≡ listening id key hub
      → has text_eq key (add text_eq (channel_key channel scope) channels)
        ≡ listening id key (subscribe id channel scope hub)
  subscribe_own channels key h =
      elim (same-cases text_eq-IsEquality (channel_key channel scope) key) [
        | inl e ↦
            rw
              (
                sym e,
                has-add_self text_eq-IsEquality (channel_key channel scope) channels,
                bucket-subscribe_self id channel scope hub,
              )
              (sym (has-add_self ==-IsEquality id (bucket (channel_key channel scope) hub)))
        | inr ne ↦
            rw
              (
                has-add_ne text_eq-IsEquality (channel_key channel scope) key channels ne,
                bucket-subscribe_ne id channel scope hub key ne,
              )
              h
      ]

  subscribe_others :
      (j : ℕ) (key : Text)
      → id ≢ j
      → listening j key (subscribe id channel scope hub) ≡ listening j key hub
  subscribe_others j key h = elim (same-cases text_eq-IsEquality (channel_key channel scope) key) [
    | inl e ↦
        rw (sym e, bucket-subscribe_self id channel scope hub)
          (has-add_ne ==-IsEquality id j (bucket (channel_key channel scope) hub) h)
    | inr ne ↦ rw (bucket-subscribe_ne id channel scope hub key ne)
  ]

  pub subscribe-Moves :
      Moves id (add text_eq (channel_key channel scope)) hub (subscribe id channel scope hub)
  unfolding subscribe
  subscribe-Moves = record {
    clients = refl;
    ids = refl;
    next = refl;
    own = subscribe_own;
    others = subscribe_others;
  }

  unsubscribe_own :
      (channels : List Text) (key : Text)
      → has text_eq key channels ≡ listening id key hub
      → has text_eq key (discard text_eq (channel_key channel scope) channels)
        ≡ listening id key (unsubscribe id channel scope hub)
  unsubscribe_own channels key h =
      elim (same-cases text_eq-IsEquality (channel_key channel scope) key) [
        | inl e ↦
            rw
              (
                sym e,
                has-discard_self text_eq-IsEquality (channel_key channel scope) channels,
                bucket-unsubscribe_self id channel scope hub,
              )
              (sym (has-discard_self ==-IsEquality id (bucket (channel_key channel scope) hub)))
        | inr ne ↦
            rw
              (
                has-discard_ne text_eq-IsEquality (channel_key channel scope) key channels ne,
                bucket-unsubscribe_ne id channel scope hub key ne,
              )
              h
      ]

  unsubscribe_others :
      (j : ℕ) (key : Text)
      → id ≢ j
      → listening j key (unsubscribe id channel scope hub) ≡ listening j key hub
  unsubscribe_others j key h =
      elim (same-cases text_eq-IsEquality (channel_key channel scope) key) [
        | inl e ↦
            rw (sym e, bucket-unsubscribe_self id channel scope hub)
              (has-discard_ne ==-IsEquality id j (bucket (channel_key channel scope) hub) h)
        | inr ne ↦ rw (bucket-unsubscribe_ne id channel scope hub key ne)
      ]

  unsubscribe_rest :
      (o : Option (List ℕ)) (key : Text)
      → ((without o key id hub).clients ≡ hub.clients)
        × ((without o key id hub).ids ≡ hub.ids)
        × ((without o key id hub).next_id ≡ hub.next_id)
  unsubscribe_rest none key = (refl, refl, refl)
  unsubscribe_rest (some ids) key = (refl, refl, refl)

  pub unsubscribe-Moves :
      Moves id (discard text_eq (channel_key channel scope)) hub (unsubscribe id channel scope hub)
  unfolding unsubscribe
  unsubscribe-Moves =
      let rest =
        unsubscribe_rest (get text_eq (channel_key channel scope) hub.subscriptions)
          (channel_key channel scope) in
      record {
        clients = rest.0;
        ids = rest.1;
        next = rest.2;
        own = unsubscribe_own;
        others = unsubscribe_others;
      }

module _ (id : ℕ) (hub : Hub) where
  pub unsubscribe_all-silent : (key : Text) → listening id key (unsubscribe_all id hub) ≡ false
  unsubscribe_all-silent key =
      rw (bucket-unsubscribe_all id key hub) (has-discard_self ==-IsEquality id (bucket key hub))

  unsubscribe_all_others :
      (j : ℕ) (key : Text) → id ≢ j → listening j key (unsubscribe_all id hub) ≡ listening j key hub
  unsubscribe_all_others j key h =
      rw (bucket-unsubscribe_all id key hub) (has-discard_ne ==-IsEquality id j (bucket key hub) h)

  pub unsubscribe_all-Moves : Moves id (λ channels. []) hub (unsubscribe_all id hub)
  unfolding unsubscribe_all has
  unsubscribe_all-Moves = record {
    clients = refl;
    ids = refl;
    next = refl;
    own = λ channels key h. sym (unsubscribe_all-silent key);
    others = unsubscribe_all_others;
  }

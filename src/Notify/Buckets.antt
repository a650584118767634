-- ===== src/Notify/Buckets.antt =====
-- The buckets of the transport after each of its operations, key by key.
use mtdd.Prelude.{ℕ, ◌≡◌, ◌≢◌, refl, ap, List, [], ◌∷◌, Option, none, some, Bool-cases, inl, inr}
use mtdd.Js.Text.{Text, text_eq}
use mtdd.Js.Map.{get, add, discard}
use mtdd.Js.Map.Laws.{text_eq-IsEquality, get-put_self, get-put_ne, get-delete_self, get-delete_ne}
use mtdd.Notify.{Hub, same_id, channel_key}
use mtdd.Notify.Transport.{
  bucket, or_empty, subscribe, unsubscribe, unsubscribe_all, discard_everywhere, store, without,
}

module _ (id : ℕ) (channel scope : Text) (hub : Hub) where
  pub bucket-subscribe_self :
      bucket (channel_key channel scope) (subscribe id channel scope hub)
      ≡ add same_id id (bucket (channel_key channel scope) hub)
  unfolding subscribe
  bucket-subscribe_self =
      unfold bucket in
      rw (
        get-put_self text_eq-IsEquality (channel_key channel scope)
          (add same_id id (bucket (channel_key channel scope) hub)) hub.subscriptions)

  pub bucket-subscribe_ne :
      (key : Text)
      → channel_key channel scope ≢ key
      → bucket key (subscribe id channel scope hub) ≡ bucket key hub
  unfolding subscribe bucket
  bucket-subscribe_ne key h =
      ap or_empty
        (get-put_ne text_eq-IsEquality (channel_key channel scope) key _ hub.subscriptions h)

store_self :
    (key : Text) (ids : List ℕ) (m : List (Text × List ℕ))
    → or_empty (get text_eq key (store key ids m)) ≡ ids
store_self key [] m = ap or_empty (get-delete_self text_eq-IsEquality key m)
store_self key (i ∷ ids) m = ap or_empty (get-put_self text_eq-IsEquality key (i ∷ ids) m)

store_ne :
    (key other : Text) (ids : List ℕ) (m : List (Text × List ℕ))
    → key ≢ other
    → get text_eq other (store key ids m) ≡ get text_eq other m
store_ne key other [] m h = get-delete_ne text_eq-IsEquality key other m h
store_ne key other (i ∷ ids) m h = get-put_ne text_eq-IsEquality key other (i ∷ ids) m h

module _ (id : ℕ) (key : Text) (hub : Hub) where
  without_self :
      (o : Option (List ℕ))
      → get text_eq key hub.subscriptions ≡ o
      → bucket key (without o key id hub) ≡ discard same_id id (or_empty o)
  unfolding bucket discard
  without_self none e = ap or_empty e
  without_self (some ids) e = store_self key (discard same_id id ids) hub.subscriptions

  without_ne :
      (o : Option (List ℕ)) (other : Text)
      → key ≢ other
      → bucket other (without o key id hub) ≡ bucket other hub
  unfolding bucket
  without_ne none other h = refl
  without_ne (some ids) other h =
      ap or_empty (store_ne key other (discard same_id id ids) hub.subscriptions h)

module _ (id : ℕ) (channel scope : Text) (hub : Hub) where
  pub bucket-unsubscribe_self :
      bucket (channel_key channel scope) (unsubscribe id channel scope hub)
      ≡ discard same_id id (bucket (channel_key channel scope) hub)
  unfolding unsubscribe bucket
  bucket-unsubscribe_self = without_self id (channel_key channel scope) hub _ refl

  pub bucket-unsubscribe_ne :
      (key : Text)
      → channel_key channel scope ≢ key
      → bucket key (unsubscribe id channel scope hub) ≡ bucket key hub
  unfolding unsubscribe
  bucket-unsubscribe_ne key h = without_ne id (channel_key channel scope) hub _ key h

everywhere :
    (id : ℕ) (key : Text) (m : List (Text × List ℕ))
    → or_empty (get text_eq key (discard_everywhere id m))
      ≡ discard same_id id (or_empty (get text_eq key m))
unfolding discard_everywhere get discard
everywhere id key [] = refl
everywhere id key (e ∷ m) = elim (Bool-cases (text_eq e.0 key)) [
  | inl t ↦ rw t
  | inr f ↦ rw f (everywhere id key m)
]

pub bucket-unsubscribe_all :
    (id : ℕ) (key : Text) (hub : Hub)
    → bucket key (unsubscribe_all id hub) ≡ discard same_id id (bucket key hub)
unfolding bucket unsubscribe_all
bucket-unsubscribe_all id key hub = everywhere id key hub.subscriptions

-- ===== src/Notify/Delivery.antt =====
-- Who gets a notification: exactly the registered clients with the key among their channels.
use mtdd.Prelude.{
  ℕ, ◌≡◌, ◌⊎◌, ◌↔◌, inl, inr, refl, sym, ap, ◌∙◌, subst, Bool, true, false, ◌||◌, List, [], ◌∷◌,
  Option, none, some, Bool-cases,
}
use mtdd.Js.Text.{Text, text_eq}
use mtdd.Js.Map.{get, has}
use mtdd.Js.Map.Laws.{==-IsEquality}
use mtdd.Notify.{
  Hub, Client, Notification, same_id, channel_key, dispatch_to_logical_client, emit_to,
}
use mtdd.Notify.Transport.{bucket, publish, dispatch_all}
use mtdd.Notify.Agree.{IsConsistent}

abbrev pub Emission : Type 0
Emission = ℕ × Notification

abbrev pub Among : Emission → List Emission → Type 0
Among x [] = ⊥
Among x (e ∷ emitted) = (x ≡ e) ⊎ Among x emitted

abbrev pub emission : Option Client → Notification → List Emission → List Emission
emission none n emitted = emitted
emission (some c) n emitted = (c.target, n) ∷ emitted

abbrev pub emissions : List ℕ → List (ℕ × Client) → Notification → List Emission → List Emission
emissions [] clients n emitted = emitted
emissions (id ∷ ids) clients n emitted =
    emissions ids clients n (emission (get same_id id clients) n emitted)

emit_to_lem :
    (o : Option Client) (n : Notification) (hub : Hub)
    → emit_to o n hub ≡ record hub { emitted = emission o n hub.emitted }
emit_to_lem none n hub = refl
emit_to_lem (some c) n hub = refl

pub dispatch_all_lem :
    (ids : List ℕ) (n : Notification) (hub : Hub)
    → dispatch_all ids n hub ≡ record hub { emitted = emissions ids hub.clients n hub.emitted }
unfolding dispatch_all dispatch_to_logical_client
dispatch_all_lem [] n hub = refl
dispatch_all_lem (id ∷ ids) n hub =
    ap (dispatch_all ids n) (emit_to_lem (get same_id id hub.clients) n hub)
    ∙ dispatch_all_lem ids n
        (record hub { emitted = emission (get same_id id hub.clients) n hub.emitted })

later : (a b : Bool) → a ≡ false → (a || b) ≡ true → b ≡ true
later true b e h = cc
later false b e h = h

or_right : (a b : Bool) → b ≡ true → (a || b) ≡ true
or_right true b h = refl
or_right false b h = h

-- What was emitted stays.
emission-kept :
    (o : Option Client) (n : Notification) (x : Emission) (emitted : List Emission)
    → Among x emitted
    → Among x (emission o n emitted)
emission-kept none n x emitted h = h
emission-kept (some c) n x emitted h = inr h

module _ (clients : List (ℕ × Client)) (n : Notification) where
  emissions-kept :
      (ids : List ℕ) (x : Emission) (emitted : List Emission)
      → Among x emitted
      → Among x (emissions ids clients n emitted)
  emissions-kept [] x emitted h = h
  emissions-kept (id ∷ ids) x emitted h =
      emissions-kept ids x _ (emission-kept (get same_id id clients) n x emitted h)

  module _ (id : ℕ) (c : Client) (there : get same_id id clients ≡ some c) where
    pub emissions-reach :
        (ids : List ℕ) (emitted : List Emission)
        → has same_id id ids ≡ true
        → Among (c.target, n) (emissions ids clients n emitted)
    unfolding has
    emissions-reach [] emitted h = cc
    emissions-reach (j ∷ ids) emitted h = elim (Bool-cases (same_id j id)) [
      | inl e ↦
          let here : get same_id j clients ≡ some c = rw (==-IsEquality.sound j id e) there in
          emissions-kept ids (c.target, n) _
            (subst (λ o. Among (c.target, n) (emission o n emitted)) (sym here) (inl refl))
      | inr e ↦ emissions-reach ids _ (later (same_id j id) (has same_id id ids) e h)
    ]

-- The emission is to a registered client that the list of ids names.
abbrev Named : List (ℕ × Client) → List ℕ → Notification → Emission → Type 0
Named clients ids n x =
    (id : ℕ) × (c : Client) × (get same_id id clients ≡ some c)
    × (has same_id id ids ≡ true)
    × (x ≡ (c.target, n))

module _ (clients : List (ℕ × Client)) (n : Notification) (x : Emission) where
  emission-only :
      (j : ℕ) (ids : List ℕ) (o : Option Client) (emitted : List Emission)
      → get same_id j clients ≡ o
      → Among x (emission o n emitted)
      → Among x emitted ⊎ Named clients (j ∷ ids) n x
  unfolding has
  emission-only j ids none emitted e h = inl h
  emission-only j ids (some c) emitted e (inl h) = inr (j, c, e, rw (==-IsEquality.self j) refl, h)
  emission-only j ids (some c) emitted e (inr h) = inl h

  wider : (j : ℕ) (ids : List ℕ) → Named clients ids n x → Named clients (j ∷ ids) n x
  unfolding has
  wider j ids (id, c, there, named, same) =
      (id, c, there, or_right (same_id j id) (has same_id id ids) named, same)

  emissions-only :
      (ids : List ℕ) (emitted : List Emission)
      → Among x (emissions ids clients n emitted)
      → Among x emitted ⊎ Named clients ids n x
  emissions-only [] emitted h = inl h
  emissions-only (j ∷ ids) emitted h = elim (emissions-only ids _ h) [
    | inl before ↦ emission-only j ids (get same_id j clients) emitted refl before
    | inr named ↦ inr (wider j ids named)
  ]

-- The notification of a publication.
abbrev pub note : Text → Text → Notification
note channel payload = record { process_id = 0; channel = channel; payload = payload }

-- A registered client with this key among its channels, and the emission to it.
abbrev pub Subscribed : Text → Notification → Hub → Emission → Type 0
Subscribed key n hub x =
    (id : ℕ) × (c : Client) × (get same_id id hub.clients ≡ some c)
    × (has text_eq key c.channels ≡ true)
    × (x ≡ (c.target, n))

module _ (channel payload scope : Text) (hub : Hub) (k : IsConsistent hub) where
  abbrev names : List ℕ
  names = bucket (channel_key channel scope) hub

  emitted_lem :
      (publish channel payload scope hub).emitted
      ≡ emissions names hub.clients (note channel payload) hub.emitted
  unfolding publish
  emitted_lem = ap (λ h. h.emitted) (dispatch_all_lem names (note channel payload) hub)

  subscribed :
      (x : Emission)
      → Named hub.clients names (note channel payload) x
      → Subscribed (channel_key channel scope) (note channel payload) hub x
  subscribed x (id, c, there, named, same) =
      (id, c, there, k.agree id c (channel_key channel scope) there ∙ named, same)

  publish-only :
      (x : Emission)
      → Among x (publish channel payload scope hub).emitted
      → Among x hub.emitted ⊎ Subscribed (channel_key channel scope) (note channel payload) hub x
  publish-only x h =
      elim (emissions-only hub.clients (note channel payload) x names hub.emitted
        (subst (Among x) emitted_lem h)) [
          | inl before ↦ inl before
          | inr named ↦ inr (subscribed x named)
        ]

  publish-reach :
      (x : Emission)
      → Among x hub.emitted ⊎ Subscribed (channel_key channel scope) (note channel payload) hub x
      → Among x (publish channel payload scope hub).emitted
  publish-reach x (inl before) =
      subst (Among x) (sym emitted_lem)
        (emissions-kept hub.clients (note channel payload) names x hub.emitted before)
  publish-reach x (inr (id, c, there, member, same)) =
      let named : has same_id id names ≡ true =
        sym (k.agree id c (channel_key channel scope) there) ∙ member in
      subst (λ y. Among y (publish channel payload scope hub).emitted) (sym same)
        (subst (Among (c.target, note channel payload)) (sym emitted_lem)
          (emissions-reach hub.clients (note channel payload) id c there names hub.emitted named))

  -- While the registry and the transport agree, a publication emits its notification to the
  -- registered clients that have its key, made of its scope and channel, among their channels, to
  -- each of them and to no other; what was emitted before stays.
  pub publish_iff :
      (x : Emission)
      → Among x (publish channel payload scope hub).emitted ↔ (
          Among x hub.emitted ⊎ Subscribed (channel_key channel scope) (note channel payload) hub x)
  publish_iff x = (publish-only x, publish-reach x)

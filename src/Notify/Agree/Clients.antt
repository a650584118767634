-- ===== src/Notify/Agree/Clients.antt =====
-- Agreement of the registry and the transport when a client gets its id, when it is removed, and
-- when notifications are emitted.
use mtdd.Prelude.{
  ℕ, suc, ◌≤◌, ◌<◌, ◌≡◌, ◌≢◌, sym, ap, ◌∙◌, subst, List, [], ◌∷◌, Option, none, some, Option-cases,
  inl, inr, arith,
}
use mtdd.Js.Text.{Text, text_eq}
use mtdd.Js.Map.{get, delete, has}
use mtdd.Js.Map.Laws.{
  ==-IsEquality, same-cases, get-put_self, get-put_ne, get-delete_self, get-delete_ne,
}
use mtdd.Notify.{
  Hub, Client, Notification, same_id, new_client, known_client, get_logical_client_id, removed,
  emit_to, dispatch_to_logical_client,
}
use mtdd.Notify.Transport.{bucket, dispatch_all}
use mtdd.Notify.Agree.{IsConsistent, listening}

some_inj : {A : Type 0} {a b : A} → some a ≡ some b → a ≡ b
some_inj h = cc

fresh_client : ℕ → Client
fresh_client target = record { target = target; channels = [] }

module _ (target : ℕ) (hub : Hub) (k : IsConsistent hub)
    (new : get same_id target hub.ids ≡ none) where
  abbrev joined : Hub
  joined = (new_client target hub).1

  client_self : get same_id hub.next_id joined.clients ≡ some (fresh_client target)
  unfolding fresh_client
  client_self = get-put_self ==-IsEquality hub.next_id _ hub.clients

  client_ne : (j : ℕ) → hub.next_id ≢ j → get same_id j joined.clients ≡ get same_id j hub.clients
  client_ne j ne = get-put_ne ==-IsEquality hub.next_id j _ hub.clients ne

  id_self : get same_id target joined.ids ≡ some hub.next_id
  id_self = get-put_self ==-IsEquality target hub.next_id hub.ids

  id_ne : (t : ℕ) → target ≢ t → get same_id t joined.ids ≡ get same_id t hub.ids
  id_ne t ne = get-put_ne ==-IsEquality target t hub.next_id hub.ids ne

  fresh_agree :
      (c : Client) (key : Text)
      → get same_id hub.next_id joined.clients ≡ some c
      → has text_eq key c.channels ≡ listening hub.next_id key hub
  unfolding has fresh_client
  fresh_agree c key h =
      let same : fresh_client target ≡ c = some_inj (sym client_self ∙ h) in
      ap (λ d. has text_eq key d.channels) (sym same) ∙ sym (k.silent hub.next_id key (omega arith))

  -- an id that was given before is not the new one
  given : (t j : ℕ) → get same_id t hub.ids ≡ some j → hub.next_id ≢ j
  given t j h e = let lt : j < hub.next_id = k.issued t j h in omega arith

  newest_target :
      (j : ℕ) (c : Client)
      → hub.next_id ≡ j
      → get same_id j joined.clients ≡ some c
      → c.target ≡ target
  unfolding fresh_client
  newest_target j c e g =
      let at_next = subst (λ i. get same_id i joined.clients ≡ some c) (sym e) g in
      let same : fresh_client target ≡ c = some_inj (sym client_self ∙ at_next) in
      ap (λ d. d.target) (sym same)

  joined_owner :
      (t j : ℕ) (c : Client)
      → get same_id t joined.ids ≡ some j
      → get same_id j joined.clients ≡ some c
      → c.target ≡ t
  unfolding fresh_client
  joined_owner t j c h g = elim (same-cases ==-IsEquality target t) [
    | inl e ↦
        let at_target = subst (λ u. get same_id u joined.ids ≡ some j) (sym e) h in
        newest_target j c (some_inj (sym id_self ∙ at_target)) g ∙ e
    | inr ne ↦
        let old = sym (id_ne t ne) ∙ h in k.owner t j c old (sym (client_ne j (given t j old)) ∙ g)
  ]

  joined_issued : (t j : ℕ) → get same_id t joined.ids ≡ some j → j < joined.next_id
  joined_issued t j h = elim (same-cases ==-IsEquality target t) [
    | inl e ↦
        let at_target = subst (λ u. get same_id u joined.ids ≡ some j) (sym e) h in
        let same : hub.next_id ≡ j = some_inj (sym id_self ∙ at_target) in omega arith
    | inr ne ↦ let lt : j < hub.next_id = k.issued t j (sym (id_ne t ne) ∙ h) in omega arith
  ]

  later : (j : ℕ) → suc hub.next_id ≤ j → hub.next_id ≢ j
  later j h e = omega arith

  joined-IsConsistent : IsConsistent joined
  unfolding bucket
  joined-IsConsistent = record {
    agree = λ j c key h. elim (same-cases ==-IsEquality hub.next_id j) [
      | inl e ↦
          subst
            (λ i.
              get same_id i joined.clients ≡ some c
              → has text_eq key c.channels ≡ listening i key hub)
            e (fresh_agree c key) h
      | inr ne ↦ k.agree j c key (sym (client_ne j ne) ∙ h)
    ];
    owner = joined_owner;
    issued = joined_issued;
    unused = λ j h. client_ne j (later j h) ∙ k.unused j (omega arith);
    silent = λ j key h. k.silent j key (omega arith);
  }

-- The hub after a target has been given an id, or had one.
pub record IsNamed (target : ℕ) (found : ℕ × Hub) : Type 0 where
  pub consistent : IsConsistent found.1
  pub id : get same_id target found.1.ids ≡ some found.0

pub get_logical_client_id-IsNamed :
    (target : ℕ) (hub : Hub) → IsConsistent hub → IsNamed target (get_logical_client_id target hub)
unfolding get_logical_client_id
get_logical_client_id-IsNamed target hub k = elim (Option-cases (get same_id target hub.ids)) [
  | inl new ↦
      subst (λ o. IsNamed target (known_client o target hub)) (sym new)
        (record {
          consistent = joined-IsConsistent target hub k new;
          id = id_self target hub k new;
        })
  | inr (id, old) ↦
      subst (λ o. IsNamed target (known_client o target hub)) (sym old)
        (record { consistent = k; id = old })
]

module _ (id j : ℕ) (hub : Hub) where
  not_removed :
      (c : Client)
      → get same_id j (delete same_id id hub.clients) ≡ some c
      → get same_id j hub.clients ≡ some c
  not_removed c h = elim (same-cases ==-IsEquality id j) [
    | inl e ↦
        let at_id = subst (λ i. get same_id i (delete same_id id hub.clients) ≡ some c) (sym e) h in
        let gone : none ≡ some c = sym (get-delete_self ==-IsEquality id hub.clients) ∙ at_id in cc
    | inr ne ↦ sym (get-delete_ne ==-IsEquality id j hub.clients ne) ∙ h
  ]

  removed_unused :
      get same_id j hub.clients ≡ none → get same_id j (delete same_id id hub.clients) ≡ none
  removed_unused h = elim (same-cases ==-IsEquality id j) [
    | inl e ↦
        subst (λ i. get same_id i (delete same_id id hub.clients) ≡ none) e
          (get-delete_self ==-IsEquality id hub.clients)
    | inr ne ↦ get-delete_ne ==-IsEquality id j hub.clients ne ∙ h
  ]

pub removed-IsConsistent :
    (o : Option ℕ) (hub : Hub) → IsConsistent hub → IsConsistent (removed o hub)
unfolding bucket
removed-IsConsistent none hub k = k
removed-IsConsistent (some id) hub k = record {
  agree = λ j c key h. k.agree j c key (not_removed id j hub c h);
  owner = λ t j c h g. k.owner t j c h (not_removed id j hub c g);
  issued = k.issued;
  unused = λ j h. removed_unused id j hub (k.unused j h);
  silent = k.silent;
}

emit_to-IsConsistent :
    (o : Option Client) (n : Notification) (hub : Hub)
    → IsConsistent hub
    → IsConsistent (emit_to o n hub)
unfolding bucket
emit_to-IsConsistent none n hub k = k
emit_to-IsConsistent (some c) n hub k = record {
  agree = k.agree;
  owner = k.owner;
  issued = k.issued;
  unused = k.unused;
  silent = k.silent;
}

pub dispatch_all-IsConsistent :
    (ids : List ℕ) (n : Notification) (hub : Hub)
    → IsConsistent hub
    → IsConsistent (dispatch_all ids n hub)
unfolding dispatch_all dispatch_to_logical_client
dispatch_all-IsConsistent [] n hub k = k
dispatch_all-IsConsistent (id ∷ ids) n hub k =
    dispatch_all-IsConsistent ids n _ (emit_to-IsConsistent (get same_id id hub.clients) n hub k)

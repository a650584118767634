-- ===== src/Notify/Agree/Handled.antt =====
-- Agreement of the registry and the transport after a command and after a teardown.
use mtdd.Prelude.{
  ℕ, ◌≤◌, ◌<◌, ◌≡◌, ◌≢◌, sym, ap, ◌∙◌, subst, false, List, none, some, Option-cases, inl, inr,
  arith,
}
use mtdd.Js.Text.{Text, text_eq}
use mtdd.Js.Map.{get, put, has}
use mtdd.Js.Map.Laws.{==-IsEquality, same-cases, get-put_self, get-put_ne}
use mtdd.Notify.{Hub, Client, same_id, change_channels, changed_client}
use mtdd.Notify.Transport.{bucket}
use mtdd.Notify.Agree.{IsConsistent, Moves, listening}

some_inj : {A : Type 0} {a b : A} → some a ≡ some b → a ≡ b
some_inj h = cc

module _ (id : ℕ) (f : List Text → List Text) (hub after : Hub) (m : Moves id f hub after)
    (k : IsConsistent hub) (lt : id < hub.next_id) where
  others_agree :
      (j : ℕ) (c : Client) (key : Text)
      → id ≢ j
      → get same_id j after.clients ≡ some c
      → has text_eq key c.channels ≡ listening j key after
  others_agree j c key ne h = k.agree j c key (rw⁻¹ m.clients h) ∙ sym (m.others j key ne)

  still_issued : (t j : ℕ) → get same_id t after.ids ≡ some j → j < after.next_id
  still_issued t j h = rw m.next (k.issued t j (rw⁻¹ m.ids h))

  still_unused : (j : ℕ) → after.next_id ≤ j → get same_id j after.clients ≡ none
  still_unused j h = rw m.clients (k.unused j (rw⁻¹ m.next h))

  still_silent : (j : ℕ) (key : Text) → after.next_id ≤ j → listening j key after ≡ false
  still_silent j key h =
      let next : after.next_id ≡ hub.next_id = m.next in
      m.others j key (λ e. absurd (beyond e next h)) ∙ k.silent j key (rw⁻¹ m.next h)
    where
      beyond : id ≡ j → after.next_id ≡ hub.next_id → after.next_id ≤ j → ⊥
      beyond e n g = omega arith

  -- an unregistered client
  pub not_registered : get same_id id after.clients ≡ none → IsConsistent after
  not_registered gone = record {
    agree = λ j c key h. elim (same-cases ==-IsEquality id j) [
      | inl e ↦ let some_none : none ≡ some c = sym gone ∙ (rw e h) in cc
      | inr ne ↦ others_agree j c key ne h
    ];
    owner = λ t j c h g. k.owner t j c (rw⁻¹ m.ids h) (rw⁻¹ m.clients g);
    issued = still_issued;
    unused = still_unused;
    silent = still_silent;
  }

  module _ (c : Client) (there : get same_id id after.clients ≡ some c) where
    abbrev changed : Hub
    changed = record after {
      clients = put same_id id (record c { channels = f c.channels }) after.clients;
    }

    changed_self : get same_id id changed.clients ≡ some (record c { channels = f c.channels })
    changed_self = get-put_self ==-IsEquality id _ after.clients

    changed_ne : (j : ℕ) → id ≢ j → get same_id j changed.clients ≡ get same_id j after.clients
    changed_ne j ne = get-put_ne ==-IsEquality id j _ after.clients ne

    own_agree :
        (d : Client) (key : Text)
        → get same_id id changed.clients ≡ some d
        → has text_eq key d.channels ≡ listening id key after
    own_agree d key h =
        let same : record c { channels = f c.channels } ≡ d = some_inj (sym changed_self ∙ h) in
        rw⁻¹ same (m.own c.channels key (k.agree id c key (rw⁻¹ m.clients there)))

    own_target :
        (t : ℕ) (d : Client)
        → get same_id t after.ids ≡ some id
        → get same_id id changed.clients ≡ some d
        → d.target ≡ t
    own_target t d h g =
        let same : record c { channels = f c.channels } ≡ d = some_inj (sym changed_self ∙ g) in
        ap (λ e. e.target) (sym same) ∙ k.owner t id c (rw⁻¹ m.ids h) (rw⁻¹ m.clients there)

    other_than : (j : ℕ) → after.next_id ≤ j → id ≢ j
    other_than j h e = let next : after.next_id ≡ hub.next_id = m.next in omega arith

    registered : IsConsistent changed
    unfolding bucket
    registered = record {
      agree = λ j d key h. elim (same-cases ==-IsEquality id j) [
        | inl e ↦
            subst
              (λ i.
                get same_id i changed.clients ≡ some d
                → has text_eq key d.channels ≡ listening i key after)
              e (own_agree d key) h
        | inr ne ↦ others_agree j d key ne (sym (changed_ne j ne) ∙ h)
      ];
      owner = λ t j d h g. elim (same-cases ==-IsEquality id j) [
        | inl e ↦
            subst
              (λ i.
                get same_id t after.ids ≡ some i
                → get same_id i changed.clients ≡ some d
                → d.target ≡ t)
              e (own_target t d) h g
        | inr ne ↦ k.owner t j d (rw⁻¹ m.ids h) (rw⁻¹ m.clients (sym (changed_ne j ne) ∙ g))
      ];
      issued = still_issued;
      unused = λ j h. changed_ne j (other_than j h) ∙ still_unused j h;
      silent = still_silent;
    }

  pub Moves-IsConsistent : IsConsistent (change_channels f id after)
  unfolding change_channels
  Moves-IsConsistent = elim (Option-cases (get same_id id after.clients)) [
    | inl gone ↦
        subst (λ o. IsConsistent (changed_client f id after o)) (sym gone) (not_registered gone)
    | inr (c, there) ↦
        subst (λ o. IsConsistent (changed_client f id after o)) (sym there) (registered c there)
  ]

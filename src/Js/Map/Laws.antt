-- ===== src/Js/Map/Laws.antt =====
-- Lookups in a `Map` or a `Set` after a change, for a test of the keys that is equality.
use mtdd.Prelude.{
  ℕ, ◌≡◌, ◌≢◌, ◌⊎◌, refl, ap, Bool, true, false, ◌||◌, List, [], ◌∷◌, ◌++◌, none, some,
  if◌then◌else◌, Bool-cases, inl, inr, ◌==◌, ==_iff,
}
use mtdd.Js.Text.{text_eq}
use mtdd.Js.Text.Laws.{text_eq_sound, text_eq_self}
use mtdd.Js.Map.{Test, get, put, delete, has, add, discard}

pub record IsEquality {K : Type 0} (same : Test K) : Type 0 where
  pub sound : (a b : K) → same a b ≡ true → a ≡ b
  pub self : (a : K) → same a a ≡ true

pub text_eq-IsEquality : IsEquality text_eq
text_eq-IsEquality = record { sound = text_eq_sound; self = text_eq_self }

pub ==-IsEquality : IsEquality (λ (a b : ℕ). a == b)
==-IsEquality = record { sound = λ a b. (==_iff a b).0; self = λ a. (==_iff a a).1 refl }

or_false : (b : Bool) → (b || false) ≡ b
or_false true = refl
or_false false = refl

module _ {K : Type 0} {same : Test K} (eq : IsEquality same) where
  pub differs : (a b : K) → a ≢ b → same a b ≡ false
  differs a b h = elim (Bool-cases (same a b)) [ inl e ↦ absurd (h (eq.sound a b e)) | inr e ↦ e ]

  pub same-cases : (a b : K) → (a ≡ b) ⊎ (a ≢ b)
  same-cases a b = elim (Bool-cases (same a b)) [
    | inl e ↦ inl (eq.sound a b e)
    | inr e ↦ inr (λ p. let other : same a b ≡ true = rw p (eq.self b) in cc)
  ]

  moved : (x k j : K) → same x k ≡ true → k ≢ j → same x j ≡ false
  moved x k j e h = rw (eq.sound x k e) (differs k j h)

  has-end : (j k : K) (set : List K) → has same j (set ++ k ∷ []) ≡ (has same j set || same k j)
  unfolding has
  has-end j k [] = elim (Bool-cases (same k j)) [ inl e ↦ rw e | inr e ↦ rw e ]
  has-end j k (x ∷ set) = elim (Bool-cases (same x j)) [
    | inl e ↦ rw e
    | inr e ↦ rw e (has-end j k set)
  ]

  pub has-add_self : (k : K) (set : List K) → has same k (add same k set) ≡ true
  unfolding add has
  has-add_self k set = elim (Bool-cases (has same k set)) [
    | inl e ↦ rw e e
    | inr e ↦ rw (e, has-end k k set, e) (eq.self k)
  ]

  pub has-add_ne : (k j : K) (set : List K) → k ≢ j → has same j (add same k set) ≡ has same j set
  unfolding add has
  has-add_ne k j set h = elim (Bool-cases (has same k set)) [
    | inl e ↦ rw e
    | inr e ↦ rw (e, has-end j k set, differs k j h) (or_false (has same j set))
  ]

  pub has-discard_self : (k : K) (set : List K) → has same k (discard same k set) ≡ false
  unfolding discard has
  has-discard_self k [] = refl
  has-discard_self k (x ∷ set) = elim (Bool-cases (same x k)) [
    | inl e ↦ rw e (has-discard_self k set)
    | inr e ↦ rw e (rw e (has-discard_self k set))
  ]

  pub has-discard_ne :
      (k j : K) (set : List K) → k ≢ j → has same j (discard same k set) ≡ has same j set
  unfolding discard has
  has-discard_ne k j [] h = refl
  has-discard_ne k j (x ∷ set) h = elim (Bool-cases (same x k)) [
    | inl e ↦ rw (e, moved x k j e h) (has-discard_ne k j set h)
    | inr e ↦ rw e (ap (λ b. same x j || b) (has-discard_ne k j set h))
  ]

  module _ {V : Type 0} where
    pub get-put_self : (k : K) (v : V) (map : List (K × V)) → get same k (put same k v map) ≡ some v
    unfolding get put
    get-put_self k v [] = rw (eq.self k)
    get-put_self k v (e ∷ map) = elim (Bool-cases (same e.0 k)) [
      | inl t ↦ rw t (rw t refl)
      | inr f ↦ rw f (rw f (get-put_self k v map))
    ]

    pub get-put_ne :
        (k j : K) (v : V) (map : List (K × V))
        → k ≢ j
        → get same j (put same k v map) ≡ get same j map
    unfolding get put
    get-put_ne k j v [] h = rw (differs k j h)
    get-put_ne k j v (e ∷ map) h = elim (Bool-cases (same e.0 k)) [
      | inl t ↦ rw (t, moved e.0 k j t h)
      | inr f ↦ rw f (ap (λ o. if same e.0 j then some e.1 else o) (get-put_ne k j v map h))
    ]

    pub get-delete_self : (k : K) (map : List (K × V)) → get same k (delete same k map) ≡ none
    unfolding get delete
    get-delete_self k [] = refl
    get-delete_self k (e ∷ map) = elim (Bool-cases (same e.0 k)) [
      | inl t ↦ rw t (get-delete_self k map)
      | inr f ↦ rw f (rw f (get-delete_self k map))
    ]

    pub get-delete_ne :
        (k j : K) (map : List (K × V)) → k ≢ j → get same j (delete same k map) ≡ get same j map
    unfolding get delete
    get-delete_ne k j [] h = refl
    get-delete_ne k j (e ∷ map) h = elim (Bool-cases (same e.0 k)) [
      | inl t ↦ rw (t, moved e.0 k j t h) (get-delete_ne k j map h)
      | inr f ↦ rw f (ap (λ o. if same e.0 j then some e.1 else o) (get-delete_ne k j map h))
    ]

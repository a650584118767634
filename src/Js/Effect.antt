-- ===== src/Js/Effect.antt =====
-- Methods that change an object and may throw. What was changed before a throw stays changed, so
-- the state comes back beside the error too.
pub mod Hoare

pub data Result {ℓ κ} (E : Type ℓ) (A : Type κ) : Type (ℓ ⊔ κ) where
  ok : A → Result E A
  err : E → Result E A

abbrev pub Effect : Type 0 → Type 0 → Type 0 → Type 0
Effect S E A = S → Result E A × S

module _ {S E A : Type 0} where
  pub pure : A → Effect S E A
  pure a s = (ok a, s)

  pub throw : E → Effect S E A
  throw e s = (err e, s)

  pub lift : Result E A → Effect S E A
  lift r s = (r, s)

  pub gets : (S → A) → Effect S E A
  gets f s = (ok (f s), s)

module _ {S E : Type 0} where
  pub modify : (S → S) → Effect S E (Unit {0})
  modify f s = (ok tt, f s)

module _ {S E A B : Type 0} where
  abbrev pub resume : Result E A → (A → Effect S E B) → Effect S E B
  resume (err thrown) next after = (err thrown, after)
  resume (ok value) next after = next value after

  infixl 10 ◌>>=◌ ◌>>◌
  -- opening this opens the other actions too
  unfoldable pub ◌>>=◌ : Effect S E A → (A → Effect S E B) → Effect S E B
  unfolding pure throw lift gets modify
  ◌>>=◌ first next before = resume (first before).0 next (first before).1

  abbrev pub ◌>>◌ : Effect S E A → Effect S E B → Effect S E B
  first >> second = first >>= λ _. second

module _ {S E A : Type 0} where
  -- `try { … } catch (err) { … }`
  abbrev pub handle : Result E A → (E → Effect S E A) → Effect S E A
  handle (ok a) h s = (ok a, s)
  handle (err e) h s = h e s

  unfoldable pub catch : Effect S E A → (E → Effect S E A) → Effect S E A
  catch m h s = handle (m s).0 h (m s).1

-- ===== src/Js/Effect/Hoare.antt =====
-- Invariants of methods: what a method keeps, whether it returns or throws, and what is true of a
-- value that it returns.
use mtdd.Prelude.{◌≡◌, refl, Bool, true, false, if◌then◌else◌}
use mtdd.Js.Effect.{Result, ok, err, Effect, pure, throw, lift, gets, modify, ◌>>=◌, ◌>>◌, catch}

abbrev pub Returns : {S E A : Type 0} → (S → Type 0) → (A → Type 0) → Result E A × S → Type 0
Returns P Q (ok a, s) = Q a × P s
Returns P Q (err e, s) = P s

abbrev pub Any : {A : Type 0} → A → Type 0
Any a = Unit

pub record Hoare {S E A : Type 0} (P : S → Type 0) (Q : A → Type 0) (m : Effect S E A)
    : Type 0 where
  pub at : (s : S) → P s → Returns P Q (m s)

module _ {S E A : Type 0} {P : S → Type 0} {Q : A → Type 0} where
  pub Hoare-pure : (a : A) → Q a → Hoare {E = E} P Q (pure a)
  unfolding pure
  Hoare-pure a q = record { at = λ s h. (q, h) }

  pub Hoare-throw : (e : E) → Hoare P Q (throw e)
  unfolding throw
  Hoare-throw e = record { at = λ s h. h }

  pub Hoare-lift : (r : Result E A) → ((a : A) → r ≡ ok a → Q a) → Hoare P Q (lift r)
  unfolding lift
  Hoare-lift (ok a) q = record { at = λ s h. (q a refl, h) }
  Hoare-lift (err e) q = record { at = λ s h. h }

  pub Hoare-gets : (f : S → A) → ((s : S) → P s → Q (f s)) → Hoare {E = E} P Q (gets f)
  unfolding gets
  Hoare-gets f q = record { at = λ s h. (q s h, h) }

  pub Hoare-if :
      (b : Bool) {m n : Effect S E A} → Hoare P Q m → Hoare P Q n → Hoare P Q (if b then m else n)
  Hoare-if true hm hn = hm
  Hoare-if false hm hn = hn

module _ {S E : Type 0} {P : S → Type 0} where
  pub Hoare-modify : (f : S → S) → ((s : S) → P s → P (f s)) → Hoare {E = E} P Any (modify f)
  unfolding modify
  Hoare-modify f k = record { at = λ s h. (tt, k s h) }

module _ {S E A : Type 0} (P : S → Type 0) (Q : A → Type 0) where
  Returns-Any : (r : Result E A × S) → Returns P Q r → Returns P Any r
  Returns-Any (ok a, s) h = (tt, h.1)
  Returns-Any (err e, s) h = h

module _ {S E A : Type 0} {P : S → Type 0} {Q : A → Type 0} where
  pub Hoare-Any : {m : Effect S E A} → Hoare P Q m → Hoare P Any m
  Hoare-Any {m} h = record { at = λ s p. Returns-Any P Q (m s) (h.at s p) }

  handle_keeps :
      (r : Result E A × S) (h : E → Effect S E A)
      → Returns P Q r
      → ((e : E) → Hoare P Q (h e))
      → Returns P Q (catch (λ _. r) h r.1)
  unfolding catch
  handle_keeps (ok a, s) h p k = p
  handle_keeps (err e, s) h p k = (k e).at s p

  pub Hoare-catch :
      {m : Effect S E A} (h : E → Effect S E A)
      → Hoare P Q m
      → ((e : E) → Hoare P Q (h e))
      → Hoare P Q (catch m h)
  unfolding catch
  Hoare-catch {m} h hm k = record { at = λ s p. handle_keeps (m s) h (hm.at s p) k }

module _ {S E A B : Type 0} {P : S → Type 0} {Q : A → Type 0} {R : B → Type 0} where
  bind_keeps :
      (r : Result E A × S) (f : A → Effect S E B)
      → Returns P Q r
      → ((a : A) → Q a → Hoare P R (f a))
      → Returns P R (((λ _. r) >>= f) r.1)
  unfolding ◌>>=◌
  bind_keeps (ok a, s) f p k = (k a p.0).at s p.1
  bind_keeps (err e, s) f p k = p

  pub Hoare-bind :
      {m : Effect S E A} {f : A → Effect S E B}
      → Hoare P Q m
      → ((a : A) → Q a → Hoare P R (f a))
      → Hoare P R (m >>= f)
  unfolding ◌>>=◌
  Hoare-bind {m} {f} hm k = record { at = λ s p. bind_keeps (m s) f (hm.at s p) k }

module _ {S E A B : Type 0} {P : S → Type 0} {R : B → Type 0} where
  -- The rule where nothing is used of the value.
  pub Hoare-seq :
      {m : Effect S E A} {f : A → Effect S E B}
      → Hoare P Any m
      → ((a : A) → Hoare P R (f a))
      → Hoare P R (m >>= f)
  Hoare-seq hm k = Hoare-bind hm (λ a _. k a)

  pub Hoare-then :
      {m : Effect S E A} {n : Effect S E B} → Hoare P Any m → Hoare P R n → Hoare P R (m >> n)
  Hoare-then hm hn = Hoare-seq hm (λ _. hn)

  pub Hoare-get :
      (g : S → A) {f : A → Effect S E B} → ((a : A) → Hoare P R (f a)) → Hoare P R (gets g >>= f)
  Hoare-get g k = Hoare-bind {Q = Any} (Hoare-gets _ (λ s h. tt)) (λ a _. k a)

module _ {S E A : Type 0} {P : S → Type 0} where
  pub Hoare-pure-Any : (a : A) → Hoare {E = E} P Any (pure a)
  Hoare-pure-Any a = Hoare-pure a tt

  pub Hoare-lift-Any : (r : Result E A) → Hoare P Any (lift r)
  Hoare-lift-Any r = Hoare-lift r (λ a _. tt)

pub ruleset hoare_rules = (
  Hoare-pure-Any, Hoare-lift-Any, Hoare-throw, Hoare-get, Hoare-then, Hoare-seq, Hoare-if,
  Hoare-catch,
)

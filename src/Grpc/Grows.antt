-- ===== src/Grpc/Grows.antt =====
-- Methods of grpc-hub.ts that add events to the log: what holds of a value that is returned and of
-- the log behind it, from what held of the log before.
use mtdd.Prelude.{◌≡◌, refl, sym, ◌∙◌, ap, subst, List, [], ◌∷◌, ◌++◌, append_assoc}
use mtdd.Js.Effect.{Result, ok, err, pure, lift, ◌>>=◌, catch}
use mtdd.Grpc.{Failure, Event, State, Action}

abbrev pub Log : Type 0 → Type 0
Log Q = List (Event Q)

module _ {Q : Type 0} where
  abbrev pub Extends : Log Q → Log Q → Type 0
  Extends old new = (more : Log Q) × (new ≡ more ++ old)

  Extends-trans : (a b c : Log Q) → Extends a b → Extends b c → Extends a c
  Extends-trans a b c (xs, e) (ys, f) =
      (ys ++ xs, f ∙ (ap (λ log. ys ++ log) e ∙ sym (append_assoc ys xs a)))

  -- What is true of a log and of each longer one.
  abbrev pub Lasts : (Log Q → Type 0) → Type 0
  Lasts F = (e : Event Q) (log : Log Q) → F log → F (e ∷ log)

  lasts_lem : (F : Log Q → Type 0) → Lasts F → (more old : Log Q) → F old → F (more ++ old)
  lasts_lem F k [] old h = h
  lasts_lem F k (e ∷ more) old h = k e (more ++ old) (lasts_lem F k more old h)

  abbrev pub Leaves :
      {A : Type 0} → (A → Log Q → Type 0) → Log Q → Result Failure A × State Q → Type 0
  Leaves P old (ok a, s) = Extends old s.log × P a s.log
  Leaves P old (err e, s) = Extends old s.log

  pub record Grows {A : Type 0} (before : Log Q → Type 0) (P : A → Log Q → Type 0) (m : Action Q A)
      : Type 0 where
    pub at : (s : State Q) → before s.log → Leaves P s.log (m s)

  abbrev pub Anything : Log Q → Type 0
  Anything log = Unit

  module _ {A : Type 0} (P : A → Log Q → Type 0) where
    frame_lem :
        (F : Log Q → Type 0) (old : Log Q) (r : Result Failure A × State Q)
        → Lasts F
        → F old
        → Leaves P old r
        → Leaves (λ a log. P a log × F log) old r
    frame_lem F old (ok a, s) k f (grown, p) =
        (grown, (p, subst F (sym grown.1) (lasts_lem F k grown.0 old f)))
    frame_lem F old (err e, s) k f grown = grown

    handled_lem :
        (old : Log Q) (r : Result Failure A × State Q) (h : Failure → Action Q A)
        → Leaves P old r
        → ((e : Failure) → Grows Anything P (h e))
        → Leaves P old (catch (λ _. r) h r.1)
    unfolding catch
    handled_lem old (ok a, s) h l k = l
    handled_lem old (err e, s) h l k = onward ((h e) s) ((k e).at s tt)
      where
        onward : (r : Result Failure A × State Q) → Leaves P s.log r → Leaves P old r
        onward (ok a, t) m = (Extends-trans old s.log t.log l m.0, m.1)
        onward (err e, t) m = Extends-trans old s.log t.log l m

  module _ {A B : Type 0} (P : A → Log Q → Type 0) (R : B → Log Q → Type 0) where
    bound_lem :
        (old : Log Q) (r : Result Failure A × State Q) (f : A → Action Q B)
        → Leaves P old r
        → ((a : A) → Grows (P a) R (f a))
        → Leaves R old (((λ _. r) >>= f) r.1)
    unfolding ◌>>=◌
    bound_lem old (err e, s) f l k = l
    bound_lem old (ok a, s) f l k = onward (f a s) ((k a).at s l.1)
      where
        onward : (r : Result Failure B × State Q) → Leaves R s.log r → Leaves R old r
        onward (ok b, t) m = (Extends-trans old s.log t.log l.0 m.0, m.1)
        onward (err e, t) m = Extends-trans old s.log t.log l.0 m

  module _ {A : Type 0} {before : Log Q → Type 0} {P : A → Log Q → Type 0} where
    pub Grows-pure : (a : A) → ((log : Log Q) → before log → P a log) → Grows before P (pure a)
    unfolding ◌>>=◌
    Grows-pure a h = record { at = λ s b. (([], refl), h s.log b) }

    pub Grows-lift :
        (r : Result Failure A)
        → ((a : A) (log : Log Q) → r ≡ ok a → before log → P a log)
        → Grows before P (lift r)
    unfolding ◌>>=◌
    Grows-lift (ok a) h = record { at = λ s b. (([], refl), h a s.log refl b) }
    Grows-lift (err e) h = record { at = λ s b. ([], refl) }

    -- A fact that lasts is kept.
    pub Grows-frame :
        {m : Action Q A} (F : Log Q → Type 0)
        → Lasts F
        → Grows before P m
        → Grows (λ log. before log × F log) (λ a log. P a log × F log) m
    Grows-frame {m} F k h = record { at = λ s b. frame_lem P F s.log (m s) k b.1 (h.at s b.0) }

    pub Grows-from :
        {m : Action Q A} (stronger : Log Q → Type 0)
        → ((log : Log Q) → stronger log → before log)
        → Grows before P m
        → Grows stronger P m
    Grows-from stronger k h = record { at = λ s b. h.at s (k s.log b) }

    pub Grows-catch :
        {m : Action Q A} (h : Failure → Action Q A)
        → Grows before P m
        → ((e : Failure) → Grows Anything P (h e))
        → Grows before P (catch m h)
    unfolding catch
    Grows-catch {m} h hm k = record { at = λ s b. handled_lem P s.log (m s) h (hm.at s b) k }

  module _ {A B : Type 0} {before : Log Q → Type 0} {P : A → Log Q → Type 0}
      {R : B → Log Q → Type 0} where
    pub Grows-bind :
        {m : Action Q A} {f : A → Action Q B}
        → Grows before P m
        → ((a : A) → Grows (P a) R (f a))
        → Grows before R (m >>= f)
    unfolding ◌>>=◌
    Grows-bind {m} {f} hm k = record { at = λ s b. bound_lem P R s.log (m s) f (hm.at s b) k }

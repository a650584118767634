-- ===== src/Routing/FanOut/Laws.antt =====
-- The two policies of fan-out-policy.ts against each other, and what they return.
use mtdd.Prelude.{ℕ, suc, ◌≡◌, ◌↔◌, refl, ap, List, [], ◌∷◌, map, Option}
use mtdd.Js.Buffer.{JsError}
use mtdd.Js.Effect.{Result, ok, err}
use mtdd.Routing.FanOut.{
  FanOutPolicy, all, best_effort, outcome, errors_of, results_of, promise_all, present,
  best_effort_outcome, Rejection, and_then, conclude,
}

module _ {A : Type 0} where
  errors_of-ok : (n : ℕ) (values : List A) → errors_of n (map ok values) ≡ []
  unfolding errors_of
  errors_of-ok n [] = refl
  errors_of-ok n (v ∷ values) = errors_of-ok (suc n) values

  present-ok : (values : List A) → present (results_of (map ok values)) ≡ values
  unfolding results_of present
  present-ok [] = refl
  present-ok (v ∷ values) = ap (λ vs. v ∷ vs) (present-ok values)

  promise_all-ok : (values : List A) → promise_all (map ok values) ≡ ok values
  unfolding promise_all
  promise_all-ok [] = refl
  promise_all-ok (v ∷ values) = rw (promise_all-ok values)

  outcome-ok :
      (policy : FanOutPolicy) (values : List A) → outcome policy (map ok values) ≡ ok values
  unfolding outcome best_effort_outcome
  outcome-ok all values = promise_all-ok values
  outcome-ok best_effort values = rw (errors_of-ok 0 values, present-ok values)

  and_then_ok :
      (v : A) (r : Result (Rejection A) (List A)) {values : List A}
      → and_then v r ≡ ok values
      → (rest : List A) × (r ≡ ok rest) × (values ≡ v ∷ rest)
  and_then_ok v (ok rest) h = (rest, refl, cc)
  and_then_ok v (err e) h = cc

  promise_all-all_ok :
      (settled : List (Result JsError A)) (values : List A)
      → promise_all settled ≡ ok values
      → settled ≡ map ok values
  unfolding promise_all
  promise_all-all_ok [] [] h = refl
  promise_all-all_ok [] (v ∷ values) h = cc
  promise_all-all_ok (err e ∷ settled) values h = cc
  promise_all-all_ok (ok v ∷ settled) values h =
      let found = and_then_ok v (promise_all settled) h in
      rw (found.2, promise_all-all_ok settled found.0 found.1)

  errors_of-all_ok :
      (n : ℕ) (settled : List (Result JsError A))
      → errors_of n settled ≡ []
      → settled ≡ map ok (present (results_of settled))
  unfolding errors_of results_of present
  errors_of-all_ok n [] h = refl
  errors_of-all_ok n (ok v ∷ settled) h = ap (λ s. ok v ∷ s) (errors_of-all_ok (suc n) settled h)
  errors_of-all_ok n (err e ∷ settled) h = cc

  conclude_ok :
      (errors : List (ℕ × JsError)) (results : List (Option A)) {values : List A}
      → conclude errors results ≡ ok values
      → (errors ≡ []) × (values ≡ present results)
  conclude_ok [] results h = (refl, cc)
  conclude_ok (e ∷ errors) results h = cc

  best_effort-all_ok :
      (settled : List (Result JsError A)) (values : List A)
      → best_effort_outcome settled ≡ ok values
      → settled ≡ map ok values
  unfolding best_effort_outcome
  best_effort-all_ok settled values h =
      let found = conclude_ok (errors_of 0 settled) (results_of settled) h in
      rw found.1 (errors_of-all_ok 0 settled found.0)

  outcome-all_ok :
      (policy : FanOutPolicy) (settled : List (Result JsError A)) (values : List A)
      → outcome policy settled ≡ ok values
      → settled ≡ map ok values
  unfolding outcome
  outcome-all_ok all settled values h = promise_all-all_ok settled values h
  outcome-all_ok best_effort settled values h = best_effort-all_ok settled values h

  -- Under either policy a fan-out returns a list of values exactly if the tasks were all fulfilled
  -- with these values, in the order of the hosts: one failure fails it, with best_effort too.
  pub outcome_iff :
      (policy : FanOutPolicy) (settled : List (Result JsError A)) (values : List A)
      → (outcome policy settled ≡ ok values) ↔ (settled ≡ map ok values)
  outcome_iff policy settled values =
      (outcome-all_ok policy settled values, λ h. rw (h, outcome-ok policy values))

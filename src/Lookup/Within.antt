-- ===== src/Lookup/Within.antt =====
-- The index that a lookup gives is one of a host.
use mtdd.Prelude.{ℕ, ◌≡◌, ◌<◌, subst, Option, none, some, arith}
use mtdd.Prelude.Int.{ℤ, pos, negsuc}
use mtdd.Js.Effect.{Result, ok, err}
use mtdd.Js.Effect.Hoare.{
  Hoare, Returns, Any, Hoare-pure, Hoare-lift, Hoare-bind, Hoare-seq, Hoare-then,
}
use mtdd.Js.Text.{Text}
use mtdd.Js.Buffer.{JsError}
use mtdd.Lookup.{
  Env, Client, Action, assert_host_index, get_cached_host_index, set_cached_host_index,
  lookup_with_retries, resolve, lookup_host_index,
}

-- No condition on the client.
abbrev Whatever : Client → Type 0
Whatever s = Unit

unconstrained : {A : Type 0} (m : Action A) → Hoare Whatever Any m
unconstrained m = record { at = λ s h. whatever (m s) }
  where
    whatever : {A : Type 0} (r : Result JsError A × Client) → Returns Whatever Any r
    whatever (ok a, s) = (tt, tt)
    whatever (err e, s) = tt

module _ (env : Env) (tid : Text) (n : ℕ) where
  assert_host_index-lt : (z : ℤ) (i : ℕ) → assert_host_index env z n tid ≡ ok i → i < n
  unfolding assert_host_index
  assert_host_index-lt (negsuc j) i h = cc
  assert_host_index-lt (pos j) i h = ground arith

  resolve-lt : (cached : Option ℤ) → Hoare Whatever (λ i. i < n) (resolve env tid n cached)
  resolve-lt (some z) = Hoare-lift (assert_host_index env z n tid) (assert_host_index-lt z)
  resolve-lt none = Hoare-seq (unconstrained (lookup_with_retries env tid)) (λ found.
      Hoare-bind (Hoare-lift (assert_host_index env found n tid) (assert_host_index-lt found))
        (λ i lt.
          Hoare-then (unconstrained (set_cached_host_index env tid found)) (Hoare-pure i lt)))

  lookup_host_index_lt : Hoare Whatever (λ i. i < n) (lookup_host_index env tid n)
  unfolding lookup_host_index
  lookup_host_index_lt =
      Hoare-seq (unconstrained (get_cached_host_index env tid)) (λ cached. resolve-lt cached)

  returned :
      (r : Result JsError ℕ × Client)
      → Returns Whatever (λ i. i < n) r
      → (i : ℕ) → r.0 ≡ ok i
      → i < n
  returned (ok j, s) h i e = let same : j ≡ i = cc in subst (λ k. k < n) same h.0
  returned (err thrown, s) h i e = cc

  -- Whatever the service answers and whatever the cache holds, an index that is returned is below
  -- the number of the hosts.
  pub lookup_host_index-lt : (s : Client) (i : ℕ) → (lookup_host_index env tid n s).0 ≡ ok i → i < n
  lookup_host_index-lt s i h =
      returned (lookup_host_index env tid n s) (lookup_host_index_lt.at s tt) i h

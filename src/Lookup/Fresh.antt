-- ===== src/Lookup/Fresh.antt =====
-- What the cache of the lookup gives for a tid that was remembered.
use mtdd.Prelude.{
  ℕ, ◌+◌, ◌≡◌, refl, ap, ◌∙◌, List, none, some, Bool, true, false, ltb, if◌then◌else◌,
}
use mtdd.Prelude.Int.{ℤ}
use mtdd.Js.Effect.{ok, ◌>>=◌}
use mtdd.Js.Text.{Text, text_eq}
use mtdd.Js.Map.{get, put, delete}
use mtdd.Js.Map.Laws.{text_eq-IsEquality, get-put_self}
use mtdd.Lookup.{
  Env, Client, Entry, Event, Ttl, Action, unexpired, remember, get_cached_host_index,
  set_cached_host_index,
}

module _ (env : Env) (tid : Text) (i : ℤ) (ms : ℕ)
    (enabled : env.ttl ≡ ok (record { positive = true; ms = ms })) where
  -- the entry that is made in this state
  abbrev entry : Client → Entry
  entry s = record { host_index = i; expires_at = env.now s.log + ms }

  abbrev pub remembered : Client → Client
  remembered s = record s { cache = put text_eq tid (entry s) s.cache }

  set_lem : (s : Client) → set_cached_host_index env tid i s ≡ (ok tt, remembered s)
  unfolding set_cached_host_index ◌>>=◌ mtdd.Lookup.is_lookup_cache_enabled
  set_lem s = rw enabled

  get_lem :
      (s : Client) → get_cached_host_index env tid s ≡ unexpired env tid (get text_eq tid s.cache) s
  unfolding get_cached_host_index ◌>>=◌ mtdd.Lookup.is_lookup_cache_enabled
  get_lem s = rw enabled

  -- the client after other requests
  abbrev pub later : List Event → Client → Client
  later log s = record s { log = log }

  chosen :
      {A : Type 0} (b : Bool) (x y : Action A) (s : Client)
      → (if b then x else y) s ≡ (if b then x s else y s)
  chosen true x y s = refl
  chosen false x y s = refl

  expired_lem :
      (e : Entry) (s : Client)
      → unexpired env tid (some e) s ≡ (
          if ltb e.expires_at (env.now s.log)
          then (ok none, record s { cache = delete text_eq tid s.cache })
          else (ok (some e.host_index), s))
  unfolding ◌>>=◌
  expired_lem e s = chosen (ltb e.expires_at (env.now s.log)) _ _ s

  -- An index that was remembered is found, without any change, up to the time that its entry expires
  -- at, whatever was requested in between; after that time it is not, and its entry is deleted.
  pub get-set_cached_host_index :
      (s : Client) (log : List Event)
      → get_cached_host_index env tid (later log (set_cached_host_index env tid i s).1) ≡ (
          if ltb (env.now s.log + ms) (env.now log)
          then (ok none, record s { cache = delete text_eq tid (remembered s).cache; log = log })
          else (ok (some i), later log (remembered s)))
  get-set_cached_host_index s log =
      ap (λ r. get_cached_host_index env tid (later log r.1)) (set_lem s)
      ∙ (get_lem (later log (remembered s))
          ∙ (ap (λ o. unexpired env tid o (later log (remembered s)))
                (get-put_self text_eq-IsEquality tid (entry s) s.cache)
              ∙ expired_lem (entry s) (later log (remembered s))))

-- ===== src/Js/Fallible.antt =====
-- Pure functions that may throw: the `do` blocks of `Result`.
use mtdd.Prelude.{◌≡◌, refl}
use mtdd.Js.Effect.{Result, ok, err}

-- A throw of the first step is the throw of the block.
module _ {E A B : Type 0} where
  infixl 10 ◌>>=◌
  abbrev pub ◌>>=◌ : Result E A → (A → Result E B) → Result E B
  err thrown >>= next = err thrown
  ok value >>= next = next value

module _ {E A B : Type 0} (next : A → Result E B) {last : B} where
  -- What a block that returned says of its first step and of the steps behind it.
  pub bind_returned :
      (first : Result E A)
      → (first >>= next) ≡ ok last
      → (value : A) × (first ≡ ok value) × (next value ≡ ok last)
  bind_returned (err thrown) returned = cc
  bind_returned (ok value) returned = (value, refl, returned)

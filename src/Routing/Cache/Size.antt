-- ===== src/Routing/Cache/Size.antt =====
-- The size of the cache: no operation leaves more than CACHE_MAX entries.
use mtdd.Prelude.{
  ◌+◌, ◌≤◌, ◌<◌, ◌≡◌, refl, ap, suc, [], ◌∷◌, some, length, length-append, length-drop, arith,
}
use mtdd.Js.Text.{Text}
use mtdd.Routing.Parse.{Classification}
use mtdd.Routing.Cache.{Memory, cache_max, find, remove, set, overwrite, make_room}

abbrev pub Small : Memory → Type 0
Small memory = length memory ≤ cache_max

length-overwrite :
    (t : Text) (c : Classification) (m : Memory) → length (overwrite t c m) ≡ length m
unfolding overwrite
length-overwrite t c [] = refl
length-overwrite t c (e ∷ m) = ap suc (length-overwrite t c m)

pub length-remove : (t : Text) (m : Memory) → length (remove t m) ≤ length m
unfolding remove
length-remove t [] = omega arith
length-remove t (e ∷ m) = ground (arith, length-remove t m)

length-remove_found :
    (t : Text) (m : Memory) {c : Classification}
    → find t m ≡ some c
    → length (remove t m) < length m
unfolding remove find
length-remove_found t [] h = cc
length-remove_found t (e ∷ m) {c} h =
    ground (arith, length-remove t m, length-remove_found t m {c = c})

length-set : (t : Text) (c : Classification) (m : Memory) → length (set t c m) ≤ length m + 1
unfolding set
length-set t c m = ground (arith, length-overwrite t c m, length-append m ((t, c) ∷ []))

length-make_room : (m : Memory) → Small m → length (make_room m) < cache_max
unfolding make_room
length-make_room m h = ground (arith, length-drop 1 m)

pub set-Small :
    (t : Text) (c : Classification) (m : Memory) → Small m → Small (set t c (make_room m))
set-Small t c m h = omega (arith, length-set t c (make_room m), length-make_room m h)

pub refreshed-Small :
    (t : Text) (m : Memory) (c : Classification)
    → find t m ≡ some c
    → Small m
    → Small (set t c (remove t m))
refreshed-Small t m c found h =
    omega (arith, length-set t c (remove t m), length-remove_found t m found)

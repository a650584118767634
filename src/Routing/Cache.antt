-- ===== src/Routing/Cache.antt =====
-- ast-classify-cache.ts, the map of this process, and the classification through it of
-- sql-parse.ts. The shared cache is a parameter: what `getFromRedis` gives for a text, its throws
-- included. Writes to it and refreshes of its entries change nothing here.
pub mod Laws
pub mod Size
pub mod Transparency
use mtdd.Prelude.{
  ℕ, Bool, true, false, List, [], ◌∷◌, ◌++◌, Option, none, some, leb, length, drop, if◌then◌else◌,
  ◌≡◌,
}
use mtdd.Js.Text.{Text, text_eq, trim}
use mtdd.Js.Effect.{Result, ok, err, Effect, pure, lift, gets, modify, throw, ◌>>=◌, ◌>>◌}
use mtdd.Js.Buffer.{JsError}
use mtdd.Routing.Parse.{Classification, plain, unknown, Parser, compute_classification}

abbrev pub cache_max : ℕ
cache_max = 500

abbrev pub Entry : Type 0
Entry = Text × Classification

-- The entries of a JavaScript `Map` in the order of their insertion, the oldest first.
abbrev pub Memory : Type 0
Memory = List Entry

unfoldable pub find : Text → Memory → Option Classification
find text [] = none
find text (e ∷ memory) = let rest = find text memory in if text_eq e.0 text then some e.1 else rest

-- `memoryCache.delete(text)`
unfoldable pub remove : Text → Memory → Memory
remove text [] = []
remove text (e ∷ memory) =
    let rest = remove text memory in if text_eq e.0 text then rest else e ∷ rest

abbrev pub replaced : Text → Classification → Entry → Entry
replaced text c e = if text_eq e.0 text then (e.0, c) else e

abbrev pub has : Text → Memory → Bool
has text memory = elim (find text memory) [ none ↦ false | some c ↦ true ]

unfoldable pub overwrite : Text → Classification → Memory → Memory
overwrite text c [] = []
overwrite text c (e ∷ memory) = replaced text c e ∷ overwrite text c memory

-- `memoryCache.set(text, c)`: a key that is there keeps its place.
unfoldable pub set : Text → Classification → Memory → Memory
unfolding find overwrite
set text c memory = if has text memory then overwrite text c memory else memory ++ (text, c) ∷ []

abbrev pub refreshed : Text → Option Classification → Memory → Memory
refreshed text none memory = memory
refreshed text (some c) memory = set text c (remove text memory)

abbrev pub Cached : Type 0 → Type 0
Cached A = Effect Memory JsError A

unfoldable pub get_from_memory : Text → Cached (Option Classification)
unfolding find remove set
get_from_memory text memory = (ok (find text memory), refreshed text (find text memory) memory)

-- The oldest entry makes room, also for a text that has an entry already.
unfoldable pub make_room : Memory → Memory
make_room memory = if leb cache_max (length memory) then drop 1 memory else memory

unfoldable pub set_in_memory : Text → Classification → Cached Unit
unfolding make_room set
set_in_memory text c = modify (λ memory. set text c (make_room memory))

abbrev pub Shared : Type 0
Shared = Text → Result JsError (Option Classification)

abbrev pub after_shared :
    Text → Result JsError (Option Classification) → Cached (Option Classification)
after_shared text (ok (some c)) = set_in_memory text c >> pure (some c)
after_shared text (ok none) = pure none
after_shared text (err e) = pure none

unfoldable pub get_cached_classification_async : Shared → Text → Cached (Option Classification)
unfolding get_from_memory set_in_memory ◌>>=◌
get_cached_classification_async shared text = get_from_memory text >>= λ hit. elim hit [
  | some c ↦ pure (some c)
  | none ↦ after_shared text (shared text)
]

unfoldable pub clear_classification_cache : Cached Unit
clear_classification_cache = modify (λ memory. [])

abbrev pub compute_and_set : Parser → Text → Cached Classification
compute_and_set parse text =
    lift (compute_classification parse text) >>= λ c. set_in_memory text c >> pure c

-- The text that is missing or blank is not looked up.
abbrev pub is_blank : Option Text → Bool
is_blank none = true
is_blank (some text) = elim (trim text) [ [] ↦ true | c ∷ s ↦ false ]

unfoldable pub classify_text : Parser → Text → Cached Classification
unfolding get_from_memory set_in_memory ◌>>=◌
classify_text parse text = get_from_memory text >>= λ cached. elim cached [
  | some c ↦ pure c
  | none ↦ compute_and_set parse text
]

unfoldable pub classify_text_async : Parser → Shared → Text → Cached Classification
unfolding get_cached_classification_async set_in_memory ◌>>=◌
classify_text_async parse shared text = get_cached_classification_async shared text >>= λ cached.
    elim cached [ some c ↦ pure c | none ↦ compute_and_set parse text ]

abbrev pub unless_blank : (Text → Cached Classification) → Option Text → Cached Classification
unless_blank classify none = pure (plain unknown)
unless_blank classify (some text) =
    if is_blank (some text) then pure (plain unknown) else classify text

unfoldable pub classify_query : Parser → Option Text → Cached Classification
unfolding classify_text
classify_query parse = unless_blank (classify_text parse)

unfoldable pub classify_query_async : Parser → Shared → Option Text → Cached Classification
unfolding classify_text_async
classify_query_async parse shared = unless_blank (classify_text_async parse shared)

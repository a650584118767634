-- ===== src/Routing/Cache/Transparency.antt =====
-- A classification through the caches is the classification of the text, for sql-parse.ts.
use mtdd.Prelude.{
  ◌≡◌, refl, sym, true, false, Option, none, some, if◌then◌else◌, inl, inr, Option-cases,
}
use mtdd.Js.Text.{Text}
use mtdd.Js.Effect.{Result, ok, err, lift, pure, ◌>>=◌, ◌>>◌}
use mtdd.Js.Buffer.{JsError}
use mtdd.Routing.Parse.{Classification, Parser, compute_classification, plain, unknown}
use mtdd.Routing.Cache.{
  Memory, Cached, Shared, find, remove, set, make_room, set_in_memory, get_from_memory, is_blank,
  compute_and_set, after_shared, classify_text, classify_text_async,
  get_cached_classification_async, classify_query, classify_query_async, unless_blank,
}
use mtdd.Routing.Cache.Laws.{
  IsCoherent, find-IsCoherent, remove-IsCoherent, set-IsCoherent, make_room-IsCoherent,
}
use mtdd.Routing.Cache.Size.{Small, set-Small, refreshed-Small}

-- The classification of a text without a cache.
unfoldable pub classification : Parser → Option Text → Result JsError Classification
classification parse none = ok (plain unknown)
classification parse (some text) =
    if is_blank (some text) then ok (plain unknown) else compute_classification parse text

-- Every entry is right, and there are not too many.
abbrev pub IsCache : Parser → Memory → Type 0
IsCache parse memory = IsCoherent parse memory × Small memory

-- What the shared cache holds is right; it may miss texts, and may fail.
abbrev pub IsRight : Parser → Shared → Type 0
IsRight parse shared =
    (text : Text) (c : Classification)
    → shared text ≡ ok (some c)
    → compute_classification parse text ≡ ok c

-- A run that gave this result and left a good cache.
abbrev pub Gives :
    Parser → Result JsError Classification → Result JsError Classification × Memory → Type 0
Gives parse result run = (run.0 ≡ result) × IsCache parse run.1

module _ (parse : Parser) (text : Text) where
  refreshed-IsCache :
      (memory : Memory) {c : Classification}
      → find text memory ≡ some c
      → IsCache parse memory
      → IsCache parse (set text c (remove text memory))
  refreshed-IsCache memory {c} found k = (
    set-IsCoherent parse text (find-IsCoherent parse text memory k.0 found) (remove text memory)
        (remove-IsCoherent parse text memory k.0),
    refreshed-Small text memory c found k.1,
  )

  added-IsCache :
      (memory : Memory) {c : Classification}
      → compute_classification parse text ≡ ok c
      → IsCache parse memory
      → IsCache parse (set text c (make_room memory))
  added-IsCache memory {c} right k = (
    set-IsCoherent parse text right (make_room memory) (make_room-IsCoherent parse memory k.0),
    set-Small text c memory k.1,
  )

  compute_and_set-Gives :
      (memory : Memory) (r : Result JsError Classification)
      → compute_classification parse text ≡ r
      → IsCache parse memory
      → Gives parse r ((lift r >>= λ c. set_in_memory text c >> pure c) memory)
  unfolding ◌>>=◌ set_in_memory
  compute_and_set-Gives memory (ok c) h k = (refl, added-IsCache memory h k)
  compute_and_set-Gives memory (err e) h k = (refl, k)

  classify_text-Gives :
      (memory : Memory)
      → IsCache parse memory
      → Gives parse (compute_classification parse text) (classify_text parse text memory)
  unfolding classify_text get_from_memory ◌>>=◌
  classify_text-Gives memory k = elim (Option-cases (find text memory)) [
    | inl missed ↦ rw missed (compute_and_set-Gives memory _ refl k)
    | inr (c, found) ↦
        rw found
          (sym (find-IsCoherent parse text memory k.0 found), refreshed-IsCache memory found k)
  ]

  after_miss :
      (shared : Shared) (memory : Memory) (r : Result JsError (Option Classification))
      → shared text ≡ r
      → IsRight parse shared
      → IsCache parse memory
      → Gives parse (compute_classification parse text) (
          (after_shared text r >>= λ cached. elim cached [
            | some c ↦ pure c
            | none ↦ compute_and_set parse text
          ])
            memory)
  unfolding ◌>>=◌ set_in_memory
  after_miss shared memory (ok none) h right k = compute_and_set-Gives memory _ refl k
  after_miss shared memory (err e) h right k = compute_and_set-Gives memory _ refl k
  after_miss shared memory (ok (some c)) h right k =
      (sym (right text c h), added-IsCache memory (right text c h) k)

  classify_text_async-Gives :
      (shared : Shared) (memory : Memory)
      → IsRight parse shared
      → IsCache parse memory
      → Gives parse
          (compute_classification parse text)
          (classify_text_async parse shared text memory)
  unfolding classify_text_async get_cached_classification_async get_from_memory ◌>>=◌
  classify_text_async-Gives shared memory right k = elim (Option-cases (find text memory)) [
    | inl missed ↦ rw missed (after_miss shared memory (shared text) refl right k)
    | inr (c, found) ↦
        rw found
          (sym (find-IsCoherent parse text memory k.0 found), refreshed-IsCache memory found k)
  ]

module _ (parse : Parser) (classify : Text → Cached Classification) (memory : Memory) where
  unless_blank-Gives :
      (text : Option Text)
      → IsCache parse memory
      → ((t : Text) → Gives parse (compute_classification parse t) (classify t memory))
      → Gives parse (classification parse text) (unless_blank classify text memory)
  unfolding classification ◌>>=◌
  unless_blank-Gives none k h = (refl, k)
  unless_blank-Gives (some t) k h =
      elim (is_blank (some t))
        as (λ b.
          Gives parse (if b then ok (plain unknown) else compute_classification parse t)
            ((if b then pure (plain unknown) else classify t) memory)) [
              | true ↦ (refl, k)
              | false ↦ h t
            ]

-- Through a cache of right entries, of which there are at most 500, a text is classified as
-- without a cache, errors included, and the cache that is left is of this kind again.
pub classify_query-Gives :
    (parse : Parser) (text : Option Text) (memory : Memory)
    → IsCache parse memory
    → Gives parse (classification parse text) (classify_query parse text memory)
unfolding classify_query
classify_query-Gives parse text memory k =
    unless_blank-Gives parse (classify_text parse) memory text k
      (λ t. classify_text-Gives parse t memory k)

-- The same holds with the shared cache behind, which may miss texts and may fail, if the entries
-- that it gives are right.
pub classify_query_async-Gives :
    (parse : Parser) (shared : Shared) (text : Option Text) (memory : Memory)
    → IsRight parse shared
    → IsCache parse memory
    → Gives parse (classification parse text) (classify_query_async parse shared text memory)
unfolding classify_query_async
classify_query_async-Gives parse shared text memory right k =
    unless_blank-Gives parse (classify_text_async parse shared) memory text k
      (λ t. classify_text_async-Gives parse t shared memory right k)

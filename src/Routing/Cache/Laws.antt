-- ===== src/Routing/Cache/Laws.antt =====
-- The cache of classifications against the classification itself: its entries, its size, and what
-- a classification through it returns.
use mtdd.Prelude.{
  ◌≡◌, refl, sym, Bool, true, false, [], ◌∷◌, ◌++◌, Option, some, length, drop, leb, if◌then◌else◌,
  arith,
}
use mtdd.Js.Text.Laws.{text_eq_sound}
use mtdd.Js.Text.{Text, text_eq}
use mtdd.Js.Effect.{ok}
use mtdd.Routing.Parse.{Classification, Parser, compute_classification}
use mtdd.Routing.Cache.{
  Memory, Entry, cache_max, find, remove, set, overwrite, replaced, has, make_room,
}

-- Every entry is the classification of its text.
abbrev pub IsCoherent : Parser → Memory → Type 0
IsCoherent parse [] = Unit
IsCoherent parse (e ∷ memory) =
    (compute_classification parse e.0 ≡ ok e.1) × IsCoherent parse memory

IsCoherent-if :
    (parse : Parser) (b : Bool) (m n : Memory)
    → IsCoherent parse m
    → IsCoherent parse n
    → IsCoherent parse (if b then m else n)
IsCoherent-if parse true m n k l = k
IsCoherent-if parse false m n k l = l

module _ (parse : Parser) (text : Text) where
  find_first :
      (e : Entry) {c : Classification} (b : Bool) (later : Option Classification)
      → text_eq e.0 text ≡ b
      → compute_classification parse e.0 ≡ ok e.1
      → (later ≡ some c → compute_classification parse text ≡ ok c)
      → (if b then some e.1 else later) ≡ some c
      → compute_classification parse text ≡ ok c
  find_first e {c} true later same first rest h =
      let there = text_eq_sound e.0 text same in
      let value : e.1 ≡ c = cc in rw (sym there, first, value)
  find_first e false later same first rest h = rest h

  pub find-IsCoherent :
      (memory : Memory) {c : Classification}
      → IsCoherent parse memory
      → find text memory ≡ some c
      → compute_classification parse text ≡ ok c
  unfolding find
  find-IsCoherent [] k h = cc
  find-IsCoherent (e ∷ memory) {c} k h =
      find_first e (text_eq e.0 text) (find text memory) refl k.0 (find-IsCoherent memory k.1) h

  pub remove-IsCoherent :
      (memory : Memory) → IsCoherent parse memory → IsCoherent parse (remove text memory)
  unfolding remove
  remove-IsCoherent [] k = k
  remove-IsCoherent (e ∷ memory) k =
      let rest = remove-IsCoherent memory k.1 in
      IsCoherent-if parse (text_eq e.0 text) _ _ rest (k.0, rest)

  module _ {c : Classification} (right : compute_classification parse text ≡ ok c) where
    replaced-right :
        (e : Entry)
        → compute_classification parse e.0 ≡ ok e.1
        → compute_classification parse (replaced text c e).0 ≡ ok (replaced text c e).1
    replaced-right e h = ground (arith, text_eq_sound e.0 text)

    overwrite-IsCoherent :
        (memory : Memory) → IsCoherent parse memory → IsCoherent parse (overwrite text c memory)
    unfolding overwrite
    overwrite-IsCoherent [] k = k
    overwrite-IsCoherent (e ∷ memory) k = (replaced-right e k.0, overwrite-IsCoherent memory k.1)

    added-IsCoherent :
        (memory : Memory) → IsCoherent parse memory → IsCoherent parse (memory ++ (text, c) ∷ [])
    added-IsCoherent [] k = (right, tt)
    added-IsCoherent (e ∷ memory) k = (k.0, added-IsCoherent memory k.1)

    pub set-IsCoherent :
        (memory : Memory) → IsCoherent parse memory → IsCoherent parse (set text c memory)
    unfolding set
    set-IsCoherent memory k =
        IsCoherent-if parse (has text memory) _ _ (overwrite-IsCoherent memory k)
          (added-IsCoherent memory k)

drop-IsCoherent :
    (parse : Parser) (memory : Memory) → IsCoherent parse memory → IsCoherent parse (drop 1 memory)
drop-IsCoherent parse [] k = k
drop-IsCoherent parse (e ∷ memory) k = k.1

pub make_room-IsCoherent :
    (parse : Parser) (memory : Memory)
    → IsCoherent parse memory
    → IsCoherent parse (make_room memory)
unfolding make_room
make_room-IsCoherent parse memory k =
    IsCoherent-if parse (leb cache_max (length memory)) _ _ (drop-IsCoherent parse memory k) k

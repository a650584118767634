-- ===== src/Js/Regex.antt =====
-- Regular expressions of JavaScript by backtracking: a matcher calls its continuation on the rest
-- of the text and the captures so far, and tries the next alternative when that fails.
-- Case-insensitive letters are ASCII, which is what the flag `i` does to an ASCII pattern.
use mtdd.Prelude.{
  ℕ, zero, suc, ◌-◌, Bool, true, false, ◌&&◌, ◌||◌, not, List, [], ◌∷◌, Option, none, some, leb,
  ltb, ◌==◌, if◌then◌else◌, length, take, String,
}
use mtdd.Js.Text.{Text, codes, is_space}

pub data Regex : Type 0 where
  chars : (ℕ → Bool) → Regex
  eps : Regex
  seq : Regex → Regex → Regex
  alt : Regex → Regex → Regex
  -- a greedy `*`
  star : Regex → Regex
  -- `*?`, which takes as few rounds as it can
  lazy : Regex → Regex
  -- `\b` behind a word character
  word_end : Regex
  -- the capture group of that number
  group : ℕ → Regex → Regex
  -- `$`, without the flag `m`
  stop : Regex

abbrev pub Captures : Type 0
Captures = List (ℕ × Text)

-- What follows a match: the rest of the text and the captures, to the final captures.
abbrev pub Rest : Type 0
Rest = Text → Captures → Option Captures

abbrev pub Matcher : Type 0
Matcher = Rest → Rest

abbrev pub or_else {ℓ} : {A : Type ℓ} → Option A → Option A → Option A
or_else none b = b
or_else (some a) b = some a

-- A round of `*` that consumes nothing is refused, so the length of the text bounds the rounds.
unfoldable pub repeat : ℕ → Matcher → Matcher
repeat zero m k s caps = k s caps
repeat (suc fuel) m k s caps =
    or_else
      (m (λ s' caps'. if ltb (length s') (length s) then repeat fuel m k s' caps' else none) s caps)
      (k s caps)

unfoldable pub chars_m : (ℕ → Bool) → Matcher
chars_m p k [] caps = none
chars_m p k (c ∷ s) caps = elim (p c) [ true ↦ k s caps | false ↦ none ]

unfoldable pub stop_m : Matcher
stop_m k [] caps = k [] caps
stop_m k (c ∷ s) caps = none

unfoldable pub repeat_lazy : ℕ → Matcher → Matcher
repeat_lazy zero m k s caps = k s caps
repeat_lazy (suc fuel) m k s caps = or_else (k s caps) (
    m (λ s' caps'. if ltb (length s') (length s) then repeat_lazy fuel m k s' caps' else none) s
      caps)

abbrev is_word_char : ℕ → Bool
is_word_char c =
    (leb b'A' c && leb c b'Z')
    || (leb b'a' c && leb c b'z')
    || (leb b'0' c && leb c b'9')
    || c == b'_'

unfoldable pub word_end_m : Matcher
word_end_m k [] caps = k [] caps
word_end_m k (c ∷ s) caps = elim (is_word_char c) [ true ↦ none | false ↦ k (c ∷ s) caps ]

unfoldable pub run : Regex → Matcher
unfolding repeat repeat_lazy chars_m stop_m word_end_m
run (chars p) k s caps = chars_m p k s caps
run eps k s caps = k s caps
run (seq a b) k s caps = run a (run b k) s caps
run (alt a b) k s caps = or_else (run a k s caps) (run b k s caps)
run (star r) k s caps = repeat (length s) (run r) k s caps
run (lazy r) k s caps = repeat_lazy (length s) (run r) k s caps
run word_end k s caps = word_end_m k s caps
run (group n r) k s caps =
    run r (λ s' caps'. k s' ((n, take (length s - length s') s) ∷ caps')) s caps
run stop k s caps = stop_m k s caps

-- `s.match(re)` for a pattern that begins with `^`: the captures, or `null`.
unfoldable pub match : Regex → Text → Option Captures
unfolding run
match r s = run r (λ _ caps. some caps) s []

-- `re.test(s)` for a pattern that begins with `^`
unfoldable pub test : Regex → Text → Bool
unfolding match
test r s = elim (match r s) [ none ↦ false | some _ ↦ true ]

-- The text of a group, or `undefined` where the group took no part.
unfoldable pub capture : ℕ → Captures → Option Text
capture n [] = none
capture n ((i, t) ∷ caps) = if i == n then some t else capture n caps

abbrev pub upper : ℕ → ℕ
upper c = if leb b'a' c && leb c b'z' then c - 32 else c

abbrev pub is_char : ℕ → ℕ → Bool
is_char a c = c == a

-- a letter under the flag `i`
abbrev pub is_letter : ℕ → ℕ → Bool
is_letter a c = upper c == upper a

abbrev pub not_space : ℕ → Bool
not_space c = not (is_space c)

-- `.` without the flag `s`
abbrev pub dot : ℕ → Bool
dot c = not (c == 10 || c == 13 || c == 0x2028 || c == 0x2029)

-- a word of the pattern under the flag `i`
unfoldable pub word_of : Text → Regex
word_of [] = eps
word_of (c ∷ s) = seq (chars (is_letter c)) (word_of s)

unfoldable pub word : String → Regex
unfolding word_of
word s = word_of (codes s)

abbrev pub spaces : Regex
spaces = star (chars is_space)

abbrev pub plus : Regex → Regex
plus r = seq r (star r)

abbrev pub optional : Regex → Regex
optional r = alt r eps

-- ===== src/Routing/LocalMerge/Quote.antt =====
-- Where a quoted text ends: an identifier of quoteIdent and a cell in quotes are read back.
use mtdd.Prelude.{
  ℕ, ◌≡◌, refl, sym, ap, ◌∙◌, false, [], ◌∷◌, ◌++◌, append_assoc, Option, none, some, ◌==◌,
  Bool-cases, ==_iff, inl, inr, if◌then◌else◌,
}
use mtdd.Js.Text.{Text, codes, replace_char}
use mtdd.Routing.LocalMerge.{quote_ident, quoted}

abbrev and_char : ℕ → Option (Text × Text) → Option (Text × Text)
and_char c none = none
and_char c (some (s, rest)) = some (c ∷ s, rest)

-- Reading behind an opening quote, as SQL and CSV do: two quotes are one, and one quote ends the text.
unfoldable pub read_to_quote : Text → Option (Text × Text)
read_to_quote [] = none
read_to_quote (c ∷ []) = if c == b'"' then some ([], []) else none
read_to_quote (c ∷ d ∷ rest) =
    let doubled = read_to_quote rest in
    let next = read_to_quote (d ∷ rest) in
    if c == b'"'
    then (if d == b'"' then and_char b'"' doubled else some ([], d ∷ rest))
    else and_char c next

unfoldable pub read_quoted : Text → Option (Text × Text)
unfolding read_to_quote
read_quoted [] = none
read_quoted (c ∷ rest) = let inner = read_to_quote rest in if c == b'"' then inner else none

-- What follows does not begin with a quote.
abbrev pub NoQuote : Text → Type 0
NoQuote [] = Unit
NoQuote (c ∷ rest) = (c == b'"') ≡ false

module _ (rest : Text) (end : NoQuote rest) where
  closing : (t : Text) → NoQuote t → read_to_quote (b'"' ∷ t) ≡ some ([], t)
  unfolding read_to_quote
  closing [] k = refl
  closing (c ∷ t) k = rw k

  other_char :
      (c : ℕ) (t : Text)
      → (c == b'"') ≡ false
      → read_to_quote (c ∷ t) ≡ and_char c (read_to_quote t)
  unfolding read_to_quote
  other_char c [] k = rw k
  other_char c (d ∷ t) k = rw k

  doubled_quotes :
      (s : Text)
      → read_to_quote (replace_char b'"' (codes "\"\"") s ++ b'"' ∷ rest) ≡ some (s, rest)
  unfolding replace_char read_to_quote
  doubled_quotes [] = closing rest end
  doubled_quotes (c ∷ s) = elim (Bool-cases (c == b'"')) [
    | inl e ↦
        let quote : c ≡ b'"' = (==_iff c b'"').0 e in
        rw e (ap (and_char b'"') (doubled_quotes s) ∙ ap (λ d. some (d ∷ s, rest)) (sym quote))
    | inr e ↦ rw e (other_char c _ e ∙ ap (and_char c) (doubled_quotes s))
  ]

  pub read-quoted : (s : Text) → read_quoted (quoted s ++ rest) ≡ some (s, rest)
  unfolding read_quoted
  read-quoted s =
      ap read_to_quote (append_assoc (replace_char b'"' (codes "\"\"") s) (codes "\"") rest)
      ∙ doubled_quotes s

  -- Whatever a name holds, what is read of its identifier in an SQL text is the name, and what
  -- follows the identifier is left, if it does not begin with a quote.
  pub read-quote_ident : (name : Text) → read_quoted (quote_ident name ++ rest) ≡ some (name, rest)
  unfolding quote_ident
  read-quote_ident name = read-quoted name

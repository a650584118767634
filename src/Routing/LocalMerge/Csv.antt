-- ===== src/Routing/LocalMerge/Csv.antt =====
-- The cells of a COPY are read back.
use mtdd.Prelude.{
  ℕ, ◌≡◌, ◌≢◌, refl, ap, ◌∙◌, arith, Bool, true, false, ◌||◌, [], ◌∷◌, ◌++◌, Option, none, some,
  ◌==◌, Bool-cases, inl, inr, if◌then◌else◌,
}
use mtdd.Js.Text.{Text, codes, text_eq}
use mtdd.Js.Text.Laws.{text_eq_sound}
use mtdd.Routing.LocalMerge.{shown, is_special, has_special, format_csv_cell}
use mtdd.Routing.LocalMerge.Quote.{read_quoted, read-quoted}

-- the end of a cell without quotes
unfoldable pub read_plain : Text → Text × Text
read_plain [] = ([], [])
read_plain (c ∷ s) =
    let rest = read_plain s in if c == b',' || c == b'\n' then ([], c ∷ s) else (c ∷ rest.0, rest.1)

abbrev or_null : Text → Option Text
or_null [] = none
or_null (c ∷ s) = some (c ∷ s)

-- the marker of the end of the data, which is not a cell
abbrev pub end_marker : Text
end_marker = codes "\\."

abbrev plain_cell : Text × Text → Option (Option Text × Text)
plain_cell (s, rest) = if text_eq s end_marker then none else some (or_null s, rest)

abbrev quoted_cell : Option (Text × Text) → Option (Option Text × Text)
quoted_cell none = none
quoted_cell (some (s, rest)) = some (some s, rest)

-- A cell as COPY reads it, `none` for NULL: a cell without quotes that is empty is NULL, and one that is
-- `\.`, which ends the data where it is alone on its line, is taken for no cell at all.
unfoldable pub read_cell : Text → Option (Option Text × Text)
unfolding read_quoted read_plain
read_cell [] = some (none, [])
read_cell (c ∷ s) =
    if c == b'"' then quoted_cell (read_quoted (c ∷ s)) else plain_cell (read_plain (c ∷ s))

or_parts : (a b : Bool) → (a || b) ≡ false → (a ≡ false) × (b ≡ false)
or_parts true b h = cc
or_parts false b h = (refl, h)

-- The separators that follow a cell.
abbrev pub IsSeparator : ℕ → Type 0
IsSeparator d = (d == b',' || d == b'\n') ≡ true

separator_no_quote : (d : ℕ) → IsSeparator d → (d == b'"') ≡ false
separator_no_quote d h = ground arith

not_special :
    (c : ℕ) → is_special c ≡ false → ((c == b',' || c == b'\n') ≡ false) × ((c == b'"') ≡ false)
not_special c h = (ground arith, ground arith)

unmarked : (s : Text) → s ≢ end_marker → text_eq s end_marker ≡ false
unmarked s other = elim (Bool-cases (text_eq s end_marker)) [
  | inl e ↦ absurd (other (text_eq_sound s end_marker e))
  | inr e ↦ e
]

module _ (d : ℕ) (separator : IsSeparator d) (rest : Text) where
  read-plain : (s : Text) → has_special s ≡ false → read_plain (s ++ d ∷ rest) ≡ (s, d ∷ rest)
  unfolding read_plain has_special
  read-plain [] h = rw separator
  read-plain (c ∷ s) h =
      let parts = or_parts (is_special c) (has_special s) h in
      rw ((not_special c parts.0).0, read-plain s parts.1)

  -- A text that is not empty and is not the marker `\.` is read back from its cell, and what follows
  -- the separator is left.
  pub read-format_csv_cell :
      (c : ℕ) (s : Text)
      → c ∷ s ≢ end_marker
      → read_cell (format_csv_cell (shown (c ∷ s)) ++ d ∷ rest) ≡ some (some (c ∷ s), d ∷ rest)
  unfolding read_cell format_csv_cell has_special
  read-format_csv_cell c s other = elim (Bool-cases (has_special (c ∷ s))) [
    | inl e ↦
        rw e (ap quoted_cell (read-quoted (d ∷ rest) (separator_no_quote d separator) (c ∷ s)))
    | inr e ↦
        let parts = or_parts (is_special c) (has_special s) e in
        rw (e, (not_special c parts.0).1)
          (ap plain_cell (read-plain (c ∷ s) e) ∙ rw (unmarked (c ∷ s) other) refl)
  ]

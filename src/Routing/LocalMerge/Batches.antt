-- ===== src/Routing/LocalMerge/Batches.antt =====
-- The INSERTs of a load: how large they are, and that they carry every row.
use mtdd.Prelude.{ℕ, zero, suc, ◌+◌, ◌*◌, ◌≤◌, ◌≡◌, List, [], ◌∷◌, ◌++◌, length, map}
use mtdd.Js.Text.{Text, codes, decimal}
use mtdd.Routing.LocalMerge.{join, Field, Row, build_insert_placeholders}
use mtdd.Routing.LocalMerge.Load.{Param, batch_values}

-- The values of batches, one after the other.
abbrev pub values_of : List Field → List (List Row) → List Param
values_of fields [] = []
values_of fields (batch ∷ rest) = batch_values fields batch ++ values_of fields rest

-- `n` numbers from `i` on
abbrev pub count_up : ℕ → ℕ → List ℕ
count_up i zero = []
count_up i (suc n) = i ∷ count_up (suc i) n

abbrev pub placeholder : ℕ → Text
placeholder n = b'$' ∷ decimal n

-- The placeholders of a row whose first one has the number `first`, in brackets.
abbrev pub row_text : ℕ → ℕ → Text
row_text columns first =
    b'('
    ∷ (join (codes ", ") (map (λ j. placeholder (first + j)) (count_up 0 columns)) ++ codes ")")

-- The placeholders of so many rows: that of row `i` and column `j` has the number
-- `1 + i * columns + j`.
abbrev pub values_text : ℕ → ℕ → Text
values_text rows columns =
    join (codes ", ") (map (λ i. row_text columns (1 + i * columns)) (count_up 0 rows))

-- A batch has one to 500 rows, and a placeholder for each of its values.
pub record IsBatch (fields : List Field) (batch : List Row) : Type 0 where
  pub some_row : 1 ≤ length batch
  pub rows : length batch ≤ 500
  pub count : length (batch_values fields batch) ≡ length batch * length fields
  pub placeholders :
      (build_insert_placeholders (length batch) (length fields) 1).0
      ≡ values_text (length batch) (length fields)
  pub next :
      (build_insert_placeholders (length batch) (length fields) 1).1
      ≡ 1 + length (batch_values fields batch)

abbrev pub AllBatches : List Field → List (List Row) → Type 0
AllBatches fields [] = Unit
AllBatches fields (batch ∷ rest) = IsBatch fields batch × AllBatches fields rest

-- The INSERTs carry all rows, each of them few enough.
pub record IsSplit (fields : List Field) (rows : List Row) (split : List (List Row)) : Type 0 where
  pub values : values_of fields split ≡ batch_values fields rows
  pub sizes : AllBatches fields split

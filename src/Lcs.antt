-- ===== src/Lcs.antt =====
-- The table of longest common subsequences, which internal/diff/diff.go and internal/diff3/diff3.go
-- each fill from the last line to the first. Equality of lines is a parameter.
pub mod Longest
use go_svn.Base.{
  ℕ, zero, suc, ◌+◌, Bool, Option, none, some, List, [], ◌∷◌, leb, if◌then◌else◌, length, get_elem?,
  replicate,
}

-- A number of a row. Every index is in range.
abbrev number_at : Option ℕ → ℕ
number_at none = 0
number_at (some n) = n

abbrev row_at : Option (List ℕ) → List ℕ
row_at none = []
row_at (some row) = row

unfoldable pub entry : List ℕ → ℕ → ℕ
entry row j = number_at (get_elem? row j)

-- `table[i][j]`
unfoldable pub cell : List (List ℕ) → (i j : ℕ) → ℕ
cell table i j = entry (row_at (get_elem? table i)) j

module _ {ℓ} {A : Type ℓ} (same : A → A → Bool) where
  -- The row of a line, from the row of the next line.
  unfoldable pub next_row : A → List A → List ℕ → List ℕ
  next_row line [] below = 0 ∷ []
  next_row line (other ∷ others) [] = 0 ∷ []
  next_row line (other ∷ others) (down ∷ below) =
      let right = next_row line others below in
      (if same line other
        then entry below 0 + 1
        else if leb (entry right 0) down
        then down
        else entry right 0)
      ∷ right

  -- The rows from a line on, the last one being all zero.
  unfoldable pub table : List A → List A → List (List ℕ)
  table [] others = replicate (suc (length others)) 0 ∷ []
  table (line ∷ lines) others =
      let below = table lines others in next_row line others (row_at (get_elem? below 0)) ∷ below

-- ===== src/Diff.antt =====
-- internal/diff/diff.go: the lines of two texts, an edit script between them, and its unified form.
pub mod Lines
pub mod Script
pub mod Unified
use go_svn.Base.{
  ℕ, zero, suc, ◌+◌, ◌-◌, Bool, true, false, not, ◌&&◌, ◌||◌, List, [], ◌∷◌, ◌++◌, Bytes, ltb, leb,
  ◌==◌, equal, if◌then◌else◌, length, take, drop,
}
use go_svn.Base.Int.{ℤ, pos, negsuc}
use go_svn.Lcs.{cell, table}

pub record Options : Type 0 where
  pub ignore_all_space : Bool
  pub ignore_space_change : Bool
  pub ignore_eol : Bool
  pub context_lines : ℤ
  pub context_set : Bool

-- An operation: its `Kind` with its `Line`.
pub data Operation : Type 0 where
  op_equal : Bytes → Operation
  op_delete : Bytes → Operation
  op_add : Bytes → Operation

-- A byte in front of the first string.
abbrev put_first : ℕ → List Bytes → List Bytes
put_first c [] = (c ∷ []) ∷ []
put_first c (line ∷ lines) = (c ∷ line) ∷ lines

-- `strings.SplitAfter` with a newline.
unfoldable pub split_after : Bytes → List Bytes
split_after [] = [] ∷ []
split_after (c ∷ text) =
    let rest = split_after text in if c == 10 then (c ∷ []) ∷ rest else put_first c rest

unfoldable pub drop_last_empty : List Bytes → List Bytes
drop_last_empty [] = []
drop_last_empty (line ∷ []) = if length line == 0 then [] else line ∷ []
drop_last_empty (line ∷ (next ∷ lines)) = line ∷ drop_last_empty (next ∷ lines)

-- `Lines`
unfoldable pub split_lines : Bytes → List Bytes
split_lines text = if length text == 0 then [] else drop_last_empty (split_after text)

-- The bytes that the white space in front of a text takes, in UTF-8: `unicode.IsSpace`.
unfoldable pub space_width : Bytes → ℕ
space_width [] = 0
space_width (a ∷ []) = if leb 9 a && leb a 13 || a == 32 then 1 else 0
space_width (a ∷ (b ∷ [])) =
    if leb 9 a && leb a 13 || a == 32
    then 1
    else if a == 194 && (b == 133 || b == 160)
    then 2
    else 0
space_width (a ∷ (b ∷ (c ∷ text))) =
    if leb 9 a && leb a 13 || a == 32
    then 1
    else if a == 194 && (b == 133 || b == 160)
    then 2
    else if a == 225 && b == 154 && c == 128
        || a == 226 && b == 128 && (leb 128 c && leb c 138 || c == 168 || c == 169 || c == 175)
        || a == 226 && b == 129 && c == 159
        || a == 227 && b == 128 && c == 128
    then 3
    else 0

abbrev put_word : Bytes → List Bytes → List Bytes
put_word [] words = words
put_word (c ∷ word) words = (c ∷ word) ∷ words

-- `strings.Fields`, with the bytes of a white space that are still to skip, and the word so far.
unfoldable pub fields : (skip : ℕ) (word : Bytes) → Bytes → List Bytes
fields skip word [] = put_word word []
fields (suc skip) word (c ∷ text) = fields skip word text
fields zero word (c ∷ text) =
    let width = space_width (c ∷ text) in
    let rest = fields (width - 1) (if width == 0 then word ++ (c ∷ []) else []) text in
    if width == 0 then rest else put_word word rest

unfoldable pub join : Bytes → List Bytes → Bytes
join separator [] = []
join separator (word ∷ []) = word
join separator (word ∷ (next ∷ words)) = word ++ (separator ++ join separator (next ∷ words))

-- `strings.HasSuffix` with its cut.
unfoldable pub ends_with : (suffix line : Bytes) → Bool
ends_with suffix line =
    leb (length suffix) (length line) && equal (drop (length line - length suffix) line) suffix

unfoldable pub split_line_ending : Bytes → Bytes × Bytes
split_line_ending line =
    if ends_with (13 ∷ (10 ∷ [])) line
    then (take (length line - 2) line, 13 ∷ (10 ∷ []))
    else if ends_with (10 ∷ []) line
    then (take (length line - 1) line, 10 ∷ [])
    else if ends_with (13 ∷ []) line
    then (take (length line - 1) line, 13 ∷ [])
    else (line, [])

unfoldable pub normalize : Bytes → Options → Bytes
normalize line options =
    let (body, line_ending) = split_line_ending line in
    let ending = if options.ignore_eol then [] else line_ending in
    if options.ignore_all_space
    then join [] (fields 0 [] body) ++ ending
    else if options.ignore_space_change
    then join (32 ∷ []) (fields 0 [] body) ++ ending
    else body ++ ending

-- The test of `Operations` on two lines.
unfoldable pub same_line : Options → Bytes → Bytes → Bool
same_line options a b = equal (normalize a options) (normalize b options)

-- The second loop of `Operations`, with the lines that are left behind the two indices. A round takes
-- a line of either text, so that both lengths together are fuel enough.
unfoldable pub walk :
    Options
    → List (List ℕ)
    → (fuel old_index new_index : ℕ) (old_lines new_lines : List Bytes) → List Operation
walk options t zero i j old new = []
walk options t (suc fuel) i j [] [] = []
walk options t (suc fuel) i j [] (n ∷ new) = op_add n ∷ walk options t fuel i (j + 1) [] new
walk options t (suc fuel) i j (o ∷ old) [] = op_delete o ∷ walk options t fuel (i + 1) j old []
walk options t (suc fuel) i j (o ∷ old) (n ∷ new) =
    let both = walk options t fuel (i + 1) (j + 1) old new in
    let added = walk options t fuel i (j + 1) (o ∷ old) new in
    let deleted = walk options t fuel (i + 1) j old (n ∷ new) in
    if same_line options o n
    then op_equal n ∷ both
    else if ltb (cell t (i + 1) j) (cell t i (j + 1))
    then op_add n ∷ added
    else op_delete o ∷ deleted

unfoldable pub operations : (old_data new_data : Bytes) → Options → List Operation
operations old_data new_data options =
    let old = split_lines old_data in
    let new = split_lines new_data in
    walk options (table (same_line options) old new) (length old + length new) 0 0 old new

-- `oldOrigins[oldIndex]`, with the origins that are left.
abbrev origin_or : List ℤ → ℤ → ℤ
origin_or [] revision = revision
origin_or (origin ∷ origins) revision = origin

-- The loop of `CarryOrigins`, with the origins from the index on.
unfoldable pub carry_loop : List Operation → (origins : List ℤ) (revision : ℤ) → List ℤ
carry_loop [] origins revision = []
carry_loop (op_equal line ∷ ops) origins revision =
    origin_or origins revision ∷ carry_loop ops (drop 1 origins) revision
carry_loop (op_delete line ∷ ops) origins revision = carry_loop ops (drop 1 origins) revision
carry_loop (op_add line ∷ ops) origins revision = revision ∷ carry_loop ops origins revision

unfoldable pub carry_origins :
    (old_data new_data : Bytes) (old_origins : List ℤ) (revision : ℤ) → Options → List ℤ
carry_origins old_data new_data old_origins revision options =
    carry_loop (operations old_data new_data options) old_origins revision

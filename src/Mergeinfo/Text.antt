-- ===== src/Mergeinfo/Text.antt =====
-- mergeinfo/mergeinfo.go: `ParseRangelist` and `Parse`, the text of `svn:mergeinfo`, with `String` of
-- both. A string is the list of its bytes, and its white space is that of ASCII.
pub mod Scan
pub mod Single
pub mod Ranges
pub mod Entry
pub mod Lines
use go_svn.Mergeinfo.{Range, Rangelist, normalize, merge_rangelists}
use go_svn.Mergeinfo.Paths.{Mergeinfo, get, put}
use go_svn.Path.{split, join, last_index_byte, fspath_is_canonical}
use go_svn.Checksum.{has_prefix}
use go_svn.Hashfile.{before, all_digits}
use go_svn.Skel.{itoa, parse_uint}
use go_svn.Base.Int.{ℤ, pos, negsuc, eqb_ℤ, ltb_ℤ, leb_ℤ}
use go_svn.Base.Outcome.{Outcome, ok, err, mergeinfo_parse_error, ◌>>=◌, ◌>>◌, guard}
use go_svn.Base.{
  ℕ, zero, suc, ◌+◌, ◌-◌, Bool, true, false, not, ◌&&◌, ◌||◌, same, List, [], ◌∷◌, ◌++◌, Bytes,
  codes, equal, ◌==◌, ltb, leb, if◌then◌else◌, length, take, drop, Option, none, some,
}

-- One more and one less on `int64`.
abbrev pub max_int64 : ℕ
max_int64 = 9223372036854775807

abbrev pub next_int64 : ℤ → ℤ
next_int64 (pos n) = if n == max_int64 then negsuc max_int64 else pos (suc n)
next_int64 (negsuc zero) = pos 0
next_int64 (negsuc (suc n)) = negsuc n

abbrev pub previous_int64 : ℤ → ℤ
previous_int64 (pos zero) = negsuc 0
previous_int64 (pos (suc n)) = pos n
previous_int64 (negsuc n) = if n == max_int64 then pos max_int64 else negsuc (suc n)

-- `strconv.FormatInt(value, 10)`
abbrev pub format_int : ℤ → Bytes
format_int (pos n) = itoa n
format_int (negsuc n) = 45 ∷ itoa (suc n)

abbrev pub star : Bool → Bytes
star true = []
star false = 42 ∷ []

-- The text of a range, which an empty one has none of.
unfoldable pub range_text : Range → Option Bytes
range_text item =
    let tail = star item.inheritable in
    if eqb_ℤ item.start (previous_int64 item.end)
    then some (format_int item.end ++ tail)
    else if eqb_ℤ (previous_int64 item.start) item.end
    then some ((45 ∷ format_int item.start) ++ tail)
    else if ltb_ℤ item.start item.end
    then some ((format_int (next_int64 item.start) ++ (45 ∷ format_int item.end)) ++ tail)
    else if ltb_ℤ item.end item.start
    then some ((format_int item.start ++ (45 ∷ format_int (next_int64 item.end))) ++ tail)
    else none

abbrev pub add_part : Option Bytes → List Bytes → List Bytes
add_part none parts = parts
add_part (some part) parts = part ∷ parts

unfoldable pub range_texts : Rangelist → List Bytes
range_texts [] = []
range_texts (item ∷ ranges) = add_part (range_text item) (range_texts ranges)

unfoldable pub rangelist_string : Rangelist → Bytes
rangelist_string ranges = join 44 (range_texts ranges)

-- `strings.TrimSpace`
abbrev pub is_ascii_space : ℕ → Bool
is_ascii_space c = leb 9 c && leb c 13 || c == 32

unfoldable pub trim_left : Bytes → Bytes
trim_left [] = []
trim_left (c ∷ value) = let rest = trim_left value in if is_ascii_space c then rest else c ∷ value

abbrev pub add_front : ℕ → Bytes → Bytes
add_front c [] = if is_ascii_space c then [] else c ∷ []
add_front c (d ∷ value) = c ∷ (d ∷ value)

unfoldable pub trim_right : Bytes → Bytes
trim_right [] = []
trim_right (c ∷ value) = add_front c (trim_right value)

abbrev pub trim_space : Bytes → Bytes
trim_space value = trim_right (trim_left value)

abbrev pub is_empty_text : Bytes → Bool
is_empty_text [] = true
is_empty_text (c ∷ value) = false

-- `strings.TrimSuffix(field, "*")`, and whether there was no star.
unfoldable pub trim_star : Bytes → Bytes × Bool
trim_star [] = ([], true)
trim_star (c ∷ []) = if c == 42 then ([], false) else (c ∷ [], true)
trim_star (c ∷ (d ∷ field)) =
    let (rest, inheritable) = trim_star (d ∷ field) in (c ∷ rest, inheritable)

-- `strings.Cut(field, "-")`
unfoldable pub cut_dash : Bytes → Bytes × Option Bytes
cut_dash [] = ([], none)
cut_dash (c ∷ field) =
    let (first, last) = cut_dash field in if c == 45 then ([], some field) else (c ∷ first, last)

-- `strconv.ParseInt` of digits, and the test for a number that is not positive.
unfoldable pub positive_digits : Bytes → Outcome ℕ
positive_digits [] = err mergeinfo_parse_error
positive_digits (c ∷ digits) = do
  guard (all_digits (c ∷ digits)) mergeinfo_parse_error
  let n = parse_uint 0 (c ∷ digits)
  guard (leb n max_int64 && ltb 0 n) mergeinfo_parse_error
  ok n

-- `parseRevision`. A number behind a minus sign is never positive.
unfoldable pub parse_revision : Bytes → Outcome ℕ
parse_revision [] = err mergeinfo_parse_error
parse_revision (c ∷ value) =
    if c == 45
    then err mergeinfo_parse_error
    else positive_digits (if c == 43 then value else c ∷ value)

unfoldable pub parse_end : (start : ℕ) → Option Bytes → Outcome ℕ
parse_end start none = ok start
parse_end start (some last) = do
  end ← parse_revision last
  guard (ltb start end) mergeinfo_parse_error
  ok end

unfoldable pub parse_range : (field : Bytes) → Outcome Range
parse_range field = do
  let (text, inheritable) = trim_star (trim_space field)
  let (first, last) = cut_dash text
  start ← parse_revision first
  end ← parse_end start last
  ok (record { start = pos (start - 1); end = pos end; inheritable = inheritable })

unfoldable pub parse_ranges : List Bytes → Outcome Rangelist
parse_ranges [] = ok []
parse_ranges (field ∷ fields) = do
  item ← parse_range field
  ranges ← parse_ranges fields
  ok (item ∷ ranges)

abbrev pub clash : Range → Range → Bool
clash first second =
    ltb_ℤ first.start second.end
    && ltb_ℤ second.start first.end
    && not (same first.inheritable second.inheritable)

unfoldable pub clash_any : Range → Rangelist → Bool
clash_any first [] = false
clash_any first (second ∷ ranges) =
    let rest = clash_any first ranges in if clash first second then true else rest

unfoldable pub clashes : Rangelist → Bool
clashes [] = false
clashes (first ∷ ranges) =
    let rest = clashes ranges in if clash_any first ranges then true else rest

unfoldable pub parse_rangelist : Bytes → Outcome Rangelist
parse_rangelist value = do
  guard (not (is_empty_text (trim_space value))) mergeinfo_parse_error
  ranges ← parse_ranges (split 44 value)
  guard (not (clashes ranges)) mergeinfo_parse_error
  ok (normalize ranges)

-- `sort.Strings`, with the ranges of each path.
unfoldable pub insert_path : Bytes × Rangelist → Mergeinfo → Mergeinfo
insert_path entry [] = entry ∷ []
insert_path entry (first ∷ info) =
    let rest = first ∷ insert_path entry info in
    if before first.0 entry.0 then rest else entry ∷ (first ∷ info)

unfoldable pub sort_paths : Mergeinfo → Mergeinfo
sort_paths [] = []
sort_paths (entry ∷ info) = insert_path entry (sort_paths info)

abbrev pub line_of : Bytes → Rangelist → List Bytes
line_of path [] = []
line_of path (item ∷ ranges) = (path ++ (58 ∷ rangelist_string (item ∷ ranges))) ∷ []

-- The lines that `String` writes, with the newlines between them.
unfoldable pub lines_of : Mergeinfo → List Bytes
lines_of [] = []
lines_of ((path, ranges) ∷ info) = line_of path (normalize ranges) ++ lines_of info

unfoldable pub mergeinfo_string : Mergeinfo → Bytes
mergeinfo_string info = join 10 (lines_of (sort_paths info))

-- `strings.ReplaceAll(value, "\r\n", "\n")`
unfoldable pub replace_crlf : Bytes → Bytes
replace_crlf [] = []
replace_crlf (c ∷ []) = c ∷ []
replace_crlf (c ∷ (d ∷ value)) =
    let rest = replace_crlf (d ∷ value) in if c == 13 && d == 10 then rest else c ∷ rest

-- `hasDotSegment`
unfoldable pub any_dots : List Bytes → Bool
any_dots [] = false
any_dots (segment ∷ segments) =
    let rest = any_dots segments in
    if equal segment (46 ∷ []) || equal segment (46 ∷ (46 ∷ [])) then true else rest

abbrev pub has_dot_segment : Bytes → Bool
has_dot_segment path = any_dots (split 47 path)

unfoldable pub parse_entry : (path ranges : Bytes) → Mergeinfo → Outcome Mergeinfo
parse_entry path ranges result = do
  guard
      (not (
        not (fspath_is_canonical path)
        || has_dot_segment path
        || equal path (47 ∷ []) && is_empty_text (trim_space ranges)))
      mergeinfo_parse_error
  parsed ← parse_rangelist ranges
  ok (put path (merge_rangelists (get path result) parsed) result)

-- One round of the loop of `Parse`, with the line without its surrounding space.
unfoldable pub parse_line : Bytes → Mergeinfo → Outcome Mergeinfo
parse_line [] result = ok result
parse_line (c ∷ line) result = elim (last_index_byte (c ∷ line) 58) [
  | none ↦ err mergeinfo_parse_error
  | some separator ↦
      parse_entry (take separator (c ∷ line)) (drop (separator + 1) (c ∷ line)) result
]

unfoldable pub parse_lines : List Bytes → Mergeinfo → Outcome Mergeinfo
parse_lines [] result = ok result
parse_lines (line ∷ lines) result = do
  result' ← parse_line (trim_space line) result
  parse_lines lines result'

unfoldable pub parse_mergeinfo : Bytes → Outcome Mergeinfo
parse_mergeinfo value = parse_lines (split 10 (replace_crlf value)) []

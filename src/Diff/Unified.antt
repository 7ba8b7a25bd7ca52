-- ===== src/Diff/Unified.antt =====
-- `Unified` of internal/diff/diff.go. The loop over the changes makes the bounds of all hunks first, and
-- the text from them.
pub mod Cover
use go_svn.Base.{
  ℕ, zero, suc, ◌+◌, ◌-◌, ◌*◌, ◌%◌, ◌^◌, Bool, true, false, List, [], ◌∷◌, ◌++◌, Bytes, codes, leb,
  ltb, ◌==◌, if◌then◌else◌, length, take, drop, min,
}
use go_svn.Base.Int.{ℤ, pos, negsuc, pos_part, leb_ℤ, to_int64}
use go_svn.Base.Outcome.{Outcome, ok, panic, out_of_fuel, ◌>>=◌}
use go_svn.Skel.{itoa}
use go_svn.Diff.{Options, Operation, op_equal, op_delete, op_add, ends_with, operations}

-- The indices of the operations that do not keep a line.
unfoldable pub changes : (index : ℕ) → List Operation → List ℕ
changes index [] = []
changes index (op_equal line ∷ ops) = changes (index + 1) ops
changes index (op_delete line ∷ ops) = index ∷ changes (index + 1) ops
changes index (op_add line ∷ ops) = index ∷ changes (index + 1) ops

unfoldable pub context_of : Options → ℕ
context_of options = if options.context_set then pos_part options.context_lines else 3

-- What an `int` holds of a sum: 64 bits, which wrap around.
abbrev pub to_int : ℕ → ℤ
to_int n = to_int64 (n % 2 ^ 64)

-- The inner loop over the changes: the last one of the hunk, and those behind it.
unfoldable pub last_change : (context last : ℕ) → List ℕ → ℕ × List ℕ
last_change context last [] = (last, [])
last_change context last (change ∷ rest) =
    let further = last_change context change rest in
    if leb_ℤ (pos (change - last)) (to_int (2 * context + 1))
    then further
    else (last, change ∷ rest)

-- The bounds of `operations[start:end]`, where a panic stops the hunk.
unfoldable pub hunk_bounds : (start : ℕ) (end : ℤ) (count : ℕ) → Outcome (ℕ × ℕ)
hunk_bounds start (negsuc n) count = panic
hunk_bounds start (pos end) count =
    if leb start (min end count) then ok (start, min end count) else panic

-- Where a hunk starts and ends, and the changes behind it.
unfoldable pub next_hunk : (context count change : ℕ) → List ℕ → Outcome ((ℕ × ℕ) × List ℕ)
next_hunk context count change rest = do
  let found = last_change context change rest
  hunk ← hunk_bounds (change - context) (to_int (found.0 + context + 1)) count
  ok (hunk, found.1)

-- The outer loop. Every hunk takes a change, so that their number is fuel enough.
unfoldable pub hunks : (fuel context count : ℕ) → List ℕ → Outcome (List (ℕ × ℕ))
hunks fuel context count [] = ok []
hunks zero context count (change ∷ rest) = out_of_fuel
hunks (suc fuel) context count (change ∷ rest) = do
  (hunk, rest') ← next_hunk context count change rest
  found ← hunks fuel context count rest'
  ok (hunk ∷ found)

-- The numbers of operations that are not `Add`, and that are not `Delete`.
unfoldable pub old_count : List Operation → ℕ
old_count [] = 0
old_count (op_add line ∷ ops) = old_count ops
old_count (op_equal line ∷ ops) = old_count ops + 1
old_count (op_delete line ∷ ops) = old_count ops + 1

unfoldable pub new_count : List Operation → ℕ
new_count [] = 0
new_count (op_delete line ∷ ops) = new_count ops
new_count (op_equal line ∷ ops) = new_count ops + 1
new_count (op_add line ∷ ops) = new_count ops + 1

unfoldable pub line_positions : List Operation → (end : ℕ) → ℕ × ℕ
line_positions ops end = (1 + old_count (take end ops), 1 + new_count (take end ops))

unfoldable pub format_range : (start count : ℕ) → Bytes
format_range start count =
    if count == 0
    then itoa (start - 1) ++ codes ",0"
    else if count == 1
    then itoa start
    else itoa start ++ (codes "," ++ itoa count)

unfoldable pub write_line : (noun : Bytes) (prefix : ℕ) (line : Bytes) → Bytes
write_line noun prefix line =
    (prefix ∷ line)
    ++ (if ends_with (10 ∷ []) line
        then []
        else (10 ∷ codes "\\ No newline at end of ") ++ (noun ++ (10 ∷ [])))

unfoldable pub write_operation : (noun : Bytes) → Operation → Bytes
write_operation noun (op_equal line) = write_line noun 32 line
write_operation noun (op_delete line) = write_line noun 45 line
write_operation noun (op_add line) = write_line noun 43 line

unfoldable pub write_operations : (noun : Bytes) → List Operation → Bytes
write_operations noun [] = []
write_operations noun (op ∷ ops) = write_operation noun op ++ write_operations noun ops

unfoldable pub write_hunk : (marker noun : Bytes) → List Operation → ℕ × ℕ → Bytes
write_hunk marker noun ops (start, end) =
    let (old_start, new_start) = line_positions ops start in
    let within = take (end - start) (drop start ops) in
    (marker ++ (codes " -" ++ format_range old_start (old_count within)))
    ++ ((codes " +" ++ format_range new_start (new_count within))
        ++ ((32 ∷ marker) ++ (10 ∷ write_operations noun within)))

unfoldable pub write_hunks : (marker noun : Bytes) → List Operation → List (ℕ × ℕ) → Bytes
write_hunks marker noun ops [] = []
write_hunks marker noun ops (hunk ∷ rest) =
    write_hunk marker noun ops hunk ++ write_hunks marker noun ops rest

unfoldable pub script_hunks : Options → List Operation → Outcome (List (ℕ × ℕ))
script_hunks options ops =
    hunks (length (changes 0 ops)) (context_of options) (length ops) (changes 0 ops)

-- `unified`, with nothing for a nil result.
unfoldable pub unified :
    (old_data new_data old_label new_label : Bytes)
    → Options
    → (headers : Bool) (marker noun : Bytes) → Outcome Bytes
unified old_data new_data old_label new_label options headers marker noun =
    let ops = operations old_data new_data options in
    if length (changes 0 ops) == 0 then ok [] else (do
      found ← script_hunks options ops
      ok (
          (if headers
            then (codes "--- " ++ old_label) ++ ((codes "\n+++ " ++ new_label) ++ (10 ∷ []))
            else [])
          ++ write_hunks marker noun ops found))

abbrev pub default_options : Options
default_options = record {
  ignore_all_space = false;
  ignore_space_change = false;
  ignore_eol = false;
  context_lines = pos 0;
  context_set = false;
}

-- `Unified`
unfoldable pub unified_file :
    (old_data new_data old_label new_label : Bytes) → Options → Outcome Bytes
unified_file old_data new_data old_label new_label options =
    unified old_data new_data old_label new_label options true (codes "@@") (codes "file")

unfoldable pub unified_property : (old_data new_data : Bytes) → Outcome Bytes
unified_property old_data new_data =
    unified old_data new_data [] [] default_options false (codes "##") (codes "property")

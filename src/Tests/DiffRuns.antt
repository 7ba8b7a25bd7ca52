-- ===== src/Tests/DiffRuns.antt =====
-- Runs of internal/diff and internal/diff3.
use go_svn.Base.{
  ◌≡◌, ◌≤◌, ◌<◌, ◌+◌, ◌^◌, arith, refl, Bytes, codes, ℕ, List, [], ◌∷◌, false, true, equal,
}
use go_svn.Base.Outcome.{ok, slice}
use go_svn.Lcs.{table, next_row, cell, entry}
use go_svn.Diff.{
  Options, Operation, op_equal, op_delete, op_add, operations, walk, same_line, normalize,
  split_line_ending, ends_with, split_lines, split_after, drop_last_empty, fields, space_width,
}
use go_svn.Diff.Script.{IsScript, done, keep, remove, insert, operations-IsScript}
use go_svn.Diff.Unified.{
  unified_file, unified, changes, script_hunks, hunks, hunk_bounds, next_hunk, last_change,
  context_of, write_hunks, write_hunk, line_positions, old_count, new_count, format_range,
  write_operations, write_operation, write_line, default_options,
}
use go_svn.Diff.Unified.Cover.{Apart, InSome, script_hunks-InSome}
use go_svn.Skel.{itoa, itoa_loop}
use go_svn.Diff3.{
  merge, merge_loop, merge_group, resolve, gather_both, gather, touches, apply_hunks, differences,
  differences_loop, replace_loop, split_contents, take_line, join_lines, conflict,
}
use go_svn.Diff3.Patch.{apply_hunks-differences}
use go_svn.Diff3.OneSided.{merge_one_sided}
use go_svn.Diff3.BothSides.{merge_same}

abbrev plain : Options
plain = default_options

abbrev old_text : Bytes
old_text = codes "one\ntwo\nthree\n"

abbrev new_text : Bytes
new_text = codes "one\ntwo changed\nthree"

abbrev script : List Operation
script =
    op_equal (codes "one\n")
    ∷ op_delete (codes "two\n")
    ∷ op_delete (codes "three\n")
    ∷ op_add (codes "two changed\n")
    ∷ op_add (codes "three")
    ∷ []

test_operations : operations old_text new_text plain ≡ script
unfolding operations walk same_line normalize split_line_ending ends_with split_lines split_after
    drop_last_empty table next_row cell entry equal
test_operations = refl

test_unified :
    unified_file old_text new_text (codes "old") (codes "new") plain
    ≡ ok (
        codes
          "--- old\n+++ new\n@@ -1,3 +1,3 @@\n one\n-two\n-three\n+two changed\n+three\n\\ No newline at end of file\n")
unfolding unified_file unified changes script_hunks hunks next_hunk hunk_bounds last_change
    context_of write_hunks write_hunk line_positions old_count new_count format_range
    write_operations write_operation write_line operations walk same_line normalize
    split_line_ending ends_with split_lines split_after drop_last_empty table next_row cell entry
    equal itoa itoa_loop
test_unified = refl

-- A no-break space between the words, in UTF-8.
test_fields : fields 0 [] (97 ∷ (194 ∷ (160 ∷ (98 ∷ (9 ∷ []))))) ≡ codes "a" ∷ (codes "b" ∷ [])
unfolding fields space_width
test_fields = refl

same_first : same_line plain (codes "one\n") (codes "one\n") ≡ true
unfolding same_line normalize split_line_ending ends_with equal
same_first = refl

given_script : IsScript plain (split_lines old_text) (split_lines new_text) 1 (
    op_equal (codes "one\n")
    ∷ (op_add (codes "two changed\n")
        ∷ (op_delete (codes "two\n")
            ∷ (op_delete (codes "three\n") ∷ (op_add (codes "three") ∷ [])))))
unfolding split_lines split_after drop_last_empty
given_script = keep same_first (insert (remove (remove (insert done))))

operations-IsScript_example :
    (kept : ℕ) × IsScript plain
      (split_lines old_text)
      (split_lines new_text)
      kept
      (operations old_text new_text plain)
    × (1 ≤ kept)
operations-IsScript_example = operations-IsScript plain old_text new_text 1 _ given_script

small_context : context_of plain + 5 < 2 ^ 62
unfolding context_of
small_context = omega arith

script_hunks-InSome_example :
    (hs : List (ℕ × ℕ)) × (script_hunks plain script ≡ ok hs) × Apart 0 5 hs × InSome 1 hs
script_hunks-InSome_example =
    script_hunks-InSome plain script 1 (op_delete (codes "two\n")) small_context refl tt

-- Both sides change the second line.
test_conflict :
    merge (codes ".old") (codes ".new") (codes "a\nb\n") (codes "a\nx\n") (codes "a\ny\n")
    ≡ ok (record {
      contents = codes "a\n<<<<<<< .mine\nx\n||||||| .old\nb\n=======\ny\n>>>>>>> .new\n";
      conflicted = true;
    })
unfolding merge merge_loop merge_group resolve gather_both gather touches apply_hunks differences
    differences_loop replace_loop split_contents take_line join_lines conflict slice table next_row
    cell entry equal
test_conflict = refl

-- Each side changes lines of its own.
test_merge :
    merge [] [] (codes "a\nb\nc\n") (codes "x\nb\nc\n") (codes "a\nb\nc\nd")
    ≡ ok (record { contents = codes "x\nb\nc\nd"; conflicted = false })
unfolding merge merge_loop merge_group resolve gather_both gather touches apply_hunks differences
    differences_loop replace_loop split_contents take_line join_lines conflict slice table next_row
    cell entry equal
test_merge = refl

apply_hunks-differences_example :
    apply_hunks
      (codes "a" ∷ (codes "b" ∷ []))
      0
      2
      (differences (codes "a" ∷ (codes "b" ∷ [])) (codes "b" ∷ (codes "c" ∷ [])))
    ≡ ok (codes "b" ∷ (codes "c" ∷ []))
apply_hunks-differences_example =
    apply_hunks-differences (codes "a" ∷ (codes "b" ∷ [])) (codes "b" ∷ (codes "c" ∷ []))

merge_one_sided_example :
    (merge (codes ".old") (codes ".new") old_text new_text old_text
      ≡ ok (record { contents = new_text; conflicted = false }))
    × (merge (codes ".old") (codes ".new") old_text old_text new_text
        ≡ ok (record { contents = new_text; conflicted = false }))
merge_one_sided_example = merge_one_sided (codes ".old") (codes ".new") old_text new_text

merge_same_example :
    merge (codes ".old") (codes ".new") old_text new_text new_text
    ≡ ok (record { contents = new_text; conflicted = false })
merge_same_example = merge_same (codes ".old") (codes ".new") old_text new_text

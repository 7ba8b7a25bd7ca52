-- ===== src/Diff3/OneSided.antt =====
-- `Merge` of internal/diff3/diff3.go where one side is the base.
use go_svn.Base.{
  ℕ, zero, suc, ◌+◌, ◌-◌, ◌≤◌, ◌≡◌, refl, ap, ◌∙◌, false, List, [], ◌∷◌, ◌++◌, Bytes, length, take,
  drop, arith, min,
}
use go_svn.Base.Outcome.{Outcome, ◌>>=◌, ok, slice_lem, >>=-eq-ok}
use go_svn.Diff3.{
  Hunk, Group, merge_group, Merged, apply_hunks, differences, join_lines, merge, merge_loop,
  resolve, split_contents,
}
use go_svn.Diff3.Patch.{apply_hunks-differences}
use go_svn.Diff3.Spaced.{Spaced, differences-Spaced, differences_same}
use go_svn.Diff3.Groups.{
  join_lines-append_two, join_lines-split_contents, gather_both_mine, gather_both_theirs, apply_one,
}

abbrev mine_group : Hunk → List Hunk → Group
mine_group change changes = record {
  mine = change ∷ [];
  theirs = [];
  stop = change.stop;
  mine_rest = changes;
  theirs_rest = [];
}

abbrev theirs_group : Hunk → List Hunk → Group
theirs_group change changes = record {
  mine = [];
  theirs = change ∷ [];
  stop = change.stop;
  mine_rest = [];
  theirs_rest = changes;
}

abbrev pub unconflicted : Bytes → Merged
unconflicted contents = record { contents = contents; conflicted = false }

abbrev pub in_lines : Outcome (List Bytes) → Outcome Merged
in_lines m = do lines ← m; ok (unconflicted (join_lines lines))

module _ (old_label new_label : Bytes) (base : List Bytes) where
  -- A group of one hunk writes the lines before it and its own.
  merge_group_one :
      (position : ℕ) (change : Hunk) (changes : List Hunk)
      → position ≤ change.start
      → change.start ≤ change.stop
      → change.stop ≤ length base
      → (merge_group old_label new_label base position change.start (mine_group change changes)
          ≡ ok (
            join_lines (take (change.start - position) (drop position base))
                ++ join_lines change.lines,
            false,
          ))
        × (merge_group old_label new_label base position change.start (theirs_group change changes)
            ≡ ok (
              join_lines (take (change.start - position) (drop position base))
                  ++ join_lines change.lines,
              false,
            ))
  unfolding merge_group resolve
  merge_group_one position change changes a b c =
      let cut = slice_lem base position change.start a (omega arith) in
      let between = slice_lem base change.start change.stop b c in
      let unchanged : apply_hunks base change.start change.stop []
          ≡ ok (take (change.stop - change.start) (drop change.start base)) =
        unfold apply_hunks in between in
      let changed = apply_one base change b c in
      (rw (cut, changed, unchanged, between) refl, rw (cut, unchanged, changed, between) refl)

  one_sided :
      (fuel low position : ℕ) (changes : List Hunk) (out : List Bytes)
      → length changes ≤ fuel
      → position ≤ low
      → Spaced low (length base) changes
      → apply_hunks base position (length base) changes ≡ ok out
      → (merge_loop old_label new_label fuel base position changes []
          ≡ ok (record { contents = join_lines out; conflicted = false }))
        × (merge_loop old_label new_label fuel base position [] changes
            ≡ ok (record { contents = join_lines out; conflicted = false }))
  unfolding merge_loop apply_hunks
  one_sided fuel low position [] out f le s e = (rw e refl, rw e refl)
  one_sided zero low position (change ∷ changes) out f le s e = absurd (omega arith)
  one_sided (suc fuel) low position (change ∷ changes) out f le (after, forward, inside, s) e =
      let kept = take (change.start - position) (drop position base) in
      let e' = rw (slice_lem base position change.start (omega arith) (omega arith)) at e in
      let (rest, tail, whole) =
        >>=-eq-ok (apply_hunks base change.stop (length base) changes) _ e' in
      let written =
        ap (λ t. ok (unconflicted t)) (join_lines-append_two kept change.lines rest)
        ∙ ap in_lines whole in
      let (ih, ih') =
        one_sided fuel (change.stop + 1) change.stop changes rest (omega arith) (omega arith) s
          tail in
      let next : min change.start (length base) ≡ change.start = omega arith in
      let some_fuel : suc (length changes) + 0 ≡ suc (length changes) = omega arith in
      let some_fuel' : 0 + suc (length changes) ≡ suc (length changes) = omega arith in
      let (mine, theirs) = merge_group_one position change changes (omega arith) forward inside in
      (
        rw
            (
              next,
              some_fuel,
              gather_both_mine change changes (length changes) (length base) forward s,
              mine,
              ih,
            )
            written,
        rw
            (
              next,
              some_fuel',
              gather_both_theirs change changes (length changes) (length base) forward s,
              theirs,
              ih',
            )
            written,
      )

-- A side that is the base as it was leaves the merge to the other one: for every base and every other
-- text, `Merge` returns the other text, and reports no conflict.
pub merge_one_sided :
    (old_label new_label base changed : Bytes)
    → (merge old_label new_label base changed base
        ≡ ok (record { contents = changed; conflicted = false }))
      × (merge old_label new_label base base changed
          ≡ ok (record { contents = changed; conflicted = false }))
unfolding merge
merge_one_sided old_label new_label base changed =
    let lines = split_contents (length base) base in
    let target = split_contents (length changed) changed in
    let hunks = differences lines target in
    let back = join_lines-split_contents (length changed) changed (omega arith) in
    let none = differences_same lines in
    let plus_zero : length hunks + 0 ≡ length hunks = omega arith in
    let zero_plus : 0 + length hunks ≡ length hunks = omega arith in
    let (mine, theirs) =
      one_sided old_label new_label lines (length hunks) 0 0 hunks target (omega arith)
        (omega arith) (differences-Spaced lines target) (apply_hunks-differences lines target) in
    (rw (none, plus_zero, mine, back) refl, rw (none, zero_plus, theirs, back) refl)

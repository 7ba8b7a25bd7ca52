-- ===== src/Diff3/BothSides.antt =====
-- `Merge` of internal/diff3/diff3.go where both sides are the same.
use go_svn.Base.{
  ℕ, zero, suc, ◌+◌, ◌-◌, ◌≤◌, ◌≡◌, refl, ap, ◌∙◌, true, false, List, [], ◌∷◌, ◌++◌, Bytes, ltb,
  equal_refl, if◌then◌else◌, length, take, drop, arith, min,
}
use go_svn.Base.Outcome.{ok, slice_lem, >>=-eq-ok}
use go_svn.Diff3.{
  Hunk, Group, apply_hunks, differences, gather, gather_both, join_lines, merge, merge_loop,
  merge_group, resolve, split_contents, touches,
}
use go_svn.Diff3.Patch.{apply_hunks-differences}
use go_svn.Diff3.Spaced.{Spaced, differences-Spaced}
use go_svn.Diff3.Groups.{
  join_lines-append_two, join_lines-split_contents, gather_none, gather_one, gather_both_end,
  gather_both_round, apply_one,
}
use go_svn.Diff3.OneSided.{unconflicted, in_lines}

touches_whole :
    (change : Hunk) → change.start ≤ change.stop → touches change change.start change.stop ≡ true
unfolding touches
touches_whole change le = ground arith

-- The same hunk on the other side, once the group ends where the hunk does.
gather_again :
    (change : Hunk) (changes : List Hunk) (count : ℕ)
    → change.start ≤ change.stop
    → Spaced (change.stop + 1) count changes
    → gather change.start change.stop (change ∷ changes)
      ≡ record { taken = change ∷ []; stop = change.stop; rest = changes }
unfolding gather
gather_again change changes count le h =
    let furthest : (if ltb change.stop change.stop then change.stop else change.stop)
        ≡ change.stop =
      ground arith in
    rw (touches_whole change le, furthest, gather_none change.start change.stop count changes le h)

abbrev both_group : Hunk → List Hunk → Group
both_group change changes = record {
  mine = change ∷ [];
  theirs = change ∷ [];
  stop = change.stop;
  mine_rest = changes;
  theirs_rest = changes;
}

gather_both_same :
    (change : Hunk) (changes : List Hunk) (fuel count : ℕ)
    → change.start ≤ change.stop
    → Spaced (change.stop + 1) count changes
    → gather_both (suc (suc fuel)) change.start change.start (change ∷ changes) (change ∷ changes)
      ≡ both_group change changes
gather_both_same change changes fuel count le h =
    gather_both_round (suc fuel) change.start change.start (change ∷ changes) (change ∷ changes) _ _
      (gather_one change changes count le h) (gather_again change changes count le h) refl
    ∙ rw
        (gather_both_end fuel change.start change.stop changes changes
          (gather_none change.start change.stop count changes le h)
          (gather_none change.start change.stop count changes le h))
        refl

module _ (old_label new_label : Bytes) (base : List Bytes) where
  merge_group_both :
      (position : ℕ) (change : Hunk) (changes : List Hunk)
      → position ≤ change.start
      → change.start ≤ change.stop
      → change.stop ≤ length base
      → merge_group old_label new_label base position change.start (both_group change changes)
        ≡ ok (
          join_lines (take (change.start - position) (drop position base))
              ++ join_lines change.lines,
          false,
        )
  unfolding merge_group resolve
  merge_group_both position change changes a b c =
      let cut = slice_lem base position change.start a (omega arith) in
      let between = slice_lem base change.start change.stop b c in
      let changed = apply_one base change b c in
      rw (cut, changed, between, equal_refl (join_lines change.lines)) refl

  both_sides :
      (fuel low position : ℕ) (changes : List Hunk) (out : List Bytes)
      → length changes ≤ fuel
      → position ≤ low
      → Spaced low (length base) changes
      → apply_hunks base position (length base) changes ≡ ok out
      → merge_loop old_label new_label fuel base position changes changes
        ≡ ok (unconflicted (join_lines out))
  unfolding merge_loop apply_hunks
  both_sides fuel low position [] out f le s e = rw e refl
  both_sides zero low position (change ∷ changes) out f le s e = absurd (omega arith)
  both_sides (suc fuel) low position (change ∷ changes) out f le (after, forward, inside, s) e =
      let kept = take (change.start - position) (drop position base) in
      let e' = rw (slice_lem base position change.start (omega arith) (omega arith)) at e in
      let (rest, tail, whole) =
        >>=-eq-ok (apply_hunks base change.stop (length base) changes) _ e' in
      let ih =
        both_sides fuel (change.stop + 1) change.stop changes rest (omega arith) (omega arith) s
          tail in
      let next : min change.start (min change.start (length base)) ≡ change.start = omega arith in
      let n = length changes in
      let some_fuel : suc n + suc n ≡ suc (n + suc n) = omega arith in
      let group = gather_both_same change changes (n + suc n) (length base) forward s in
      let round = merge_group_both position change changes (omega arith) forward inside in
      rw (next, some_fuel, group, round, ih)
        (ap (λ t. ok (unconflicted t)) (join_lines-append_two kept change.lines rest)
          ∙ ap in_lines whole)

-- Where both sides made the same text of the base, whatever it is, `Merge` returns that text and
-- reports no conflict.
pub merge_same :
    (old_label new_label base changed : Bytes)
    → merge old_label new_label base changed changed
      ≡ ok (record { contents = changed; conflicted = false })
unfolding merge
merge_same old_label new_label base changed =
    let lines = split_contents (length base) base in
    let target = split_contents (length changed) changed in
    let hunks = differences lines target in
    let merged =
      both_sides old_label new_label lines (length hunks + length hunks) 0 0 hunks target
        (omega arith) (omega arith) (differences-Spaced lines target)
        (apply_hunks-differences lines target) in
    rw (merged, join_lines-split_contents (length changed) changed (omega arith)) refl

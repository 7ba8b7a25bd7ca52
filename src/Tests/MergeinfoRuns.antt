-- ===== src/Tests/MergeinfoRuns.antt =====
-- Runs of package mergeinfo.
use go_svn.Base.Int.{ℤ, negsuc, pos, ◌<ℤ◌}
use go_svn.Base.Outcome.{ok}
use go_svn.Mergeinfo.Text.{max_int64}
use go_svn.Mergeinfo.Catalog.{to_revs}
use go_svn.Mergeinfo.Revs.{contains, is_said, to_revs-value}
use go_svn.Mergeinfo.Value.{join, value}
use go_svn.Mergeinfo.Algebra.{
  erase, meet, value-intersect_rangelists, value-merge_rangelists, value-normalize,
  value-remove_rangelist,
}
use go_svn.Mergeinfo.Paths.Patch.{merge-diff}
use go_svn.Mergeinfo.Paths.{Mergeinfo, diff, get, intersect, merge, remove}
use go_svn.Mergeinfo.Paths.Lookup.{get-operations}
use go_svn.Mergeinfo.Equality.{normalize_unique}
use go_svn.Mergeinfo.Patch.{merge-diff_rangelists}
use go_svn.Mergeinfo.Canonical.{IsCanonical, combine-IsCanonical}
use go_svn.Mergeinfo.{
  Range, Rangelist, add_interval, any_covering, collect_boundaries, combine, combine_loop, covers,
  diff_rangelists, endpoints, first_covering, insert_sorted, intersect_rangelists, merge_rangelists,
  normalize, normalize_boundaries, remove_rangelist, sort, unique, unique_behind,
}
use go_svn.Base.{
  equal, codes, sym, ap, ◌∙◌, Bool, List, All, [], arith, false, refl, true, ℕ, ◌∷◌, ◌≡◌,
}

abbrev range : ℕ → ℕ → Bool → Range
range start end inheritable = record { start = pos start; end = pos end; inheritable = inheritable }

abbrev left : Rangelist
left = range 4 9 true ∷ range 2 4 true ∷ range 20 30 false ∷ []

abbrev right : Rangelist
right = range 7 12 false ∷ range 25 26 true ∷ []

left_normal : normalize left ≡ range 2 9 true ∷ range 20 30 false ∷ []
unfolding normalize normalize_boundaries any_covering combine combine_loop add_interval sort
    insert_sorted unique unique_behind
left_normal = refl

merged :
    merge_rangelists left right
    ≡ range 2 9 true
      ∷ range 9 12 false
      ∷ range 20 25 false
      ∷ range 25 26 true
      ∷ range 26 30 false
      ∷ []
unfolding merge_rangelists collect_boundaries endpoints covers first_covering normalize
    normalize_boundaries any_covering combine combine_loop add_interval sort insert_sorted unique
    unique_behind
merged = refl

value-merge_rangelists_example :
    value (merge_rangelists left right) (pos 8) ≡ join (value left (pos 8)) (value right (pos 8))
value-merge_rangelists_example =
    value-merge_rangelists left right (pos 8) (omega arith) (omega arith)

value-intersect_rangelists_example :
    value (intersect_rangelists left right true) (pos 8)
    ≡ meet true (value left (pos 8)) (value right (pos 8))
value-intersect_rangelists_example =
    value-intersect_rangelists left right true (pos 8) (omega arith) (omega arith)

value-remove_rangelist_example :
    value (remove_rangelist left right false) (pos 8)
    ≡ erase false (value left (pos 8)) (value right (pos 8))
value-remove_rangelist_example =
    value-remove_rangelist left right false (pos 8) (omega arith) (omega arith)

combine-IsCanonical_example :
    IsCanonical (combine (pos 3 ∷ pos 1 ∷ pos 3 ∷ []) (λ s e. (true, false)))
combine-IsCanonical_example =
    combine-IsCanonical (pos 3 ∷ pos 1 ∷ pos 3 ∷ []) (λ s e. (true, false))

-- A range before revision 0 is left out of the boundaries and still covers intervals: here it fills
-- the gap between two ranges, which `Normalize` should keep.
gap_filled :
    normalize (
      record { start = negsuc 4; end = pos 20; inheritable = true }
      ∷ range 0 2 true
      ∷ range 8 10 true
      ∷ [])
    ≡ range 0 10 true ∷ []
unfolding normalize normalize_boundaries any_covering combine combine_loop add_interval sort
    insert_sorted unique unique_behind
gap_filled = refl

abbrev trunk : Mergeinfo
trunk = (codes "/trunk", left) ∷ (codes "/branches/a", right) ∷ []

abbrev branch : Mergeinfo
branch = (codes "/branches/a", left) ∷ []

get-operations_example :
    (get (codes "/branches/a") (merge trunk branch)
      ≡ merge_rangelists (get (codes "/branches/a") trunk) (get (codes "/branches/a") branch))
    × (get (codes "/branches/a") (intersect trunk branch true)
        ≡ intersect_rangelists
            (get (codes "/branches/a") trunk)
            (get (codes "/branches/a") branch)
            true)
    × (get (codes "/branches/a") (remove trunk branch true)
        ≡ remove_rangelist
            (get (codes "/branches/a") trunk)
            (get (codes "/branches/a") branch)
            true)
get-operations_example = get-operations trunk branch (codes "/branches/a") true

abbrev left_normalized : Rangelist
left_normalized = range 2 9 true ∷ range 20 30 false ∷ []

left_agrees : (x : ℤ) → value left x ≡ value left_normalized x
left_agrees x = sym (value-normalize left x (omega arith)) ∙ ap (λ l. value l x) left_normal

normalize_unique_example :
    (normalize left ≡ normalize left_normalized) × (normalize left ≡ left_normalized)
normalize_unique_example =
    normalize_unique left left_normalized left_normalized (omega arith) (omega arith) (ground arith)
      left_agrees left_agrees

merge-diff_rangelists_example :
    merge_rangelists
      (remove_rangelist (diff_rangelists left right true).0 left true)
      (diff_rangelists left right true).1
    ≡ normalize right
merge-diff_rangelists_example = merge-diff_rangelists left right (omega arith) (omega arith)

merge-diff_example :
    get
      (codes "/branches/a")
      (merge (remove (diff trunk branch true).0 trunk true) (diff trunk branch true).1)
    ≡ normalize (get (codes "/branches/a") branch)
unfolding get equal
merge-diff_example = merge-diff trunk branch (codes "/branches/a") (omega arith) (omega arith)

left_small : All (λ r. r.end <ℤ pos max_int64) (normalize left)
left_small = rw left_normal (omega arith)

to_revs-value_example :
    (revisions : List ℤ) × (to_revs left ≡ ok revisions)
    × (contains (pos 5) revisions ≡ is_said (value left (pos 5)))
to_revs-value_example = to_revs-value left (pos 5) (omega arith) left_small

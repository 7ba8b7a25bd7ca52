-- ===== src/Mergeinfo/Paths/Patch.antt =====
-- `Diff` of mergeinfo/mergeinfo.go, path by path.
use go_svn.Mergeinfo.{Rangelist, diff_rangelists, merge_rangelists, normalize, remove_rangelist}
use go_svn.Mergeinfo.Algebra.{Nonneg}
use go_svn.Mergeinfo.Patch.{merge-diff_rangelists}
use go_svn.Mergeinfo.Paths.{Mergeinfo, diff, get, merge, remove}
use go_svn.Mergeinfo.Paths.Lookup.{get-operations}
use go_svn.Base.{◌≡◌, ◌∙◌, Bytes, true}

get-merge :
    (first second : Mergeinfo) (path : Bytes)
    → get path (merge first second) ≡ merge_rangelists (get path first) (get path second)
get-merge first second path = (get-operations first second path true).0

get-remove :
    (eraser whiteboard : Mergeinfo) (path : Bytes)
    → get path (remove eraser whiteboard true)
      ≡ remove_rangelist (get path eraser) (get path whiteboard) true
get-remove eraser whiteboard path = (get-operations eraser whiteboard path true).2

merge-remove_rangelists :
    (from to : Rangelist)
    → Nonneg from
    → Nonneg to
    → merge_rangelists
        (remove_rangelist (remove_rangelist to from true) from true)
        (remove_rangelist from to true)
      ≡ normalize to
unfolding diff_rangelists
merge-remove_rangelists from to h k = merge-diff_rangelists from to h k

-- With inheritance considered, removing from the first mergeinfo what `Diff` calls deleted, and merging
-- what it calls added, gives at every path the normal form of the second's ranges, where neither has a
-- range before revision 0.
pub merge-diff :
    (from to : Mergeinfo) (path : Bytes)
    → Nonneg (get path from)
    → Nonneg (get path to)
    → get path (merge (remove (diff from to true).0 from true) (diff from to true).1)
      ≡ normalize (get path to)
unfolding diff
merge-diff from to path h k =
    get-merge (remove (remove to from true) from true) (remove from to true) path
    ∙ rw
        (
          get-remove (remove to from true) from path,
          get-remove to from path,
          get-remove from to path,
        )
        (merge-remove_rangelists (get path from) (get path to) h k)

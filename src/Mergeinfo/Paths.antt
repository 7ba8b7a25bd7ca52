-- ===== src/Mergeinfo/Paths.antt =====
-- mergeinfo/mergeinfo.go: the operations on whole mergeinfo, the maps from paths to range lists. A map
-- is an association list; the order in which Go iterates over one is left open, so that only what a
-- map answers for a path is meant.
pub mod Lookup
pub mod Patch
use go_svn.Mergeinfo.{
  Rangelist, merge_rangelists, intersect_rangelists, remove_rangelist, reverse_ranges,
  inheritable_ranges,
}
use go_svn.Base.{
  Bool, true, false, Bool-cases, inl, inr, List, [], ◌∷◌, Bytes, equal, equal→eq, equal_refl,
  if◌then◌else◌,
}

abbrev pub Mergeinfo : Type 0
Mergeinfo = List (Bytes × Rangelist)

-- `info[path]`: nil where the path is missing.
unfoldable pub get : Bytes → Mergeinfo → Rangelist
get path [] = []
get path ((key, ranges) ∷ info) =
    let rest = get path info in if equal key path then ranges else rest

-- `info[path] = ranges`
unfoldable pub put : Bytes → Rangelist → Mergeinfo → Mergeinfo
put path ranges [] = (path, ranges) ∷ []
put path ranges ((key, old) ∷ info) =
    let rest = (key, old) ∷ put path ranges info in
    if equal key path then (key, ranges) ∷ info else rest

unfoldable pub has_key : Bytes → List Bytes → Bool
has_key path [] = false
has_key path (key ∷ keys) = let rest = has_key path keys in if equal key path then true else rest

-- `keys[key] = struct{}{}` for every key of a map.
unfoldable pub add_keys : Mergeinfo → List Bytes → List Bytes
add_keys [] keys = keys
add_keys ((key, _) ∷ info) keys = add_keys info (if has_key key keys then keys else key ∷ keys)

-- `if ranges := ...; len(ranges) > 0 { result[key] = ranges }`
abbrev pub put_some : Bytes → Rangelist → Mergeinfo → Mergeinfo
put_some path [] info = info
put_some path (item ∷ ranges) info = put path (item ∷ ranges) info

module _ (operation : Rangelist → Rangelist → Rangelist) (first second : Mergeinfo) where
  -- The last loop of `combineMergeinfo`.
  unfoldable pub combine_keys : List Bytes → Mergeinfo → Mergeinfo
  combine_keys [] result = result
  combine_keys (key ∷ keys) result =
      combine_keys keys (put_some key (operation (get key first) (get key second)) result)

  unfoldable pub combine_mergeinfo : Mergeinfo
  combine_mergeinfo = combine_keys (add_keys second (add_keys first [])) []

unfoldable pub merge : Mergeinfo → Mergeinfo → Mergeinfo
merge first second = combine_mergeinfo merge_rangelists first second

unfoldable pub intersect : Mergeinfo → Mergeinfo → (consider_inheritance : Bool) → Mergeinfo
intersect first second consider =
    combine_mergeinfo (λ a b. intersect_rangelists a b consider) first second

unfoldable pub remove : (eraser whiteboard : Mergeinfo) (consider_inheritance : Bool) → Mergeinfo
remove eraser whiteboard consider =
    combine_mergeinfo (λ a b. remove_rangelist b a consider) whiteboard eraser

unfoldable pub diff : (from to : Mergeinfo) (consider_inheritance : Bool) → Mergeinfo × Mergeinfo
diff from to consider = (remove to from consider, remove from to consider)

-- The loop of `ReverseMergeinfo`, with the result so far.
unfoldable pub reverse_mergeinfo_loop : Mergeinfo → Mergeinfo → Mergeinfo
reverse_mergeinfo_loop [] result = result
reverse_mergeinfo_loop ((path, ranges) ∷ info) result =
    reverse_mergeinfo_loop info (put path (reverse_ranges ranges) result)

unfoldable pub reverse_mergeinfo : Mergeinfo → Mergeinfo
reverse_mergeinfo info = reverse_mergeinfo_loop info []

-- The loop of `InheritableMergeinfo`.
unfoldable pub inheritable_mergeinfo_loop : Mergeinfo → Mergeinfo → Mergeinfo
inheritable_mergeinfo_loop [] result = result
inheritable_mergeinfo_loop ((path, ranges) ∷ info) result =
    inheritable_mergeinfo_loop info (put_some path (inheritable_ranges ranges) result)

unfoldable pub inheritable_mergeinfo : Mergeinfo → Mergeinfo
inheritable_mergeinfo info = inheritable_mergeinfo_loop info []

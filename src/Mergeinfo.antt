-- ===== src/Mergeinfo.antt =====
-- mergeinfo/mergeinfo.go: the algebra of range lists.
pub mod Value
pub mod Combine
pub mod Canonical
pub mod Locate
pub mod Meaning
pub mod Algebra
pub mod Paths
pub mod Unique
pub mod Equality
pub mod Patch
pub mod Text
pub mod Catalog
pub mod Revs
use go_svn.Base.Int.{eqb_ℤ, leb_ℤ, ltb_ℤ, pos, ℤ}
use go_svn.Base.{not, Bool, List, [], false, if◌then◌else◌, same, true, ◌&&◌, ◌++◌, ◌||◌, ◌∷◌}

-- A revision number is an int64.
pub record Range : Type 0 where
  pub start : ℤ
  pub end : ℤ
  pub inheritable : Bool

abbrev pub Rangelist : Type 0
Rangelist = List Range

-- `sort.Slice` by `<`.
unfoldable pub insert_sorted : ℤ → List ℤ → List ℤ
insert_sorted value [] = value ∷ []
insert_sorted value (first ∷ rest) =
    if ltb_ℤ first value then first ∷ insert_sorted value rest else value ∷ first ∷ rest

unfoldable pub sort : List ℤ → List ℤ
sort [] = []
sort (value ∷ values) = insert_sorted value (sort values)

-- The values that differ from the one kept last.
unfoldable pub unique_behind : ℤ → List ℤ → List ℤ
unique_behind last [] = []
unique_behind last (value ∷ values) =
    let kept = value ∷ unique_behind value values in
    let dropped = unique_behind last values in if eqb_ℤ last value then dropped else kept

unfoldable pub unique : List ℤ → List ℤ
unique [] = []
unique (value ∷ values) = value ∷ unique_behind value values

-- The last range is lengthened, if the new one continues it with the same inheritance.
unfoldable pub add_interval : Rangelist → (start end : ℤ) (inherited : Bool) → Rangelist
add_interval [] start end inherited =
    record { start = start; end = end; inheritable = inherited } ∷ []
add_interval (last ∷ []) start end inherited =
    if eqb_ℤ last.end start && same last.inheritable inherited
    then record last { end = end } ∷ []
    else last ∷ record { start = start; end = end; inheritable = inherited } ∷ []
add_interval (first ∷ second ∷ rest) start end inherited =
    first ∷ add_interval (second ∷ rest) start end inherited

-- The loop of `combine` over consecutive boundaries. The predicate answers whether an interval is
-- present and whether it is inheritable.
unfoldable pub combine_loop : List ℤ → (ℤ → ℤ → Bool × Bool) → Rangelist → Rangelist
combine_loop [] predicate result = result
combine_loop (start ∷ []) predicate result = result
combine_loop (start ∷ end ∷ rest) predicate result =
    let (present, inherited) = predicate start end in
    combine_loop (end ∷ rest) predicate
      (if present then add_interval result start end inherited else result)

unfoldable pub combine : List ℤ → (ℤ → ℤ → Bool × Bool) → Rangelist
combine boundaries predicate = combine_loop (unique (sort boundaries)) predicate []

-- `Normalize`: its boundaries and its predicate.
unfoldable pub normalize_boundaries : Rangelist → List ℤ
normalize_boundaries [] = []
normalize_boundaries (item ∷ ranges) =
    if ltb_ℤ item.start (pos 0) || leb_ℤ item.end item.start
    then normalize_boundaries ranges
    else item.start ∷ item.end ∷ normalize_boundaries ranges

unfoldable pub any_covering : Rangelist → (start end : ℤ) → Bool × Bool
any_covering [] start end = (false, false)
any_covering (item ∷ ranges) start end =
    let (present, inheritable) = any_covering ranges start end in
    if leb_ℤ item.start start && leb_ℤ end item.end
    then (true, item.inheritable || inheritable)
    else (present, inheritable)

unfoldable pub normalize : Rangelist → Rangelist
normalize ranges = combine (normalize_boundaries ranges) (any_covering ranges)

-- The loop of `covers`, over the normalized ranges.
unfoldable pub first_covering : Rangelist → (start end : ℤ) → Bool × Bool
first_covering [] start end = (false, false)
first_covering (item ∷ ranges) start end =
    if leb_ℤ item.start start && leb_ℤ end item.end
    then (true, item.inheritable)
    else first_covering ranges start end

unfoldable pub covers : Rangelist → (start end : ℤ) → Bool × Bool
covers ranges start end = first_covering (normalize ranges) start end

unfoldable pub endpoints : Rangelist → List ℤ
endpoints [] = []
endpoints (item ∷ ranges) = item.start ∷ item.end ∷ endpoints ranges

unfoldable pub collect_boundaries : Rangelist → Rangelist → List ℤ
collect_boundaries first second = endpoints (normalize first) ++ endpoints (normalize second)

-- The verdicts of the three operations on what two lists say of an interval.
abbrev pub merge_verdict : Bool × Bool → Bool × Bool → Bool × Bool
merge_verdict (pa, ia) (pb, ib) = (pa || pb, ia || ib)

abbrev pub intersect_verdict : Bool → Bool × Bool → Bool × Bool → Bool × Bool
intersect_verdict consider (pa, ia) (pb, ib) =
    if consider && not (same ia ib) then (false, false) else (pa && pb, ia || ib)

abbrev pub remove_verdict : Bool → Bool × Bool → Bool × Bool → Bool × Bool
remove_verdict consider (erase, erase_inherited) (white, white_inherited) = (
  white && not (if consider && not (same white_inherited erase_inherited) then false else erase),
  white_inherited,
)

unfoldable pub merge_rangelists : Rangelist → Rangelist → Rangelist
merge_rangelists first second =
    combine (collect_boundaries first second)
      (λ start end. merge_verdict (covers first start end) (covers second start end))

unfoldable pub intersect_rangelists :
    Rangelist → Rangelist → (consider_inheritance : Bool) → Rangelist
intersect_rangelists first second consider =
    combine (collect_boundaries first second)
      (λ start end. intersect_verdict consider (covers first start end) (covers second start end))

unfoldable pub remove_rangelist :
    (eraser whiteboard : Rangelist) (consider_inheritance : Bool) → Rangelist
remove_rangelist eraser whiteboard consider =
    combine (collect_boundaries eraser whiteboard)
      (λ start end. remove_verdict consider (covers eraser start end) (covers whiteboard start end))

unfoldable pub diff_rangelists :
    (from to : Rangelist) (consider_inheritance : Bool) → Rangelist × Rangelist
diff_rangelists from to consider =
    (remove_rangelist to from consider, remove_rangelist from to consider)

unfoldable pub reverse_ranges : Rangelist → Rangelist
reverse_ranges [] = []
reverse_ranges (item ∷ ranges) =
    reverse_ranges ranges
    ++ (record { start = item.end; end = item.start; inheritable = item.inheritable } ∷ [])

unfoldable pub only_inheritable : Rangelist → Rangelist
only_inheritable [] = []
only_inheritable (item ∷ ranges) =
    if item.inheritable then item ∷ only_inheritable ranges else only_inheritable ranges

unfoldable pub inheritable_ranges : Rangelist → Rangelist
inheritable_ranges ranges = only_inheritable (normalize ranges)

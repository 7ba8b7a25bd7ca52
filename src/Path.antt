-- ===== src/Path.antt =====
-- svn/path/common.go, svn/path/relpath.go and svn/path/fspath.go: the paths of a working copy and of
-- a repository. A string is the list of its bytes; a pair of a string and false is none.
pub mod Segments
pub mod Ancestor
pub mod Longest
use go_svn.Checksum.{has_prefix}
use go_svn.Base.{
  ℕ, zero, suc, ◌+◌, ◌-◌, Bool, true, false, not, ◌&&◌, ◌||◌, List, [], ◌∷◌, ◌++◌, Bytes, equal,
  ◌==◌, ltb, if◌then◌else◌, length, take, drop, Option, none, some,
}

-- `strings.Split(value, "/")`, by the byte `separator`.
abbrev pub cons_head : ℕ → List Bytes → List Bytes
cons_head c [] = (c ∷ []) ∷ []
cons_head c (part ∷ parts) = (c ∷ part) ∷ parts

unfoldable pub split : (separator : ℕ) → Bytes → List Bytes
split separator [] = [] ∷ []
split separator (c ∷ value) =
    let parts = split separator value in if c == separator then [] ∷ parts else cons_head c parts

-- `strings.Join(parts, "/")`
unfoldable pub join : (separator : ℕ) → List Bytes → Bytes
join separator [] = []
join separator (part ∷ []) = part
join separator (part ∷ (next ∷ parts)) = part ++ (separator ∷ join separator (next ∷ parts))

-- `strings.HasSuffix(value, "/")`
unfoldable pub ends_with_slash : Bytes → Bool
ends_with_slash [] = false
ends_with_slash (c ∷ []) = c == 47
ends_with_slash (c ∷ (d ∷ value)) = ends_with_slash (d ∷ value)

-- `strings.TrimLeft(value, "/")`
unfoldable pub trim_slashes : Bytes → Bytes
trim_slashes [] = []
trim_slashes (c ∷ value) = let rest = trim_slashes value in if c == 47 then rest else c ∷ value

-- `strings.LastIndexByte`, where none is -1.
unfoldable pub last_index_byte : Bytes → (byte : ℕ) → Option ℕ
last_index_byte [] byte = none
last_index_byte (c ∷ value) byte = elim (last_index_byte value byte) [
  | some index ↦ some (suc index)
  | none ↦ if c == byte then some 0 else none
]

-- A part that `canonicalComponents` leaves out.
abbrev pub is_left_out : Bytes → Bool
is_left_out [] = true
is_left_out (c ∷ []) = c == 46
is_left_out (c ∷ (d ∷ part)) = false

-- Its loop over the parts.
unfoldable pub kept_parts : List Bytes → List Bytes
kept_parts [] = []
kept_parts (part ∷ parts) =
    let kept = kept_parts parts in if is_left_out part then kept else part ∷ kept

unfoldable pub canonical_components : (value : Bytes) (absolute : Bool) → Bytes
canonical_components value absolute =
    let result = join 47 (kept_parts (split 47 value)) in if absolute then 47 ∷ result else result

-- `joinCanonical` with one component, which its loop repeats.
unfoldable pub join_canonical : (result component : Bytes) → Bytes
join_canonical result [] = result
join_canonical [] (c ∷ component) = c ∷ component
join_canonical (b ∷ result) (c ∷ component) =
    if ends_with_slash (b ∷ result)
    then (b ∷ result) ++ (c ∷ component)
    else (b ∷ result) ++ (47 ∷ (c ∷ component))

unfoldable pub split_path : (value root : Bytes) → Bytes × Bytes
split_path value root =
    if equal value root || equal value [] then (value, []) else elim (last_index_byte value 47) [
      | none ↦ (root, value)
      | some index ↦
          if ltb index (length root)
          then (root, drop (length root) value)
          else if index == 0
          then (47 ∷ [], drop 1 value)
          else (take index value, drop (index + 1) value)
    ]

unfoldable pub skip_ancestor : (parent child : Bytes) → Option Bytes
skip_ancestor parent child =
    if equal parent child
    then some []
    else if equal parent []
    then (if has_prefix child (47 ∷ []) then none else some child)
    else (let prefix = if ends_with_slash parent then parent else parent ++ (47 ∷ []) in
        if has_prefix child prefix then some (drop (length prefix) child) else none)

abbrev pub is_some {ℓ} : {A : Type ℓ} → Option A → Bool
is_some none = false
is_some (some a) = true

-- The loop of `longestAncestor`. A directory's name is shorter than the path's, so that the length
-- of the path is fuel enough.
unfoldable pub longest_ancestor :
    (dirname : Bytes → Bytes) (fuel : ℕ) (candidate second : Bytes) → Option Bytes
longest_ancestor dirname zero candidate second = none
longest_ancestor dirname (suc fuel) candidate second =
    let parent = dirname candidate in
    let next = longest_ancestor dirname fuel parent second in
    if is_some (skip_ancestor candidate second)
    then some candidate
    else if equal parent candidate
    then some []
    else next

unfoldable pub relpath_canonicalize : Bytes → Bytes
relpath_canonicalize value = canonical_components (trim_slashes value) false

unfoldable pub relpath_is_canonical : Bytes → Bool
relpath_is_canonical value =
    not (has_prefix value (47 ∷ [])) && equal value (relpath_canonicalize value)

-- The loop of `RelpathJoin`.
unfoldable pub relpath_join_loop : (result : Bytes) (components : List Bytes) → Bytes
relpath_join_loop result [] = result
relpath_join_loop result (component ∷ components) =
    relpath_join_loop (join_canonical result (relpath_canonicalize component)) components

unfoldable pub relpath_join : (base : Bytes) (components : List Bytes) → Bytes
relpath_join base components = relpath_join_loop (relpath_canonicalize base) components

unfoldable pub relpath_split : Bytes → Bytes × Bytes
relpath_split value = split_path (relpath_canonicalize value) []

unfoldable pub relpath_dirname : Bytes → Bytes
relpath_dirname value = (relpath_split value).0

unfoldable pub relpath_basename : Bytes → Bytes
relpath_basename value = (relpath_split value).1

unfoldable pub relpath_skip_ancestor : (parent child : Bytes) → Option Bytes
relpath_skip_ancestor parent child =
    skip_ancestor (relpath_canonicalize parent) (relpath_canonicalize child)

unfoldable pub relpath_is_ancestor : (parent child : Bytes) → Bool
relpath_is_ancestor parent child = is_some (relpath_skip_ancestor parent child)

unfoldable pub relpath_longest_ancestor : (first second : Bytes) → Option Bytes
relpath_longest_ancestor first second =
    let path = relpath_canonicalize first in
    longest_ancestor relpath_dirname (suc (length path)) path (relpath_canonicalize second)

unfoldable pub fspath_canonicalize : Bytes → Bytes
fspath_canonicalize value = canonical_components (47 ∷ trim_slashes value) true

unfoldable pub fspath_is_canonical : Bytes → Bool
fspath_is_canonical value = has_prefix value (47 ∷ []) && equal value (fspath_canonicalize value)

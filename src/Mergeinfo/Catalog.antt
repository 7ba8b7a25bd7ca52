-- ===== src/Mergeinfo/Catalog.antt =====
-- mergeinfo/mergeinfo.go: catalogs, the maps from paths to mergeinfo, and `ToRevs`. A copy of a map or
-- of a slice is the value itself.
use go_svn.Mergeinfo.{Range, Rangelist, normalize}
use go_svn.Mergeinfo.Paths.{Mergeinfo, merge}
use go_svn.Mergeinfo.Text.{next_int64}
use go_svn.Base.Outcome.{Outcome, ok, out_of_fuel, ◌>>=◌}
use go_svn.Base.Int.{ℤ, pos_part, neg_part, leb_ℤ}
use go_svn.Base.{
  ℕ, zero, suc, ◌+◌, ◌-◌, ◌≡◌, ◌∙◌, refl, Bool, true, false, Bool-cases, inl, inr, List, [], ◌∷◌,
  ◌++◌, Bytes, equal, equal→eq, equal_refl, if◌then◌else◌, All,
}

abbrev pub Catalog : Type 0
Catalog = List (Bytes × Mergeinfo)

-- `catalog[path]`: nil where the path is missing.
unfoldable pub info_at : Bytes → Catalog → Mergeinfo
info_at path [] = []
info_at path ((key, info) ∷ catalog) =
    let rest = info_at path catalog in if equal key path then info else rest

-- `catalog[path] = info`
unfoldable pub put_info : Bytes → Mergeinfo → Catalog → Catalog
put_info path info [] = (path, info) ∷ []
put_info path info ((key, old) ∷ catalog) =
    let rest = (key, old) ∷ put_info path info catalog in
    if equal key path then (key, info) ∷ catalog else rest

-- `MergeCatalogs`, with the loop over the second one.
unfoldable pub merge_catalogs : Catalog → Catalog → Catalog
merge_catalogs result [] = result
merge_catalogs result ((path, info) ∷ second) =
    merge_catalogs (put_info path (merge (info_at path result) info) result) second

-- The loop of `ToRevs` over the revisions of a range. One more round than the range is long finds its
-- end, but for a range that ends in the largest `int64`: the revision behind that one wraps around, and
-- the loop does not end.
unfoldable pub revs_loop : (fuel : ℕ) (revision end : ℤ) → Outcome (List ℤ)
revs_loop zero revision end = out_of_fuel
revs_loop (suc fuel) revision end =
    let rest = revs_loop fuel (next_int64 revision) end in
    if leb_ℤ revision end then (do revisions ← rest; ok (revision ∷ revisions)) else ok []

unfoldable pub range_revs : Range → Outcome (List ℤ)
range_revs item =
    let length =
      pos_part item.end + neg_part item.start - (pos_part item.start + neg_part item.end) in
    revs_loop (suc length) (next_int64 item.start) item.end

unfoldable pub all_revs : Rangelist → Outcome (List ℤ)
all_revs [] = ok []
all_revs (item ∷ ranges) = do
  revisions ← range_revs item
  rest ← all_revs ranges
  ok (revisions ++ rest)

unfoldable pub to_revs : Rangelist → Outcome (List ℤ)
to_revs ranges = all_revs (normalize ranges)

equal_flip : (a b : Bytes) → equal a b ≡ false → equal b a ≡ false
equal_flip a b e = elim (Bool-cases (equal b a)) [
  | inl h ↦ let same = equal→eq b a h in cc (rw same at e, equal_refl a)
  | inr h ↦ h
]

put_info-get :
    (path key : Bytes) (info : Mergeinfo) (catalog : Catalog)
    → info_at key (put_info path info catalog)
      ≡ (if equal path key then info else info_at key catalog)
unfolding info_at put_info
put_info-get path key info [] = refl
put_info-get path key info ((k, old) ∷ catalog) = elim (Bool-cases (equal k path)) [
  | inl e ↦
      let same = equal→eq k path e in
      elim (Bool-cases (equal path key)) [
        | inl h ↦ rw (e, same, h) refl
        | inr h ↦ rw (e, same, h) refl
      ]
  | inr e ↦ elim (Bool-cases (equal k key)) [
    | inl h ↦
        let same = equal→eq k key h in
        let other : equal path key ≡ false = equal_flip key path (rw same at e) in
        rw (e, h, other) refl
    | inr h ↦ rw (e, h) (put_info-get path key info catalog)
  ]
]

-- The paths of a catalog differ.
abbrev pub AreDistinct : Catalog → Type 0
AreDistinct [] = Unit
AreDistinct ((path, info) ∷ catalog) =
    All (λ e. equal path e.0 ≡ false) catalog × AreDistinct catalog

not_there :
    (path : Bytes) (second result : Catalog)
    → All (λ e. equal path e.0 ≡ false) second
    → info_at path (merge_catalogs result second) ≡ info_at path result
unfolding merge_catalogs
not_there path [] result h = refl
not_there path ((key, info) ∷ second) result (e, h) =
    not_there path second (put_info key (merge (info_at key result) info) result) h
    ∙ put_info-get key path (merge (info_at key result) info) result
    ∙ rw (equal_flip path key e) refl

abbrev pub has_path : Bytes → Catalog → Bool
has_path path [] = false
has_path path ((key, info) ∷ catalog) = if equal key path then true else has_path path catalog

-- For catalogs, the paths of the second one different: `MergeCatalogs` answers for a path of the
-- second one with what `Merge` makes of what both hold there, and for any other path with what the
-- first one holds.
pub info_at-merge_catalogs :
    (path : Bytes) (first second : Catalog)
    → AreDistinct second
    → info_at path (merge_catalogs first second) ≡ (
        if has_path path second
        then merge (info_at path first) (info_at path second)
        else info_at path first)
unfolding merge_catalogs info_at
info_at-merge_catalogs path first [] h = refl
info_at-merge_catalogs path first ((key, info) ∷ second) (apart, h) =
    let merged = merge (info_at key first) info in
    elim (Bool-cases (equal key path)) [
      | inl e ↦
          let same = equal→eq key path e in
          let here : info_at path (put_info key merged first) ≡ merge (info_at path first) info =
            put_info-get key path merged first ∙ rw (e, same) refl in
          rw e (not_there path second (put_info key merged first) (rw same at apart) ∙ here)
      | inr e ↦
          let there : info_at path (put_info key merged first) ≡ info_at path first =
            put_info-get key path merged first ∙ rw e refl in
          rw (e, ← there) (info_at-merge_catalogs path (put_info key merged first) second h)
    ]

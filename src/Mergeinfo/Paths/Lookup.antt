-- ===== src/Mergeinfo/Paths/Lookup.antt =====
-- The operations on whole mergeinfo of mergeinfo/mergeinfo.go, path by path.
use go_svn.Mergeinfo.{
  Rangelist, merge_rangelists, intersect_rangelists, remove_rangelist, collect_boundaries, combine,
  endpoints, normalize, normalize_boundaries, unique, sort, combine_loop,
}
use go_svn.Mergeinfo.Paths.{
  Mergeinfo, get, put, put_some, has_key, add_keys, combine_keys, combine_mergeinfo, merge,
  intersect, remove,
}
use go_svn.Base.{
  ◌≡◌, refl, sym, ◌∙◌, Bool, true, false, Bool-cases, inl, inr, List, [], ◌∷◌, Bytes, equal,
  equal→eq, equal_refl,
}

get-put_same :
    (path : Bytes) (ranges : Rangelist) (info : Mergeinfo)
    → get path (put path ranges info) ≡ ranges
unfolding get put
get-put_same path ranges [] = rw (equal_refl path)
get-put_same path ranges ((key, old) ∷ info) = elim (Bool-cases (equal key path)) [
  | inl e ↦ rw (e, e)
  | inr e ↦ rw (e, e) (get-put_same path ranges info)
]

get-put_other :
    (path other : Bytes) (ranges : Rangelist) (info : Mergeinfo)
    → equal other path ≡ false
    → get path (put other ranges info) ≡ get path info
unfolding get put
get-put_other path other ranges [] d = rw d
get-put_other path other ranges ((key, old) ∷ info) d = elim (Bool-cases (equal key other)) [
  | inl e ↦ let apart : equal key path ≡ false = rw (equal→eq key other e) d in rw (e, apart)
  | inr e ↦ rw (e, get-put_other path other ranges info d)
]

get-put_some_same :
    (path : Bytes) (ranges : Rangelist) (info : Mergeinfo)
    → get path info ≡ []
    → get path (put_some path ranges info) ≡ ranges
get-put_some_same path [] info h = h
get-put_some_same path (item ∷ ranges) info h = get-put_same path (item ∷ ranges) info

get-put_some_again :
    (path : Bytes) (ranges : Rangelist) (info : Mergeinfo)
    → get path info ≡ ranges
    → get path (put_some path ranges info) ≡ ranges
get-put_some_again path [] info h = h
get-put_some_again path (item ∷ ranges) info h = get-put_same path (item ∷ ranges) info

get-put_some_other :
    (path other : Bytes) (ranges : Rangelist) (info : Mergeinfo)
    → equal other path ≡ false
    → get path (put_some other ranges info) ≡ get path info
get-put_some_other path other [] info d = refl
get-put_some_other path other (item ∷ ranges) info d =
    get-put_other path other (item ∷ ranges) info d

has_key-add_keys :
    (path : Bytes) (info : Mergeinfo) (keys : List Bytes)
    → has_key path (add_keys info keys) ≡ false
    → (get path info ≡ []) × (has_key path keys ≡ false)
unfolding has_key add_keys get
has_key-add_keys path [] keys h = (refl, h)
has_key-add_keys path ((key, ranges) ∷ info) keys h =
    let (rest, none_left) = has_key-add_keys path info _ h in
    elim (Bool-cases (has_key key keys)) [
      | inl e ↦
          let left : has_key path keys ≡ false = rw e at none_left in
          elim (Bool-cases (equal key path)) [
            | inl same ↦ cc (rw (equal→eq key path same) at e, left)
            | inr apart ↦ (rw apart rest, left)
          ]
      | inr e ↦
          let left : has_key path (key ∷ keys) ≡ false = rw e at none_left in
          elim (Bool-cases (equal key path)) [
            | inl same ↦ cc (rw same at left)
            | inr apart ↦ (rw apart rest, rw apart at left)
          ]
    ]

-- What the loop of `combineMergeinfo` answers for a path, by what the result so far answers.
module _ (operation : Rangelist → Rangelist → Rangelist) (first second : Mergeinfo)
    (path : Bytes) where
  abbrev combined : Rangelist
  combined = operation (get path first) (get path second)

  get-combine_keys_done :
      (keys : List Bytes) (result : Mergeinfo)
      → get path result ≡ combined
      → get path (combine_keys operation first second keys result) ≡ combined
  unfolding combine_keys
  get-combine_keys_done [] result h = h
  get-combine_keys_done (key ∷ keys) result h = elim (Bool-cases (equal key path)) [
    | inl same ↦
        get-combine_keys_done keys _
          (rw (equal→eq key path same) (get-put_some_again path combined result h))
    | inr apart ↦ get-combine_keys_done keys _ (get-put_some_other path key _ result apart ∙ h)
  ]

  get-combine_keys :
      (keys : List Bytes) (result : Mergeinfo)
      → get path result ≡ []
      → has_key path keys ≡ true
      → get path (combine_keys operation first second keys result) ≡ combined
  unfolding combine_keys has_key
  get-combine_keys [] result h k = cc
  get-combine_keys (key ∷ keys) result h k = elim (Bool-cases (equal key path)) [
    | inl same ↦
        get-combine_keys_done keys _
          (rw (equal→eq key path same) (get-put_some_same path combined result h))
    | inr apart ↦
        get-combine_keys keys _ (get-put_some_other path key _ result apart ∙ h) (rw apart at k)
  ]

  get-combine_keys_missing :
      (keys : List Bytes) (result : Mergeinfo)
      → get path result ≡ []
      → has_key path keys ≡ false
      → get path (combine_keys operation first second keys result) ≡ []
  unfolding combine_keys has_key
  get-combine_keys_missing [] result h k = h
  get-combine_keys_missing (key ∷ keys) result h k = elim (Bool-cases (equal key path)) [
    | inl same ↦ cc (rw same at k)
    | inr apart ↦
        get-combine_keys_missing keys _ (get-put_some_other path key _ result apart ∙ h)
          (rw apart at k)
  ]

  get-combine_mergeinfo :
      operation [] [] ≡ [] → get path (combine_mergeinfo operation first second) ≡ combined
  unfolding combine_mergeinfo get
  get-combine_mergeinfo nothing =
      elim (Bool-cases (has_key path (add_keys second (add_keys first [])))) [
        | inl e ↦ get-combine_keys _ [] refl e
        | inr e ↦
            let (in_second, e') = has_key-add_keys path second (add_keys first []) e in
            let (in_first, _) = has_key-add_keys path first [] e' in
            get-combine_keys_missing _ [] refl e ∙ rw (in_first, in_second) (sym nothing)
      ]

module _ (first second : Mergeinfo) (path : Bytes) (consider : Bool) where
  -- `Merge`, `Intersect` and `Remove` on whole mergeinfo are the operation on the range lists of every
  -- path, where a path that a map lacks has no ranges.
  pub get-operations :
      (get path (merge first second) ≡ merge_rangelists (get path first) (get path second))
      × (get path (intersect first second consider)
          ≡ intersect_rangelists (get path first) (get path second) consider)
      × (get path (remove first second consider)
          ≡ remove_rangelist (get path first) (get path second) consider)
  unfolding merge intersect remove merge_rangelists intersect_rangelists remove_rangelist
      collect_boundaries combine endpoints normalize normalize_boundaries unique sort combine_loop
  get-operations = (
    get-combine_mergeinfo _ first second path refl,
    get-combine_mergeinfo _ first second path refl,
    get-combine_mergeinfo _ second first path refl,
  )

-- ===== src/Mergeinfo/Text/Entry.antt =====
-- One line of the text of mergeinfo/mergeinfo.go.
use go_svn.Mergeinfo.{Range, Rangelist, normalize, merge_rangelists}
use go_svn.Mergeinfo.Canonical.{IsCanonical}
use go_svn.Mergeinfo.Algebra.{value-merge_rangelists}
use go_svn.Mergeinfo.Equality.{normalize_unique, merge_rangelists-IsCanonical}
use go_svn.Mergeinfo.Unique.{canonical_unique}
use go_svn.Mergeinfo.Value.{value}
use go_svn.Mergeinfo.Paths.{Mergeinfo, get, put}
use go_svn.Mergeinfo.Text.Ranges.{
  AreRanges, Nonneg-ranges, rangelist_string-plain, rangelist_string-All,
  parse_rangelist-rangelist_string,
}
use go_svn.Mergeinfo.Text.{
  rangelist_string, is_ascii_space, trim_left, trim_right, trim_space, is_empty_text, insert_path,
  sort_paths, lines_of, has_dot_segment, parse_entry, parse_line, parse_rangelist,
}
use go_svn.Path.{last_index_byte, fspath_is_canonical}
use go_svn.Checksum.{has_prefix}
use go_svn.Path.Ancestor.{has_prefix-drop}
use go_svn.Path.Longest.{last_index-append}
use go_svn.Hashfile.{before}
use go_svn.Hashfile.Overlay.{before_asym}
use go_svn.Base.Outcome.{ok}
use go_svn.Base.{
  ℕ, suc, ◌+◌, ◌≡◌, refl, sym, ap, ◌∙◌, Bool, true, false, ◌&&◌, List, [], ◌∷◌, ◌++◌, Bytes, ◌==◌,
  equal, length, length-append, drop, take-append_seam, drop-append_seam, some, All, All-append,
  arith, append_assoc, Bool-cases, inl, inr,
}
use go_svn.Mergeinfo.Text.Scan.{mark_facts, trim_right_plain}

-- A path that `Parse` accepts, without line breaks, and ranges in normal form.
abbrev pub IsEntry : Bytes → Rangelist → Type 0
IsEntry path [] = ⊥
IsEntry path (item ∷ ranges) =
    (fspath_is_canonical path ≡ true)
    × (has_dot_segment path ≡ false)
    × All (λ c. ((c == 10) ≡ false) × ((c == 13) ≡ false)) path
    × AreRanges (item ∷ ranges)
    × IsCanonical (item ∷ ranges)

-- The entries are such, in the order of their paths.
abbrev pub IsInfo : Mergeinfo → Type 0
IsInfo [] = Unit
IsInfo ((path, ranges) ∷ info) =
    IsEntry path ranges × All (λ e. before path e.0 ≡ true) info × IsInfo info

abbrev pub line : Bytes → Rangelist → Bytes
line path ranges = path ++ (58 ∷ rangelist_string ranges)

abbrev pub all_lines : Mergeinfo → List Bytes
all_lines [] = []
all_lines ((path, ranges) ∷ info) = line path ranges ∷ all_lines info

normal :
    (item : Range) (ranges : Rangelist) (path : Bytes)
    → IsEntry path (item ∷ ranges)
    → normalize (item ∷ ranges) ≡ item ∷ ranges
normal item ranges path (_, _, _, h, canonical) =
    let nonneg = Nonneg-ranges (item ∷ ranges) h in
    (normalize_unique (item ∷ ranges) (item ∷ ranges) (item ∷ ranges) nonneg nonneg canonical
      (λ x. refl) (λ x. refl)).1

insert_path-first :
    (path : Bytes) (ranges : Rangelist) (info : Mergeinfo)
    → All (λ e. before path e.0 ≡ true) info
    → insert_path (path, ranges) info ≡ (path, ranges) ∷ info
unfolding insert_path
insert_path-first path ranges [] h = refl
insert_path-first path ranges ((key, old) ∷ info) (b, h) =
    let (later, _) = before_asym path key b in rw later refl

pub sort_paths-sorted : (info : Mergeinfo) → IsInfo info → sort_paths info ≡ info
unfolding sort_paths
sort_paths-sorted [] h = refl
sort_paths-sorted ((path, ranges) ∷ info) (_, b, h) =
    rw (sort_paths-sorted info h) (insert_path-first path ranges info b)

pub lines_of-all : (info : Mergeinfo) → IsInfo info → lines_of info ≡ all_lines info
unfolding lines_of
lines_of-all [] h = refl
lines_of-all ((path, []) ∷ info) (e, _, h) = absurd e
lines_of-all ((path, item ∷ ranges) ∷ info) (e, _, h) =
    rw (normal item ranges path e, lines_of-all info h) refl

-- A line has no space around it.
trim_right-append :
    (a : Bytes) (c : ℕ) (b : Bytes)
    → All (λ c. is_ascii_space c ≡ false) (c ∷ b)
    → trim_right (a ++ (c ∷ b)) ≡ a ++ (c ∷ b)
unfolding trim_right
trim_right-append [] c b h = trim_right_plain (c ∷ b) h
trim_right-append (x ∷ []) c b h = rw (trim_right_plain (c ∷ b) h) refl
trim_right-append (x ∷ (y ∷ a)) c b h = rw (trim_right-append (y ∷ a) c b h) refl

canonical_cons :
    (path : Bytes) → fspath_is_canonical path ≡ true → (rest : Bytes) × (path ≡ 47 ∷ rest)
unfolding fspath_is_canonical
canonical_cons path h =
    let prefix : has_prefix path (47 ∷ []) ≡ true = ground arith in
    (drop 1 path, has_prefix-drop path (47 ∷ []) prefix)

trim_left-slash : (rest : Bytes) → trim_left (47 ∷ rest) ≡ 47 ∷ rest
unfolding trim_left
trim_left-slash rest = refl

trim_space-line :
    (path : Bytes) (item : Range) (ranges : Rangelist)
    → IsEntry path (item ∷ ranges)
    → trim_space (line path (item ∷ ranges)) ≡ line path (item ∷ ranges)
trim_space-line path item ranges (canonical, _, _, h, _) =
    let text = rangelist_string (item ∷ ranges) in
    let (rest, e) = canonical_cons path canonical in
    let left : trim_left (path ++ (58 ∷ text)) ≡ path ++ (58 ∷ text) =
      rw e (trim_left-slash (rest ++ (58 ∷ text))) in
    rw left (trim_right-append path 58 text (refl, rangelist_string-plain (item ∷ ranges) h))

pub no_break :
    (path : Bytes) (item : Range) (ranges : Rangelist)
    → IsEntry path (item ∷ ranges)
    → All (λ c. ((c == 10) ≡ false) × ((c == 13) ≡ false)) (line path (item ∷ ranges))
no_break path item ranges (_, _, p, h, _) =
    All-append _ path (58 ∷ rangelist_string (item ∷ ranges)) p (
      (refl, refl),
      rangelist_string-All _ (λ c m. let (_, _, _, a, b) = mark_facts c m in (a, b)) (refl, refl)
          (item ∷ ranges) h,
    )

-- A path that the map lacks is put behind the others.
abbrev pub Absent : Bytes → Mergeinfo → Type 0
Absent path done = All (λ e. equal e.0 path ≡ false) done

get-Absent : (path : Bytes) (done : Mergeinfo) → Absent path done → get path done ≡ []
unfolding get
get-Absent path [] h = refl
get-Absent path ((key, ranges) ∷ done) (e, h) = rw e (get-Absent path done h)

put-Absent :
    (path : Bytes) (ranges : Rangelist) (done : Mergeinfo)
    → Absent path done
    → put path ranges done ≡ done ++ ((path, ranges) ∷ [])
unfolding put
put-Absent path ranges [] h = refl
put-Absent path ranges ((key, old) ∷ done) (e, h) =
    rw e (ap (λ t. (key, old) ∷ t) (put-Absent path ranges done h))

merge_rangelists-nil :
    (item : Range) (ranges : Rangelist) (path : Bytes)
    → IsEntry path (item ∷ ranges)
    → merge_rangelists [] (item ∷ ranges) ≡ item ∷ ranges
unfolding value
merge_rangelists-nil item ranges path (_, _, _, h, canonical) =
    let list = item ∷ ranges in
    canonical_unique (merge_rangelists [] list) list (merge_rangelists-IsCanonical [] list)
      canonical (λ x. value-merge_rangelists [] list x tt (Nonneg-ranges list h))

and_false : (b : Bool) → (b && false) ≡ false
and_false true = refl
and_false false = refl

text_there :
    (item : Range) (ranges : Rangelist)
    → AreRanges (item ∷ ranges)
    → IsCanonical (item ∷ ranges)
    → is_empty_text (trim_space (rangelist_string (item ∷ ranges))) ≡ false
unfolding parse_rangelist
text_there item ranges h canonical =
    let read = parse_rangelist-rangelist_string item ranges h canonical in
    elim (Bool-cases (is_empty_text (trim_space (rangelist_string (item ∷ ranges))))) [
      | inl e ↦ cc (rw e at read)
      | inr e ↦ e
    ]

parse_entry-entry :
    (path : Bytes) (item : Range) (ranges : Rangelist) (done : Mergeinfo)
    → IsEntry path (item ∷ ranges)
    → Absent path done
    → parse_entry path (rangelist_string (item ∷ ranges)) done
      ≡ ok (done ++ ((path, item ∷ ranges) ∷ []))
unfolding parse_entry
parse_entry-entry path item ranges done entry fresh =
    let (canonical, dots, _, h, normal_form) = entry in
    rw
      (
        canonical,
        dots,
        text_there item ranges h normal_form,
        and_false (equal path (47 ∷ [])),
        parse_rangelist-rangelist_string item ranges h normal_form,
        get-Absent path done fresh,
        merge_rangelists-nil item ranges path entry,
        put-Absent path (item ∷ ranges) done fresh,
      )
      refl

-- A line is cut at its last colon.
parse_line-cut :
    (path text : Bytes) (done : Mergeinfo)
    → (rest : Bytes) × (path ≡ 47 ∷ rest)
    → All (λ c. (c == 58) ≡ false) text
    → parse_line (path ++ (58 ∷ text)) done ≡ parse_entry path text done
unfolding parse_line
parse_line-cut path text done (rest, e) h =
    let index : last_index_byte (47 ∷ (rest ++ (58 ∷ text))) 58 ≡ some (suc (length rest)) =
      last_index-append 58 (47 ∷ rest) text h in
    let shape : rest ++ (58 ∷ text) ≡ (rest ++ (58 ∷ [])) ++ text =
      sym (append_assoc rest (58 ∷ []) text) in
    let size : length (rest ++ (58 ∷ [])) ≡ length rest + 1 = length-append rest (58 ∷ []) in
    let behind : drop (length rest + 1) (rest ++ (58 ∷ text)) ≡ text =
      rw (shape, ← size) (drop-append_seam (rest ++ (58 ∷ [])) text) in
    let one_more : suc (length rest) + 1 ≡ suc (length rest + 1) = omega arith in
    let behind' : drop (suc (length rest) + 1) (47 ∷ (rest ++ (58 ∷ text))) ≡ text =
      rw one_more behind in
    rw (e, parse_line, index, take-append_seam rest (58 ∷ text), behind') refl

pub parse_line-line :
    (path : Bytes) (item : Range) (ranges : Rangelist) (done : Mergeinfo)
    → IsEntry path (item ∷ ranges)
    → Absent path done
    → parse_line (trim_space (line path (item ∷ ranges))) done
      ≡ ok (done ++ ((path, item ∷ ranges) ∷ []))
parse_line-line path item ranges done entry fresh =
    let (canonical, _, _, h, _) = entry in
    let no_colon =
      rangelist_string-All (λ c. (c == 58) ≡ false) (λ c m. (mark_facts c m).2) refl (item ∷ ranges)
        h in
    rw (trim_space-line path item ranges entry) (
      parse_line-cut path (rangelist_string (item ∷ ranges)) done (canonical_cons path canonical)
        no_colon
      ∙ parse_entry-entry path item ranges done entry fresh)

-- ===== src/Mergeinfo/Text/Lines.antt =====
-- `Parse` of mergeinfo/mergeinfo.go behind `String`.
use go_svn.Mergeinfo.{Rangelist}
use go_svn.Mergeinfo.Paths.{Mergeinfo}
use go_svn.Mergeinfo.Text.{
  trim_left, trim_right, mergeinfo_string, replace_crlf, parse_line, parse_lines, parse_mergeinfo,
}
use go_svn.Path.{split, last_index_byte, fspath_is_canonical}
use go_svn.Path
use go_svn.Path.Segments.{split-join, All-join}
use go_svn.Hashfile.{before}
use go_svn.Hashfile.Overlay.{before_asym}
use go_svn.Base.Outcome.{ok}
use go_svn.Base.{
  ◌≡◌, refl, ap, ◌∙◌, true, false, [], ◌∷◌, ◌++◌, Bytes, ◌==◌, equal, equal→eq, equal_refl, All,
  All-append, append_assoc, append-nil, Bool-cases, inl, inr,
}
use go_svn.Mergeinfo.Text.Entry.{
  IsInfo, line, all_lines, sort_paths-sorted, lines_of-all, no_break, Absent, parse_line-line,
}

-- The map lacks the paths of all the entries.
Fresh : Mergeinfo → Mergeinfo → Type 0
Fresh done [] = Unit
Fresh done ((path, ranges) ∷ info) = Absent path done × Fresh done info

Fresh-nil : (info : Mergeinfo) → Fresh [] info
unfolding Fresh
Fresh-nil [] = tt
Fresh-nil ((path, ranges) ∷ info) = (tt, Fresh-nil info)

other_key : (path key : Bytes) → before path key ≡ true → equal path key ≡ false
other_key path key h = elim (Bool-cases (equal path key)) [
  | inl e ↦
      let same = equal→eq path key e in
      let (_, differs) = before_asym path key h in cc (rw same at differs, equal_refl key)
  | inr e ↦ e
]

Fresh-next :
    (done : Mergeinfo) (path : Bytes) (ranges : Rangelist) (info : Mergeinfo)
    → Fresh done info
    → All (λ e. before path e.0 ≡ true) info
    → Fresh (done ++ ((path, ranges) ∷ [])) info
unfolding Fresh
Fresh-next done path ranges [] h b = tt
Fresh-next done path ranges ((key, old) ∷ info) (f, h) (b, bs) = (
  All-append _ done ((path, ranges) ∷ []) f (other_key path key b, tt),
  Fresh-next done path ranges info h bs,
)

parse_lines-all :
    (info done : Mergeinfo)
    → IsInfo info
    → Fresh done info
    → parse_lines (all_lines info) done ≡ ok (done ++ info)
unfolding parse_lines Fresh
parse_lines-all [] done h f = rw (append-nil done) refl
parse_lines-all ((path, []) ∷ info) done (e, _, h) f = absurd e
parse_lines-all ((path, item ∷ ranges) ∷ info) done (e, b, h) (f, fs) =
    rw (parse_line-line path item ranges done e f) (
      parse_lines-all info (done ++ ((path, item ∷ ranges) ∷ [])) h
        (Fresh-next done path (item ∷ ranges) info fs b)
      ∙ ap ok (append_assoc done ((path, item ∷ ranges) ∷ []) info))

replace_crlf-plain : (text : Bytes) → All (λ c. (c == 13) ≡ false) text → replace_crlf text ≡ text
unfolding replace_crlf
replace_crlf-plain [] h = refl
replace_crlf-plain (c ∷ []) h = refl
replace_crlf-plain (c ∷ (d ∷ text)) (e, h) = rw (e, replace_crlf-plain (d ∷ text) h) refl

lines-All :
    (info : Mergeinfo)
    → IsInfo info
    → All (λ l. All (λ c. (c == 10) ≡ false) l) (all_lines info)
      × All (λ l. All (λ c. (c == 13) ≡ false) l) (all_lines info)
lines-All [] h = (tt, tt)
lines-All ((path, []) ∷ info) (e, _, h) = absurd e
lines-All ((path, item ∷ ranges) ∷ info) (e, _, h) =
    let (tens, thirteens) = lines-All info h in
    let (ten, thirteen) = both _ (no_break path item ranges e) in
    ((ten, tens), (thirteen, thirteens))
  where
    both :
        (text : Bytes)
        → All (λ c. ((c == 10) ≡ false) × ((c == 13) ≡ false)) text
        → All (λ c. (c == 10) ≡ false) text × All (λ c. (c == 13) ≡ false) text
    both [] h = (tt, tt)
    both (c ∷ text) ((a, b), h) = let (tens, thirteens) = both text h in ((a, tens), (b, thirteens))

parse_all :
    (info : Mergeinfo)
    → IsInfo info
    → parse_lines (split 10 (Path.join 10 (all_lines info))) [] ≡ ok info
unfolding parse_lines parse_line Path.join split trim_left trim_right
parse_all [] h = refl
parse_all ((path, ranges) ∷ info) h =
    let (tens, _) = lines-All ((path, ranges) ∷ info) h in
    rw (split-join 10 (line path ranges) (all_lines info) tens)
      (parse_lines-all ((path, ranges) ∷ info) [] h (Fresh-nil ((path, ranges) ∷ info)))

-- Mergeinfo in the order of its paths, each of them canonical, without a segment of dots and without
-- line breaks, with ranges in normal form, not empty and within `int64`: what `String` writes,
-- `Parse` reads back as the same mergeinfo.
pub parse_mergeinfo-mergeinfo_string :
    (info : Mergeinfo) → IsInfo info → parse_mergeinfo (mergeinfo_string info) ≡ ok info
unfolding parse_mergeinfo mergeinfo_string
parse_mergeinfo-mergeinfo_string info h =
    let (_, thirteens) = lines-All info h in
    let plain = All-join (λ c. (c == 13) ≡ false) 10 (all_lines info) refl thirteens in
    rw
      (
        sort_paths-sorted info h,
        lines_of-all info h,
        replace_crlf-plain (Path.join 10 (all_lines info)) plain,
      )
      (parse_all info h)

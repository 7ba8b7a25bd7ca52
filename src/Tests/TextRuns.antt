-- ===== src/Tests/TextRuns.antt =====
-- Runs of svn/path, and of the texts and catalogs of mergeinfo/mergeinfo.go.
use go_svn.Base.{◌≡◌, ◌↔◌, refl, true, false, some, [], ◌∷◌, Bytes, codes, equal, inl, arith}
use go_svn.Base.Int.{pos, ℤ}
use go_svn.Base.Outcome.{ok, err, mergeinfo_parse_error}
use go_svn.Skel.{itoa, itoa_loop, parse_uint}
use go_svn.Hashfile.{before, all_digits}
use go_svn.Path.{
  split, join, ends_with_slash, trim_slashes, last_index_byte, kept_parts, canonical_components,
  split_path, skip_ancestor, longest_ancestor, relpath_canonicalize, relpath_join, relpath_split,
  relpath_dirname, relpath_skip_ancestor, relpath_is_ancestor, relpath_longest_ancestor,
  fspath_canonicalize, fspath_is_canonical,
}
use go_svn.Checksum.{has_prefix}
use go_svn.Path.Ancestor.{relpath_skip_ancestor-relpath_join}
use go_svn.Path.Longest.{relpath_longest_ancestor_lem}
use go_svn.Mergeinfo.{
  Range, normalize, normalize_boundaries, any_covering, combine, combine_loop, unique,
  unique_behind, sort, insert_sorted, add_interval,
}
use go_svn.Mergeinfo.Paths.{Mergeinfo, merge}
use go_svn.Mergeinfo.Text.{
  parse_mergeinfo, mergeinfo_string, sort_paths, insert_path, lines_of, rangelist_string,
  range_texts, range_text, any_dots, parse_rangelist, parse_ranges, parse_range, trim_left,
  trim_right, trim_star, cut_dash, parse_revision, positive_digits, parse_end, parse_lines,
  parse_line, replace_crlf, parse_entry,
}
use go_svn.Mergeinfo.Text.Lines.{parse_mergeinfo-mergeinfo_string}
use go_svn.Mergeinfo.Catalog.{info_at, merge_catalogs, info_at-merge_catalogs}

slashes : relpath_canonicalize (codes "//trunk/./src//") ≡ codes "trunk/src"
unfolding relpath_canonicalize canonical_components trim_slashes split join kept_parts
slashes = refl

siblings : relpath_longest_ancestor (codes "a/bc/d") (codes "a/b/d") ≡ some (codes "a")
unfolding relpath_longest_ancestor longest_ancestor relpath_canonicalize canonical_components
    trim_slashes split join kept_parts skip_ancestor equal ends_with_slash has_prefix
    relpath_dirname relpath_split split_path last_index_byte
siblings = refl

relpath_skip_ancestor-relpath_join_example :
    (relpath_skip_ancestor (codes "a/b") (relpath_join (codes "a/b") (codes "c" ∷ []))
      ≡ some (relpath_canonicalize (codes "c")))
    × ((relpath_skip_ancestor (codes "a/b") (codes "/a//b/c") ≡ some (codes "c")) ↔ (
        (relpath_join (codes "a/b") (codes "c" ∷ []) ≡ relpath_canonicalize (codes "/a//b/c"))
        × (relpath_canonicalize (codes "c") ≡ codes "c")))
relpath_skip_ancestor-relpath_join_example =
    relpath_skip_ancestor-relpath_join (codes "a/b") (codes "/a//b/c") (codes "c")

relpath_longest_ancestor_lem_example :
    (longest : Bytes) × (relpath_longest_ancestor (codes "a/bc/d") (codes "a/b/d") ≡ some longest)
    × (relpath_is_ancestor longest (codes "a/bc/d") ≡ true)
    × (relpath_is_ancestor longest (codes "a/b/d") ≡ true)
    × ((common : Bytes)
        → relpath_is_ancestor common (codes "a/bc/d") ≡ true
        → relpath_is_ancestor common (codes "a/b/d") ≡ true
        → relpath_is_ancestor common longest ≡ true)
relpath_longest_ancestor_lem_example = relpath_longest_ancestor_lem (codes "a/bc/d") (codes "a/b/d")

abbrev range : ℤ → ℤ → Range
range start end = record { start = start; end = end; inheritable = true }

-- `/branches/x:4` and `/trunk:2-9,12*`
abbrev merged : Mergeinfo
merged =
    (codes "/branches/x", range (pos 3) (pos 4) ∷ [])
    ∷ ((
      codes "/trunk",
      range (pos 1) (pos 9) ∷ (record { start = pos 11; end = pos 12; inheritable = false } ∷ []),
    )
        ∷ [])

merged_text : mergeinfo_string (merged) ≡ codes "/branches/x:4\n/trunk:2-9,12*"
unfolding mergeinfo_string sort_paths insert_path lines_of rangelist_string range_texts range_text
    join before itoa itoa_loop normalize normalize_boundaries any_covering combine combine_loop
    unique unique_behind sort insert_sorted add_interval
merged_text = refl

reversed_range : parse_mergeinfo (codes "/trunk:9-2") ≡ err mergeinfo_parse_error
unfolding parse_mergeinfo parse_lines parse_line replace_crlf split trim_left trim_right
    last_index_byte parse_entry fspath_is_canonical fspath_canonicalize canonical_components
    trim_slashes kept_parts join has_prefix equal any_dots parse_rangelist parse_ranges parse_range
    trim_star cut_dash parse_revision positive_digits all_digits parse_uint parse_end
reversed_range = refl

parse_mergeinfo-mergeinfo_string_example : parse_mergeinfo (mergeinfo_string merged) ≡ ok merged
unfolding fspath_is_canonical fspath_canonicalize canonical_components trim_slashes split kept_parts
    join has_prefix equal any_dots before
parse_mergeinfo-mergeinfo_string_example =
    let plain : (false ≡ false) × (false ≡ false) = (refl, refl) in
    parse_mergeinfo-mergeinfo_string merged (
      (
        refl,
        refl,
        (
          plain,
          (
            plain,
            (plain, (plain, (plain, (plain, (plain, (plain, (plain, (plain, (plain, tt))))))))),
          ),
        ),
        ((3, 4, refl, refl, omega arith, omega arith), tt),
        omega arith,
      ),
      (refl, tt),
      (
        (
          refl,
          refl,
          (plain, (plain, (plain, (plain, (plain, (plain, tt)))))),
          (
            (1, 9, refl, refl, omega arith, omega arith),
            ((11, 12, refl, refl, omega arith, omega arith), tt),
          ),
          (omega arith, inl (omega arith), omega arith),
        ),
        tt,
        tt,
      ),
    )

info_at-merge_catalogs_example :
    info_at (codes "wc") (merge_catalogs ((codes "wc", merged) ∷ []) ((codes "wc", merged) ∷ []))
    ≡ merge
        (info_at (codes "wc") ((codes "wc", merged) ∷ []))
        (info_at (codes "wc") ((codes "wc", merged) ∷ []))
unfolding equal
info_at-merge_catalogs_example =
    info_at-merge_catalogs (codes "wc") ((codes "wc", merged) ∷ []) ((codes "wc", merged) ∷ [])
      (tt, tt)

-- ===== src/Mergeinfo/Text/Ranges.antt =====
-- `ParseRangelist` of mergeinfo/mergeinfo.go behind `Rangelist.String`.
use go_svn.Mergeinfo.{Range, Rangelist}
use go_svn.Mergeinfo.Canonical.{IsCanonical}
use go_svn.Mergeinfo.Equality.{normalize_unique}
use go_svn.Mergeinfo.Algebra.{Nonneg}
use go_svn.Mergeinfo.Text.{
  range_texts, rangelist_string, is_ascii_space, trim_space, parse_ranges, clash, clash_any,
  clashes, parse_rangelist, is_empty_text,
}
use go_svn.Path.{split, join}
use go_svn.Path.Segments.{split-join, All-join}
use go_svn.Mergeinfo.Unique.{touches}
use go_svn.Base.Int.{ℤ, ltb_ℤ, ◌≤ℤ◌}
use go_svn.Base.Outcome.{ok}
use go_svn.Base.{ℕ, ◌≡◌, refl, true, false, List, [], ◌∷◌, Bytes, ◌==◌, All, arith}
use go_svn.Mergeinfo.Text.Scan.{is_mark, Marks, mark_facts, trim_right_plain, trim_left_plain}
use go_svn.Mergeinfo.Text.Single.{IsRange, range-Written}

abbrev pub AreRanges : Rangelist → Type 0
AreRanges ranges = All IsRange ranges

texts-Written :
    (ranges : Rangelist)
    → AreRanges ranges
    → All Marks (range_texts ranges) × (parse_ranges (range_texts ranges) ≡ ok ranges)
unfolding range_texts parse_ranges
texts-Written [] h = (tt, refl)
texts-Written (item ∷ ranges) (r, h) =
    let (c, text, e, marks, read) = range-Written item r in
    let (all, reads) = texts-Written ranges h in (rw e (marks, all), rw (e, read, reads) refl)

texts_cons :
    (item : Range) (ranges : Rangelist)
    → IsRange item
    → (c : ℕ) × (text : Bytes) × (texts : List Bytes) × (range_texts (item ∷ ranges)
        ≡ (c ∷ text) ∷ texts)
unfolding range_texts
texts_cons item ranges r =
    let (c, text, e, _, _) = range-Written item r in (c, text, range_texts ranges, rw e refl)

pub Nonneg-ranges : (ranges : Rangelist) → AreRanges ranges → Nonneg ranges
Nonneg-ranges [] h = tt
Nonneg-ranges (item ∷ ranges) ((s, e, p, q, r, _), h) = (rw p (omega arith), Nonneg-ranges ranges h)

-- The later ranges start behind the end of an earlier one.
starts_behind :
    (x : ℤ) (b : Range) (rest : Rangelist)
    → x ≤ℤ b.start
    → IsCanonical (b ∷ rest)
    → All (λ (r : Range). x ≤ℤ r.start) (b ∷ rest)
starts_behind x b [] h p = (h, tt)
starts_behind x b (c ∷ rest) h (p, apart, canonical) =
    let behind = touches b c apart in (h, starts_behind x c rest (omega arith) canonical)

clash_any_none :
    (a : Range) (rest : Rangelist)
    → All (λ (r : Range). a.end ≤ℤ r.start) rest
    → clash_any a rest ≡ false
unfolding clash_any
clash_any_none a [] h = refl
clash_any_none a (b ∷ rest) (p, h) =
    let disjoint : ltb_ℤ b.start a.end ≡ false = ground arith in
    let none_there : clash a b ≡ false = ground arith in rw (none_there, clash_any_none a rest h)

clashes_none : (ranges : Rangelist) → IsCanonical ranges → clashes ranges ≡ false
unfolding clashes clash_any
clashes_none [] h = refl
clashes_none (a ∷ []) h = refl
clashes_none (a ∷ (b ∷ rest)) (p, apart, canonical) =
    let behind = starts_behind a.end b rest (touches a b apart) canonical in
    rw (clash_any_none a (b ∷ rest) behind) (clashes_none (b ∷ rest) canonical)

Marks-All :
    (P : ℕ → Type 0) → ((c : ℕ) → is_mark c ≡ true → P c) → (text : Bytes) → Marks text → All P text
Marks-All P f [] h = tt
Marks-All P f (c ∷ text) (m, h) = (f c m, Marks-All P f text h)

parts-All :
    (P : ℕ → Type 0)
    → ((c : ℕ) → is_mark c ≡ true → P c)
    → (parts : List Bytes) → All Marks parts
    → All (λ part. All P part) parts
parts-All P f [] h = tt
parts-All P f (part ∷ parts) (m, h) = (Marks-All P f part m, parts-All P f parts h)

-- What holds of the digits, the signs and the comma holds of a text of ranges.
pub rangelist_string-All :
    (P : ℕ → Type 0)
    → ((c : ℕ) → is_mark c ≡ true → P c)
    → P 44
    → (ranges : Rangelist) → AreRanges ranges
    → All P (rangelist_string ranges)
unfolding rangelist_string
rangelist_string-All P f p ranges h =
    let (marks, _) = texts-Written ranges h in
    All-join P 44 (range_texts ranges) p (parts-All P f (range_texts ranges) marks)

join_not_empty :
    (c : ℕ) (text : Bytes) (texts : List Bytes)
    → is_empty_text (join 44 ((c ∷ text) ∷ texts)) ≡ false
unfolding join
join_not_empty c text [] = refl
join_not_empty c text (next ∷ texts) = refl

pub rangelist_string-plain :
    (ranges : Rangelist)
    → AreRanges ranges
    → All (λ c. is_ascii_space c ≡ false) (rangelist_string ranges)
rangelist_string-plain ranges h =
    rangelist_string-All (λ c. is_ascii_space c ≡ false) (λ c m. (mark_facts c m).0) refl ranges h

-- The text that `Rangelist.String` writes for a list in normal form that is not empty, with its
-- revisions positive and within `int64`, `ParseRangelist` reads back as the same list.
pub parse_rangelist-rangelist_string :
    (item : Range) (ranges : Rangelist)
    → AreRanges (item ∷ ranges)
    → IsCanonical (item ∷ ranges)
    → parse_rangelist (rangelist_string (item ∷ ranges)) ≡ ok (item ∷ ranges)
unfolding parse_rangelist rangelist_string
parse_rangelist-rangelist_string item ranges h canonical =
    let list = item ∷ ranges in
    let (marks, read) = texts-Written list h in
    let (c, text, texts, shape) = texts_cons item ranges h.0 in
    let plain = rangelist_string-plain list h in
    let trimmed : trim_space (rangelist_string list) ≡ rangelist_string list =
      rw (trim_left_plain (rangelist_string list) plain)
        (trim_right_plain (rangelist_string list) plain) in
    let there : is_empty_text (join 44 (range_texts list)) ≡ false =
      rw shape (join_not_empty c text texts) in
    let no_commas =
      parts-All (λ c. (c == 44) ≡ false) (λ c m. (mark_facts c m).1) (range_texts list) marks in
    let cut : split 44 (join 44 (range_texts list)) ≡ range_texts list =
      rw shape (split-join 44 (c ∷ text) texts (rw shape at no_commas)) in
    let nonneg = Nonneg-ranges list h in
    let normal =
      (normalize_unique list list list nonneg nonneg canonical (λ x. refl) (λ x. refl)).1 in
    rw (trimmed, there, cut, read, clashes_none list canonical, normal) refl

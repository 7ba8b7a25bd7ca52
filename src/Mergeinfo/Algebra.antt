-- ===== src/Mergeinfo/Algebra.antt =====
-- `Normalize`, `MergeRangelists`, `IntersectRangelists` and `RemoveRangelist`, revision by revision.
use go_svn.Mergeinfo.Meaning.{Clear, value-combine, value-operation, value_of-clear, verdict-pair}
use go_svn.Mergeinfo.{
  Range, Rangelist, any_covering, intersect_rangelists, intersect_verdict, merge_rangelists,
  merge_verdict, normalize, normalize_boundaries, remove_rangelist, remove_verdict,
}
use go_svn.Base.{
  All, Bool, Bool-cases, Option, [], ap, arith, false, if◌then◌else◌, inl, inr, none, refl, same,
  some, sym, true, ◌&&◌, ◌||◌, ◌∙◌, ◌∷◌, ◌≡◌,
}
use go_svn.Mergeinfo.Value.{join, pair, value, value_of, verdict}
use go_svn.Base.Int.{leb_ℤ, ltb_ℤ, pos, ℤ, ◌<ℤ◌, ◌≤ℤ◌}

-- No range starts before revision 0.
abbrev pub Nonneg : Rangelist → Type 0
Nonneg = All (λ (item : Range). pos 0 ≤ℤ item.start)

pair-join : (i : Bool) (o : Option Bool) → pair (join (some i) o) ≡ (true, i || (pair o).1)
pair-join true none = refl
pair-join false none = refl
pair-join i (some j) = refl

skipped :
    (item : Range) (s e x : ℤ)
    → s <ℤ x
    → x ≤ℤ e
    → item.end ≤ℤ item.start
    → (value_of item.start item.end item.inheritable x ≡ none)
      × ((leb_ℤ item.start s && leb_ℤ e item.end) ≡ false)
unfolding value_of
skipped item s e x p q h = (ground arith, ground arith)

any_covering-value :
    (ranges : Rangelist) (s e x : ℤ)
    → Nonneg ranges
    → s <ℤ x
    → x ≤ℤ e
    → Clear s e (normalize_boundaries ranges)
    → any_covering ranges s e ≡ pair (value ranges x)
unfolding any_covering value normalize_boundaries
any_covering-value [] s e x h p q clear = refl
any_covering-value (item ∷ ranges) s e x (nonneg, h) p q clear =
    elim (Bool-cases (ltb_ℤ item.start (pos 0) || leb_ℤ item.end item.start)) [
      | inl t ↦
          let (silent, uncovered) = skipped item s e x p q (ground arith) in
          rw (silent, uncovered) (any_covering-value ranges s e x h p q (rw t at clear))
      | inr t ↦
          let (c, (d, rest)) = rw t at clear in
          let ih = any_covering-value ranges s e x h p q rest in
          elim (Bool-cases (leb_ℤ item.start s && leb_ℤ e item.end)) [
            | inl u ↦
                rw (u, value_of-clear item.start item.end s e x item.inheritable p q c d, u, ih)
                  (sym (pair-join item.inheritable (value ranges x)))
            | inr u ↦
                rw (u, value_of-clear item.start item.end s e x item.inheritable p q c d, u, ih)
          ]
    ]

raw_outside_low :
    (ranges : Rangelist) (x : ℤ)
    → Nonneg ranges
    → All (λ v. x ≤ℤ v) (normalize_boundaries ranges)
    → value ranges x ≡ none
unfolding value normalize_boundaries value_of
raw_outside_low [] x h all = refl
raw_outside_low (item ∷ ranges) x (nonneg, h) all =
    elim (Bool-cases (ltb_ℤ item.start (pos 0) || leb_ℤ item.end item.start)) [
      | inl t ↦
          let out : (ltb_ℤ item.start x && leb_ℤ x item.end) ≡ false = ground arith in
          rw out (raw_outside_low ranges x h (rw t at all))
      | inr t ↦
          let (c, (d, rest)) = rw t at all in
          let out : (ltb_ℤ item.start x && leb_ℤ x item.end) ≡ false = ground arith in
          rw out (raw_outside_low ranges x h rest)
    ]

raw_outside_high :
    (ranges : Rangelist) (x : ℤ)
    → Nonneg ranges
    → All (λ v. v <ℤ x) (normalize_boundaries ranges)
    → value ranges x ≡ none
unfolding value normalize_boundaries value_of
raw_outside_high [] x h all = refl
raw_outside_high (item ∷ ranges) x (nonneg, h) all =
    elim (Bool-cases (ltb_ℤ item.start (pos 0) || leb_ℤ item.end item.start)) [
      | inl t ↦
          let out : (ltb_ℤ item.start x && leb_ℤ x item.end) ≡ false = ground arith in
          rw out (raw_outside_high ranges x h (rw t at all))
      | inr t ↦
          let (c, (d, rest)) = rw t at all in
          let out : (ltb_ℤ item.start x && leb_ℤ x item.end) ≡ false = ground arith in
          rw out (raw_outside_high ranges x h rest)
    ]

-- `Normalize` keeps what a list says of every revision, if no range starts before revision 0: a
-- revision stays in a range or out of all of them, and is inheritable if one of its ranges is.
pub value-normalize :
    (ranges : Rangelist) (x : ℤ) → Nonneg ranges → value (normalize ranges) x ≡ value ranges x
unfolding normalize
value-normalize ranges x h =
    value-combine (normalize_boundaries ranges) (any_covering ranges) x (value ranges x)
      (λ s e p q clear.
        ap verdict (any_covering-value ranges s e x h p q clear) ∙ verdict-pair (value ranges x))
      (λ all. sym (raw_outside_low ranges x h all)) (λ all. sym (raw_outside_high ranges x h all))

merge_pairs : (a b : Option Bool) → verdict (merge_verdict (pair a) (pair b)) ≡ join a b
merge_pairs none none = refl
merge_pairs none (some j) = refl
merge_pairs (some true) none = refl
merge_pairs (some false) none = refl
merge_pairs (some i) (some j) = refl

-- A merged list has the revisions of both lists, and a revision is inheritable in it if it is so in
-- one of them; for lists with no range before revision 0.
pub value-merge_rangelists :
    (first second : Rangelist) (x : ℤ)
    → Nonneg first
    → Nonneg second
    → value (merge_rangelists first second) x ≡ join (value first x) (value second x)
unfolding merge_rangelists
value-merge_rangelists first second x h k =
    value-operation merge_verdict refl first second x
    ∙ rw (value-normalize first x h, value-normalize second x k)
        (merge_pairs (value first x) (value second x))

-- Two statements about the same revision, where both are needed; if inheritance is considered, they
-- must agree on it.
abbrev pub meet : Bool → Option Bool → Option Bool → Option Bool
meet consider none y = none
meet consider (some i) none = none
meet true (some i) (some j) = if same i j then some i else none
meet false (some i) (some j) = some (i || j)

intersect_pairs :
    (c : Bool) (a b : Option Bool) → verdict (intersect_verdict c (pair a) (pair b)) ≡ meet c a b
intersect_pairs true none none = refl
intersect_pairs true none (some true) = refl
intersect_pairs true none (some false) = refl
intersect_pairs true (some true) none = refl
intersect_pairs true (some true) (some true) = refl
intersect_pairs true (some true) (some false) = refl
intersect_pairs true (some false) none = refl
intersect_pairs true (some false) (some true) = refl
intersect_pairs true (some false) (some false) = refl
intersect_pairs false none none = refl
intersect_pairs false none (some true) = refl
intersect_pairs false none (some false) = refl
intersect_pairs false (some true) none = refl
intersect_pairs false (some true) (some true) = refl
intersect_pairs false (some true) (some false) = refl
intersect_pairs false (some false) none = refl
intersect_pairs false (some false) (some true) = refl
intersect_pairs false (some false) (some false) = refl

intersect_nothing : (c : Bool) → verdict (intersect_verdict c (false, false) (false, false)) ≡ none
intersect_nothing true = refl
intersect_nothing false = refl

-- An intersection has the revisions that are in both lists, and of those, if inheritance is
-- considered, the ones on whose inheritance the lists agree; for lists with no range before
-- revision 0.
pub value-intersect_rangelists :
    (first second : Rangelist) (consider : Bool) (x : ℤ)
    → Nonneg first
    → Nonneg second
    → value (intersect_rangelists first second consider) x
      ≡ meet consider (value first x) (value second x)
unfolding intersect_rangelists
value-intersect_rangelists first second c x h k =
    value-operation (intersect_verdict c) (intersect_nothing c) first second x
    ∙ rw (value-normalize first x h, value-normalize second x k)
        (intersect_pairs c (value first x) (value second x))

-- What the eraser leaves of a statement: if inheritance is considered, it erases only a statement
-- with the same inheritance.
abbrev pub erase : Bool → Option Bool → Option Bool → Option Bool
erase consider none white = white
erase consider (some i) none = none
erase false (some i) (some j) = none
erase true (some i) (some j) = if same j i then none else some j

remove_pairs :
    (c : Bool) (a b : Option Bool) → verdict (remove_verdict c (pair a) (pair b)) ≡ erase c a b
remove_pairs true none none = refl
remove_pairs true none (some true) = refl
remove_pairs true none (some false) = refl
remove_pairs true (some true) none = refl
remove_pairs true (some true) (some true) = refl
remove_pairs true (some true) (some false) = refl
remove_pairs true (some false) none = refl
remove_pairs true (some false) (some true) = refl
remove_pairs true (some false) (some false) = refl
remove_pairs false none none = refl
remove_pairs false none (some true) = refl
remove_pairs false none (some false) = refl
remove_pairs false (some true) none = refl
remove_pairs false (some true) (some true) = refl
remove_pairs false (some true) (some false) = refl
remove_pairs false (some false) none = refl
remove_pairs false (some false) (some true) = refl
remove_pairs false (some false) (some false) = refl

remove_nothing : (c : Bool) → verdict (remove_verdict c (false, false) (false, false)) ≡ none
remove_nothing true = refl
remove_nothing false = refl

-- Removing a list takes away exactly its revisions, and of those, if inheritance is considered, only
-- the ones with the same inheritance; the rest keeps its inheritance. For lists with no range before
-- revision 0.
pub value-remove_rangelist :
    (eraser whiteboard : Rangelist) (consider : Bool) (x : ℤ)
    → Nonneg eraser
    → Nonneg whiteboard
    → value (remove_rangelist eraser whiteboard consider) x
      ≡ erase consider (value eraser x) (value whiteboard x)
unfolding remove_rangelist
value-remove_rangelist eraser whiteboard c x h k =
    value-operation (remove_verdict c) (remove_nothing c) eraser whiteboard x
    ∙ rw (value-normalize eraser x h, value-normalize whiteboard x k)
        (remove_pairs c (value eraser x) (value whiteboard x))

-- ===== src/Mergeinfo/Text/Single.antt =====
-- One range of mergeinfo/mergeinfo.go as a text.
use mathlib.Core.Path.{subst}
use go_svn.Mergeinfo.{Range}
use go_svn.Mergeinfo.Text.{
  max_int64, star, range_text, trim_left, trim_right, trim_star, cut_dash, parse_revision,
  parse_end, parse_range, previous_int64,
}
use go_svn.Skel.{itoa}
use go_svn.Base.Int.{pos, eqb_ℤ, ltb_ℤ}
use go_svn.Base.Outcome.{ok}
use go_svn.Base.{
  ℕ, zero, suc, ◌-◌, ◌≤◌, ◌<◌, ◌≡◌, refl, Bool, true, false, [], ◌∷◌, ◌++◌, Bytes, ◌==◌, Option,
  none, some, All, All-append, arith, Bool-cases, inl, inr, ltb-true,
}
use go_svn.Mergeinfo.Text.Scan.{
  Marks, Digits-Marks, trim_space-Marks, trim_star-star, cut_dash-none, cut_dash-append, Digits-All,
  itoa-Digits, parse_revision-itoa,
}

-- A range of revisions: not empty, and within `int64`.
abbrev pub IsRange : Range → Type 0
IsRange item =
    (s : ℕ) × (e : ℕ) × (item.start ≡ pos s) × (item.end ≡ pos e) × (s < e) × (e ≤ max_int64)

range_of : ℕ → ℕ → Bool → Range
range_of s e i = record { start = pos s; end = pos e; inheritable = i }

same_range :
    (item : Range) (s e : ℕ)
    → item.start ≡ pos s
    → item.end ≡ pos e
    → range_of s e item.inheritable ≡ item
unfolding range_of
same_range item s e p q = rw (← p, ← q) refl

before_end : (s e : ℕ) → s < e → eqb_ℤ (previous_int64 (pos s)) (pos (suc e)) ≡ false
before_end zero e h = ground arith
before_end (suc s) e h = ground arith

-- The two texts of a range: one revision, or the first and the last one.
module _ (s e : ℕ) (i : Bool) (small : suc e ≤ max_int64) where
  single_text : s ≡ e → range_text (range_of s (suc e) i) ≡ some (itoa (suc e) ++ star i)
  unfolding range_text range_of
  single_text h = let same : eqb_ℤ (pos s) (pos e) ≡ true = ground arith in rw same refl

  double_text :
      s < e
      → range_text (range_of s (suc e) i) ≡ some ((itoa (suc s) ++ (45 ∷ itoa (suc e))) ++ star i)
  unfolding range_text range_of
  double_text h =
      let apart : eqb_ℤ (pos s) (pos e) ≡ false = ground arith in
      let forward : eqb_ℤ (previous_int64 (pos s)) (pos (suc e)) ≡ false = before_end s e h in
      let below : ltb_ℤ (pos s) (pos (suc e)) ≡ true = ground arith in
      let room : (s == max_int64) ≡ false = ground arith in rw (apart, forward, below, room) refl

parse_range_text :
    (text first : Bytes) (last : Option Bytes) (start end : ℕ) (i : Bool)
    → Marks (text ++ star i)
    → All (λ c. (c == 42) ≡ false) text
    → cut_dash text ≡ (first, last)
    → parse_revision first ≡ ok start
    → parse_end start last ≡ ok end
    → parse_range (text ++ star i)
      ≡ ok (record { start = pos (start - 1); end = pos end; inheritable = i })
unfolding parse_range
parse_range_text text first last start end i marks plain cut p q =
    rw (trim_space-Marks (text ++ star i) marks, trim_star-star text i plain, cut, p, q) refl

star-Marks : (i : Bool) → Marks (star i)
star-Marks true = tt
star-Marks false = (refl, tt)

-- What `Rangelist.String` writes for a range is not empty, and it is read back.
abbrev pub Written : Range → Type 0
Written item =
    (c : ℕ) × (text : Bytes) × (range_text item ≡ some (c ∷ text))
    × Marks (c ∷ text)
    × (parse_range (c ∷ text) ≡ ok item)

Written-of :
    (item : Range) (text : Bytes)
    → range_text item ≡ some text
    → Marks text
    → parse_range text ≡ ok item
    → Written item
unfolding parse_range trim_left trim_right trim_star cut_dash parse_revision
Written-of item [] e m p = cc
Written-of item (c ∷ text) e m p = (c, text, e, m, p)

single-Written : (e : ℕ) (i : Bool) → suc e ≤ max_int64 → Written (range_of e (suc e) i)
unfolding parse_end range_of
single-Written e i small =
    let digits = itoa-Digits (suc e) in
    let (stars, dashes, _) = Digits-All (itoa (suc e)) digits in
    let marks =
      All-append _ (itoa (suc e)) (star i) (Digits-Marks (itoa (suc e)) digits) (star-Marks i) in
    let back : suc e - 1 ≡ e = omega arith in
    let read =
      parse_range_text (itoa (suc e)) (itoa (suc e)) none (suc e) (suc e) i marks stars
        (cut_dash-none (itoa (suc e)) dashes) (parse_revision-itoa (suc e) (omega arith) small)
        refl in
    Written-of _ (itoa (suc e) ++ star i) (single_text e e i small refl) marks (rw back at read)

double-Written : (s e : ℕ) (i : Bool) → s < e → suc e ≤ max_int64 → Written (range_of s (suc e) i)
unfolding parse_end range_of
double-Written s e i less small =
    let first = itoa-Digits (suc s) in
    let last = itoa-Digits (suc e) in
    let (stars, dashes, _) = Digits-All (itoa (suc s)) first in
    let (stars', _, _) = Digits-All (itoa (suc e)) last in
    let body = itoa (suc s) ++ (45 ∷ itoa (suc e)) in
    let body_marks : Marks body =
      All-append _ (itoa (suc s)) (45 ∷ itoa (suc e)) (Digits-Marks (itoa (suc s)) first)
        (refl, Digits-Marks (itoa (suc e)) last) in
    let marks = All-append _ body (star i) body_marks (star-Marks i) in
    let plain = All-append _ (itoa (suc s)) (45 ∷ itoa (suc e)) stars (refl, stars') in
    let back : suc s - 1 ≡ s = omega arith in
    let end : parse_end (suc s) (some (itoa (suc e))) ≡ ok (suc e) =
      rw (parse_revision-itoa (suc e) (omega arith) small, ltb-true (suc s) (suc e) (omega arith))
        refl in
    let read =
      parse_range_text body (itoa (suc s)) (some (itoa (suc e))) (suc s) (suc e) i marks plain
        (cut_dash-append (itoa (suc s)) (itoa (suc e)) dashes)
        (parse_revision-itoa (suc s) (omega arith) (omega arith)) end in
    Written-of _ (body ++ star i) (double_text s e i small less) marks (rw back at read)

numbers-Written : (s e : ℕ) (i : Bool) → s < e → e ≤ max_int64 → Written (range_of s e i)
numbers-Written s zero i less small = absurd (omega arith)
numbers-Written s (suc e) i less small = elim (Bool-cases (s == e)) [
  | inl h ↦ let same : s ≡ e = ground arith in rw same (single-Written e i small)
  | inr h ↦ double-Written s e i (ground arith) small
]

pub range-Written : (item : Range) → IsRange item → Written item
unfolding range_of
range-Written item (s, e, p, q, less, small) =
    let numbers = numbers-Written s e item.inheritable less small in
    subst Written (same_range item s e p q) numbers

-- ===== src/Mergeinfo/Text/Scan.antt =====
-- The scanning of a range by `ParseRangelist` of mergeinfo/mergeinfo.go: spaces, stars, dashes and
-- revisions.
use go_svn.Mergeinfo.Text.{
  max_int64, star, is_ascii_space, trim_left, trim_right, trim_space, trim_star, cut_dash,
  positive_digits, parse_revision,
}
use go_svn.Hashfile.{all_digits}
use go_svn.Skel.{is_digit, itoa}
use go_svn.Skel.Atom.{itoa_facts}
use go_svn.Base.Outcome.{ok}
use go_svn.Base.{
  ℕ, ◌≤◌, ◌<◌, ◌≡◌, refl, Bool, true, false, ◌||◌, [], ◌∷◌, ◌++◌, Bytes, ◌==◌, none, some, All,
  arith, append-nil, leb-true, ltb-true,
}

-- The bytes of a text of ranges, but for the commas.
abbrev pub is_mark : ℕ → Bool
is_mark c = is_digit c || c == 45 || c == 42

abbrev pub Marks : Bytes → Type 0
Marks text = All (λ c. is_mark c ≡ true) text

pub mark_facts :
    (c : ℕ)
    → is_mark c ≡ true
    → (is_ascii_space c ≡ false)
      × ((c == 44) ≡ false)
      × ((c == 58) ≡ false)
      × ((c == 10) ≡ false)
      × ((c == 13) ≡ false)
mark_facts c h = (ground arith, ground arith, ground arith, ground arith, ground arith)

pub digit_facts :
    (c : ℕ)
    → is_digit c ≡ true
    → ((c == 42) ≡ false) × ((c == 43) ≡ false) × ((c == 45) ≡ false) × (is_mark c ≡ true)
digit_facts c h = (ground arith, ground arith, ground arith, ground arith)

abbrev pub Digits : Bytes → Type 0
Digits text = All (λ c. is_digit c ≡ true) text

pub Digits-Marks : (text : Bytes) → Digits text → Marks text
Digits-Marks [] h = tt
Digits-Marks (c ∷ text) (d, h) = let (_, _, _, m) = digit_facts c d in (m, Digits-Marks text h)

pub trim_left_plain :
    (text : Bytes) → All (λ c. is_ascii_space c ≡ false) text → trim_left text ≡ text
unfolding trim_left
trim_left_plain [] h = refl
trim_left_plain (c ∷ text) (e, h) = rw e

pub trim_right_plain :
    (text : Bytes) → All (λ c. is_ascii_space c ≡ false) text → trim_right text ≡ text
unfolding trim_right
trim_right_plain [] h = refl
trim_right_plain (c ∷ []) (e, h) = rw e
trim_right_plain (c ∷ (d ∷ text)) (e, h) = rw (trim_right_plain (d ∷ text) h)

pub Marks-plain : (text : Bytes) → Marks text → All (λ c. is_ascii_space c ≡ false) text
Marks-plain [] h = tt
Marks-plain (c ∷ text) (m, h) = let (s, _, _, _, _) = mark_facts c m in (s, Marks-plain text h)

pub trim_space-Marks : (text : Bytes) → Marks text → trim_space text ≡ text
trim_space-Marks text h =
    let plain = Marks-plain text h in rw (trim_left_plain text plain) (trim_right_plain text plain)

trim_star_none : (text : Bytes) → All (λ c. (c == 42) ≡ false) text → trim_star text ≡ (text, true)
unfolding trim_star
trim_star_none [] h = refl
trim_star_none (c ∷ []) (e, h) = rw e
trim_star_none (c ∷ (d ∷ text)) (e, h) = rw (trim_star_none (d ∷ text) h)

trim_star_last :
    (text : Bytes)
    → All (λ c. (c == 42) ≡ false) text
    → trim_star (text ++ (42 ∷ [])) ≡ (text, false)
unfolding trim_star
trim_star_last [] h = refl
trim_star_last (c ∷ []) (e, h) = refl
trim_star_last (c ∷ (d ∷ text)) (e, h) = rw (trim_star_last (d ∷ text) h)

pub trim_star-star :
    (text : Bytes) (inheritable : Bool)
    → All (λ c. (c == 42) ≡ false) text
    → trim_star (text ++ star inheritable) ≡ (text, inheritable)
trim_star-star text true h = rw (append-nil text) (trim_star_none text h)
trim_star-star text false h = trim_star_last text h

pub cut_dash-none :
    (text : Bytes) → All (λ c. (c == 45) ≡ false) text → cut_dash text ≡ (text, none)
unfolding cut_dash
cut_dash-none [] h = refl
cut_dash-none (c ∷ text) (e, h) = rw (e, cut_dash-none text h)

pub cut_dash-append :
    (text last : Bytes)
    → All (λ c. (c == 45) ≡ false) text
    → cut_dash (text ++ (45 ∷ last)) ≡ (text, some last)
unfolding cut_dash
cut_dash-append [] last h = refl
cut_dash-append (c ∷ text) last (e, h) = rw (e, cut_dash-append text last h)

pub Digits-All :
    (text : Bytes)
    → Digits text
    → All (λ c. (c == 42) ≡ false) text
      × All (λ c. (c == 45) ≡ false) text
      × (all_digits text ≡ true)
unfolding all_digits
Digits-All [] h = (tt, tt, refl)
Digits-All (c ∷ text) (d, h) =
    let (a, _, b, _) = digit_facts c d in
    let (stars, dashes, all) = Digits-All text h in ((a, stars), (b, dashes), rw (d, all) refl)

pub itoa-Digits : (n : ℕ) → Digits (itoa n)
itoa-Digits n = let (d, ds, e, digits, _) = itoa_facts n in rw e digits

pub parse_revision-itoa : (n : ℕ) → 0 < n → n ≤ max_int64 → parse_revision (itoa n) ≡ ok n
unfolding parse_revision positive_digits
parse_revision-itoa n more small =
    let (d, ds, e, digits, back) = itoa_facts n in
    let (_, plus, minus, _) = digit_facts d digits.0 in
    let (_, _, all) = Digits-All (d ∷ ds) digits in
    rw (e, minus, plus, all, back, leb-true n max_int64 small, ltb-true 0 n more) refl

-- ===== src/Mergeinfo/Meaning.antt =====
-- What the operations on range lists mean, revision by revision.
use go_svn.Mergeinfo.Combine.{intervals, value-combine_loop}
use go_svn.Mergeinfo.Canonical.{Apart, IsCanonical, combine-IsCanonical}
use go_svn.Base.Int.{leb_ℤ, ℤ, ◌<ℤ◌, ◌≤ℤ◌}
use go_svn.Base.{
  Bool-cases, false, if◌then◌else◌, some, sym, ◌&&◌, ◌++◌, All, Bool, List, Option, [], arith, inl,
  inr, none, refl, same, ◌∙◌, ◌∷◌, ◌≡◌, ◌⊎◌,
}
use mathlib.Core.Path.{subst}
use go_svn.Mergeinfo.Locate.{
  All-unique-sort, Located, after, before, between, locate, unique-sort-Increasing,
}
use go_svn.Mergeinfo.{
  collect_boundaries, covers, Range, Rangelist, any_covering, combine, endpoints, first_covering,
  normalize, normalize_boundaries, sort, unique,
}
use go_svn.Mergeinfo.Value.{pair, value, value_of, verdict}

-- No boundary lies strictly between the two numbers.
abbrev pub Clear : (s e : ℤ) → List ℤ → Type 0
Clear s e = All (λ v. (v ≤ℤ s) ⊎ (e ≤ℤ v))

value-combine-intervals :
    (boundaries : List ℤ) (f : ℤ → ℤ → Bool × Bool) (x : ℤ)
    → value (combine boundaries f) x ≡ intervals f (unique (sort boundaries)) x
unfolding combine value
value-combine-intervals boundaries f x =
    value-combine_loop (unique (sort boundaries)) f [] x (unique-sort-Increasing boundaries) tt

-- To know the value of a combination at a revision it is enough to know the predicate's verdict on
-- every interval around it that has no boundary inside, and the value outside all boundaries.
pub value-combine :
    (boundaries : List ℤ) (f : ℤ → ℤ → Bool × Bool) (x : ℤ) (result : Option Bool)
    → ((s e : ℤ) → s <ℤ x → x ≤ℤ e → Clear s e boundaries → verdict (f s e) ≡ result)
    → (All (λ v. x ≤ℤ v) boundaries → none ≡ result)
    → (All (λ v. v <ℤ x) boundaries → none ≡ result)
    → value (combine boundaries f) x ≡ result
value-combine boundaries f x result inside below above =
    value-combine-intervals boundaries f x
    ∙ by_place (locate f x (unique (sort boundaries)) (unique-sort-Increasing boundaries))
  where
    by_place :
        Located f x (unique (sort boundaries)) → intervals f (unique (sort boundaries)) x ≡ result
    by_place (between s e p q clear same) =
        same ∙ inside s e p q (All-unique-sort (λ v. (v ≤ℤ s) ⊎ (e ≤ℤ v)) boundaries clear)
    by_place (before all same) = same ∙ below (All-unique-sort (λ v. x ≤ℤ v) boundaries all)
    by_place (after all same) = same ∙ above (All-unique-sort (λ v. v <ℤ x) boundaries all)

pub normalize-IsCanonical : (ranges : Rangelist) → IsCanonical (normalize ranges)
unfolding normalize
normalize-IsCanonical ranges =
    combine-IsCanonical (normalize_boundaries ranges) (any_covering ranges)

Apart-le : (a b : Range) → Apart a b → a.end ≤ℤ b.start
Apart-le a b (inl h) = omega arith
Apart-le a b (inr (e, _)) = subst (λ k. a.end ≤ℤ k) e (omega arith)

pub value_of_low : (s e x : ℤ) (i : Bool) → x ≤ℤ s → value_of s e i x ≡ none
unfolding value_of
value_of_low s e x i p = ground arith

-- A list of ranges in order says nothing of the revisions up to its first start.
value_low :
    (a : Range) (rest : Rangelist) (x : ℤ)
    → IsCanonical (a ∷ rest)
    → x ≤ℤ a.start
    → value (a ∷ rest) x ≡ none
unfolding value
value_low a [] x h p = rw (value_of_low a.start a.end x a.inheritable p)
value_low a (b ∷ rest) x (q, apart, h) p = rw (
  value_of_low a.start a.end x a.inheritable p,
  value_low b rest x h (omega (arith, Apart-le a b apart)),
)

value_behind :
    (a : Range) (rest : Rangelist) (x : ℤ)
    → IsCanonical (a ∷ rest)
    → x ≤ℤ a.end
    → value rest x ≡ none
value_behind a [] x h p = unfold value in refl
value_behind a (b ∷ rest) x (q, apart, h) p =
    value_low b rest x h (omega (arith, Apart-le a b apart))

tail-IsCanonical : (a : Range) (rest : Rangelist) → IsCanonical (a ∷ rest) → IsCanonical rest
tail-IsCanonical a [] h = tt
tail-IsCanonical a (b ∷ rest) (q, apart, h) = h

pub value_of-clear :
    (a b s e x : ℤ) (i : Bool)
    → s <ℤ x
    → x ≤ℤ e
    → (a ≤ℤ s) ⊎ (e ≤ℤ a)
    → (b ≤ℤ s) ⊎ (e ≤ℤ b)
    → value_of a b i x ≡ (if leb_ℤ a s && leb_ℤ e b then some i else none)
unfolding value_of
value_of-clear a b s e x i p q c d = ground arith

-- An interval with no endpoint inside is covered by a range exactly if the range covers any one of
-- its revisions.
pub first_covering-value :
    (ranges : Rangelist) (s e x : ℤ)
    → IsCanonical ranges
    → s <ℤ x
    → x ≤ℤ e
    → Clear s e (endpoints ranges)
    → first_covering ranges s e ≡ pair (value ranges x)
unfolding first_covering value endpoints
first_covering-value [] s e x h p q clear = refl
first_covering-value (a ∷ rest) s e x h p q (c, (d, clear)) =
    elim (Bool-cases (leb_ℤ a.start s && leb_ℤ e a.end)) [
      | inl t ↦ rw (
        t,
        value_of-clear a.start a.end s e x a.inheritable p q c d,
        t,
        value_behind a rest x h (ground arith),
      )
      | inr t ↦
          rw (t, value_of-clear a.start a.end s e x a.inheritable p q c d, t)
            (first_covering-value rest s e x (tail-IsCanonical a rest h) p q clear)
    ]

pub value_outside_low :
    (ranges : Rangelist) (x : ℤ) → All (λ v. x ≤ℤ v) (endpoints ranges) → value ranges x ≡ none
unfolding value endpoints
value_outside_low [] x h = refl
value_outside_low (a ∷ rest) x (p, (q, h)) =
    rw (value_of_low a.start a.end x a.inheritable p) (value_outside_low rest x h)

pub value_of_high : (s e x : ℤ) (i : Bool) → e <ℤ x → value_of s e i x ≡ none
unfolding value_of
value_of_high s e x i p = ground arith

pub value_outside_high :
    (ranges : Rangelist) (x : ℤ) → All (λ v. v <ℤ x) (endpoints ranges) → value ranges x ≡ none
unfolding value endpoints
value_outside_high [] x h = refl
value_outside_high (a ∷ rest) x (p, (q, h)) =
    rw (value_of_high a.start a.end x a.inheritable q) (value_outside_high rest x h)

pub verdict-pair : (o : Option Bool) → verdict (pair o) ≡ o
verdict-pair none = refl
verdict-pair (some i) = refl

All-front {ℓ κ} :
    {A : Type ℓ} (P : A → Type κ) (xs ys : List A) → All P (xs ++ ys) → All P xs × All P ys
All-front P [] ys h = (tt, h)
All-front P (x ∷ xs) ys (p, h) = let (l, r) = All-front P xs ys h in ((p, l), r)

-- An operation that combines the coverage of two lists by a verdict combines their values by it.
module _ (F : Bool × Bool → Bool × Bool → Bool × Bool)
    (absent : verdict (F (false, false) (false, false)) ≡ none) where
  pub value-operation :
      (first second : Rangelist) (x : ℤ)
      → value
          (combine
            (collect_boundaries first second)
            (λ s e. F (covers first s e) (covers second s e)))
          x
        ≡ verdict (F (pair (value (normalize first) x)) (pair (value (normalize second) x)))
  unfolding collect_boundaries covers
  value-operation first second x =
      let a : Rangelist = normalize first in
      let b : Rangelist = normalize second in
      value-combine (endpoints a ++ endpoints b) _ x _
        (λ s e p q clear.
          let (ca, cb) = All-front _ (endpoints a) (endpoints b) clear in
          rw (
            first_covering-value a s e x (normalize-IsCanonical first) p q ca,
            first_covering-value b s e x (normalize-IsCanonical second) p q cb,
          ))
        (λ all.
          let (la, lb) = All-front _ (endpoints a) (endpoints b) all in
          rw (value_outside_low a x la, value_outside_low b x lb) (sym absent))
        (λ all.
          let (la, lb) = All-front _ (endpoints a) (endpoints b) all in
          rw (value_outside_high a x la, value_outside_high b x lb) (sym absent))

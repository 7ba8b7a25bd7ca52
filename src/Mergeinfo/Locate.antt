-- ===== src/Mergeinfo/Locate.antt =====
-- The boundaries of `combine` after sorting, and where a revision lies among them.
use go_svn.Mergeinfo.Value.{join-none, verdict}
use mathlib.Core.Path.{subst}
use go_svn.Mergeinfo.Combine.{intervals, Increasing}
use go_svn.Mergeinfo.{insert_sorted, sort, unique, unique_behind}
use go_svn.Base.{
  same, ◌∙◌, Bool, false, none, refl, sym, ◌&&◌, ◌⊎◌, All, Bool-cases, List, [], arith, inl, inr,
  ◌∷◌, ◌≡◌,
}
use go_svn.Base.Int.{leb_ℤ, ltb_ℤ, ◌<ℤ◌, eq_of_parts, eqb_ℤ, ℤ, ◌≤ℤ◌}

abbrev IsSorted : List ℤ → Type 0
IsSorted [] = Unit
IsSorted (a ∷ []) = Unit
IsSorted (a ∷ b ∷ rest) = (a ≤ℤ b) × IsSorted (b ∷ rest)

insert_sorted-IsSorted : (v : ℤ) (l : List ℤ) → IsSorted l → IsSorted (insert_sorted v l)
unfolding insert_sorted
insert_sorted-IsSorted v [] h = tt
insert_sorted-IsSorted v (a ∷ []) h = ground arith
insert_sorted-IsSorted v (a ∷ b ∷ rest) (p, h) =
    ground (arith, insert_sorted-IsSorted v (b ∷ rest) h)

sort-IsSorted : (l : List ℤ) → IsSorted (sort l)
unfolding sort
sort-IsSorted [] = tt
sort-IsSorted (v ∷ l) = insert_sorted-IsSorted v (sort l) (sort-IsSorted l)

unique_behind-Increasing :
    (last : ℤ) (l : List ℤ) → IsSorted (last ∷ l) → Increasing (last ∷ unique_behind last l)
unfolding unique_behind
unique_behind-Increasing last [] h = tt
unique_behind-Increasing last (v ∷ l) (p, h) = elim (Bool-cases (eqb_ℤ last v)) [
  | inl t ↦
      let e : last ≡ v = eq_of_parts last v (ground arith) in
      rw t (unique_behind-Increasing last l (subst (λ k. IsSorted (k ∷ l)) (sym e) h))
  | inr t ↦ rw t (ground arith, unique_behind-Increasing v l h)
]

pub unique-sort-Increasing : (l : List ℤ) → Increasing (unique (sort l))
unfolding unique
unique-sort-Increasing l = by_shape (sort l) (sort-IsSorted l)
  where
    by_shape : (l : List ℤ) → IsSorted l → Increasing (unique l)
    by_shape [] h = tt
    by_shape (v ∷ l) h = unique_behind-Increasing v l h

-- Sorting and removing repetitions lose no value.
module _ (P : ℤ → Type 0) where
  All-insert_sorted : (v : ℤ) (l : List ℤ) → All P (insert_sorted v l) → P v × All P l
  unfolding insert_sorted
  All-insert_sorted v [] h = h
  All-insert_sorted v (a ∷ l) h = elim (Bool-cases (ltb_ℤ a v)) [
    | inl t ↦
        let (pa, rest) = rw t at h in let (pv, pl) = All-insert_sorted v l rest in (pv, (pa, pl))
    | inr t ↦ rw t at h
  ]

  All-sort : (l : List ℤ) → All P (sort l) → All P l
  unfolding sort
  All-sort [] h = tt
  All-sort (v ∷ l) h = let (p, h') = All-insert_sorted v (sort l) h in (p, All-sort l h')

  All-unique_behind : (last : ℤ) (l : List ℤ) → P last → All P (unique_behind last l) → All P l
  unfolding unique_behind
  All-unique_behind last [] p h = tt
  All-unique_behind last (v ∷ l) p h = elim (Bool-cases (eqb_ℤ last v)) [
    | inl t ↦
        let e : last ≡ v = eq_of_parts last v (ground arith) in
        (subst P e p, All-unique_behind last l p (rw t at h))
    | inr t ↦ let (pv, rest) = rw t at h in (pv, All-unique_behind v l pv rest)
  ]

  pub All-unique-sort : (l : List ℤ) → All P (unique (sort l)) → All P l
  unfolding unique
  All-unique-sort l h = All-sort l (by_shape (sort l) h)
    where
      by_shape : (l : List ℤ) → All P (unique l) → All P l
      by_shape [] h = tt
      by_shape (v ∷ l) (p, h) = (p, All-unique_behind v l p h)

-- Where a revision lies: in one interval between neighbouring boundaries, or outside all of them.
pub data Located (predicate : ℤ → ℤ → Bool × Bool) (x : ℤ) (l : List ℤ) : Type 0 where
  between :
      (s e : ℤ)
      → s <ℤ x
      → x ≤ℤ e
      → All (λ v. (v ≤ℤ s) ⊎ (e ≤ℤ v)) l
      → intervals predicate l x ≡ verdict (predicate s e)
      → Located predicate x l
  before : All (λ v. x ≤ℤ v) l → intervals predicate l x ≡ none → Located predicate x l
  after : All (λ v. v <ℤ x) l → intervals predicate l x ≡ none → Located predicate x l

Increasing-lower : (x a : ℤ) (l : List ℤ) → x ≤ℤ a → Increasing (a ∷ l) → All (λ v. x ≤ℤ v) (a ∷ l)
Increasing-lower x a [] p h = (p, tt)
Increasing-lower x a (b ∷ l) p (q, h) = (p, Increasing-lower x b l (omega arith) h)

All-map {ℓ κ μ} :
    {A : Type ℓ} (P : A → Type κ) (Q : A → Type μ) (l : List A)
    → ((a : A) → P a → Q a)
    → All P l
    → All Q l
All-map P Q [] f h = tt
All-map P Q (a ∷ l) f (p, h) = (f a p, All-map P Q l f h)

intervals_before :
    (f : ℤ → ℤ → Bool × Bool) (x a : ℤ) (l : List ℤ)
    → x ≤ℤ a
    → Increasing (a ∷ l)
    → intervals f (a ∷ l) x ≡ none
unfolding intervals
intervals_before f x a [] p h = refl
intervals_before f x a (b ∷ l) p (q, h) =
    let out : (ltb_ℤ a x && leb_ℤ x b) ≡ false = ground arith in
    rw out (intervals_before f x b l (omega arith) h)

skip_first :
    (f : ℤ → ℤ → Bool × Bool) (x a b : ℤ) (l : List ℤ)
    → b <ℤ x
    → intervals f (a ∷ b ∷ l) x ≡ intervals f (b ∷ l) x
unfolding intervals
skip_first f x a b l p = let out : (ltb_ℤ a x && leb_ℤ x b) ≡ false = ground arith in rw out

further :
    (f : ℤ → ℤ → Bool × Bool) (x a b : ℤ) (l : List ℤ)
    → a <ℤ b
    → b <ℤ x
    → Located f x (b ∷ l)
    → Located f x (a ∷ b ∷ l)
further f x a b l p q (between s e ps pe (first, rest) same) =
    between s e ps pe (omega arith, (first, rest)) (skip_first f x a b l q ∙ same)
further f x a b l p q (before (first, rest) same) = absurd (omega arith)
further f x a b l p q (after all same) = after (omega arith, all) (skip_first f x a b l q ∙ same)

pub locate : (f : ℤ → ℤ → Bool × Bool) (x : ℤ) (l : List ℤ) → Increasing l → Located f x l
unfolding intervals
locate f x [] h = before tt refl
locate f x (a ∷ []) h = elim (Bool-cases (ltb_ℤ a x)) [
  | inl t ↦ after (ground arith, tt) refl
  | inr t ↦ before (ground arith, tt) refl
]
locate f x (a ∷ b ∷ l) (p, h) = elim (Bool-cases (ltb_ℤ a x)) [
  | inr t ↦
      let low : x ≤ℤ a = ground arith in
      before (Increasing-lower x a (b ∷ l) low (p, h)) (intervals_before f x a (b ∷ l) low (p, h))
  | inl t ↦ elim (Bool-cases (leb_ℤ x b)) [
    | inl u ↦
        let above = Increasing-lower b b l (omega arith) h in
        between a b (ground arith) (ground arith)
          (inl (omega arith), All-map _ _ (b ∷ l) (λ v q. inr q) above)
          (rw (t, u, intervals_before f x b l (ground arith) h) (join-none (verdict (f a b))))
    | inr u ↦ further f x a b l p (ground arith) (locate f x (b ∷ l) h)
  ]
]

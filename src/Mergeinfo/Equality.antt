-- ===== src/Mergeinfo/Equality.antt =====
-- When the operations of mergeinfo/mergeinfo.go return equal lists.
use go_svn.Mergeinfo.{Rangelist, normalize, merge_rangelists, intersect_rangelists}
use go_svn.Mergeinfo.Value.{value, join}
use go_svn.Mergeinfo.Canonical.{IsCanonical, combine-IsCanonical}
use go_svn.Mergeinfo.Algebra.{
  Nonneg, meet, value-normalize, value-merge_rangelists, value-intersect_rangelists,
}
use go_svn.Mergeinfo.Unique.{canonical_unique}
use go_svn.Base.Int.{ℤ}
use go_svn.Base.{◌≡◌, refl, sym, ◌∙◌, Bool, true, false, Option, some, none}

pub normalize-IsCanonical : (ranges : Rangelist) → IsCanonical (normalize ranges)
unfolding normalize
normalize-IsCanonical ranges = combine-IsCanonical _ _

pub merge_rangelists-IsCanonical : (a b : Rangelist) → IsCanonical (merge_rangelists a b)
unfolding merge_rangelists
merge_rangelists-IsCanonical a b = combine-IsCanonical _ _

intersect_rangelists-IsCanonical :
    (a b : Rangelist) (c : Bool) → IsCanonical (intersect_rangelists a b c)
unfolding intersect_rangelists
intersect_rangelists-IsCanonical a b c = combine-IsCanonical _ _

join_comm : (x y : Option Bool) → join x y ≡ join y x
join_comm none none = refl
join_comm none (some b) = refl
join_comm (some a) none = refl
join_comm (some true) (some true) = refl
join_comm (some true) (some false) = refl
join_comm (some false) (some true) = refl
join_comm (some false) (some false) = refl

join_same : (x : Option Bool) → join x x ≡ x
join_same none = refl
join_same (some true) = refl
join_same (some false) = refl

-- Lists with no range before revision 0 that say the same of every revision have the same normal
-- form; and it is the only canonical list that says the same.
pub normalize_unique :
    (a b c : Rangelist)
    → Nonneg a
    → Nonneg b
    → IsCanonical c
    → ((x : ℤ) → value a x ≡ value b x)
    → ((x : ℤ) → value a x ≡ value c x)
    → (normalize a ≡ normalize b) × (normalize a ≡ c)
normalize_unique a b c h k canonical agree agree' = (
  canonical_unique (normalize a) (normalize b) (normalize-IsCanonical a) (normalize-IsCanonical b)
      (λ x. value-normalize a x h ∙ agree x ∙ sym (value-normalize b x k)),
  canonical_unique (normalize a) c (normalize-IsCanonical a) canonical
      (λ x. value-normalize a x h ∙ agree' x),
)

-- Merging lists with no range before revision 0 does not depend on their order, and merging a list
-- with itself normalizes it.
merge_rangelists_comm :
    (a b : Rangelist)
    → Nonneg a
    → Nonneg b
    → (merge_rangelists a b ≡ merge_rangelists b a) × (merge_rangelists a a ≡ normalize a)
merge_rangelists_comm a b h k = (
  canonical_unique _ _ (merge_rangelists-IsCanonical a b) (merge_rangelists-IsCanonical b a) (λ x.
      value-merge_rangelists a b x h k
      ∙ join_comm (value a x) (value b x)
      ∙ sym (value-merge_rangelists b a x k h)),
  canonical_unique _ _ (merge_rangelists-IsCanonical a a) (normalize-IsCanonical a)
      (λ x. value-merge_rangelists a a x h h ∙ join_same (value a x) ∙ sym (value-normalize a x h)),
)

meet_comm : (c : Bool) (x y : Option Bool) → meet c x y ≡ meet c y x
meet_comm c none none = refl
meet_comm c none (some b) = refl
meet_comm c (some a) none = refl
meet_comm true (some true) (some true) = refl
meet_comm true (some true) (some false) = refl
meet_comm true (some false) (some true) = refl
meet_comm true (some false) (some false) = refl
meet_comm false (some true) (some true) = refl
meet_comm false (some true) (some false) = refl
meet_comm false (some false) (some true) = refl
meet_comm false (some false) (some false) = refl

-- Intersecting two lists with no range before revision 0 does not depend on their order.
intersect_rangelists_comm :
    (a b : Rangelist) (consider : Bool)
    → Nonneg a
    → Nonneg b
    → intersect_rangelists a b consider ≡ intersect_rangelists b a consider
intersect_rangelists_comm a b c h k =
    canonical_unique _ _ (intersect_rangelists-IsCanonical a b c)
      (intersect_rangelists-IsCanonical b a c)
      (λ x.
        value-intersect_rangelists a b c x h k
        ∙ meet_comm c (value a x) (value b x)
        ∙ sym (value-intersect_rangelists b a c x k h))

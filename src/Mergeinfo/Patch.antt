-- ===== src/Mergeinfo/Patch.antt =====
-- `DiffRangelists` of mergeinfo/mergeinfo.go, and what its two lists do to the first one.
use go_svn.Mergeinfo.{
  Rangelist, Range, normalize, merge_rangelists, remove_rangelist, diff_rangelists,
}
use go_svn.Mergeinfo.Value.{value, value_of, join}
use go_svn.Mergeinfo.Canonical.{IsCanonical, combine-IsCanonical}
use go_svn.Mergeinfo.Algebra.{
  Nonneg, erase, value-normalize, value-merge_rangelists, value-remove_rangelist,
}
use go_svn.Mergeinfo.Unique.{canonical_unique, proper, touches, least, above_least, value-inside}
use go_svn.Mergeinfo.Equality.{normalize-IsCanonical, merge_rangelists-IsCanonical}
use go_svn.Base.Int.{ℤ, pos, ◌≤ℤ◌, ◌<ℤ◌, ltb_ℤ, leb_ℤ}
use go_svn.Base.{
  ◌≡◌, refl, ◌∙◌, Bool, true, false, Bool-cases, inl, inr, Option, some, none, [], ◌∷◌, arith, ◌&&◌,
}

value_before : (l : Rangelist) (x : ℤ) → Nonneg l → x ≤ℤ pos 0 → value l x ≡ none
unfolding value value_of
value_before [] x h p = refl
value_before (item ∷ l) x (s, h) p =
    let out : (ltb_ℤ item.start x && leb_ℤ x item.end) ≡ false = ground arith in
    rw (out, value_before l x h p)

all_behind :
    (r : Range) (rest : Rangelist) → IsCanonical (r ∷ rest) → pos 0 ≤ℤ r.start → Nonneg (r ∷ rest)
all_behind r [] h p = (p, tt)
all_behind r (t ∷ rest) (g, a, h) p =
    let m = touches r t a in (p, all_behind t rest h (omega arith))

-- A canonical list that says nothing up to revision 0 has no range that starts before.
canonical-Nonneg :
    (l : Rangelist) → IsCanonical l → ((x : ℤ) → x ≤ℤ pos 0 → value l x ≡ none) → Nonneg l
canonical-Nonneg [] h k = tt
canonical-Nonneg (r ∷ rest) h k = elim (Bool-cases (leb_ℤ (pos 0) r.start)) [
  | inl e ↦ all_behind r rest h (ground arith)
  | inr e ↦
      let early : r.start <ℤ pos 0 = ground arith in
      let (x, p, q, which) = least r.end (pos 0) in
      let b = above_least r.end (pos 0) r.start x (proper r rest h) early which in
      absurd (cc (value-inside r rest x h b p, k x q))
]

remove_rangelist-IsCanonical : (a b : Rangelist) (c : Bool) → IsCanonical (remove_rangelist a b c)
unfolding remove_rangelist
remove_rangelist-IsCanonical a b c = combine-IsCanonical _ _

remove_rangelist-Nonneg :
    (a b : Rangelist) (c : Bool) → Nonneg a → Nonneg b → Nonneg (remove_rangelist a b c)
remove_rangelist-Nonneg a b c h k = canonical-Nonneg _ (remove_rangelist-IsCanonical a b c) (λ x p.
    value-remove_rangelist a b c x h k ∙ rw (value_before a x h p, value_before b x k p) refl)

-- Taking away what was deleted and adding what was added turns one statement into the other.
patched : (f t : Option Bool) → join (erase true (erase true t f) f) (erase true f t) ≡ t
patched none none = refl
patched none (some b) = refl
patched (some true) none = refl
patched (some false) none = refl
patched (some true) (some true) = refl
patched (some true) (some false) = refl
patched (some false) (some true) = refl
patched (some false) (some false) = refl

-- For lists with no range before revision 0, and with inheritance considered: removing from the first
-- list what `DiffRangelists` calls deleted, and merging what it calls added, gives the normal form of
-- the second.
pub merge-diff_rangelists :
    (from to : Rangelist)
    → Nonneg from
    → Nonneg to
    → merge_rangelists
        (remove_rangelist (diff_rangelists from to true).0 from true)
        (diff_rangelists from to true).1
      ≡ normalize to
unfolding diff_rangelists
merge-diff_rangelists f t h k =
    let deleted = remove_rangelist-Nonneg t f true k h in
    let added = remove_rangelist-Nonneg f t true h k in
    canonical_unique _ _ (merge_rangelists-IsCanonical _ _) (normalize-IsCanonical t) (λ x.
      value-merge_rangelists _ _ x (remove_rangelist-Nonneg _ f true deleted h) added
      ∙ rw
          (
            value-remove_rangelist (remove_rangelist t f true) f true x deleted h,
            value-remove_rangelist t f true x k h,
            value-remove_rangelist f t true x h k,
            value-normalize t x k,
          )
          (patched (value f x) (value t x)))

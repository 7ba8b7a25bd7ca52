-- ===== src/Mergeinfo/Combine.antt =====
-- `combine` of mergeinfo/mergeinfo.go: its loop, the value of its result, and the order of its ranges.
use go_svn.Mergeinfo.{Rangelist, add_interval, combine_loop}
use go_svn.Base.{
  All, Bool, Bool-cases, List, Option, [], ap, arith, false, if◌then◌else◌, inl, inr, none, refl,
  same, same→eq, sym, true, ◌&&◌, ◌∙◌, ◌∷◌, ◌≡◌,
}
use go_svn.Mergeinfo.Value.{
  value_of-extend, IsProper, join, join-none, join_assoc, value, value_of, verdict,
}
use go_svn.Base.Int.{eq_of_parts, eqb_ℤ, leb_ℤ, ltb_ℤ, ℤ, ◌<ℤ◌}
use mathlib.Core.Path.{ap₂, subst}

add_interval-IsProper :
    (result : Rangelist) (s e : ℤ) (i : Bool)
    → All IsProper result
    → s <ℤ e
    → All IsProper (add_interval result s e i)
unfolding add_interval
add_interval-IsProper [] s e i h p = (p, tt)
add_interval-IsProper (last ∷ []) s e i (q, h) p =
    elim (Bool-cases (eqb_ℤ last.end s && same last.inheritable i)) [
      | inl t ↦ rw t (ground arith, tt)
      | inr t ↦ rw t (q, (p, tt))
    ]
add_interval-IsProper (first ∷ second ∷ rest) s e i (q, h) p =
    (q, add_interval-IsProper (second ∷ rest) s e i h p)

value-add_interval :
    (result : Rangelist) (s e x : ℤ) (i : Bool)
    → All IsProper result
    → s <ℤ e
    → value (add_interval result s e i) x ≡ join (value result x) (value_of s e i x)
unfolding add_interval value
value-add_interval [] s e x i h p = join-none (value_of s e i x)
value-add_interval (last ∷ []) s e x i (q, h) p =
    elim (Bool-cases (eqb_ℤ last.end s && same last.inheritable i)) [
      | inl t ↦
          let touch : last.end ≡ s = eq_of_parts last.end s (ground arith) in
          let alike : last.inheritable ≡ i = same→eq last.inheritable i (ground arith) in
          rw (t, join-none, join-none)
            (ap (λ k. value_of last.start e k x) alike
              ∙ value_of-extend last.start s e x i (subst (λ k. last.start <ℤ k) touch q) p
              ∙ ap₂ (λ k j. join (value_of last.start k j x) (value_of s e i x)) (sym touch)
                  (sym alike))
      | inr t ↦ rw (t, join-none, join-none)
    ]
value-add_interval (first ∷ second ∷ rest) s e x i (q, h) p =
    ap (join (value_of first.start first.end first.inheritable x))
      (value-add_interval (second ∷ rest) s e x i h p)
    ∙ sym (
        join_assoc (value_of first.start first.end first.inheritable x) (value (second ∷ rest) x)
          (value_of s e i x))

-- Strictly increasing boundaries.
abbrev pub Increasing : List ℤ → Type 0
Increasing [] = Unit
Increasing (a ∷ []) = Unit
Increasing (a ∷ b ∷ rest) = (a <ℤ b) × Increasing (b ∷ rest)

-- What the predicate says of the intervals between the boundaries, at one revision.
unfoldable pub intervals : (ℤ → ℤ → Bool × Bool) → List ℤ → ℤ → Option Bool
intervals predicate [] x = none
intervals predicate (a ∷ []) x = none
intervals predicate (a ∷ b ∷ rest) x =
    join (if ltb_ℤ a x && leb_ℤ x b then verdict (predicate a b) else none)
      (intervals predicate (b ∷ rest) x)

value_round :
    (result : Rangelist) (s e x : ℤ) (present i : Bool)
    → All IsProper result
    → s <ℤ e
    → value (if present then add_interval result s e i else result) x
      ≡ join (value result x) (if ltb_ℤ s x && leb_ℤ x e then verdict (present, i) else none)
value_round result s e x true i h p =
    value-add_interval result s e x i h p ∙ unfold value_of in refl
value_round result s e x false i h p = elim (Bool-cases (ltb_ℤ s x && leb_ℤ x e)) [
  | inl t ↦ rw (t, join-none)
  | inr t ↦ rw (t, join-none)
]

round-IsProper :
    (result : Rangelist) (s e : ℤ) (present i : Bool)
    → All IsProper result
    → s <ℤ e
    → All IsProper (if present then add_interval result s e i else result)
round-IsProper result s e true i h p = add_interval-IsProper result s e i h p
round-IsProper result s e false i h p = h

pub value-combine_loop :
    (boundaries : List ℤ) (predicate : ℤ → ℤ → Bool × Bool) (result : Rangelist) (x : ℤ)
    → Increasing boundaries
    → All IsProper result
    → value (combine_loop boundaries predicate result) x
      ≡ join (value result x) (intervals predicate boundaries x)
unfolding combine_loop intervals
value-combine_loop [] f result x inc h = sym (join-none (value result x))
value-combine_loop (a ∷ []) f result x inc h = sym (join-none (value result x))
value-combine_loop (a ∷ b ∷ rest) f result x (p, inc) h =
    let (present, i) = f a b in
    value-combine_loop (b ∷ rest) f (if present then add_interval result a b i else result) x inc
      (round-IsProper result a b present i h p)
    ∙ ap (λ t. join t (intervals f (b ∷ rest) x)) (value_round result a b x present i h p)
    ∙ join_assoc (value result x) (if ltb_ℤ a x && leb_ℤ x b then verdict (present, i) else none)
        (intervals f (b ∷ rest) x)

pub combine_loop-IsProper :
    (boundaries : List ℤ) (predicate : ℤ → ℤ → Bool × Bool) (result : Rangelist)
    → Increasing boundaries
    → All IsProper result
    → All IsProper (combine_loop boundaries predicate result)
unfolding combine_loop
combine_loop-IsProper [] f result inc h = h
combine_loop-IsProper (a ∷ []) f result inc h = h
combine_loop-IsProper (a ∷ b ∷ rest) f result (p, inc) h =
    let (present, i) = f a b in
    combine_loop-IsProper (b ∷ rest) f (if present then add_interval result a b i else result) inc
      (round-IsProper result a b present i h p)

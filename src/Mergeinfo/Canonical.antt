-- ===== src/Mergeinfo/Canonical.antt =====
-- The form of the lists that `combine` of mergeinfo/mergeinfo.go returns.
use go_svn.Mergeinfo.Locate.{unique-sort-Increasing}
use go_svn.Mergeinfo.Combine.{Increasing}
use go_svn.Mergeinfo.Value.{IsProper}
use go_svn.Base.Int.{eq_of_parts, eqb_ℤ, ℤ, ◌<ℤ◌, ◌≤ℤ◌}
use go_svn.Mergeinfo.{combine, sort, unique, combine_loop, Range, Rangelist, add_interval}
use go_svn.Base.{
  List, if◌then◌else◌, true, Bool, Bool-cases, [], arith, false, inl, inr, same, same_refl, ◌&&◌,
  ◌∷◌, ◌≡◌, ◌≢◌, ◌⊎◌,
}

-- The second range starts behind the first one, or at its end with another inheritance.
abbrev pub Apart : Range → Range → Type 0
Apart a b = (a.end <ℤ b.start) ⊎ ((a.end ≡ b.start) × (a.inheritable ≢ b.inheritable))

-- In order, without overlaps, no range empty or reversed, and no two that could be one.
abbrev pub IsCanonical : Rangelist → Type 0
IsCanonical [] = Unit
IsCanonical (a ∷ []) = IsProper a
IsCanonical (a ∷ b ∷ rest) = IsProper a × Apart a b × IsCanonical (b ∷ rest)

abbrev EndsBy : ℤ → Rangelist → Type 0
EndsBy s [] = Unit
EndsBy s (a ∷ []) = a.end ≤ℤ s
EndsBy s (a ∷ b ∷ rest) = EndsBy s (b ∷ rest)

-- The new interval behind the last range, which it lengthens or follows.
new_range : ℤ → ℤ → Bool → Range
new_range s e i = record { start = s; end = e; inheritable = i }

behind_last :
    (last : Range) (s e : ℤ) (i : Bool)
    → last.end ≤ℤ s
    → (eqb_ℤ last.end s && same last.inheritable i) ≡ false
    → Apart last (new_range s e i)
unfolding new_range
behind_last last s e i p t = elim (Bool-cases (eqb_ℤ last.end s)) [
  | inr d ↦ inl (ground arith)
  | inl d ↦
      inr (eq_of_parts last.end s (ground arith), λ alike. cc (same_refl i, rw (d, alike) at t))
]

add_interval-IsCanonical :
    (result : Rangelist) (s e : ℤ) (i : Bool)
    → IsCanonical result
    → EndsBy s result
    → s <ℤ e
    → IsCanonical (add_interval result s e i) × EndsBy e (add_interval result s e i)
unfolding add_interval new_range
add_interval-IsCanonical [] s e i h b p = (p, omega arith)
add_interval-IsCanonical (last ∷ []) s e i h b p =
    elim (Bool-cases (eqb_ℤ last.end s && same last.inheritable i)) [
      | inl t ↦ rw t (omega arith, omega arith)
      | inr t ↦ rw t ((h, behind_last last s e i b t, p), omega arith)
    ]
add_interval-IsCanonical (first ∷ last ∷ []) s e i (q, apart, h) b p =
    elim (Bool-cases (eqb_ℤ last.end s && same last.inheritable i)) [
      | inl t ↦ rw t ((q, apart, omega arith), omega arith)
      | inr t ↦ rw t ((q, apart, (h, behind_last last s e i b t, p)), omega arith)
    ]
add_interval-IsCanonical (first ∷ second ∷ third ∷ rest) s e i (q, apart, h) b p =
    let (h', b') = add_interval-IsCanonical (second ∷ third ∷ rest) s e i h b p in
    ((q, apart, h'), b')

EndsBy-le : (result : Rangelist) (s e : ℤ) → s <ℤ e → EndsBy s result → EndsBy e result
EndsBy-le [] s e p h = tt
EndsBy-le (a ∷ []) s e p h = omega arith
EndsBy-le (a ∷ b ∷ rest) s e p h = EndsBy-le (b ∷ rest) s e p h

round-IsCanonical :
    (result : Rangelist) (s e : ℤ) (present i : Bool)
    → IsCanonical result
    → EndsBy s result
    → s <ℤ e
    → IsCanonical (if present then add_interval result s e i else result)
      × EndsBy e (if present then add_interval result s e i else result)
round-IsCanonical result s e true i h b p = add_interval-IsCanonical result s e i h b p
round-IsCanonical result s e false i h b p = (h, EndsBy-le result s e p b)

combine_loop-IsCanonical :
    (start : ℤ) (boundaries : List ℤ) (predicate : ℤ → ℤ → Bool × Bool) (result : Rangelist)
    → Increasing (start ∷ boundaries)
    → IsCanonical result
    → EndsBy start result
    → IsCanonical (combine_loop (start ∷ boundaries) predicate result)
unfolding combine_loop
combine_loop-IsCanonical a [] f result inc h b = h
combine_loop-IsCanonical a (e ∷ rest) f result (p, inc) h b =
    let (present, i) = f a e in
    let (h', b') = round-IsCanonical result a e present i h b p in
    combine_loop-IsCanonical e rest f (if present then add_interval result a e i else result) inc h'
      b'

-- Whatever the boundaries and the predicate, `combine` returns a canonical list.
pub combine-IsCanonical :
    (boundaries : List ℤ) (predicate : ℤ → ℤ → Bool × Bool)
    → IsCanonical (combine boundaries predicate)
unfolding combine
combine-IsCanonical boundaries f =
    by_shape (unique (sort boundaries)) (unique-sort-Increasing boundaries)
  where
    by_shape : (l : List ℤ) → Increasing l → IsCanonical (combine_loop l f [])
    by_shape [] h = unfold combine_loop in tt
    by_shape (a ∷ l) h = combine_loop-IsCanonical a l f [] h tt tt

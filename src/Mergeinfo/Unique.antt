-- ===== src/Mergeinfo/Unique.antt =====
-- Canonical lists of mergeinfo/mergeinfo.go are determined by their values.
use go_svn.Mergeinfo.{Range, Rangelist}
use go_svn.Mergeinfo.Value.{value, value_of, IsProper}
use go_svn.Mergeinfo.Canonical.{IsCanonical, Apart}
use go_svn.Base.Int.{ℤ, ◌≤ℤ◌, ◌<ℤ◌, ltb_ℤ, leb_ℤ, eq_of_parts}
use go_svn.Base.{◌≡◌, refl, sym, ◌∙◌, Bool-cases, inl, inr, [], ◌∷◌, some, none, arith, ◌⊎◌}

behind : (r : Range) (rest : Rangelist) → IsCanonical (r ∷ rest) → IsCanonical rest
behind r [] h = tt
behind r (t ∷ rest) (_, _, h) = h

pub proper : (r : Range) (rest : Rangelist) → IsCanonical (r ∷ rest) → IsProper r
proper r [] h = h
proper r (t ∷ rest) (h, _, _) = h

pub touches : (r t : Range) → Apart r t → r.end ≤ℤ t.start
touches r t (inl h) = omega arith
touches r t (inr (e, _)) = rw e (omega arith)

outside :
    (r : Range) (x : ℤ)
    → (x ≤ℤ r.start) ⊎ (r.end <ℤ x)
    → value_of r.start r.end r.inheritable x ≡ none
unfolding value_of
outside r x (inl h) = ground arith
outside r x (inr h) = ground arith

inside :
    (r : Range) (x : ℤ)
    → r.start <ℤ x
    → x ≤ℤ r.end
    → value_of r.start r.end r.inheritable x ≡ some r.inheritable
unfolding value_of
inside r x p q = ground arith

value-below :
    (r : Range) (rest : Rangelist) (x : ℤ)
    → IsCanonical (r ∷ rest)
    → x ≤ℤ r.start
    → value (r ∷ rest) x ≡ none
unfolding value
value-below r [] x h p = rw (outside r x (inl p))
value-below r (t ∷ rest) x (g, a, h) p =
    let m = touches r t a in rw (outside r x (inl p)) (value-below t rest x h (omega arith))

value-rest_below :
    (r : Range) (rest : Rangelist) (x : ℤ)
    → IsCanonical (r ∷ rest)
    → x ≤ℤ r.end
    → value rest x ≡ none
unfolding value
value-rest_below r [] x h p = refl
value-rest_below r (t ∷ rest) x (g, a, h) p =
    let m = touches r t a in value-below t rest x h (omega arith)

pub value-inside :
    (r : Range) (rest : Rangelist) (x : ℤ)
    → IsCanonical (r ∷ rest)
    → r.start <ℤ x
    → x ≤ℤ r.end
    → value (r ∷ rest) x ≡ some r.inheritable
unfolding value
value-inside r rest x h p q = rw (inside r x p q, value-rest_below r rest x h q)

value-above :
    (r : Range) (rest : Rangelist) (x : ℤ) → r.end <ℤ x → value (r ∷ rest) x ≡ value rest x
unfolding value
value-above r rest x p = rw (outside r x (inr p))

-- A number that is at most two others, and one of them.
pub least : (a b : ℤ) → (x : ℤ) × (x ≤ℤ a) × (x ≤ℤ b) × ((x ≡ a) ⊎ (x ≡ b))
least a b = elim (Bool-cases (leb_ℤ a b)) [
  | inl e ↦ (a, omega arith, ground arith, inl refl)
  | inr e ↦ (b, ground arith, omega arith, inr refl)
]

pub above_least : (a b c x : ℤ) → c <ℤ a → c <ℤ b → (x ≡ a) ⊎ (x ≡ b) → c <ℤ x
above_least a b c x p q (inl e) = rw e p
above_least a b c x p q (inr e) = rw e q

abbrev Agree : Rangelist → Rangelist → Type 0
Agree a b = (x : ℤ) → value a x ≡ value b x

not_before :
    (r s : Range) (ra sb : Rangelist)
    → IsCanonical (r ∷ ra)
    → IsCanonical (s ∷ sb)
    → Agree (r ∷ ra) (s ∷ sb)
    → r.start <ℤ s.start
    → ⊥
not_before r s ra sb h k agree p =
    let (x, q, q', which) = least r.end s.start in
    let b = above_least r.end s.start r.start x (proper r ra h) p which in
    cc (value-inside r ra x h b q, value-below s sb x k q', agree x)

value_nil : (x : ℤ) → value [] x ≡ none
unfolding value
value_nil x = refl

after_proper :
    (r s : Range) (x : ℤ) → r.start ≡ s.start → r.start <ℤ r.end → r.end <ℤ x → s.start <ℤ x
after_proper r s x e p q = let b : r.start <ℤ x = omega arith in rw e at b

range_eq : (r s : Range) → r.start ≡ s.start → r.end ≡ s.end → r.inheritable ≡ s.inheritable → r ≡ s
range_eq r s e f i = cc

same_start :
    (r s : Range) (ra sb : Rangelist)
    → IsCanonical (r ∷ ra)
    → IsCanonical (s ∷ sb)
    → Agree (r ∷ ra) (s ∷ sb)
    → r.start ≡ s.start
same_start r s ra sb h k agree = elim (Bool-cases (ltb_ℤ r.start s.start)) [
  | inl e ↦ absurd (not_before r s ra sb h k agree (ground arith))
  | inr e ↦ elim (Bool-cases (ltb_ℤ s.start r.start)) [
    | inl f ↦ absurd (not_before s r sb ra k h (λ x. sym (agree x)) (ground arith))
    | inr f ↦ eq_of_parts r.start s.start (ground arith)
  ]
]

same_inheritance :
    (r s : Range) (ra sb : Rangelist)
    → IsCanonical (r ∷ ra)
    → IsCanonical (s ∷ sb)
    → Agree (r ∷ ra) (s ∷ sb)
    → r.inheritable ≡ s.inheritable
same_inheritance r s ra sb h k agree =
    let e = same_start r s ra sb h k agree in
    let (x, q, q', which) = least r.end s.end in
    let starts : r.start <ℤ s.end = rw e (proper s sb k) in
    let b = above_least r.end s.end r.start x (proper r ra h) starts which in
    let b' : s.start <ℤ x = rw e at b in
    cc (value-inside r ra x h b q, value-inside s sb x k b' q', agree x)

-- The ranges behind a shorter first range do not continue what the longer one says.
not_shorter :
    (r s : Range) (ra sb : Rangelist)
    → IsCanonical (r ∷ ra)
    → IsCanonical (s ∷ sb)
    → Agree (r ∷ ra) (s ∷ sb)
    → r.end <ℤ s.end
    → ⊥
not_shorter r s [] sb h k agree p =
    let starts = same_start r s [] sb h k agree in
    let b : s.start <ℤ s.end = proper s sb k in
    cc (
      value-above r [] s.end p,
      value-inside s sb s.end k b (omega arith),
      agree s.end,
      value_nil s.end,
    )
not_shorter r s (t ∷ ra) sb (g, inl gap, h) k agree p =
    let full : IsCanonical (r ∷ t ∷ ra) = (g, inl gap, h) in
    let e = same_start r s (t ∷ ra) sb full k agree in
    let (x, q, q', which) = least t.start s.end in
    let b = above_least t.start s.end r.end x gap p which in
    let b' : s.start <ℤ x = after_proper r s x e g b in
    cc (value-above r (t ∷ ra) x b, value-below t ra x h q, value-inside s sb x k b' q', agree x)
not_shorter r s (t ∷ ra) sb (g, inr (m, other), h) k agree p =
    let full : IsCanonical (r ∷ t ∷ ra) = (g, inr (m, other), h) in
    let e = same_start r s (t ∷ ra) sb full k agree in
    let i = same_inheritance r s (t ∷ ra) sb full k agree in
    let (x, q, q', which) = least t.end s.end in
    let far : r.end <ℤ t.end = rw m (proper t ra h) in
    let b = above_least t.end s.end r.end x far p which in
    let b' : s.start <ℤ x = after_proper r s x e g b in
    let in_t : t.start <ℤ x = rw m at b in
    other (
      cc (
        i,
        value-above r (t ∷ ra) x b,
        value-inside t ra x h in_t q,
        value-inside s sb x k b' q',
        agree x,
      ))

same_end :
    (r s : Range) (ra sb : Rangelist)
    → IsCanonical (r ∷ ra)
    → IsCanonical (s ∷ sb)
    → Agree (r ∷ ra) (s ∷ sb)
    → r.end ≡ s.end
same_end r s ra sb h k agree = elim (Bool-cases (ltb_ℤ r.end s.end)) [
  | inl e ↦ absurd (not_shorter r s ra sb h k agree (ground arith))
  | inr e ↦ elim (Bool-cases (ltb_ℤ s.end r.end)) [
    | inl f ↦ absurd (not_shorter s r sb ra k h (λ x. sym (agree x)) (ground arith))
    | inr f ↦ eq_of_parts r.end s.end (ground arith)
  ]
]

Agree-behind :
    (r s : Range) (ra sb : Rangelist)
    → IsCanonical (r ∷ ra)
    → IsCanonical (s ∷ sb)
    → Agree (r ∷ ra) (s ∷ sb)
    → Agree ra sb
Agree-behind r s ra sb h k agree x =
    let e = same_end r s ra sb h k agree in
    elim (Bool-cases (leb_ℤ x r.end)) [
      | inl low ↦
          let p : x ≤ℤ r.end = ground arith in
          value-rest_below r ra x h p ∙ sym (value-rest_below s sb x k (rw e at p))
      | inr high ↦
          let p : r.end <ℤ x = ground arith in
          sym (value-above r ra x p) ∙ agree x ∙ value-above s sb x (rw e at p)
    ]

-- Two canonical lists that say the same of every revision are the same list.
pub canonical_unique :
    (a b : Rangelist) → IsCanonical a → IsCanonical b → ((x : ℤ) → value a x ≡ value b x) → a ≡ b
canonical_unique [] [] h k agree = refl
canonical_unique [] (s ∷ sb) h k agree =
    absurd
      (cc (value_nil s.end, agree s.end, value-inside s sb s.end k (proper s sb k) (omega arith)))
canonical_unique (r ∷ ra) [] h k agree =
    absurd
      (cc (value_nil r.end, agree r.end, value-inside r ra r.end h (proper r ra h) (omega arith)))
canonical_unique (r ∷ ra) (s ∷ sb) h k agree =
    let first : r ≡ s =
      range_eq r s (same_start r s ra sb h k agree) (same_end r s ra sb h k agree)
        (same_inheritance r s ra sb h k agree) in
    rw (
      first,
      canonical_unique ra sb (behind r ra h) (behind s sb k) (Agree-behind r s ra sb h k agree),
    )

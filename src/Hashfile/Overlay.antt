-- ===== src/Hashfile/Overlay.antt =====
-- Maps of svn/hashfile/hashfile.go as lists of entries.
use go_svn.Base.{
  ◌≡◌, refl, ap, ◌∙◌, true, false, [], ◌∷◌, ◌++◌, append_assoc, append-nil, sym, Bytes, equal, ◌==◌,
  Bool-cases, inl, inr, All, All-append, arith,
}
use go_svn.Hashfile.{Props, before, set_prop}

-- Every key stands before the later ones.
abbrev pub IsSorted : Props → Type 0
IsSorted [] = Unit
IsSorted ((k, v) ∷ props) = All (λ e. before k e.0 ≡ true) props × IsSorted props

-- The entries of a second map put into a first one.
abbrev pub set_all : Props → Props → Props
set_all base [] = base
set_all base ((k, v) ∷ props) = set_all (set_prop k v base) props

pub before_asym :
    (xs ys : Bytes) → before xs ys ≡ true → (before ys xs ≡ false) × (equal ys xs ≡ false)
unfolding before equal
before_asym xs [] h = cc
before_asym [] (y ∷ ys) h = (refl, refl)
before_asym (x ∷ xs) (y ∷ ys) h =
    let rest = before_asym xs ys in
    elim (Bool-cases (x == y)) [
      | inl e ↦ let back : (y == x) ≡ true = ground arith in rw back (rest (rw e at h))
      | inr e ↦
          let back : (y == x) ≡ false = ground arith in
          let less = rw e at h in rw back (ground arith, refl)
    ]

set_prop_last :
    (key value : Bytes) (props : Props)
    → All (λ e. before e.0 key ≡ true) props
    → set_prop key value props ≡ props ++ ((key, value) ∷ [])
unfolding set_prop
set_prop_last key value [] h = refl
set_prop_last key value ((k, v) ∷ props) (b, h) =
    let (later, other) = before_asym k key b in
    rw (other, later) (ap (λ t. (k, v) ∷ t) (set_prop_last key value props h))

-- All keys of a list stand before all keys of another.
abbrev Below : Props → Props → Type 0
Below done [] = Unit
Below done ((k, v) ∷ props) = All (λ e. before e.0 k ≡ true) done × Below done props

Below-next :
    (done : Props) (k v : Bytes) (props : Props)
    → Below done props
    → All (λ e. before k e.0 ≡ true) props
    → Below (done ++ ((k, v) ∷ [])) props
Below-next done k v [] b h = tt
Below-next done k v ((k', v') ∷ props) (b, bs) (h, hs) =
    (All-append _ done ((k, v) ∷ []) b (h, tt), Below-next done k v props bs hs)

set_all-Below :
    (done props : Props) → Below done props → IsSorted props → set_all done props ≡ done ++ props
set_all-Below done [] b h = sym (append-nil done)
set_all-Below done ((k, v) ∷ props) (b, bs) (h, hs) = rw (set_prop_last k v done b) (
    set_all-Below (done ++ ((k, v) ∷ [])) props (Below-next done k v props bs h) hs
    ∙ append_assoc done ((k, v) ∷ []) props)

Below-none : (props : Props) → Below [] props
Below-none [] = tt
Below-none ((k, v) ∷ props) = (tt, Below-none props)

pub set_all-sorted : (props : Props) → IsSorted props → set_all [] props ≡ props
set_all-sorted props h = set_all-Below [] props (Below-none props) h

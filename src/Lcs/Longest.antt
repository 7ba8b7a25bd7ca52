-- ===== src/Lcs/Longest.antt =====
-- The table of internal/diff/diff.go against the lengths that it is to hold.
use go_svn.Base.{
  ℕ, zero, suc, ◌+◌, ◌≤◌, ◌≡◌, ◌<◌, refl, ap, Bool, true, false, List, [], ◌∷◌, leb, if◌then◌else◌,
  length, get_elem?, drop, replicate, some, arith, Bool-cases, inl, inr,
}
use go_svn.Lcs.{cell, entry, next_row, table}

module _ {ℓ} {A : Type ℓ} (same : A → A → Bool) where
  -- The length of a longest common subsequence, with the function for the next lines.
  unfoldable pub lcs_behind : A → (List A → ℕ) → List A → ℕ
  lcs_behind line f [] = 0
  lcs_behind line f (other ∷ others) =
      let right = lcs_behind line f others in
      if same line other
      then f others + 1
      else if leb right (f (other ∷ others))
      then f (other ∷ others)
      else right

  unfoldable pub lcs : List A → List A → ℕ
  lcs [] others = 0
  lcs (line ∷ lines) others = lcs_behind line (lcs lines) others

  -- A function of the lists that grows by at most one with an element.
  record IsSlow (f : List A → ℕ) : Type ℓ where
    empty : f [] ≡ 0
    grows : (x : A) (xs : List A) → f xs ≤ f (x ∷ xs)
    slowly : (x : A) (xs : List A) → f (x ∷ xs) ≤ f xs + 1

  behind_near :
      (line : A) (f : List A → ℕ)
      → IsSlow f
      → (xs : List A) → (f xs ≤ lcs_behind line f xs) × (lcs_behind line f xs ≤ f xs + 1)
  unfolding lcs_behind
  behind_near line f s [] = (omega (arith, s.empty), omega arith)
  behind_near line f s (x ∷ xs) =
      let (low, high) = behind_near line f s xs in
      let grows = s.grows x xs in
      let slowly = s.slowly x xs in
      elim (Bool-cases (same line x)) [
        | inl e ↦ rw e (omega arith, omega arith)
        | inr e ↦ rw e (ground arith, ground arith)
      ]

  behind-IsSlow : (line : A) (f : List A → ℕ) → IsSlow f → IsSlow (lcs_behind line f)
  unfolding lcs_behind
  behind-IsSlow line f s = record {
    empty = refl;
    grows = λ x xs.
        let near = behind_near line f s xs in
        elim (Bool-cases (same line x)) [
          | inl e ↦ rw e (omega (arith, near.1))
          | inr e ↦ rw e (ground arith)
        ];
    slowly = λ x xs.
        let near = behind_near line f s xs in
        let slowly = s.slowly x xs in
        elim (Bool-cases (same line x)) [
          | inl e ↦ rw e (omega (arith, near.0))
          | inr e ↦ rw e (ground (arith, near.0))
        ];
  }

  lcs-IsSlow : (lines : List A) → IsSlow (lcs lines)
  unfolding lcs
  lcs-IsSlow [] = record { empty = refl; grows = λ x xs. omega arith; slowly = λ x xs. omega arith }
  lcs-IsSlow (line ∷ lines) = behind-IsSlow line (lcs lines) (lcs-IsSlow lines)

  pub lcs-skip_left : (x : A) (xs ys : List A) → lcs xs ys ≤ lcs (x ∷ xs) ys
  unfolding lcs
  lcs-skip_left x xs ys = (behind_near x (lcs xs) (lcs-IsSlow xs) ys).0

  pub lcs-skip_right : (xs : List A) (y : A) (ys : List A) → lcs xs ys ≤ lcs xs (y ∷ ys)
  lcs-skip_right xs y ys = (lcs-IsSlow xs).grows y ys

  pub lcs-pair :
      (x : A) (xs : List A) (y : A) (ys : List A)
      → same x y ≡ true
      → lcs (x ∷ xs) (y ∷ ys) ≡ lcs xs ys + 1
  unfolding lcs lcs_behind
  lcs-pair x xs y ys e = rw e

  -- The numbers of a function at the ends of a list.
  suffix_values : (List A → ℕ) → List A → List ℕ
  suffix_values f [] = f [] ∷ []
  suffix_values f (x ∷ xs) = f (x ∷ xs) ∷ suffix_values f xs

  suffix-first : (f : List A → ℕ) (xs : List A) → entry (suffix_values f xs) 0 ≡ f xs
  unfolding suffix_values entry
  suffix-first f [] = refl
  suffix-first f (x ∷ xs) = refl

  next_row-suffix :
      (line : A) (f : List A → ℕ) (xs : List A)
      → next_row same line xs (suffix_values f xs) ≡ suffix_values (lcs_behind line f) xs
  unfolding next_row suffix_values lcs_behind
  next_row-suffix line f [] = refl
  next_row-suffix line f (x ∷ xs) =
      rw (next_row-suffix line f xs, suffix-first f xs, suffix-first (lcs_behind line f) xs)

  zeros-suffix : (xs : List A) → replicate (suc (length xs)) 0 ≡ suffix_values (lcs []) xs
  unfolding suffix_values lcs
  zeros-suffix [] = refl
  zeros-suffix (x ∷ xs) = ap (λ t. 0 ∷ t) (zeros-suffix xs)

  table-row :
      (lines others : List A) (i : ℕ)
      → i ≤ length lines
      → get_elem? (table same lines others) i ≡ some (suffix_values (lcs (drop i lines)) others)
  unfolding table lcs
  table-row [] others zero h = ap some (zeros-suffix others)
  table-row [] others (suc i) h = absurd (omega arith)
  table-row (line ∷ lines) others zero h =
      rw (table-row lines others 0 (omega arith))
        (ap some (next_row-suffix line (lcs lines) others))
  table-row (line ∷ lines) others (suc i) h = table-row lines others i (omega arith)

  suffix-entry :
      (f : List A → ℕ) (xs : List A) (j : ℕ)
      → j ≤ length xs
      → entry (suffix_values f xs) j ≡ f (drop j xs)
  unfolding suffix_values entry
  suffix-entry f [] zero h = refl
  suffix-entry f [] (suc j) h = absurd (omega arith)
  suffix-entry f (x ∷ xs) zero h = refl
  suffix-entry f (x ∷ xs) (suc j) h = suffix-entry f xs j (omega arith)

  -- Each cell holds the length for the lines from its row and its column on.
  pub cell-table :
      (lines others : List A) (i j : ℕ)
      → i ≤ length lines
      → j ≤ length others
      → cell (table same lines others) i j ≡ lcs (drop i lines) (drop j others)
  unfolding cell
  cell-table lines others i j hi hj =
      rw (table-row lines others i hi) (suffix-entry (lcs (drop i lines)) others j hj)

  pub lcs-right :
      (x : A) (xs : List A) (y : A) (ys : List A)
      → same x y ≡ false
      → lcs xs (y ∷ ys) < lcs (x ∷ xs) ys
      → lcs (x ∷ xs) (y ∷ ys) ≡ lcs (x ∷ xs) ys
  unfolding lcs lcs_behind
  lcs-right x xs y ys e lt = rw e (ground arith)

  pub lcs-down :
      (x : A) (xs : List A) (y : A) (ys : List A)
      → same x y ≡ false
      → lcs (x ∷ xs) ys ≤ lcs xs (y ∷ ys)
      → lcs (x ∷ xs) (y ∷ ys) ≡ lcs xs (y ∷ ys)
  unfolding lcs lcs_behind
  lcs-down x xs y ys e le = rw e (ground arith)

  pub lcs-nil : (xs : List A) → lcs xs [] ≡ 0
  unfolding lcs lcs_behind
  lcs-nil [] = refl
  lcs-nil (x ∷ xs) = refl

  pub lcs_none : (ys : List A) → lcs [] ys ≡ 0
  unfolding lcs
  lcs_none ys = refl

  pub lcs-pair_suc :
      (x : A) (xs : List A) (y : A) (ys : List A)
      → same x y ≡ true
      → suc (lcs xs ys) ≡ lcs (x ∷ xs) (y ∷ ys)
  lcs-pair_suc x xs y ys e = omega (arith, lcs-pair x xs y ys e)

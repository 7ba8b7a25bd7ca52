-- ===== src/Base/Lists.antt =====
-- Lists measured and indexed by native numbers, under the library's names.
use Prim.Native.Nat.{ℕ, zero, suc, ◌+◌, ◌-◌, ◌≤◌, ◌<◌, min}
use mathlib.Core.Path.{◌≡◌, refl, ap, subst}
use mathlib.Core.Logic.{◌⊎◌, inl, inr}
use mathlib.Core.List.{List, [], ◌∷◌, ◌++◌}
use mathlib.Core.Option.{Option, none, some, some-injective}
use native.Mathlib.Omega.{arith}

module _ {ℓ} {A : Type ℓ} where
  abbrev pub length : List A → ℕ
  length [] = 0
  length (x ∷ xs) = suc (length xs)

  abbrev pub get_elem? : List A → ℕ → Option A
  get_elem? [] i = none
  get_elem? (x ∷ xs) zero = some x
  get_elem? (x ∷ xs) (suc i) = get_elem? xs i

  abbrev pub take : ℕ → List A → List A
  take zero xs = []
  take (suc n) [] = []
  take (suc n) (x ∷ xs) = x ∷ take n xs

  abbrev pub drop : ℕ → List A → List A
  drop zero xs = xs
  drop (suc n) [] = []
  drop (suc n) (x ∷ xs) = drop n xs

  abbrev pub All {κ} : (A → Type κ) → List A → Type κ
  All P [] = Unit {κ}
  All P (x ∷ xs) = P x × All P xs

module _ {ℓ} {A : Type ℓ} where
  pub length-append : (xs ys : List A) → length (xs ++ ys) ≡ length xs + length ys
  length-append [] ys = omega arith
  length-append (x ∷ xs) ys = omega (arith, length-append xs ys)

  pub take-append-drop : (n : ℕ) (xs : List A) → take n xs ++ drop n xs ≡ xs
  take-append-drop zero xs = refl
  take-append-drop (suc n) [] = refl
  take-append-drop (suc n) (x ∷ xs) = rw (take-append-drop n xs)

  pub length-take : (n : ℕ) (xs : List A) → length (take n xs) ≡ min n (length xs)
  length-take zero xs = omega arith
  length-take (suc n) [] = omega arith
  length-take (suc n) (x ∷ xs) = omega (arith, length-take n xs)

  pub length-drop : (n : ℕ) (xs : List A) → length (drop n xs) ≡ length xs - n
  length-drop zero xs = omega arith
  length-drop (suc n) [] = omega arith
  length-drop (suc n) (x ∷ xs) = omega (arith, length-drop n xs)

  -- A cut at the seam of two lists.
  pub take-append_seam : (xs ys : List A) → take (length xs) (xs ++ ys) ≡ xs
  take-append_seam [] ys = refl
  take-append_seam (x ∷ xs) ys = ap (λ t. x ∷ t) (take-append_seam xs ys)

  pub drop-append_seam : (xs ys : List A) → drop (length xs) (xs ++ ys) ≡ ys
  drop-append_seam [] ys = refl
  drop-append_seam (x ∷ xs) ys = drop-append_seam xs ys

  pub get_elem?-append_left :
      (xs ys : List A) (i : ℕ) → i < length xs → get_elem? (xs ++ ys) i ≡ get_elem? xs i
  get_elem?-append_left [] ys i h = elim h [ ]
  get_elem?-append_left (x ∷ xs) ys zero h = refl
  get_elem?-append_left (x ∷ xs) ys (suc i) h = get_elem?-append_left xs ys i (omega arith)

  pub get_elem?_bound : (xs : List A) (i : ℕ) → i < length xs → (x : A) × (get_elem? xs i ≡ some x)
  get_elem?_bound [] i h = elim h [ ]
  get_elem?_bound (x ∷ xs) zero h = (x, refl)
  get_elem?_bound (x ∷ xs) (suc i) h = get_elem?_bound xs i (omega arith)

  pub take_all : (n : ℕ) (xs : List A) → length xs ≤ n → take n xs ≡ xs
  take_all zero [] h = refl
  take_all zero (x ∷ xs) h = absurd (omega arith)
  take_all (suc n) [] h = refl
  take_all (suc n) (x ∷ xs) h = ap (λ t. x ∷ t) (take_all n xs (omega arith))

module _ {ℓ κ} {A : Type ℓ} (P : A → Type κ) where
  pub All-append : (xs ys : List A) → All P xs → All P ys → All P (xs ++ ys)
  All-append [] ys _ hy = hy
  All-append (x ∷ xs) ys (px, hx) hy = (px, All-append xs ys hx hy)

  pub All-split : (xs ys : List A) → All P (xs ++ ys) → All P xs × All P ys
  All-split [] ys h = (tt, h)
  All-split (x ∷ xs) ys (px, h) = let (hx, hy) = All-split xs ys h in ((px, hx), hy)

module _ {ℓ} {A : Type ℓ} where
  abbrev pub replicate : ℕ → A → List A
  replicate zero a = []
  replicate (suc n) a = a ∷ replicate n a

  pub length-replicate : (n : ℕ) (a : A) → length (replicate n a) ≡ n
  length-replicate zero a = refl
  length-replicate (suc n) a = ap suc (length-replicate n a)

module _ {ℓ} {A : Type ℓ} where
  pub take-suc :
      (n : ℕ) (xs : List A) {x : A}
      → get_elem? xs n ≡ some x
      → take (suc n) xs ≡ take n xs ++ (x ∷ [])
  take-suc n [] e = cc
  take-suc zero (x ∷ xs) e = cc
  take-suc (suc n) (x ∷ xs) e = ap (λ t. x ∷ t) (take-suc n xs e)

  -- A longer piece is a piece and the element behind it.
  pub take-suc-drop :
      (i n : ℕ) (xs : List A) {x : A}
      → get_elem? xs (i + n) ≡ some x
      → take (suc n) (drop i xs) ≡ take n (drop i xs) ++ (x ∷ [])
  take-suc-drop zero n xs e = let p : 0 + n ≡ n = omega arith in take-suc n xs (rw p at e)
  take-suc-drop (suc i) n [] e = cc
  take-suc-drop (suc i) n (x ∷ xs) e =
      let p : suc i + n ≡ suc (i + n) = omega arith in take-suc-drop i n xs (rw p at e)

  pub take-append-take : (a b : ℕ) (xs : List A) → take a xs ++ take b (drop a xs) ≡ take (a + b) xs
  take-append-take zero b xs = let p : 0 + b ≡ b = omega arith in rw p
  take-append-take (suc a) zero [] = let p : suc a + 0 ≡ suc a = omega arith in rw p
  take-append-take (suc a) (suc b) [] =
      let p : suc a + suc b ≡ suc (a + suc b) = omega arith in rw p
  take-append-take (suc a) b (x ∷ xs) =
      let p : suc a + b ≡ suc (a + b) = omega arith in
      rw p (ap (λ t. x ∷ t) (take-append-take a b xs))

  -- A piece with its first element split off.
  pub take-drop_cons :
      (i n : ℕ) (xs : List A) {x : A}
      → get_elem? xs i ≡ some x
      → take (suc n) (drop i xs) ≡ x ∷ take n (drop (suc i) xs)
  take-drop_cons i n [] e = cc
  take-drop_cons zero n (x ∷ xs) e = ap (λ t. t ∷ take n xs) (some-injective _ _ e)
  take-drop_cons (suc i) n (x ∷ xs) e = take-drop_cons i n xs e

module _ {ℓ κ} {A : Type ℓ} (P : A → Type κ) where
  pub All-take : (n : ℕ) (xs : List A) → All P xs → All P (take n xs)
  All-take zero xs h = tt
  All-take (suc n) [] h = tt
  All-take (suc n) (x ∷ xs) (p, h) = (p, All-take n xs h)

  pub All-drop : (n : ℕ) (xs : List A) → All P xs → All P (drop n xs)
  All-drop zero xs h = h
  All-drop (suc n) [] h = tt
  All-drop (suc n) (x ∷ xs) (p, h) = All-drop n xs h

  pub All-get : (xs : List A) (i : ℕ) (x : A) → All P xs → get_elem? xs i ≡ some x → P x
  All-get [] i x h e = cc
  All-get (y ∷ xs) zero x (p, h) e = subst P (some-injective _ _ e) p
  All-get (y ∷ xs) (suc i) x (p, h) e = All-get xs i x h e

module _ {ℓ} {A : Type ℓ} where
  pub get_elem?-take :
      (n : ℕ) (xs : List A) (i : ℕ) → i < n → get_elem? (take n xs) i ≡ get_elem? xs i
  get_elem?-take zero xs i h = absurd (omega arith)
  get_elem?-take (suc n) [] i h = refl
  get_elem?-take (suc n) (x ∷ xs) zero h = refl
  get_elem?-take (suc n) (x ∷ xs) (suc i) h = get_elem?-take n xs i (omega arith)

  -- The next element, as the head of what is left behind an index.
  pub drop_next :
      (xs : List A) (i : ℕ) {x : A} {rest : List A}
      → drop i xs ≡ x ∷ rest
      → (i < length xs) × (drop (i + 1) xs ≡ rest) × (get_elem? xs i ≡ some x)
  drop_next [] zero e = cc
  drop_next [] (suc i) e = cc
  drop_next (y ∷ ys) zero e = (omega arith, ap (drop 1) e, cc)
  drop_next (y ∷ ys) (suc i) e =
      let (lt, next, got) = drop_next ys i e in
      let same : suc i + 1 ≡ suc (i + 1) = omega arith in (omega arith, rw same next, got)

pub Option-cases {ℓ} : {A : Type ℓ} (o : Option A) → (o ≡ none) ⊎ ((a : A) × (o ≡ some a))
Option-cases none = inl refl
Option-cases (some a) = inr (a, refl)

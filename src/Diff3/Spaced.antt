-- ===== src/Diff3/Spaced.antt =====
-- The hunks of `differences` of internal/diff3/diff3.go: their order, and the line between two of them.
use go_svn.Base.{
  ℕ, zero, suc, ◌+◌, ◌≤◌, ◌≡◌, refl, ◌⊎◌, inl, inr, ◌==◌, ◌&&◌, true, false, List, [], ◌∷◌, ◌++◌,
  Bytes, ltb, equal, equal_refl, length, drop, drop_next, arith, Bool-cases, ◌∙◌,
}
use go_svn.Lcs.{cell, table}
use go_svn.Diff3.{Hunk, replace_loop, differences_loop, differences, starts_equal}
use go_svn.Diff3.Patch.{replace_loop_lem, starts_equal_lem}

-- Hunks from an index on, each within the lines of the base and with a line before the next.
abbrev pub Spaced : (low count : ℕ) → List Hunk → Type 0
Spaced low count [] = Unit
Spaced low count (change ∷ changes) =
    (low ≤ change.start)
    × (change.start ≤ change.stop)
    × (change.stop ≤ count)
    × Spaced (change.stop + 1) count changes

-- No line is left, or the next line is the same in both texts.
abbrev Stopped : (base target : List Bytes) → Type 0
Stopped base target =
    (starts_equal base target ≡ true) ⊎ ((length base == 0 && length target == 0) ≡ true)

module _ (t : List (List ℕ)) where
  replace_loop-Stopped :
      (fuel i j : ℕ) (base target r : List Bytes)
      → length base + length target ≤ fuel
      → let p = replace_loop t fuel i j base target r in Stopped p.base p.target
  unfolding replace_loop
  replace_loop-Stopped zero i j [] [] r f = inr refl
  replace_loop-Stopped zero i j (o ∷ base) target r f = absurd (omega arith)
  replace_loop-Stopped zero i j [] (n ∷ target) r f = absurd (omega arith)
  replace_loop-Stopped (suc fuel) i j [] [] r f = inr refl
  replace_loop-Stopped (suc fuel) i j [] (n ∷ target) r f =
      replace_loop-Stopped fuel i (j + 1) [] target (r ++ (n ∷ [])) (omega arith)
  replace_loop-Stopped (suc fuel) i j (o ∷ base) [] r f =
      replace_loop-Stopped fuel (i + 1) j base [] r (omega arith)
  replace_loop-Stopped (suc fuel) i j (o ∷ base) (n ∷ target) r f = elim (Bool-cases (equal o n)) [
    | inl s ↦ rw s (inl s)
    | inr s ↦ elim (Bool-cases (ltb (cell t (i + 1) j) (cell t i (j + 1)))) [
      | inl l ↦
          rw (s, l)
            (replace_loop-Stopped fuel i (j + 1) (o ∷ base) target (r ++ (n ∷ [])) (omega arith))
      | inr l ↦ rw (s, l) (replace_loop-Stopped fuel (i + 1) j base (n ∷ target) r (omega arith))
    ]
  ]

  -- The next hunk does not start before a bound.
  abbrev Ready : (low i : ℕ) (base target : List Bytes) → Type 0
  Ready low i base target = (low ≤ i) ⊎ ((low ≤ i + 1) × Stopped base target)

  Ready-suc : (low i : ℕ) (base target : List Bytes) → Ready low i base target → low ≤ i + 1
  Ready-suc low i base target (inl h) = omega arith
  Ready-suc low i base target (inr (h, s)) = h

  Ready-differ :
      (low i : ℕ) (base target : List Bytes)
      → (length base == 0 && length target == 0) ≡ false
      → starts_equal base target ≡ false
      → Ready low i base target
      → low ≤ i
  Ready-differ low i base target z s (inl h) = h
  Ready-differ low i base target z s (inr (h, inl e)) = cc
  Ready-differ low i base target z s (inr (h, inr e)) = cc

  differences_loop-Spaced :
      (whole : List Bytes) (fuel low i j : ℕ) (base target : List Bytes)
      → drop i whole ≡ base
      → i ≤ length whole
      → Ready low i base target
      → Spaced low (length whole) (differences_loop t fuel i j base target)
  unfolding differences_loop
  differences_loop-Spaced whole zero low i j base target e h r = tt
  differences_loop-Spaced whole (suc fuel) low i j base target e h r =
      elim (Bool-cases (length base == 0 && length target == 0)) [
        | inl z ↦ rw z tt
        | inr z ↦ elim (Bool-cases (starts_equal base target)) [
          | inl s ↦
              let (o, n, eb, et, same) = starts_equal_lem t whole base target s in
              let (lt, next, _) = drop_next whole i (e ∙ eb) in
              rw (z, s)
                (differences_loop-Spaced whole fuel low (i + 1) (j + 1) (drop 1 base)
                  (drop 1 target) next (omega arith) (inl (Ready-suc low i base target r)))
          | inr s ↦
              let total : ℕ = length base + length target in
              let next = replace_loop t total i j base target [] in
              let p = replace_loop_lem t whole total i j base target [] e h in
              let stopped = replace_loop-Stopped total i j base target [] (omega arith) in
              rw (z, s)
                (
                  Ready-differ low i base target z s r,
                  p.further,
                  p.inside,
                  differences_loop-Spaced whole fuel (next.left + 1) next.left next.right next.base
                      next.target p.rest p.inside (inr (omega arith, stopped)),
                )
        ]
      ]

  differences_loop_same :
      (fuel i j : ℕ) (lines : List Bytes) → differences_loop t fuel i j lines lines ≡ []
  unfolding differences_loop
  differences_loop_same zero i j lines = refl
  differences_loop_same (suc fuel) i j [] = refl
  differences_loop_same (suc fuel) i j (x ∷ lines) =
      let none : (length (x ∷ lines) == 0 && length (x ∷ lines) == 0) ≡ false = ground arith in
      rw (none, equal_refl x) (differences_loop_same fuel (i + 1) (j + 1) lines)

pub differences-Spaced :
    (base target : List Bytes) → Spaced 0 (length base) (differences base target)
unfolding differences
differences-Spaced base target =
    differences_loop-Spaced (table equal base target) base _ 0 0 0 base target refl (omega arith)
      (inl (omega arith))

pub differences_same : (lines : List Bytes) → differences lines lines ≡ []
unfolding differences
differences_same lines = differences_loop_same (table equal lines lines) _ 0 0 lines

-- ===== src/Diff3/Patch.antt =====
-- `differences` and `apply` of internal/diff3/diff3.go.
use go_svn.Base.{
  ℕ, zero, suc, ◌+◌, ◌-◌, ◌≤◌, ◌<◌, ◌≡◌, refl, sym, ap, some, get_elem?, ◌∙◌, ◌==◌, ◌&&◌, true,
  false, List, [], ◌∷◌, ◌++◌, Bytes, ltb, equal, equal→eq, length, take, drop_next, take-suc-drop,
  drop, arith, Bool-cases, inl, inr, append_assoc, append-nil,
}
use go_svn.Base.Outcome.{ok, slice, slice_lem}
use go_svn.Lcs.{cell, table}
use go_svn.Diff3.{
  Hunk, Progress, replace_loop, differences_loop, differences, apply_hunks, starts_equal,
}

-- What the inner loop leaves, for the lines that it started from.
pub record IsReplaced (whole : List Bytes) (i : ℕ) (base target r : List Bytes) (p : Progress)
    : Type 0 where
  pub rest : drop p.left whole ≡ p.base
  pub further : i ≤ p.left
  pub inside : p.left ≤ length whole
  pub replaced : p.replacement ++ p.target ≡ r ++ target
  pub shorter : length p.base + length p.target ≤ length base + length target

module _ (t : List (List ℕ)) (whole : List Bytes) where
  pub replace_loop_lem :
      (fuel i j : ℕ) (base target r : List Bytes)
      → drop i whole ≡ base
      → i ≤ length whole
      → IsReplaced whole i base target r (replace_loop t fuel i j base target r)
  unfolding replace_loop
  replace_loop_lem zero i j base target r e h = record {
    rest = e;
    further = omega arith;
    inside = h;
    replaced = refl;
    shorter = omega arith;
  }
  replace_loop_lem (suc fuel) i j [] [] r e h = record {
    rest = e;
    further = omega arith;
    inside = h;
    replaced = refl;
    shorter = omega arith;
  }
  replace_loop_lem (suc fuel) i j [] (n ∷ target) r e h =
      let p = replace_loop_lem fuel i (j + 1) [] target (r ++ (n ∷ [])) e h in
      record {
        rest = p.rest;
        further = p.further;
        inside = p.inside;
        replaced = p.replaced ∙ append_assoc r (n ∷ []) target;
        shorter = omega (arith, p.shorter);
      }
  replace_loop_lem (suc fuel) i j (o ∷ base) [] r e h =
      let (lt, next, _) = drop_next whole i e in
      let p = replace_loop_lem fuel (i + 1) j base [] r next (omega arith) in
      record {
        rest = p.rest;
        further = omega (arith, p.further);
        inside = p.inside;
        replaced = p.replaced;
        shorter = omega (arith, p.shorter);
      }
  replace_loop_lem (suc fuel) i j (o ∷ base) (n ∷ target) r e h = elim (Bool-cases (equal o n)) [
    | inl s ↦ rw s (record {
      rest = e;
      further = omega arith;
      inside = h;
      replaced = refl;
      shorter = omega arith;
    })
    | inr s ↦ elim (Bool-cases (ltb (cell t (i + 1) j) (cell t i (j + 1)))) [
      | inl l ↦
          let p = replace_loop_lem fuel i (j + 1) (o ∷ base) target (r ++ (n ∷ [])) e h in
          rw (s, l)
            (record {
              rest = p.rest;
              further = p.further;
              inside = p.inside;
              replaced = p.replaced ∙ append_assoc r (n ∷ []) target;
              shorter = omega (arith, p.shorter);
            })
      | inr l ↦
          let (lt, next, _) = drop_next whole i e in
          let p = replace_loop_lem fuel (i + 1) j base (n ∷ target) r next (omega arith) in
          rw (s, l)
            (record {
              rest = p.rest;
              further = omega (arith, p.further);
              inside = p.inside;
              replaced = p.replaced;
              shorter = omega (arith, p.shorter);
            })
    ]
  ]

  -- Where the lines differ at once, the inner loop takes one at least.
  pub replace_loop_strict :
      (fuel i j : ℕ) (base target : List Bytes)
      → drop i whole ≡ base
      → i ≤ length whole
      → 0 < length base + length target
      → starts_equal base target ≡ false
      → 0 < fuel
      → let p = replace_loop t fuel i j base target [] in
        length p.base + length p.target < length base + length target
  unfolding replace_loop
  replace_loop_strict zero i j base target e h lt d z = absurd (omega arith)
  replace_loop_strict (suc fuel) i j [] [] e h lt d z = absurd (omega arith)
  replace_loop_strict (suc fuel) i j [] (n ∷ target) e h lt d z =
      omega (arith, (replace_loop_lem fuel i (j + 1) [] target (n ∷ []) e h).shorter)
  replace_loop_strict (suc fuel) i j (o ∷ base) [] e h lt d z =
      let (inside, next, _) = drop_next whole i e in
      omega (arith, (replace_loop_lem fuel (i + 1) j base [] [] next (omega arith)).shorter)
  replace_loop_strict (suc fuel) i j (o ∷ base) (n ∷ target) e h lt d z =
      elim (Bool-cases (ltb (cell t (i + 1) j) (cell t i (j + 1)))) [
        | inl l ↦
            rw (d, l)
              (omega
                (arith, (replace_loop_lem fuel i (j + 1) (o ∷ base) target (n ∷ []) e h).shorter))
        | inr l ↦
            let (inside, next, _) = drop_next whole i e in
            rw (d, l)
              (omega (
                arith,
                (replace_loop_lem fuel (i + 1) j base (n ∷ target) [] next (omega arith)).shorter,
              ))
      ]

  slice_whole :
      (position stop : ℕ)
      → position ≤ stop
      → stop ≤ length whole
      → slice whole position stop ≡ ok (take (stop - position) (drop position whole))
  slice_whole position stop = slice_lem whole position stop

  at_end : (xs : List Bytes) (i : ℕ) → drop i xs ≡ [] → length xs ≤ i
  at_end [] i e = omega arith
  at_end (x ∷ xs) zero e = cc
  at_end (x ∷ xs) (suc i) e = omega (arith, at_end xs i e)

  no_lines :
      (xs ys : List Bytes) → (length xs == 0 && length ys == 0) ≡ true → (xs ≡ []) × (ys ≡ [])
  no_lines [] [] e = (refl, refl)
  no_lines [] (y ∷ ys) e = absurd (ground arith)
  no_lines (x ∷ xs) ys e = absurd (ground arith)

  -- What the hunks from an index on give when they are applied from an earlier one: the lines between
  -- the two and then the lines of the target.
  abbrev Rebuilds : (position i : ℕ) (target : List Bytes) → List Hunk → Type 0
  Rebuilds position i target hunks =
      apply_hunks whole position (length whole) hunks
      ≡ ok (take (i - position) (drop position whole) ++ target)

  Rebuilds-none :
      (position i : ℕ)
      → drop i whole ≡ []
      → position ≤ i
      → i ≤ length whole
      → Rebuilds position i [] []
  unfolding apply_hunks
  Rebuilds-none position i e le h =
      let end : length whole ≡ i = omega (arith, at_end whole i e) in
      rw (slice_whole position (length whole) (omega arith) (omega arith), end, append-nil) refl

  Rebuilds-hunk :
      (position i : ℕ) (base target : List Bytes) (next : Progress) (hunks : List Hunk)
      → position ≤ i
      → i ≤ length whole
      → IsReplaced whole i base target [] next
      → Rebuilds next.left next.left next.target hunks
      → Rebuilds position i target
          (record { start = i; stop = next.left; lines = next.replacement } ∷ hunks)
  unfolding apply_hunks
  Rebuilds-hunk position i base target next hunks le h p ih =
      let none : next.left - next.left ≡ 0 = omega arith in
      rw (slice_whole position i le h, ih, none, p.replaced) refl

  Rebuilds-kept :
      (position i : ℕ) (base target : List Bytes) (o n : Bytes) (hunks : List Hunk)
      → drop i whole ≡ o ∷ base
      → position ≤ i
      → equal o n ≡ true
      → Rebuilds position (i + 1) target hunks
      → Rebuilds position i (n ∷ target) hunks
  Rebuilds-kept position i base target o n hunks e le same ih =
      let (lt, next, got) = drop_next whole i e in
      let split : position + (i - position) ≡ i = omega arith in
      let longer : i + 1 - position ≡ suc (i - position) = omega arith in
      let there : get_elem? whole (position + (i - position)) ≡ some o =
        ap (get_elem? whole) split ∙ got in
      let kept = take (i - position) (drop position whole) in
      let same_line : o ≡ n = equal→eq o n same in
      ih
      ∙ rw (longer, take-suc-drop position (i - position) whole there)
          (ap ok (append_assoc kept (o ∷ []) target ∙ ap (λ x. kept ++ (x ∷ target)) same_line))

  pub starts_equal_lem :
      (base target : List Bytes)
      → starts_equal base target ≡ true
      → (o n : Bytes) × (base ≡ o ∷ drop 1 base) × (target ≡ n ∷ drop 1 target) × (equal o n ≡ true)
  starts_equal_lem [] target e = cc
  starts_equal_lem (o ∷ base) [] e = cc
  starts_equal_lem (o ∷ base) (n ∷ target) e = (o, n, refl, refl, e)

  differences_loop_lem :
      (fuel position i j : ℕ) (base target : List Bytes)
      → length base + length target ≤ fuel
      → drop i whole ≡ base
      → position ≤ i
      → i ≤ length whole
      → Rebuilds position i target (differences_loop t fuel i j base target)
  unfolding differences_loop
  differences_loop_lem zero position i j [] [] f e le h = Rebuilds-none position i e le h
  differences_loop_lem zero position i j (o ∷ base) target f e le h = absurd (omega arith)
  differences_loop_lem zero position i j [] (n ∷ target) f e le h = absurd (omega arith)
  differences_loop_lem (suc fuel) position i j base target f e le h =
      let total : ℕ = length base + length target in
      elim (Bool-cases (length base == 0 && length target == 0)) [
        | inl z ↦
            let (no_base, no_target) = no_lines base target z in
            rw (z, no_target) (Rebuilds-none position i (e ∙ no_base) le h)
        | inr z ↦ elim (Bool-cases (starts_equal base target)) [
          | inl s ↦
              let (o, n, eb, et, same) = starts_equal_lem base target s in
              let (lt, next, _) = drop_next whole i (e ∙ eb) in
              rw (z, s)
                (Rebuilds-kept position i (drop 1 base) (drop 1 target) o n _ (e ∙ eb) le same (
                    differences_loop_lem fuel position (i + 1) (j + 1) (drop 1 base) (drop 1 target)
                      (omega (arith, ap length eb, ap length et)) next (omega arith) (omega arith))
                  ∙ ap (λ x. ok (take (i - position) (drop position whole) ++ x)) (sym et))
          | inr s ↦
              let next = replace_loop t total i j base target [] in
              let p = replace_loop_lem total i j base target [] e h in
              let less =
                replace_loop_strict total i j base target e h (ground arith) s (ground arith) in
              rw (z, s)
                (Rebuilds-hunk position i base target next _ le h p (
                  differences_loop_lem fuel next.left next.left next.right next.base next.target
                    (omega arith) p.rest (omega arith) p.inside))
        ]
      ]

-- For any two texts as lists of lines, the differences between them, applied to the whole of the first,
-- are applied without a panic and give the second.
pub apply_hunks-differences :
    (base target : List Bytes)
    → apply_hunks base 0 (length base) (differences base target) ≡ ok target
unfolding differences
apply_hunks-differences base target =
    differences_loop_lem (table equal base target) base (length base + length target) 0 0 0 base
      target (omega arith) refl (omega arith) (omega arith)

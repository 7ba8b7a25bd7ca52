-- ===== src/Diff/Script.antt =====
-- `Operations` and `CarryOrigins` of internal/diff/diff.go against edit scripts.
use go_svn.Base.{
  ℕ, zero, suc, ◌+◌, ◌≤◌, ◌≡◌, refl, sym, ap, ◌∙◌, true, List, [], ◌∷◌, Bytes, ltb, length, drop,
  drop_next, arith, Bool-cases, inl, inr, equal_refl,
}
use go_svn.Base.Int.{ℤ}
use go_svn.Lcs.{cell, table}
use go_svn.Lcs.Longest.{
  lcs, lcs-skip_left, lcs-skip_right, lcs-pair, lcs-right, lcs-down, lcs-nil, lcs_none,
  lcs-pair_suc, cell-table,
}
use go_svn.Diff.{
  Options, Operation, op_equal, op_delete, op_add, split_lines, same_line, normalize, walk,
  operations, carry_loop, carry_origins,
}

-- An edit script from some lines to others that keeps so many of them. A line that is kept is written
-- the new way, and equals the old one by the options.
pub data IsScript (options : Options) : List Bytes → List Bytes → ℕ → List Operation → Type 0 where
  done : IsScript options [] [] 0 []
  keep :
      {o n : Bytes} {old new : List Bytes} {k : ℕ} {ops : List Operation}
      → same_line options o n ≡ true
      → IsScript options old new k ops
      → IsScript options (o ∷ old) (n ∷ new) (suc k) (op_equal n ∷ ops)
  remove :
      {o : Bytes} {old new : List Bytes} {k : ℕ} {ops : List Operation}
      → IsScript options old new k ops
      → IsScript options (o ∷ old) new k (op_delete o ∷ ops)
  insert :
      {n : Bytes} {old new : List Bytes} {k : ℕ} {ops : List Operation}
      → IsScript options old new k ops
      → IsScript options old (n ∷ new) k (op_add n ∷ ops)

module _ (options : Options) where
  -- No script keeps more than the longest common subsequence.
  script_bound :
      {old new : List Bytes} {k : ℕ} {ops : List Operation}
      → IsScript options old new k ops
      → k ≤ lcs (same_line options) old new
  script_bound done = omega arith
  script_bound (keep {o = o} {n = n} {old = old} {new = new} e s) =
      omega (arith, script_bound s, lcs-pair (same_line options) o old n new e)
  script_bound (remove {o = o} {old = old} {new = new} s) =
      omega (arith, script_bound s, lcs-skip_left (same_line options) o old new)
  script_bound (insert {n = n} {old = old} {new = new} s) =
      omega (arith, script_bound s, lcs-skip_right (same_line options) old n new)

  walk_lem :
      (whole_old whole_new : List Bytes) (fuel i j : ℕ) (old new : List Bytes)
      → drop i whole_old ≡ old
      → drop j whole_new ≡ new
      → length old + length new ≤ fuel
      → i ≤ length whole_old
      → j ≤ length whole_new
      → IsScript options old new
          (lcs (same_line options) old new)
          (walk options (table (same_line options) whole_old whole_new) fuel i j old new)
  unfolding walk
  walk_lem whole_old whole_new zero i j [] [] eo en f hi hj =
      rw (lcs_none (same_line options) []) done
  walk_lem whole_old whole_new zero i j (o ∷ old) new eo en f hi hj = absurd (omega arith)
  walk_lem whole_old whole_new zero i j [] (n ∷ new) eo en f hi hj = absurd (omega arith)
  walk_lem whole_old whole_new (suc fuel) i j [] [] eo en f hi hj =
      rw (lcs_none (same_line options) []) done
  walk_lem whole_old whole_new (suc fuel) i j [] (n ∷ new) eo en f hi hj =
      let (lt, next, _) = drop_next whole_new j en in
      let ih =
        walk_lem whole_old whole_new fuel i (j + 1) [] new eo next (omega arith) hi (omega arith) in
      rw (lcs_none (same_line options) (n ∷ new))
        (insert (rw (lcs_none (same_line options) new) at ih))
  walk_lem whole_old whole_new (suc fuel) i j (o ∷ old) [] eo en f hi hj =
      let (lt, next, _) = drop_next whole_old i eo in
      let ih =
        walk_lem whole_old whole_new fuel (i + 1) j old [] next en (omega arith) (omega arith) hj in
      rw (lcs-nil (same_line options) (o ∷ old))
        (remove (rw (lcs-nil (same_line options) old) at ih))
  walk_lem whole_old whole_new (suc fuel) i j (o ∷ old) (n ∷ new) eo en f hi hj =
      let (lti, nexti, _) = drop_next whole_old i eo in
      let (ltj, nextj, _) = drop_next whole_new j en in
      let down : cell (table (same_line options) whole_old whole_new) (i + 1) j
          ≡ lcs (same_line options) old (n ∷ new) =
        cell-table (same_line options) whole_old whole_new (i + 1) j (omega arith) hj
        ∙ rw (nexti, en) in
      let right : cell (table (same_line options) whole_old whole_new) i (j + 1)
          ≡ lcs (same_line options) (o ∷ old) new =
        cell-table (same_line options) whole_old whole_new i (j + 1) hi (omega arith)
        ∙ rw (eo, nextj) in
      elim (Bool-cases (same_line options o n)) [
        | inl e ↦
            rw (e, sym (lcs-pair_suc (same_line options) o old n new e))
              (keep e (
                walk_lem whole_old whole_new fuel (i + 1) (j + 1) old new nexti nextj (omega arith)
                  (omega arith) (omega arith)))
        | inr e ↦
            elim (Bool-cases (
              ltb (cell (table (same_line options) whole_old whole_new) (i + 1) j)
                (cell (table (same_line options) whole_old whole_new) i (j + 1)))) [
                  | inl l ↦
                      rw (e, l, lcs-right (same_line options) o old n new e (ground arith))
                        (insert (
                          walk_lem whole_old whole_new fuel i (j + 1) (o ∷ old) new eo nextj
                            (omega arith) hi (omega arith)))
                  | inr l ↦
                      rw (e, l, lcs-down (same_line options) o old n new e (ground arith))
                        (remove (
                          walk_lem whole_old whole_new fuel (i + 1) j old (n ∷ new) nexti en
                            (omega arith) (omega arith) hj))
                ]
      ]

operations_lem :
    (options : Options) (old_data new_data : Bytes)
    → IsScript options
        (split_lines old_data)
        (split_lines new_data)
        (lcs (same_line options) (split_lines old_data) (split_lines new_data))
        (operations old_data new_data options)
unfolding operations
operations_lem options old_data new_data =
    let old = split_lines old_data in
    let new = split_lines new_data in
    walk_lem options old new (length old + length new) 0 0 old new refl refl (omega arith)
      (omega arith) (omega arith)

-- For all texts and options, `Operations` is an edit script from the old lines to the new ones, and it
-- keeps at least as many lines as any given edit script between them.
pub operations-IsScript :
    (options : Options) (old_data new_data : Bytes) (k : ℕ) (ops : List Operation)
    → IsScript options (split_lines old_data) (split_lines new_data) k ops
    → (kept : ℕ) × IsScript options
        (split_lines old_data)
        (split_lines new_data)
        kept
        (operations old_data new_data options)
      × (k ≤ kept)
operations-IsScript options old_data new_data k ops s =
    (_, operations_lem options old_data new_data, script_bound options s)

module _ (options : Options) where
  carry_loop-length :
      {old new : List Bytes} {k : ℕ} {ops : List Operation} (origins : List ℤ) (revision : ℤ)
      → IsScript options old new k ops
      → length (carry_loop ops origins revision) ≡ length new
  unfolding carry_loop
  carry_loop-length origins revision done = refl
  carry_loop-length origins revision (keep e s) =
      ap suc (carry_loop-length (drop 1 origins) revision s)
  carry_loop-length origins revision (remove s) = carry_loop-length (drop 1 origins) revision s
  carry_loop-length origins revision (insert s) = ap suc (carry_loop-length origins revision s)

  same_line_refl : (line : Bytes) → same_line options line line ≡ true
  unfolding same_line
  same_line_refl line = equal_refl (normalize line options)

  carry_loop-walk_same :
      (t : List (List ℕ)) (fuel i j : ℕ) (lines : List Bytes) (origins : List ℤ) (revision : ℤ)
      → length lines ≤ fuel
      → length origins ≡ length lines
      → carry_loop (walk options t fuel i j lines lines) origins revision ≡ origins
  unfolding walk carry_loop
  carry_loop-walk_same t zero i j [] [] revision f e = refl
  carry_loop-walk_same t zero i j [] (x ∷ xs) revision f e = absurd (omega arith)
  carry_loop-walk_same t zero i j (l ∷ ls) origins revision f e = absurd (omega arith)
  carry_loop-walk_same t (suc fuel) i j [] [] revision f e = refl
  carry_loop-walk_same t (suc fuel) i j [] (x ∷ xs) revision f e = absurd (omega arith)
  carry_loop-walk_same t (suc fuel) i j (l ∷ ls) [] revision f e = absurd (omega arith)
  carry_loop-walk_same t (suc fuel) i j (l ∷ ls) (x ∷ xs) revision f e = rw (same_line_refl l) (
      ap (λ r. x ∷ r)
        (carry_loop-walk_same t fuel (i + 1) (j + 1) ls xs revision (omega arith) (omega arith)))

-- Where every line of the old text has an origin, `CarryOrigins` gives every line of the new text one,
-- and from the old text to itself it keeps the origins as they are.
length-carry_origins :
    (options : Options) (old_data new_data : Bytes) (origins : List ℤ) (revision : ℤ)
    → length origins ≡ length (split_lines old_data)
    → (length (carry_origins old_data new_data origins revision options)
        ≡ length (split_lines new_data))
      × (carry_origins old_data old_data origins revision options ≡ origins)
unfolding carry_origins operations
length-carry_origins options old_data new_data origins revision e = (
  carry_loop-length options origins revision (operations_lem options old_data new_data),
  carry_loop-walk_same options _ _ 0 0 (split_lines old_data) origins revision (omega arith) e,
)

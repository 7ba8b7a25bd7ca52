-- ===== src/Delta/Window/Total.antt =====
-- `Validate` and `ApplyWindow` of delta/window.go on any window.
use go_svn.Base.{
  ==_true, ap, ◌⊎◌, ℕ, ◌+◌, ◌-◌, ◌≤◌, ◌<◌, ◌≡◌, refl, sym, ◌∙◌, List, [], ◌∷◌, ◌++◌, Bytes, length,
  length-append, length-take, length-drop, take, drop, arith, inl, inr, Bool-cases, ◌==◌, ◌≢◌, leb,
}
use go_svn.Base.Int.{pos, pos_part}
use go_svn.Base.Outcome.{
  FailsWith-cases, fails_rules, returns, err, >>=-FailsWith, svndiff_invalid_ops, FailsWith, ok,
  >>=-eq-ok, slice, slice_lem, panic, max_alloc, make_slice, make_slice_lem,
}
use go_svn.Delta.Window.{
  Window, apply_window, validate, Op, op_source, op_target, op_new, validate_kind, validate_op,
  validate_ops, apply_op, apply_ops,
}
use go_svn.Delta.Window.Copy.{copy_target_lem}

-- What the bounds tests of `Validate` establish of one operation, by its kind.
pub data InBounds (source_length new_length produced : ℕ) (op : Op) : Type 0 where
  in_source :
      op.kind ≡ op_source
      → pos_part op.offset + pos_part op.length ≤ source_length
      → InBounds source_length new_length produced op
  in_target :
      op.kind ≡ op_target
      → pos_part op.offset < produced
      → InBounds source_length new_length produced op
  in_new :
      op.kind ≡ op_new
      → pos_part op.offset + pos_part op.length ≤ new_length
      → InBounds source_length new_length produced op

pub validate_kind-InBounds :
    (s n q : ℕ) (op : Op)
    → validate_kind s n q op.kind (pos_part op.offset) (pos_part op.length) ≡ ok tt
    → InBounds s n q op
unfolding validate_kind
validate_kind-InBounds s n q op e = elim (Bool-cases (op.kind == op_source)) [
  | inl k ↦ in_source (ground arith) (ground arith)
  | inr k ↦ elim (Bool-cases (op.kind == op_target)) [
    | inl k' ↦ in_target (ground arith) (ground arith)
    | inr k' ↦ in_new (ground arith) (ground arith)
  ]
]

pub validate_op_facts :
    (s t n q : ℕ) (op : Op) (p : ℕ)
    → validate_op s t n q op ≡ ok p
    → (p ≡ q + pos_part op.length)
      × (0 < pos_part op.length)
      × (pos_part op.length ≤ t - q)
      × (validate_kind s n q op.kind (pos_part op.offset) (pos_part op.length) ≡ ok tt)
unfolding validate_op
validate_op_facts s t n q op p e = ground arith

slice_piece :
    (xs : Bytes) (offset count : ℕ)
    → offset + count ≤ length xs
    → (piece : Bytes) × (slice xs offset (offset + count) ≡ ok piece) × (length piece ≡ count)
slice_piece xs offset count h = (
  take (offset + count - offset) (drop offset xs),
  slice_lem xs offset (offset + count) (omega arith) h,
  omega (arith, length-take (offset + count - offset) (drop offset xs), length-drop offset xs),
)

apply_op_lem :
    (source new_data target : Bytes) (op : Op)
    → InBounds (length source) (length new_data) (length target) op
    → (target' : Bytes) × (apply_op source new_data target op ≡ ok target')
      × (length target' ≡ length target + pos_part op.length)
unfolding apply_op
apply_op_lem source new_data target op (in_source k h) =
    let (piece, e, n) = slice_piece source (pos_part op.offset) (pos_part op.length) h in
    (target ++ piece, rw (k, e), omega (arith, length-append target piece, n))
apply_op_lem source new_data target op (in_target k h) =
    let (piece, e, n, _) = copy_target_lem (pos_part op.length) (pos_part op.offset) target h in
    (target ++ piece, rw (k, e), omega (arith, length-append target piece, n))
apply_op_lem source new_data target op (in_new k h) =
    let (piece, e, n) = slice_piece new_data (pos_part op.offset) (pos_part op.length) h in
    (target ++ piece, rw (k, e), omega (arith, length-append target piece, n))

apply_ops_lem :
    (source new_data : Bytes) (t : ℕ) (ops : List Op) (target : Bytes) (produced : ℕ)
    → validate_ops (length source) t (length new_data) (length target) ops ≡ ok produced
    → (target' : Bytes) × (apply_ops source new_data target ops ≡ ok target')
      × (length target' ≡ produced)
unfolding validate_ops apply_ops
apply_ops_lem source new_data t [] target produced e = (target, refl, ground arith)
apply_ops_lem source new_data t (op ∷ ops) target produced e =
    let (p, first, rest) =
      >>=-eq-ok (validate_op (length source) t (length new_data) (length target) op) _ e in
    let (sum, _, _, kind) =
      validate_op_facts (length source) t (length new_data) (length target) op p first in
    let (target', run, n) =
      apply_op_lem source new_data target op (validate_kind-InBounds _ _ _ op kind) in
    let now : length target' ≡ p = n ∙ sym sum in
    let (final, run', m) = apply_ops_lem source new_data t ops target' produced (rw now rest) in
    (final, rw (run, run'), m)

validate_kind-FailsWith :
    (s n q kind offset length : ℕ)
    → FailsWith svndiff_invalid_ops (validate_kind s n q kind offset length)
unfolding validate_kind
validate_kind-FailsWith s n q kind offset length = search fails_rules

validate_op-FailsWith :
    (s t n q : ℕ) (op : Op) → FailsWith svndiff_invalid_ops (validate_op s t n q op)
unfolding validate_op
validate_op-FailsWith s t n q op = search (fails_rules, validate_kind-FailsWith)

validate_ops-FailsWith :
    (s t n q : ℕ) (ops : List Op) → FailsWith svndiff_invalid_ops (validate_ops s t n q ops)
unfolding validate_ops
validate_ops-FailsWith s t n q [] = returns q
validate_ops-FailsWith s t n q (op ∷ ops) =
    >>=-FailsWith _ _ (validate_op-FailsWith s t n q op) (λ p. validate_ops-FailsWith s t n p ops)

-- `Validate` accepts or answers `ErrSvndiffInvalidOps`.
pub validate-FailsWith : (w : Window) → FailsWith svndiff_invalid_ops (validate w)
unfolding validate
validate-FailsWith w = search (fails_rules, validate_ops-FailsWith)

pub record ValidFacts (w : Window) : Type 0 where
  pub source_offset_nonneg : w.source_offset ≡ pos (pos_part w.source_offset)
  pub source_length_nonneg : w.source_length ≡ pos (pos_part w.source_length)
  pub target_length_nonneg : w.target_length ≡ pos (pos_part w.target_length)
  pub produces :
      validate_ops (pos_part w.source_length) (pos_part w.target_length) (length w.new_data) 0 w.ops
      ≡ ok (pos_part w.target_length)

pub validate-ValidFacts : (w : Window) → validate w ≡ ok tt → ValidFacts w
unfolding validate
validate-ValidFacts w e = ground arith

-- The operations of a valid window run to the end on a source view of the window's length.
pub apply_window_valid :
    (source : Bytes) (w : Window)
    → validate w ≡ ok tt
    → w.source_length ≡ pos (length source)
    → pos_part w.target_length ≤ max_alloc
    → (target : Bytes) × (apply_window source w ≡ ok target)
      × (apply_ops source w.new_data [] w.ops ≡ ok target)
      × (w.target_length ≡ pos (length target))
unfolding apply_window
apply_window_valid source w e n fits =
    let facts = validate-ValidFacts w e in
    let l : length source ≡ pos_part w.source_length = sym (ap pos_part n) in
    let (target, run, m) =
      apply_ops_lem source w.new_data (pos_part w.target_length) w.ops [] (pos_part w.target_length)
        (rw l facts.produces) in
    (
      target,
      rw (e, ==_true _ _ l, make_slice_lem _ fits) run,
      run,
      facts.target_length_nonneg ∙ sym (ap pos m),
    )

-- Whatever the source view and the window, `ApplyWindow` does one of three things. It returns a target
-- whose length is the window's `TargetLength`, where the window is valid, the source view has its
-- `SourceLength`, and a slice of the `TargetLength` can be made; it panics, where only the last of the
-- three fails; or it answers `ErrSvndiffInvalidOps`, where one of the first two fails.
pub apply_window_cases :
    (source : Bytes) (w : Window)
    → ((target : Bytes) × (apply_window source w ≡ ok target)
        × (w.target_length ≡ pos (length target))
        × (validate w ≡ ok tt)
        × (w.source_length ≡ pos (length source))
        × (length target ≤ max_alloc))
      ⊎ ((apply_window source w ≡ panic)
          × (max_alloc < pos_part w.target_length)
          × (validate w ≡ ok tt)
          × (w.source_length ≡ pos (length source)))
      ⊎ ((apply_window source w ≡ err svndiff_invalid_ops)
          × ((validate w ≡ err svndiff_invalid_ops) ⊎ (w.source_length ≢ pos (length source))))
unfolding apply_window make_slice
apply_window_cases source w = elim (FailsWith-cases (validate-FailsWith w)) [
  | inr e ↦ inr (inr (rw e, inl e))
  | inl (a, e) ↦ elim (Bool-cases (length source == pos_part w.source_length)) [
    | inl n ↦
        let l : w.source_length ≡ pos (length source) =
          (validate-ValidFacts w e).source_length_nonneg ∙ ap pos (sym (ground arith)) in
        elim (Bool-cases (leb (pos_part w.target_length) max_alloc)) [
          | inl fits ↦
              let (target, run, _, m) = apply_window_valid source w e l (ground arith) in
              inl (target, run, m, e, l, ground (arith, ap pos_part m))
          | inr over ↦ inr (inl (rw (e, n, over), ground arith, e, l))
        ]
    | inr n ↦ inr (inr (rw (e, n), inr (λ l. ground (arith, ap pos_part l))))
  ]
]

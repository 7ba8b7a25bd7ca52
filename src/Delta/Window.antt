-- ===== src/Delta/Window.antt =====
-- delta/window.go: operations, windows, `Validate` and `ApplyWindow`. A Go `int` is an integer; its
-- 64 bits are never exceeded, since every sum here is bounded by a length that was tested before.
pub mod Total
pub mod Copy
use go_svn.Base.{
  ℕ, zero, suc, ◌+◌, ◌-◌, ◌≤◌, ◌≡◌, Bool, true, false, not, ◌&&◌, ◌||◌, List, [], ◌∷◌, ◌++◌, Bytes,
  ltb, leb, ◌==◌, if◌then◌else◌, length,
}
use go_svn.Base.Int.{ℤ, pos, negsuc, pos_part}
use go_svn.Base.Outcome.{
  Outcome, Error, ok, err, svndiff_invalid_ops, ◌>>=◌, ◌>>◌, guard, at, slice, make_slice,
}

-- `OpKind` is a byte with three named values.
abbrev pub op_source : ℕ
op_source = 0

abbrev pub op_target : ℕ
op_target = 1

abbrev pub op_new : ℕ
op_new = 2

pub record Op : Type 0 where
  pub kind : ℕ
  pub offset : ℤ
  pub length : ℤ

pub record Window : Type 0 where
  pub source_offset : ℤ
  pub source_length : ℤ
  pub target_length : ℤ
  pub ops : List Op
  pub new_data : Bytes

abbrev pub is_negative : ℤ → Bool
is_negative (pos n) = false
is_negative (negsuc n) = true

-- The `switch` of `Validate`. `offset > view - length` is tested as `offset + length > view`, since
-- the difference may be negative.
unfoldable pub validate_kind :
    (source_length new_length produced kind offset length : ℕ) → Outcome (Unit {0})
validate_kind source_length new_length produced kind offset length =
    if kind == op_source
    then guard (leb (offset + length) source_length) svndiff_invalid_ops
    else if kind == op_target
    then guard (ltb offset produced) svndiff_invalid_ops
    else if kind == op_new
    then guard (leb (offset + length) new_length) svndiff_invalid_ops
    else err svndiff_invalid_ops

-- One round of the loop of `Validate`: the bytes produced so far, and those produced after it.
unfoldable pub validate_op : (source_length target_length new_length produced : ℕ) → Op → Outcome ℕ
validate_op source_length target_length new_length produced op = do
  guard (not (is_negative op.offset || leb (pos_part op.length) 0)) svndiff_invalid_ops
  guard (leb (pos_part op.length) (target_length - produced)) svndiff_invalid_ops
  validate_kind source_length new_length produced op.kind (pos_part op.offset) (pos_part op.length)
  ok (produced + pos_part op.length)

unfoldable pub validate_ops :
    (source_length target_length new_length produced : ℕ) → List Op → Outcome ℕ
validate_ops source_length target_length new_length produced [] = ok produced
validate_ops source_length target_length new_length produced (op ∷ ops) = do
  produced' ← validate_op source_length target_length new_length produced op
  validate_ops source_length target_length new_length produced' ops

unfoldable pub validate : Window → Outcome (Unit {0})
validate w = do
  guard
      (not
        (is_negative w.source_offset || is_negative w.source_length || is_negative w.target_length))
      svndiff_invalid_ops
  produced ←
      validate_ops (pos_part w.source_length) (pos_part w.target_length) (length w.new_data) 0 w.ops
  guard (produced == pos_part w.target_length) svndiff_invalid_ops

-- `target = append(target, target[operation.Offset+index])`, as often as the first number says. The
-- source of the copy may run into bytes that the copy itself appends.
unfoldable pub copy_target : (rounds position : ℕ) → Bytes → Outcome Bytes
copy_target zero position target = ok target
copy_target (suc rounds) position target = do
  byte ← at target position
  copy_target rounds (position + 1) (target ++ (byte ∷ []))

-- One round of the loop of `ApplyWindow`. The window is valid, so offset and length are not negative.
unfoldable pub apply_op : (source new_data target : Bytes) → Op → Outcome Bytes
apply_op source new_data target op =
    let offset = pos_part op.offset in
    let end = offset + pos_part op.length in
    if op.kind == op_source
    then (do piece ← slice source offset end; ok (target ++ piece))
    else if op.kind == op_target
    then copy_target (pos_part op.length) offset target
    else if op.kind == op_new
    then (do piece ← slice new_data offset end; ok (target ++ piece))
    else ok target

unfoldable pub apply_ops : (source new_data target : Bytes) → List Op → Outcome Bytes
apply_ops source new_data target [] = ok target
apply_ops source new_data target (op ∷ ops) = do
  target' ← apply_op source new_data target op
  apply_ops source new_data target' ops

unfoldable pub apply_window : Bytes → Window → Outcome Bytes
apply_window source w = do
  validate w
  guard (length source == pos_part w.source_length) svndiff_invalid_ops
  make_slice (pos_part w.target_length)
  apply_ops source w.new_data [] w.ops

-- ===== src/Delta/Instructions.antt =====
-- The instruction section of a svndiff window: `encodeInstructions` of delta/svndiff_write.go and
-- `decodeInstructions` of delta/svndiff_read.go.
mod OneOp
pub mod RoundTrip
pub mod Total
pub mod Width
use go_svn.Delta.Varint.{append_varint, consume_varint}
use Prim.Native.Nat.{bit_or, bit_and}
use go_svn.Base.Int.{to_uint64, max_int, eqb_ℤ, ltb_ℤ, to_int64, pos, ℤ}
use go_svn.Delta.Window.{op_new, validate, Op}
use go_svn.Base.Outcome.{out_of_fuel, svndiff_invalid_ops, wrap, guard, ok, Outcome, ◌>>=◌, ◌>>◌}
use go_svn.Base.{
  suc, ltb, ◌||◌, not, ◌++◌, ◌+◌, replicate, ◌%◌, ◌/◌, ◌∷◌, leb, ◌==◌, ◌^◌, [], if◌then◌else◌,
  length, ◌*◌, Bytes, List, ℕ,
}

-- One round of the loop of `encodeInstructions`.
unfoldable pub encode_op : Bytes → Op → Bytes
encode_op encoded op =
    let first : ℕ = op.kind * 2 ^ 6 % 256 in
    let sized : Bytes =
      if ltb_ℤ op.length (pos 64)
      then encoded ++ (bit_or first (to_uint64 op.length % 256) ∷ [])
      else append_varint (encoded ++ (first ∷ [])) (to_uint64 op.length) in
    if op.kind == op_new then sized else append_varint sized (to_uint64 op.offset)

unfoldable pub encode_ops : Bytes → List Op → Bytes
encode_ops encoded [] = encoded
encode_ops encoded (op ∷ ops) = encode_ops (encode_op encoded op) ops

unfoldable pub encode_instructions : List Op → Bytes
unfolding encode_ops
encode_instructions ops = encode_ops [] ops

-- The length of an instruction: its six low bits or, if they are 0, the varint that follows.
unfoldable pub decode_length : (instruction : ℕ) → Bytes → Outcome (ℕ × Bytes)
decode_length instruction input =
    if bit_and instruction 0x3f == 0
    then wrap svndiff_invalid_ops (consume_varint input)
    else ok (bit_and instruction 0x3f, input)

-- Where the operation copies from, the position in the new data behind it, and the input left.
-- `newPosition` is kept as the 64 bits of an `int`.
unfoldable pub decode_offset :
    (kind length : ℕ) → Bytes → (new_position : ℕ) → Outcome (Op × ℕ × Bytes)
decode_offset kind length input new_position =
    if kind == op_new
    then ok (
      record { kind = kind; offset = to_int64 new_position; length = pos length },
      (new_position + length) % 2 ^ 64,
      input,
    )
    else (do
      (offset, input') ← wrap svndiff_invalid_ops (consume_varint input)
      guard (leb offset max_int) svndiff_invalid_ops
      ok (record { kind = kind; offset = pos offset; length = pos length }, new_position, input'))

-- One round of the loop of `decodeInstructions`, behind the instruction byte.
unfoldable pub decode_op : (instruction : ℕ) → Bytes → (new_position : ℕ) → Outcome (Op × ℕ × Bytes)
decode_op instruction input new_position = do
  guard (leb (instruction / 2 ^ 6) op_new) svndiff_invalid_ops
  (length, input') ← decode_length instruction input
  guard (not (length == 0 || ltb max_int length)) svndiff_invalid_ops
  decode_offset (instruction / 2 ^ 6) length input' new_position

-- The operations decoded, and the final position in the new data.
unfoldable pub decode_loop :
    (fuel : ℕ) → Bytes → (new_position : ℕ) → List Op → Outcome (List Op × ℕ)
decode_loop fuel [] new_position operations = ok (operations, new_position)
decode_loop ℕ.zero (instruction ∷ input) new_position operations = out_of_fuel
decode_loop (suc fuel) (instruction ∷ input) new_position operations = do
  (operation, new_position', input') ← decode_op instruction input new_position
  decode_loop fuel input' new_position' (operations ++ (operation ∷ []))

-- A round takes a byte at least, so the length of the input is fuel enough.
unfoldable pub decode_instructions :
    Bytes → (source_length target_length : ℤ) → (new_length : ℕ) → Outcome (List Op)
decode_instructions input source_length target_length new_length = do
  (operations, new_position) ← decode_loop (length input) input 0 []
  validate (record {
    source_offset = pos 0;
    source_length = source_length;
    target_length = target_length;
    ops = operations;
    new_data = replicate new_length 0;
  })
  guard (eqb_ℤ (to_int64 new_position) (pos new_length)) svndiff_invalid_ops
  ok operations

-- ===== src/Delta/Instructions/Width.antt =====
-- What `encodeInstructions` of delta/svndiff_write.go appends are bytes.
use go_svn.Base.{
  zero, suc, ℕ, ◌/◌, ◌≤◌, ◌≡◌, [], ◌∷◌, IsByte, All, All-append, List, ltb, ◌==◌, length, arith,
  Bool-cases, inl, inr,
}
use go_svn.Base.Int.{pos_part, max_int}
use go_svn.Base.Outcome.{ok}
use go_svn.Delta.Varint.Encode.{encoding, leading}
use go_svn.Delta.Window.{Op, Window, op_new, validate}
use go_svn.Delta.Window.Total.{validate-ValidFacts}
use go_svn.Delta.Instructions.{encode_instructions}
use go_svn.Delta.Instructions.OneOp.{
  IsEncodable, head_of, behind_first, length_bytes, offset_bytes, op_bytes,
}
use go_svn.Delta.Instructions.RoundTrip.{
  encode_ops-ops_bytes, op_bytes_of, ops_bytes, validate_ops-IsEncodable,
}

leading-IsByte : (k v : ℕ) → All IsByte (leading k v)
unfolding leading
leading-IsByte zero v = tt
leading-IsByte (suc k) v = elim (Bool-cases (v == 0)) [
  | inl e ↦ rw e tt
  | inr e ↦
      rw e
        (All-append IsByte (leading k (v / 128)) _ (leading-IsByte k (v / 128)) (omega arith, tt))
]

encoding-IsByte : (v : ℕ) → All IsByte (encoding v)
unfolding encoding
encoding-IsByte v =
    All-append IsByte (leading 9 (v / 128)) _ (leading-IsByte 9 (v / 128)) (omega arith, tt)

op_bytes-IsByte : (kind offset n : ℕ) → kind ≤ op_new → All IsByte (op_bytes kind offset n)
unfolding op_bytes length_bytes head_of behind_first offset_bytes
op_bytes-IsByte kind offset n k =
    All-append IsByte (length_bytes kind n) (offset_bytes kind offset)
      (elim (Bool-cases (ltb n 64)) [
        | inl e ↦ rw e (ground arith, tt)
        | inr e ↦ rw e (omega arith, encoding-IsByte n)
      ])
      (elim (Bool-cases (kind == op_new)) [
        | inl e ↦ rw e tt
        | inr e ↦ rw e (encoding-IsByte offset)
      ])

ops_bytes-IsByte : (ops : List Op) → All IsEncodable ops → All IsByte (ops_bytes ops)
unfolding ops_bytes op_bytes_of
ops_bytes-IsByte [] h = tt
ops_bytes-IsByte (op ∷ ops) (v, vs) =
    All-append IsByte (op_bytes_of op) _
      (op_bytes-IsByte op.kind (pos_part op.offset) (pos_part op.length) v.known)
      (ops_bytes-IsByte ops vs)

-- The instruction section of a valid window consists of bytes.
pub encode_instructions-IsByte :
    (w : Window)
    → validate w ≡ ok tt
    → pos_part w.source_length ≤ max_int
    → pos_part w.target_length ≤ max_int
    → length w.new_data ≤ max_int
    → All IsByte (encode_instructions w.ops)
unfolding encode_instructions
encode_instructions-IsByte w e hs ht hn =
    let all : All IsEncodable w.ops =
      validate_ops-IsEncodable (pos_part w.source_length) (pos_part w.target_length)
        (length w.new_data) 0 w.ops _ hs ht hn (omega arith) (validate-ValidFacts w e).produces in
    rw (encode_ops-ops_bytes [] w.ops all) (ops_bytes-IsByte w.ops all)

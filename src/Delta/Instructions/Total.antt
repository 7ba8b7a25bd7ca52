-- ===== src/Delta/Instructions/Total.antt =====
-- `decodeInstructions` of delta/svndiff_read.go on any input, well formed or not.
use go_svn.Base.Int.{max_int, ℤ}
use go_svn.Delta.Window.Total.{validate-FailsWith}
use go_svn.Delta.Varint.{consume_varint}
use go_svn.Delta.Varint.Decode.{consume_varint_takes, consume_varint-Ends}
use go_svn.Base.Outcome.{
  >>=-eq-ok, FailsWith-cases, fails, guard, wrap, wrap-eq-ok, returns, wrap-FailsWith, fails_rules,
  ok, svndiff_invalid_ops, FailsWith,
}
use go_svn.Delta.Window.{op_new, Op}
use go_svn.Base.{
  not, Bool-cases, [], inl, inr, leb, ltb, zero, ◌++◌, ◌/◌, ◌==◌, ◌^◌, ◌||◌, suc, ◌∷◌, arith, ◌≤◌,
  length, List, ◌≡◌, Bytes, ℕ,
}
use go_svn.Delta.Instructions.{
  decode_instructions, decode_length, decode_loop, decode_offset, decode_op,
}

decode_length-FailsWith :
    (instruction : ℕ) (input : Bytes)
    → FailsWith svndiff_invalid_ops (decode_length instruction input)
unfolding decode_length
decode_length-FailsWith instruction input =
    search (fails_rules, wrap-FailsWith _ (consume_varint-Ends input))

decode_offset-FailsWith :
    (kind length : ℕ) (input : Bytes) (n : ℕ)
    → FailsWith svndiff_invalid_ops (decode_offset kind length input n)
unfolding decode_offset
decode_offset-FailsWith kind length input n =
    search (fails_rules, wrap-FailsWith _ (consume_varint-Ends input))

decode_op-FailsWith :
    (instruction : ℕ) (input : Bytes) (n : ℕ)
    → FailsWith svndiff_invalid_ops (decode_op instruction input n)
unfolding decode_op
decode_op-FailsWith instruction input n =
    search (fails_rules, decode_length-FailsWith, decode_offset-FailsWith)

decode_length_shorter :
    (instruction : ℕ) (input : Bytes) (size : ℕ) (rest : Bytes)
    → decode_length instruction input ≡ ok (size, rest)
    → length rest ≤ length input
unfolding decode_length
decode_length_shorter instruction input size rest e = ground (
  arith,
  wrap-eq-ok svndiff_invalid_ops (consume_varint input) (size, rest),
  consume_varint_takes input size rest,
)

decode_offset_shorter :
    (kind size : ℕ) (input : Bytes) (n : ℕ) (op : Op) (n' : ℕ) (rest : Bytes)
    → decode_offset kind size input n ≡ ok (op, n', rest)
    → length rest ≤ length input
unfolding decode_offset
decode_offset_shorter kind size input n op n' rest e = elim (Bool-cases (kind == op_new)) [
  | inl k ↦ ground arith
  | inr k ↦
      let ((o, r), first, last) =
        >>=-eq-ok (wrap svndiff_invalid_ops (consume_varint input)) _ (rw k at e) in
      let taken = consume_varint_takes input o r (wrap-eq-ok _ _ _ first) in ground (arith, taken)
]

decode_op_shorter :
    (instruction : ℕ) (input : Bytes) (n : ℕ) (op : Op) (n' : ℕ) (rest : Bytes)
    → decode_op instruction input n ≡ ok (op, n', rest)
    → length rest ≤ length input
unfolding decode_op
decode_op_shorter instruction input n op n' rest e =
    let (_, _, e₁) = >>=-eq-ok (guard (leb (instruction / 2 ^ 6) op_new) svndiff_invalid_ops) _ e in
    let ((size, input'), first, e₂) = >>=-eq-ok (decode_length instruction input) _ e₁ in
    let (_, _, e₃) =
      >>=-eq-ok (guard (not (size == 0 || ltb max_int size)) svndiff_invalid_ops) _ e₂ in
    omega (
      arith,
      decode_length_shorter instruction input size input' first,
      decode_offset_shorter (instruction / 2 ^ 6) size input' n op n' rest e₃,
    )

decode_loop-FailsWith :
    (fuel : ℕ) (input : Bytes) (n : ℕ) (before : List Op)
    → length input ≤ fuel
    → FailsWith svndiff_invalid_ops (decode_loop fuel input n before)
unfolding decode_loop
decode_loop-FailsWith fuel [] n before h = returns (before, n)
decode_loop-FailsWith zero (b ∷ input) n before h = absurd (omega arith)
decode_loop-FailsWith (suc fuel) (b ∷ input) n before h =
    elim (FailsWith-cases (decode_op-FailsWith b input n)) [
      | inr e ↦ rw e fails
      | inl ((op, n', rest), e) ↦ rw e (
          decode_loop-FailsWith fuel rest n' (before ++ (op ∷ []))
            (omega (arith, decode_op_shorter b input n op n' rest e)))
    ]

-- On any bytes and lengths the decoder ends, and the only error is `ErrSvndiffInvalidOps`: there
-- is fuel enough, and no position is read out of range.
decode_instructions-FailsWith :
    (input : Bytes) (source_length target_length : ℤ) (new_length : ℕ)
    → FailsWith svndiff_invalid_ops
        (decode_instructions input source_length target_length new_length)
unfolding decode_instructions
decode_instructions-FailsWith input s t n =
    search (
      fails_rules,
      validate-FailsWith,
      decode_loop-FailsWith (length input) input 0 [] (omega arith),
    )

-- ===== src/Delta/Instructions/RoundTrip.antt =====
-- `decodeInstructions` of delta/svndiff_read.go behind `encodeInstructions`.
use go_svn.Delta.Window.Total.{
  in_new, in_target, in_source, validate_kind-InBounds, InBounds, validate-ValidFacts,
  validate_op_facts,
}
use go_svn.Base.Outcome.{>>=-eq-ok, ok}
use go_svn.Base.Int.{max_int, pos, pos_part}
use go_svn.Delta.Instructions.OneOp.{
  head_of, decode_op-op_bytes, encode_op-op_bytes, encodable_shape, offset_bytes, behind_first,
  op_bytes-append, IsEncodable, op_bytes,
}
use go_svn.Base.{
  length-replicate, replicate, refl, length-append, ==_true, false, zero, ◌<◌, length, append_assoc,
  ◌∙◌, ap, ◌^◌, ◌%◌, ◌==◌, if◌then◌else◌, ◌≢◌, append-nil, suc, ◌+◌, sym, ◌++◌, All, arith, ◌∷◌,
  ◌≡◌, Bytes, [], ◌≤◌, List, ℕ,
}
use go_svn.Delta.Instructions.{
  encode_instructions, decode_instructions, decode_op, encode_op, decode_loop, encode_ops,
}
use go_svn.Delta.Window.{Window, validate, validate_op, validate_ops, op_new, Op}

-- The format writes no offset for new data: the operations must take it piece by piece, from the
-- first number on and up to the last.
pub data Sequential : ℕ → List Op → ℕ → Type 0 where
  done : (n : ℕ) → Sequential n [] n
  takes_new :
      {n m : ℕ} {op : Op} {ops : List Op}
      → op.kind ≡ op_new
      → op.offset ≡ pos n
      → Sequential (n + pos_part op.length) ops m
      → Sequential n (op ∷ ops) m
  takes_old :
      {n m : ℕ} {op : Op} {ops : List Op}
      → op.kind ≢ op_new
      → Sequential n ops m
      → Sequential n (op ∷ ops) m

Sequential-le : {n m : ℕ} {ops : List Op} → Sequential n ops m → n ≤ m
Sequential-le (done n) = omega arith
Sequential-le (takes_new k o s) = omega (arith, Sequential-le s)
Sequential-le (takes_old k s) = Sequential-le s

unfoldable pub op_bytes_of : Op → Bytes
op_bytes_of op = op_bytes op.kind (pos_part op.offset) (pos_part op.length)

unfoldable pub ops_bytes : List Op → Bytes
ops_bytes [] = []
ops_bytes (op ∷ ops) = op_bytes_of op ++ ops_bytes ops

pub encode_ops-ops_bytes :
    (encoded : Bytes) (ops : List Op)
    → All IsEncodable ops
    → encode_ops encoded ops ≡ encoded ++ ops_bytes ops
unfolding encode_ops ops_bytes op_bytes_of
encode_ops-ops_bytes encoded [] h = sym (append-nil encoded)
encode_ops-ops_bytes encoded (op ∷ ops) (v, vs) =
    let one : encode_op encoded op ≡ encoded ++ op_bytes_of op =
      ap (encode_op encoded) (encodable_shape op v)
      ∙ encode_op-op_bytes encoded op.kind (pos_part op.offset) (pos_part op.length) v.known
          v.offset_bound v.length_bound in
    ap (λ t. encode_ops t ops) one
    ∙ encode_ops-ops_bytes (encoded ++ op_bytes_of op) ops vs
    ∙ append_assoc encoded (op_bytes_of op) (ops_bytes ops)

decode_one :
    (n : ℕ) (op : Op) (rest : Bytes)
    → IsEncodable op
    → (op.kind ≡ op_new → op.offset ≡ pos n)
    → decode_op
        (head_of op.kind (pos_part op.length))
        (behind_first (pos_part op.length) ++ (offset_bytes op.kind (pos_part op.offset) ++ rest))
        n
      ≡ ok (op, if op.kind == op_new then (n + pos_part op.length) % 2 ^ 64 else n, rest)
decode_one n op rest v same =
    decode_op-op_bytes op.kind (pos_part op.offset) (pos_part op.length) n rest v.known
      v.offset_bound v.length_pos v.length_bound (λ k. ap pos_part (same k))
    ∙ ap (λ o. ok (o, if op.kind == op_new then (n + pos_part op.length) % 2 ^ 64 else n, rest))
        (sym (encodable_shape op v))

round :
    (fuel n : ℕ) (op : Op) (rest : Bytes) (before : List Op)
    → IsEncodable op
    → (op.kind ≡ op_new → op.offset ≡ pos n)
    → decode_loop (suc fuel) (op_bytes_of op ++ rest) n before
      ≡ decode_loop fuel rest
          (if op.kind == op_new then (n + pos_part op.length) % 2 ^ 64 else n)
          (before ++ (op ∷ []))
unfolding decode_loop op_bytes_of
round fuel n op rest before v same = rw (op_bytes-append, decode_one n op rest v same)

decode_loop-nil :
    (fuel n : ℕ) (before : List Op)
    → decode_loop fuel (ops_bytes []) n before ≡ ok (before ++ [], n)
unfolding decode_loop ops_bytes
decode_loop-nil fuel n before = rw append-nil refl

shorter : (op : Op) (ops : List Op) → length (ops_bytes ops) < length (ops_bytes (op ∷ ops))
unfolding ops_bytes op_bytes_of
shorter op ops = rw (op_bytes-append, length-append, length-append) (omega arith)

-- A round at the head of a longer section, by the kind of the operation.
round_new :
    (fuel n : ℕ) (op : Op) (ops before : List Op)
    → IsEncodable op
    → op.kind ≡ op_new
    → op.offset ≡ pos n
    → n + pos_part op.length ≤ max_int
    → decode_loop (suc fuel) (ops_bytes (op ∷ ops)) n before
      ≡ decode_loop fuel (ops_bytes ops) (n + pos_part op.length) (before ++ (op ∷ []))
unfolding ops_bytes
round_new fuel n op ops before v k o h =
    let fits : (n + pos_part op.length) % 2 ^ 64 ≡ n + pos_part op.length = omega arith in
    round fuel n op (ops_bytes ops) before v (λ _. o) ∙ rw (==_true op.kind op_new k, fits)

round_old :
    (fuel n : ℕ) (op : Op) (ops before : List Op)
    → IsEncodable op
    → op.kind ≢ op_new
    → decode_loop (suc fuel) (ops_bytes (op ∷ ops)) n before
      ≡ decode_loop fuel (ops_bytes ops) n (before ++ (op ∷ []))
unfolding ops_bytes
round_old fuel n op ops before v k =
    let other : (op.kind == op_new) ≡ false = ground arith in
    round fuel n op (ops_bytes ops) before v (λ e. absurd (k e)) ∙ rw other

decode_loop-ops_bytes :
    {n m : ℕ} {ops : List Op} (fuel : ℕ) (before : List Op)
    → Sequential n ops m
    → All IsEncodable ops
    → m ≤ max_int
    → length (ops_bytes ops) ≤ fuel
    → decode_loop fuel (ops_bytes ops) n before ≡ ok (before ++ ops, m)
decode_loop-ops_bytes fuel before (done n) vs h f = decode_loop-nil fuel n before
decode_loop-ops_bytes zero before (takes_new {op = op} {ops = ops} k o s) (v, vs) h f =
    absurd (omega (arith, shorter op ops))
decode_loop-ops_bytes zero before (takes_old {op = op} {ops = ops} k s) (v, vs) h f =
    absurd (omega (arith, shorter op ops))
decode_loop-ops_bytes (suc fuel) before (takes_new {n = n} {m = m} {op = op} {ops = ops} k o s)
      (v, vs) h f =
    round_new fuel n op ops before v k o (omega (arith, Sequential-le s))
    ∙ decode_loop-ops_bytes fuel (before ++ (op ∷ [])) s vs h (omega (arith, shorter op ops))
    ∙ ap (λ t. ok (t, m)) (append_assoc before (op ∷ []) ops)
decode_loop-ops_bytes (suc fuel) before (takes_old {n = n} {m = m} {op = op} {ops = ops} k s)
      (v, vs) h f =
    round_old fuel n op ops before v k
    ∙ decode_loop-ops_bytes fuel (before ++ (op ∷ [])) s vs h (omega (arith, shorter op ops))
    ∙ ap (λ t. ok (t, m)) (append_assoc before (op ∷ []) ops)

validate_op-nonneg :
    (s t n q : ℕ) (op : Op) (p : ℕ)
    → validate_op s t n q op ≡ ok p
    → (op.offset ≡ pos (pos_part op.offset)) × (op.length ≡ pos (pos_part op.length))
unfolding validate_op
validate_op-nonneg s t n q op p e = ground arith

InBounds-encodable :
    {s n q : ℕ} {op : Op}
    → InBounds s n q op
    → s ≤ max_int
    → n ≤ max_int
    → q ≤ max_int
    → (op.kind ≤ op_new) × (pos_part op.offset ≤ max_int)
InBounds-encodable (in_source k h) hs hn hq = (omega arith, omega arith)
InBounds-encodable (in_target k h) hs hn hq = (omega arith, omega arith)
InBounds-encodable (in_new k h) hs hn hq = (omega arith, omega arith)

validate_op-IsEncodable :
    (s t n q : ℕ) (op : Op) (p : ℕ)
    → s ≤ max_int
    → t ≤ max_int
    → n ≤ max_int
    → q ≤ t
    → validate_op s t n q op ≡ ok p
    → IsEncodable op × (p ≤ t)
validate_op-IsEncodable s t n q op p hs ht hn hq e =
    let (sum, positive, room, kind) = validate_op_facts s t n q op p e in
    let (o, l) = validate_op-nonneg s t n q op p e in
    let (known, bound) =
      InBounds-encodable (validate_kind-InBounds s n q op kind) hs hn (omega arith) in
    (
      record {
        known = known;
        offset_int = o;
        offset_bound = omega arith;
        length_int = l;
        length_pos = positive;
        length_bound = omega arith;
      },
      omega arith,
    )

pub validate_ops-IsEncodable :
    (s t n q : ℕ) (ops : List Op) (p : ℕ)
    → s ≤ max_int
    → t ≤ max_int
    → n ≤ max_int
    → q ≤ t
    → validate_ops s t n q ops ≡ ok p
    → All IsEncodable ops
unfolding validate_ops
validate_ops-IsEncodable s t n q [] p hs ht hn hq e = tt
validate_ops-IsEncodable s t n q (op ∷ ops) p hs ht hn hq e =
    let (q', first, rest) = >>=-eq-ok (validate_op s t n q op) _ e in
    let (v, hq') = validate_op-IsEncodable s t n q op q' hs ht hn hq first in
    (v, validate_ops-IsEncodable s t n q' ops p hs ht hn hq' rest)

-- The decoder validates a window that differs from the encoded one in its source offset and in the
-- values of the new data only.
revalidate :
    (w : Window)
    → validate w ≡ ok tt
    → validate (record w { source_offset = pos 0; new_data = replicate (length w.new_data) 0 })
      ≡ ok tt
unfolding validate
revalidate w e = rw length-replicate (ground arith)

-- A valid window whose new data is taken in order is decoded from its instruction bytes to the same
-- operations; its lengths have to fit the `int` that they are declared with.
pub decode_instructions-encode_instructions :
    (w : Window)
    → validate w ≡ ok tt
    → Sequential 0 w.ops (length w.new_data)
    → pos_part w.source_length ≤ max_int
    → pos_part w.target_length ≤ max_int
    → length w.new_data ≤ max_int
    → decode_instructions
        (encode_instructions w.ops)
        w.source_length
        w.target_length
        (length w.new_data)
      ≡ ok w.ops
unfolding decode_instructions encode_instructions
decode_instructions-encode_instructions w e s hs ht hn =
    let all : All IsEncodable w.ops =
      validate_ops-IsEncodable (pos_part w.source_length) (pos_part w.target_length)
        (length w.new_data) 0 w.ops _ hs ht hn (omega arith) (validate-ValidFacts w e).produces in
    rw
      (
        encode_ops-ops_bytes [] w.ops all,
        decode_loop-ops_bytes (length (ops_bytes w.ops)) [] s all hn (omega arith),
        revalidate w e,
      )
      (ground arith)

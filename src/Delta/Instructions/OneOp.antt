-- ===== src/Delta/Instructions/OneOp.antt =====
-- One instruction as bytes: what the encoder appends for an operation, and what the decoder makes of it.
use go_svn.Delta.Varint.RoundTrip.{consume-encoding}
use go_svn.Base.Outcome.{ok}
use go_svn.Base.Bits.{bit_and_mask, bit_or_disjoint, bit_or_comm}
use go_svn.Delta.Varint.{append_varint}
use go_svn.Delta.Varint.Encode.{append_varint-encoding, encoding}
use Prim.Native.Nat.{bit_or}
use go_svn.Base.Int.{to_int64, max_int, pos, pos_part}
use go_svn.Delta.Instructions.{decode_offset, decode_length, decode_op, encode_op}
use go_svn.Delta.Window.{op_new, Op}
use go_svn.Base.{
  ap, inr, inl, true, Bool-cases, ◌||◌, not, leb-true, append-nil, ◌/◌, append_assoc, arith, ◌%◌,
  ◌^◌, ◌∷◌, ◌*◌, ◌+◌, ◌==◌, ltb, ◌++◌, ◌<◌, [], if◌then◌else◌, ◌≡◌, Bytes, ◌≤◌, ℕ,
}

-- An operation that the format can carry: a known kind, and an offset and a length of 63 bits.
pub record IsEncodable (op : Op) : Type 0 where
  pub known : op.kind ≤ op_new
  pub offset_int : op.offset ≡ pos (pos_part op.offset)
  pub offset_bound : pos_part op.offset ≤ max_int
  pub length_int : op.length ≡ pos (pos_part op.length)
  pub length_pos : 0 < pos_part op.length
  pub length_bound : pos_part op.length ≤ max_int

abbrev pub make_op : ℕ → ℕ → ℕ → Op
make_op kind offset length = record { kind = kind; offset = pos offset; length = pos length }

pub encodable_shape :
    (op : Op) → IsEncodable op → op ≡ make_op op.kind (pos_part op.offset) (pos_part op.length)
encodable_shape op v =
    λ i. record { kind = op.kind; offset = v.offset_int i; length = v.length_int i }

-- What one round of the encoder appends.
unfoldable pub head_of : ℕ → ℕ → ℕ
head_of kind length = if ltb length 64 then kind * 64 + length else kind * 64

unfoldable pub behind_first : ℕ → Bytes
behind_first length = if ltb length 64 then [] else encoding length

unfoldable pub length_bytes : ℕ → ℕ → Bytes
length_bytes kind length = head_of kind length ∷ behind_first length

unfoldable pub offset_bytes : ℕ → ℕ → Bytes
offset_bytes kind offset = if kind == op_new then [] else encoding offset

unfoldable pub op_bytes : ℕ → ℕ → ℕ → Bytes
op_bytes kind offset length = length_bytes kind length ++ offset_bytes kind offset

first_byte :
    (kind length : ℕ)
    → kind ≤ op_new
    → length < 64
    → bit_or (kind * 2 ^ 6 % 256) (length % 2 ^ 64 % 256) ≡ kind * 64 + length
first_byte kind length k h =
    let a : kind * 2 ^ 6 % 256 ≡ kind * 2 ^ 6 = omega arith in
    let b : length % 2 ^ 64 % 256 ≡ length = omega arith in
    rw (a, b, bit_or_comm) (omega (arith, bit_or_disjoint 6 length kind h))

encode_length :
    (encoded : Bytes) (kind length : ℕ)
    → kind ≤ op_new
    → length ≤ max_int
    → (if ltb length 64
        then encoded ++ (bit_or (kind * 2 ^ 6 % 256) (length % 2 ^ 64 % 256) ∷ [])
        else append_varint (encoded ++ ((kind * 2 ^ 6 % 256) ∷ [])) (length % 2 ^ 64))
      ≡ encoded ++ length_bytes kind length
unfolding length_bytes head_of behind_first
encode_length encoded kind length k h =
    let a : kind * 2 ^ 6 % 256 ≡ kind * 64 = omega arith in
    let b : length % 2 ^ 64 ≡ length = omega arith in
    ground (
      arith,
      first_byte kind length,
      append_varint-encoding (encoded ++ ((kind * 64) ∷ [])) length,
      append_assoc encoded ((kind * 64) ∷ []) (encoding length),
    )

pub encode_op-op_bytes :
    (encoded : Bytes) (kind offset length : ℕ)
    → kind ≤ op_new
    → offset ≤ max_int
    → length ≤ max_int
    → encode_op encoded (make_op kind offset length) ≡ encoded ++ op_bytes kind offset length
unfolding encode_op op_bytes offset_bytes
encode_op-op_bytes encoded kind offset length k o h =
    let z : length + 0 ≡ length = omega arith in
    rw (z, encode_length encoded kind length k h)
      (ground (
        arith,
        append_varint-encoding (encoded ++ length_bytes kind length) offset,
        append_assoc encoded (length_bytes kind length) (encoding offset),
        append-nil (length_bytes kind length),
      ))

decode_length-bytes :
    (kind length : ℕ) (rest : Bytes)
    → 0 < length
    → length ≤ max_int
    → decode_length (head_of kind length) (behind_first length ++ rest) ≡ ok (length, rest)
unfolding decode_length head_of behind_first
decode_length-bytes kind length rest p h = ground (
  arith,
  bit_and_mask 6 (kind * 64 + length),
  bit_and_mask 6 (kind * 64),
  consume-encoding length rest,
)

first_kind : (kind length : ℕ) → head_of kind length / 2 ^ 6 ≡ kind
unfolding head_of
first_kind kind length = ground arith

in_range :
    (length : ℕ) → 0 < length → length ≤ max_int → not (length == 0 || ltb max_int length) ≡ true
in_range length p h = ground arith

to_int64-pos : (n : ℕ) → n ≤ max_int → to_int64 n ≡ pos n
to_int64-pos n h = ground arith

decode_offset-bytes :
    (kind offset length new_position : ℕ) (rest : Bytes)
    → offset ≤ max_int
    → (kind ≡ op_new → offset ≡ new_position)
    → decode_offset kind length (offset_bytes kind offset ++ rest) new_position
      ≡ ok (
        make_op kind offset length,
        if kind == op_new then (new_position + length) % 2 ^ 64 else new_position,
        rest,
      )
unfolding decode_offset offset_bytes
decode_offset-bytes kind offset length new_position rest o same =
    elim (Bool-cases (kind == op_new)) [
      | inl e ↦
          let p : offset ≡ new_position = same (ground arith) in rw (e, ← p, to_int64-pos offset o)
      | inr e ↦ rw (e, consume-encoding offset rest (omega arith), leb-true _ _ o)
    ]

pub decode_op-op_bytes :
    (kind offset length new_position : ℕ) (rest : Bytes)
    → kind ≤ op_new
    → offset ≤ max_int
    → 0 < length
    → length ≤ max_int
    → (kind ≡ op_new → offset ≡ new_position)
    → decode_op
        (head_of kind length)
        (behind_first length ++ (offset_bytes kind offset ++ rest))
        new_position
      ≡ ok (
        make_op kind offset length,
        if kind == op_new then (new_position + length) % 2 ^ 64 else new_position,
        rest,
      )
unfolding decode_op
decode_op-op_bytes kind offset length new_position rest k o p h same =
    rw (first_kind, leb-true _ _ k, decode_length-bytes kind length _ p h, in_range length p h)
      (decode_offset-bytes kind offset length new_position rest o same)

pub op_bytes-append :
    (kind offset length : ℕ) (rest : Bytes)
    → op_bytes kind offset length ++ rest
      ≡ head_of kind length ∷ (behind_first length ++ (offset_bytes kind offset ++ rest))
unfolding op_bytes length_bytes
op_bytes-append kind offset length rest =
    ap (λ t. head_of kind length ∷ t)
      (append_assoc (behind_first length) (offset_bytes kind offset) rest)

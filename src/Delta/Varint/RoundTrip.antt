-- ===== src/Delta/Varint/RoundTrip.antt =====
-- The readers of delta/varint.go behind `appendVarint`.
use Prim.Native.Nat.{bit_and, bit_or}
use go_svn.Base.{
  ℕ, zero, suc, ◌+◌, ◌-◌, ◌*◌, ◌/◌, ◌%◌, ◌^◌, ◌≤◌, ◌<◌, ◌≡◌, ◌∙◌, [], ◌∷◌, ◌++◌, Bytes, arith,
  append_assoc, length, length-append,
}
use go_svn.Base.Bits.{bit_and_mask, bit_or_disjoint, bit_or_comm, top_bit}
use go_svn.Base.Outcome.{Error, ok, eof, unexpected_eof}
use go_svn.Delta.Varint.{append_varint, varint_loop, read_varint, consume_varint, max_uint64}
use go_svn.Delta.Varint.Encode.{leading, length-leading, encoding, append_varint-encoding}

pub join_group :
    (v b : ℕ)
    → v ≤ max_uint64 / 2 ^ 7
    → bit_or (v * 2 ^ 7 % 2 ^ 64) (bit_and b 0x7f) ≡ v * 128 + b % 128
join_group v b h =
    let fits : v * 2 ^ 7 % 2 ^ 64 ≡ v * 2 ^ 7 = omega arith in
    rw (fits, bit_and_mask 7 b, bit_or_comm)
      (omega (arith, bit_or_disjoint 7 (b % 128) v (omega arith)))

module _ (at_end : Error) where
  inner_round :
      (count v g : ℕ) (rest : Bytes)
      → g < 128
      → v ≤ max_uint64 / 2 ^ 7
      → varint_loop at_end (suc count) ((g + 128) ∷ rest) v
        ≡ varint_loop at_end count rest (v * 128 + g)
  unfolding varint_loop
  inner_round count v g rest hg hv = ground (arith, join_group v (g + 128), top_bit (g + 128))

  last_round :
      (count v g : ℕ) (rest : Bytes)
      → g < 128
      → v ≤ max_uint64 / 2 ^ 7
      → varint_loop at_end (suc count) (g ∷ rest) v ≡ ok (v * 128 + g, rest)
  unfolding varint_loop
  last_round count v g rest hg hv = ground (arith, join_group v g, top_bit g)

  varint_loop-leading :
      (k v count left : ℕ) (rest : Bytes)
      → v < 128 ^ k
      → v ≤ max_uint64
      → count ≡ length (leading k v) + left
      → varint_loop at_end count (leading k v ++ rest) 0 ≡ varint_loop at_end left rest v
  unfolding leading
  varint_loop-leading zero v count left rest h fits e =
      let z : v ≡ 0 = omega arith in let c : count ≡ left = omega arith in rw (z, c)
  varint_loop-leading (suc k) v count left rest h fits e = ground (
    arith,
    length-append (leading k (v / 128)) ((v % 128 + 128) ∷ []),
    append_assoc (leading k (v / 128)) ((v % 128 + 128) ∷ []) rest,
    varint_loop-leading k (v / 128) count (suc left) ((v % 128 + 128) ∷ rest),
    inner_round left (v / 128) (v % 128) rest,
  )

  varint_loop-encoding :
      (v : ℕ) (rest : Bytes)
      → v ≤ max_uint64
      → varint_loop at_end 10 (encoding v ++ rest) 0 ≡ ok (v, rest)
  unfolding encoding
  varint_loop-encoding v rest h =
      let n : ℕ = length (leading 9 (v / 128)) in
      let count : 10 ≡ n + suc (9 - n) = omega (arith, length-leading 9 (v / 128)) in
      rw append_assoc (
        varint_loop-leading 9 (v / 128) 10 (suc (9 - n)) _ (omega arith) (omega arith) count
        ∙ ground (arith, last_round (9 - n) (v / 128) (v % 128) rest))

-- Both readers give back a uint64 that `appendVarint` wrote behind nothing, and leave what follows.
pub varint-append_varint :
    (v : ℕ) (rest : Bytes)
    → v < 2 ^ 64
    → (read_varint (append_varint [] v ++ rest) ≡ ok (v, rest))
      × (consume_varint (append_varint [] v ++ rest) ≡ ok (v, rest))
unfolding read_varint consume_varint
varint-append_varint v rest h = rw append_varint-encoding (
  varint_loop-encoding eof v rest (omega arith),
  varint_loop-encoding unexpected_eof v rest (omega arith),
)

-- The same for the bytes alone.
pub consume-encoding :
    (v : ℕ) (rest : Bytes) → v < 2 ^ 64 → consume_varint (encoding v ++ rest) ≡ ok (v, rest)
unfolding consume_varint
consume-encoding v rest h = varint_loop-encoding unexpected_eof v rest (omega arith)

pub read-encoding :
    (v : ℕ) (rest : Bytes) → v < 2 ^ 64 → read_varint (encoding v ++ rest) ≡ ok (v, rest)
unfolding read_varint
read-encoding v rest h = varint_loop-encoding eof v rest (omega arith)

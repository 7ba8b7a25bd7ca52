-- ===== src/Delta/Varint/Decode.antt =====
-- `readVarint` and `consumeVarint` of delta/varint.go on any input, well formed or not.
use Prim.Native.Nat.{bit_and, bit_or}
use go_svn.Base.{
  ℕ, zero, suc, ◌+◌, ◌*◌, ◌/◌, ◌%◌, ◌^◌, ◌≤◌, ◌<◌, ◌≡◌, [], ◌∷◌, Bytes, ◌==◌, ltb, arith, length,
  Bool-cases, inl, inr,
}
use go_svn.Base.Outcome.{Error, ok, unexpected_eof, Ends}
use go_svn.Delta.Varint.{varint_loop, consume_varint, max_uint64}
use go_svn.Delta.Varint.RoundTrip.{join_group}

module _ (at_end : Error) where
  pub varint_loop_takes :
      (count : ℕ) (input : Bytes) (value result : ℕ) (rest : Bytes)
      → varint_loop at_end count input value ≡ ok (result, rest)
      → (result < 2 ^ 64) × (length rest < length input) × (length input ≤ length rest + count)
  unfolding varint_loop
  varint_loop_takes zero input value result rest e = cc
  varint_loop_takes (suc count) [] value result rest e = cc
  varint_loop_takes (suc count) (b ∷ input) value result rest e = ground (
    arith,
    join_group value b,
    varint_loop_takes count input (bit_or (value * 2 ^ 7 % 2 ^ 64) (bit_and b 0x7f)) result rest,
  )

  varint_loop-Ends :
      (count : ℕ) (input : Bytes) (value : ℕ) → Ends (varint_loop at_end count input value)
  unfolding varint_loop
  varint_loop-Ends zero input value = tt
  varint_loop-Ends (suc count) [] value = tt
  varint_loop-Ends (suc count) (b ∷ input) value =
      elim (Bool-cases (ltb (max_uint64 / 2 ^ 7) value)) [
        | inl e ↦ rw e tt
        | inr e ↦ elim (Bool-cases (bit_and b 0x80 == 0)) [
          | inl s ↦ rw (e, s) tt
          | inr s ↦ rw (e, s) (varint_loop-Ends count input _)
        ]
      ]

-- On any input, a read that succeeds gives a uint64 and takes one to ten bytes.
pub consume_varint_takes :
    (input : Bytes) (value : ℕ) (rest : Bytes)
    → consume_varint input ≡ ok (value, rest)
    → (value < 2 ^ 64) × (length rest < length input) × (length input ≤ length rest + 10)
unfolding consume_varint
consume_varint_takes input value rest e = varint_loop_takes unexpected_eof 10 input 0 value rest e

-- A read ends on any input: it returns a number or an error.
pub consume_varint-Ends : (input : Bytes) → Ends (consume_varint input)
unfolding consume_varint
consume_varint-Ends input = varint_loop-Ends unexpected_eof 10 input 0

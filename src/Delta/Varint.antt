-- ===== src/Delta/Varint.antt =====
-- delta/varint.go: big-endian base-128 integers of the svndiff format.
pub mod Encode
pub mod RoundTrip
pub mod Decode
pub mod Number
use Prim.Native.Nat.{bit_and, bit_or}
use mathlib.Core.Logic.{dite}
use mathlib.Core.WellFounded.{Acc}
use native.Mathlib.Decide.{dec_lt}
use go_svn.Base.{
  ℕ, zero, suc, ◌+◌, ◌-◌, ◌*◌, ◌/◌, ◌%◌, ◌^◌, ◌<◌, List, [], ◌∷◌, ◌++◌, Bytes, ltb, ◌==◌,
  if◌then◌else◌, arith,
}
use go_svn.Base.Order.{lt_wf}
use go_svn.Base.Outcome.{Error, Outcome, ok, err, eof, unexpected_eof, varint_overflow}

-- `math.MaxUint64`
abbrev pub max_uint64 : ℕ
max_uint64 = 2 ^ 64 - 1

pub shift_shrinks : (v : ℕ) → 0 < v / 128 → v / 128 < v
shift_shrinks v h = omega arith

-- `for value >>= 7; value != 0; value >>= 7`: `encoded` is the filled end of the buffer.
append_loop : (value : ℕ) → Acc ◌<◌ value → Bytes → Bytes
append_loop value (Acc.intro _ smaller) encoded =
    dite (dec_lt 0 (value / 128))
      (λ more.
        append_loop (value / 128) (smaller _ (shift_shrinks value more))
          (bit_or (bit_and (value / 128) 0x7f % 256) 0x80 ∷ encoded))
      (λ _. encoded)

unfoldable pub append_varint : Bytes → ℕ → Bytes
unfolding append_loop lt_wf dec_lt
append_varint destination value =
    destination ++ append_loop value (lt_wf.apply value) (bit_and value 0x7f % 256 ∷ [])

-- The loop of `readVarint` and `consumeVarint`. The number counts the rounds left; `input` is what
-- lies behind the position. The two differ in the error at the end of the input.
unfoldable pub varint_loop : Error → ℕ → Bytes → ℕ → Outcome (ℕ × Bytes)
varint_loop at_end zero input value = err varint_overflow
varint_loop at_end (suc count) [] value = err at_end
varint_loop at_end (suc count) (current ∷ input) value =
    let value' = bit_or (value * 2 ^ 7 % 2 ^ 64) (bit_and current 0x7f) in
    let more = varint_loop at_end count input value' in
    if ltb (max_uint64 / 2 ^ 7) value
    then err varint_overflow
    else if bit_and current 0x80 == 0
    then ok (value', input)
    else more

-- From a reader, whose `ReadByte` answers `io.EOF` at the end.
unfoldable pub read_varint : Bytes → Outcome (ℕ × Bytes)
read_varint input = varint_loop eof 10 input 0

-- From a slice and a position.
unfoldable pub consume_varint : Bytes → Outcome (ℕ × Bytes)
consume_varint input = varint_loop unexpected_eof 10 input 0

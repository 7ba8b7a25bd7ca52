-- ===== src/Delta/Varint/Number.antt =====
-- `readVarint` and `consumeVarint` of delta/varint.go, against numbers of base 128 without a bound.
use Prim.Native.Nat.{bit_and}
use go_svn.Base.{
  ℕ, zero, suc, ◌+◌, ◌*◌, ◌/◌, ◌%◌, ◌^◌, ◌≤◌, ◌<◌, ◌≡◌, [], ◌∷◌, Bytes, ◌==◌, ltb, arith, length,
  Bool-cases, inl, inr, Option, none, some, ◌↔◌, false, if◌then◌else◌,
}
use go_svn.Base.Outcome.{Error, ok, eof, unexpected_eof}
use go_svn.Delta.Varint.{varint_loop, read_varint, consume_varint, max_uint64}
use go_svn.Delta.Varint.Decode.{varint_loop_takes}
use go_svn.Delta.Varint.RoundTrip.{join_group}

-- The number that bytes state, the most significant group of seven bits first, and what follows it.
unfoldable pub base128 : (value : ℕ) → Bytes → Option (ℕ × Bytes)
base128 value [] = none
base128 value (b ∷ input) =
    let more = base128 (value * 128 + b % 128) input in
    if bit_and b 0x80 == 0 then some (value * 128 + b % 128, input) else more

base128_takes :
    (value : ℕ) (input : Bytes) (result : ℕ) (rest : Bytes)
    → base128 value input ≡ some (result, rest)
    → (value * 128 ≤ result) × (length rest < length input)
unfolding base128
base128_takes value [] result rest e = cc
base128_takes value (b ∷ input) result rest e =
    ground (arith, base128_takes (value * 128 + b % 128) input result rest)

module _ (at_end : Error) where
  varint_loop_sound :
      (count : ℕ) (input : Bytes) (value result : ℕ) (rest : Bytes)
      → varint_loop at_end count input value ≡ ok (result, rest)
      → base128 value input ≡ some (result, rest)
  unfolding varint_loop base128
  varint_loop_sound zero input value result rest e = cc
  varint_loop_sound (suc count) [] value result rest e = cc
  varint_loop_sound (suc count) (b ∷ input) value result rest e =
      elim (Bool-cases (ltb (max_uint64 / 2 ^ 7) value)) [
        | inl over ↦ cc (rw over at e)
        | inr fits ↦
            let joined = join_group value b (ground arith) in
            elim (Bool-cases (bit_and b 0x80 == 0)) [
              | inl last ↦ let here = rw (fits, last, joined) at e in rw last (cc here)
              | inr more ↦
                  rw more
                    (varint_loop_sound count input _ result rest (rw (fits, more, joined) at e))
            ]
      ]

  varint_loop_complete :
      (count : ℕ) (input : Bytes) (value result : ℕ) (rest : Bytes)
      → base128 value input ≡ some (result, rest)
      → result < 2 ^ 64
      → length input ≤ length rest + count
      → varint_loop at_end count input value ≡ ok (result, rest)
  unfolding varint_loop base128
  varint_loop_complete count [] value result rest e small short = cc
  varint_loop_complete zero (b ∷ input) value result rest e small short =
      absurd (omega (arith, base128_takes value (b ∷ input) result rest e))
  varint_loop_complete (suc count) (b ∷ input) value result rest e small short =
      let (low, _) = base128_takes value (b ∷ input) result rest e in
      let fits : ltb (max_uint64 / 2 ^ 7) value ≡ false = ground arith in
      let joined = join_group value b (omega arith) in
      elim (Bool-cases (bit_and b 0x80 == 0)) [
        | inl last ↦ let here = rw last at e in rw (fits, last, joined) (cc here)
        | inr more ↦
            rw (fits, more, joined)
              (varint_loop_complete count input _ result rest (rw more at e) small (omega arith))
      ]

-- A number below 2^64, stated in ten bytes at most.
abbrev pub IsNumber : (input : Bytes) (value : ℕ) (rest : Bytes) → Type 0
IsNumber input value rest =
    (base128 0 input ≡ some (value, rest)) × (value < 2 ^ 64) × (length input ≤ length rest + 10)

varint_loop-IsNumber :
    (at_end : Error) (input : Bytes) (value : ℕ) (rest : Bytes)
    → (varint_loop at_end 10 input 0 ≡ ok (value, rest)) ↔ IsNumber input value rest
varint_loop-IsNumber at_end input value rest = (
  λ e.
      let (small, _, short) = varint_loop_takes at_end 10 input 0 value rest e in
      (varint_loop_sound at_end 10 input 0 value rest e, small, short),
  λ n. varint_loop_complete at_end 10 input 0 value rest n.0 n.1 n.2,
)

-- A read gives a number exactly where the bytes state it, without a bound, in ten bytes at most and in
-- whatever way it is padded, and it is below 2^64; and what it leaves is what follows the number. That
-- is so of a reader and of a slice.
pub varint-base128 :
    (input : Bytes) (value : ℕ) (rest : Bytes)
    → ((consume_varint input ≡ ok (value, rest)) ↔ IsNumber input value rest)
      × ((read_varint input ≡ ok (value, rest)) ↔ IsNumber input value rest)
unfolding consume_varint read_varint
varint-base128 input value rest = (
  varint_loop-IsNumber unexpected_eof input value rest,
  varint_loop-IsNumber eof input value rest,
)

-- ===== src/Delta/Varint/Encode.antt =====
-- `appendVarint` of delta/varint.go in plain arithmetic.
use mathlib.Core.WellFounded.{Acc}
use Prim.Native.Nat.{bit_and, bit_or}
use go_svn.Base.{
  ap, ◌∙◌, ℕ, zero, suc, ◌+◌, ◌/◌, ◌%◌, ◌^◌, ◌≤◌, ◌<◌, ◌≡◌, refl, [], ◌∷◌, ◌++◌, Bytes, ◌==◌,
  if◌then◌else◌, arith, append_assoc, length, length-append, All, All-append, Bool-cases, inl, inr,
}
use go_svn.Base.Bits.{bit_and_mask, set_top_bit}
use go_svn.Delta.Varint.{append_loop, append_varint}

-- The groups of a value that come before its last one, each with the top bit set: none for 0.
unfoldable pub leading : ℕ → ℕ → Bytes
leading zero v = []
leading (suc k) v =
    let front = leading k (v / 128) in if v == 0 then [] else front ++ ((v % 128 + 128) ∷ [])

unfoldable pub encoding : ℕ → Bytes
encoding v = leading 9 (v / 128) ++ ((v % 128) ∷ [])

low_group : (v : ℕ) → bit_and v 0x7f % 256 ≡ v % 128
low_group v = omega (arith, bit_and_mask 7 v)

high_group : (v : ℕ) → bit_or (bit_and v 0x7f % 256) 0x80 ≡ v % 128 + 128
high_group v = rw low_group (set_top_bit (v % 128) (omega arith))

append_loop-leading :
    (k value : ℕ) (w : Acc ◌<◌ value) (encoded : Bytes)
    → value / 128 < 128 ^ k
    → append_loop value w encoded ≡ leading k (value / 128) ++ encoded
unfolding append_loop leading
append_loop-leading zero value (Acc.intro _ smaller) encoded h = ground arith
append_loop-leading (suc k) value (Acc.intro _ smaller) encoded h =
    let head : Bytes = (value / 128 % 128 + 128) ∷ [] in
    grind (
      arith,
      high_group (value / 128),
      λ (w : Acc ◌<◌ (value / 128)).
          append_loop-leading k (value / 128) w (head ++ encoded) (omega arith),
      append_assoc (leading k (value / 128 / 128)) head encoded,
    )

-- `appendVarint` keeps the destination and appends the big-endian groups of the value.
pub append_varint-encoding :
    (destination : Bytes) (value : ℕ)
    → value < 2 ^ 64
    → append_varint destination value ≡ destination ++ encoding value
unfolding append_varint encoding
append_varint-encoding destination value h =
    rw (append_loop-leading 9 value _ _ (omega arith), low_group)

leading_bytes : (k v : ℕ) → All (λ b. (128 ≤ b) × (b < 256)) (leading k v)
unfolding leading
leading_bytes zero v = tt
leading_bytes (suc k) v = elim (Bool-cases (v == 0)) [
  | inl e ↦ rw e tt
  | inr e ↦ rw e (All-append _ (leading k (v / 128)) _ (leading_bytes k (v / 128)) (omega arith))
]

pub length-leading : (k v : ℕ) → length (leading k v) ≤ k
unfolding leading
length-leading zero v = omega arith
length-leading (suc k) v =
    ground (
      arith,
      length-leading k (v / 128),
      length-append (leading k (v / 128)) ((v % 128 + 128) ∷ []),
    )

-- The groups of a uint64: one to ten, so the buffer of ten bytes is never overrun; all but the last
-- have the top bit set, and the last has not.
pub encoding_shape :
    (v : ℕ)
    → (front : Bytes) × (last : ℕ) × (encoding v ≡ front ++ (last ∷ []))
      × (length front ≤ 9)
      × All (λ b. (128 ≤ b) × (b < 256)) front
      × (last < 128)
unfolding encoding
encoding_shape v =
    (leading 9 (v / 128), v % 128, refl, length-leading 9 _, leading_bytes 9 _, omega arith)

-- `appendVarint` writes one to ten bytes behind the destination, so its buffer of ten bytes is never
-- overrun: all but the last have the top bit set, and the last has not.
append_varint_shape :
    (destination : Bytes) (value : ℕ)
    → value < 2 ^ 64
    → (front : Bytes) × (last : ℕ) × (append_varint destination value
        ≡ destination ++ (front ++ (last ∷ [])))
      × (length front ≤ 9)
      × All (λ b. (128 ≤ b) × (b < 256)) front
      × (last < 128)
append_varint_shape destination value h =
    let (front, last, e, size, all, low) = encoding_shape value in
    (
      front,
      last,
      append_varint-encoding destination value h ∙ ap (λ t. destination ++ t) e,
      size,
      all,
      low,
    )

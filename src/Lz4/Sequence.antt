-- ===== src/Lz4/Sequence.antt =====
-- One sequence of an LZ4 block as bytes: what `appendSequence` of internal/lz4/lz4.go writes, and what
-- a round of `DecodeBlock` makes of it.
use Prim.Native.Nat.{bit_and, bit_or}
use go_svn.Base.Bits.{bit_or_disjoint, bit_or_comm, low_four}
use go_svn.Base.{
  ℕ, zero, suc, ◌+◌, ◌-◌, ◌*◌, ◌/◌, ◌%◌, ◌^◌, ◌≤◌, ◌<◌, ◌≡◌, refl, ap, ◌∙◌, [], ◌∷◌, ◌++◌, Bytes,
  ltb, leb, ◌==◌, if◌then◌else◌, length, arith, append_assoc, append-nil, length-append,
  take-append_seam, drop-append_seam, Bool-cases, inl, inr, leb-true, ltb-false, true, false, ◌||◌,
}
use go_svn.Base.Int.{max_int, sub_ℕ}
use go_svn.Base.Outcome.{ok, slice_lem}
use go_svn.Lz4.{
  extended_length, read_length, copy_match, decode_match, decode_sequence, extended_loop,
  append_extended_length, nibble, append_sequence, append_last_literals,
}

-- The bytes of a length above its nibble.
extension : (fuel extra : ℕ) → Bytes
extension zero extra = (extra % 256) ∷ []
extension (suc fuel) extra =
    let more = 255 ∷ extension fuel (extra - 255) in
    if leb 255 extra then more else (extra % 256) ∷ []

extended_loop-extension :
    (fuel : ℕ) (output : Bytes) (extra : ℕ)
    → extended_loop fuel output extra ≡ output ++ extension fuel extra
unfolding extended_loop extension
extended_loop-extension zero output extra = refl
extended_loop-extension (suc fuel) output extra = elim (Bool-cases (leb 255 extra)) [
  | inl e ↦ rw (e, extended_loop-extension fuel (output ++ (255 ∷ [])) (extra - 255), append_assoc)
  | inr e ↦ rw e
]

extended_length-extension :
    (fuel extra n : ℕ) (rest : Bytes)
    → extra ≤ fuel
    → n + extra ≤ max_int
    → extended_length (extension fuel extra ++ rest) n ≡ ok (n + extra, rest)
unfolding extended_length extension
extended_length-extension zero extra n rest h fits =
    let z : extra ≡ 0 = omega arith in rw z (ground arith)
extended_length-extension (suc fuel) extra n rest h fits = elim (Bool-cases (leb 255 extra)) [
  | inl e ↦
      let big : 255 ≤ extra = ground arith in
      let small : ltb (max_int - 255) n ≡ false = ltb-false _ _ (omega arith) in
      let sum : n + 255 + (extra - 255) ≡ n + extra = omega arith in
      rw (
        e,
        small,
        extended_length-extension fuel (extra - 255) (n + 255) rest (omega arith) (omega arith),
        sum,
      )
  | inr e ↦
      let low : extra < 255 = ground arith in
      let m : extra % 256 ≡ extra = omega arith in
      let small : ltb (max_int - extra) n ≡ false = ltb-false _ _ (omega arith) in
      let last : (extra == 255) ≡ false = ground arith in rw (e, m, small, last)
]

pub sized : ℕ → Bytes
sized n = if ltb n 15 then [] else extension (n - 15) (n - 15)

append_extended_length-sized :
    (output : Bytes) (n : ℕ) → append_extended_length output (sub_ℕ n 15) ≡ output ++ sized n
unfolding append_extended_length sized
append_extended_length-sized output n = elim (Bool-cases (ltb n 15)) [
  | inl e ↦ let o : leb 15 n ≡ false = ground arith in rw (e, o, append-nil)
  | inr e ↦
      let o : leb 15 n ≡ true = ground arith in
      rw (e, o) (extended_loop-extension (n - 15) output (n - 15))
]

-- A length is read back from its nibble and the bytes above it.
read_length-sized :
    (n : ℕ) (rest : Bytes) → n ≤ max_int → read_length (sized n ++ rest) (nibble n) ≡ ok (n, rest)
unfolding read_length sized
read_length-sized n rest h = elim (Bool-cases (ltb n 15)) [
  | inl e ↦
      let low : ltb 15 n ≡ false = ground arith in
      let other : (n == 15) ≡ false = ground arith in rw (e, low, other)
  | inr e ↦
      let high : 15 ≤ n = ground arith in
      let nib : nibble n ≡ 15 = ground arith in
      let sum : 15 + (n - 15) ≡ n = omega arith in
      rw (e, nib)
        (extended_length-extension (n - 15) (n - 15) 15 rest (omega arith) (omega arith) ∙ rw sum)
]

nibble_small : (n : ℕ) → nibble n < 16
nibble_small n = ground arith

abbrev pub token_of : (literals match_length : ℕ) → ℕ
token_of literals match_length = bit_or (nibble literals * 2 ^ 4) (nibble (match_length - 4)) % 256

token_parts :
    (a b : ℕ)
    → a < 16
    → b < 16
    → (bit_or (a * 2 ^ 4) b % 256 / 2 ^ 4 ≡ a) × (bit_and (bit_or (a * 2 ^ 4) b % 256) 0x0f ≡ b)
token_parts a b h k =
    let sum : bit_or (a * 2 ^ 4) b ≡ b + a * 2 ^ 4 =
      bit_or_comm (a * 2 ^ 4) b ∙ bit_or_disjoint 4 b a (omega arith) in
    rw sum (omega arith, low_four ((b + a * 2 ^ 4) % 256) (omega arith) ∙ omega arith)

-- What follows the token of a sequence.
pub body : (literals : Bytes) (offset match_length : ℕ) → Bytes
body literals offset n =
    sized (length literals)
    ++ (literals ++ ((offset % 256) ∷ (offset / 2 ^ 8 % 256) ∷ sized (n - 4)))

unfoldable pub sequence_bytes : (literals : Bytes) (offset match_length : ℕ) → Bytes
sequence_bytes literals offset n = token_of (length literals) n ∷ body literals offset n

pub append_sequence-sequence_bytes :
    (output literals : Bytes) (offset n : ℕ)
    → append_sequence output literals offset n ≡ output ++ sequence_bytes literals offset n
unfolding append_sequence sequence_bytes body
append_sequence-sequence_bytes output literals offset n =
    rw
      (
        append_extended_length-sized (output ++ (token_of (length literals) n ∷ []))
            (length literals),
        append_extended_length-sized _ (n - 4),
      )
      (simp append_assoc)

-- The first half of a round of the decoder, over literals.
pub decode_literals :
    (size token : ℕ) (before literals more : Bytes)
    → length literals ≤ max_int
    → length before + length literals ≤ size
    → token / 2 ^ 4 ≡ nibble (length literals)
    → decode_sequence size token (sized (length literals) ++ (literals ++ more)) before
      ≡ decode_match size token more (before ++ literals)
unfolding decode_sequence
decode_literals size token before literals more int fits p =
    let fits' : length literals ≤ length (literals ++ more) =
      omega (arith, length-append literals more) in
    let room : leb (length literals) (size - length before) ≡ true = leb-true _ _ (omega arith) in
    let all_of : length literals - 0 ≡ length literals = omega arith in
    rw (
      p,
      read_length-sized (length literals) (literals ++ more) int,
      room,
      leb-true _ _ fits',
      slice_lem (literals ++ more) 0 (length literals) (omega arith) fits',
      all_of,
      take-append_seam literals more,
      drop-append_seam literals more,
    )

body_assoc :
    (literals : Bytes) (offset n : ℕ) (rest : Bytes)
    → body literals offset n ++ rest
      ≡ sized (length literals)
        ++ (literals ++ ((offset % 256) ∷ (offset / 2 ^ 8 % 256) ∷ (sized (n - 4) ++ rest)))
unfolding body
body_assoc literals offset n rest =
    append_assoc (sized (length literals)) _ rest
    ∙ ap (λ b. sized (length literals) ++ b) (append_assoc literals _ rest)

decode_match-copy :
    (size literals n offset : ℕ) (output rest result : Bytes)
    → 4 ≤ n
    → 0 < offset
    → offset < 2 ^ 16
    → offset ≤ length output
    → length output + n ≤ size
    → size ≤ max_int
    → copy_match n (length output - offset) output ≡ ok result
    → decode_match size
        (token_of literals n)
        ((offset % 256) ∷ (offset / 2 ^ 8 % 256) ∷ (sized (n - 4) ++ rest))
        output
      ≡ ok (result, rest)
unfolding decode_match
decode_match-copy size literals n offset output rest result four nonzero small within fits int
      copied =
    let (_, q) =
      token_parts (nibble literals) (nibble (n - 4)) (nibble_small literals)
        (nibble_small (n - 4)) in
    let whole : offset % 256 + offset / 2 ^ 8 % 256 * 2 ^ 8 ≡ offset = omega arith in
    let legal : (offset == 0 || ltb (length output) offset) ≡ false = ground arith in
    let all : n - 4 + 4 ≡ n = omega arith in
    let room : leb n (size - length output) ≡ true = leb-true _ _ (omega arith) in
    rw (whole, legal, q, read_length-sized (n - 4) rest (omega arith), all, room, copied)

-- A round of the decoder takes a sequence to its literals and a copy.
pub decode_sequence-body :
    (size : ℕ) (before literals rest result : Bytes) (offset n : ℕ)
    → 4 ≤ n
    → 0 < offset
    → offset < 2 ^ 16
    → offset ≤ length before + length literals
    → length before + length literals + n ≤ size
    → size ≤ max_int
    → copy_match n (length (before ++ literals) - offset) (before ++ literals) ≡ ok result
    → decode_sequence size (token_of (length literals) n) (body literals offset n ++ rest) before
      ≡ ok (result, rest)
decode_sequence-body size before literals rest result offset n four nonzero small within fits int
      copied =
    let more : Bytes = (offset % 256) ∷ (offset / 2 ^ 8 % 256) ∷ (sized (n - 4) ++ rest) in
    let (p, _) =
      token_parts (nibble (length literals)) (nibble (n - 4)) (nibble_small (length literals))
        (nibble_small (n - 4)) in
    let sum : length (before ++ literals) ≡ length before + length literals =
      length-append before literals in
    ap (λ input. decode_sequence size (token_of (length literals) n) input before)
      (body_assoc literals offset n rest)
    ∙ decode_literals size (token_of (length literals) n) before literals more (omega arith)
        (omega arith) p
    ∙ decode_match-copy size (length literals) n offset (before ++ literals) rest result four
        nonzero small (omega arith) (omega arith) int copied

abbrev pub last_token : ℕ → ℕ
last_token literals = nibble literals * 2 ^ 4 % 256

pub append_last_literals-bytes :
    (output literals : Bytes)
    → append_last_literals output literals
      ≡ output ++ (last_token (length literals) ∷ (sized (length literals) ++ literals))
unfolding append_last_literals
append_last_literals-bytes output literals =
    rw
      (append_extended_length-sized (output ++ (last_token (length literals) ∷ []))
        (length literals))
      (simp append_assoc)

-- The last round of the decoder takes literals only.
pub decode_sequence-last :
    (size : ℕ) (before literals : Bytes)
    → length literals ≤ max_int
    → length before + length literals ≤ size
    → decode_sequence size
        (last_token (length literals))
        (sized (length literals) ++ literals)
        before
      ≡ ok (before ++ literals, [])
unfolding decode_match
decode_sequence-last size before literals int fits =
    let small = nibble_small (length literals) in
    rw (append-nil literals) at (
      decode_literals size (last_token (length literals)) before literals [] int fits (omega arith))

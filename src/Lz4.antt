-- ===== src/Lz4.antt =====
-- internal/lz4/lz4.go: raw LZ4 blocks. A byte slice with a position is the list of the bytes left. The
-- lengths that a block can state are bounded by 255 times its own, far below the limit of an `int`.
pub mod Sequence
pub mod Match
pub mod Rounds
pub mod RoundTrip
pub mod Total
use Prim.Native.Nat.{bit_and, bit_or}
use go_svn.Base.{
  ℕ, zero, suc, ◌+◌, ◌-◌, ◌*◌, ◌/◌, ◌%◌, ◌^◌, Bool, true, false, not, ◌&&◌, ◌||◌, [], ◌∷◌, ◌++◌,
  Bytes, ltb, leb, ◌==◌, if◌then◌else◌, length, drop,
}
use go_svn.Base.Int.{ℤ, pos, negsuc, pos_part, ltb_ℤ, sub_ℕ, max_int}
use go_svn.Base.Outcome.{
  Outcome, ok, err, out_of_fuel, lz4_corrupt, ◌>>=◌, ◌>>◌, guard, at, slice, make_slice,
}

abbrev pub max_offset : ℕ
max_offset = 65535

abbrev pub last_literals : ℕ
last_literals = 5

abbrev pub match_find_limit : ℕ
match_find_limit = 12

-- The loop of `readLength`.
unfoldable pub extended_length : Bytes → ℕ → Outcome (ℕ × Bytes)
extended_length [] n = err lz4_corrupt
extended_length (value ∷ input) n =
    let more = extended_length input (n + value) in
    if ltb (max_int - value) n
    then err lz4_corrupt
    else if value == 255
    then more
    else ok (n + value, input)

unfoldable pub read_length : Bytes → ℕ → Outcome (ℕ × Bytes)
read_length input n = if n == 15 then extended_length input n else ok (n, input)

-- `output = append(output, output[start+index])`, as often as the first number says.
unfoldable pub copy_match : (rounds start : ℕ) → Bytes → Outcome Bytes
copy_match zero start output = ok output
copy_match (suc rounds) start output = do
  byte ← at output start
  copy_match rounds (start + 1) (output ++ (byte ∷ []))

-- The second half of a round of `DecodeBlock`; without bytes left the loop is over.
unfoldable pub decode_match : (size token : ℕ) (input output : Bytes) → Outcome (Bytes × Bytes)
decode_match size token [] output = ok (output, [])
decode_match size token (low ∷ []) output = err lz4_corrupt
decode_match size token (low ∷ high ∷ input) output = do
  let offset = low + high * 2 ^ 8
  guard (not (offset == 0 || ltb (length output) offset)) lz4_corrupt
  (n, input') ← read_length input (bit_and token 0x0f)
  guard (leb (n + 4) (size - length output)) lz4_corrupt
  output' ← copy_match (n + 4) (length output - offset) output
  ok (output', input')

-- One round of the loop of `DecodeBlock`, behind the token.
unfoldable pub decode_sequence : (size token : ℕ) (input output : Bytes) → Outcome (Bytes × Bytes)
decode_sequence size token input output = do
  (n, input') ← read_length input (token / 2 ^ 4)
  guard (leb n (size - length output) && leb n (length input')) lz4_corrupt
  literals ← slice input' 0 n
  decode_match size token (drop n input') (output ++ literals)

unfoldable pub block_loop : (fuel size : ℕ) (input output : Bytes) → Outcome Bytes
block_loop fuel size [] output = ok output
block_loop zero size (token ∷ input) output = out_of_fuel
block_loop (suc fuel) size (token ∷ input) output = do
  (output', input') ← decode_sequence size token input output
  block_loop fuel size input' output'

-- A round takes a byte at least, so the length of the block is fuel enough.
unfoldable pub decode_block : Bytes → (size : ℤ) → Outcome Bytes
decode_block source size = do
  guard (not (ltb_ℤ size (pos 0))) lz4_corrupt
  make_slice (pos_part size)
  output ← block_loop (length source) (pos_part size) source []
  guard (length output == pos_part size) lz4_corrupt
  ok output

-- The loop of `appendExtendedLength`. The number itself is fuel enough, since a round takes 255 off.
unfoldable pub extended_loop : (fuel : ℕ) → Bytes → (extra : ℕ) → Bytes
extended_loop zero output extra = output ++ ((extra % 256) ∷ [])
extended_loop (suc fuel) output extra =
    let more = extended_loop fuel (output ++ (255 ∷ [])) (extra - 255) in
    if leb 255 extra then more else output ++ ((extra % 256) ∷ [])

unfoldable pub append_extended_length : Bytes → (extra : ℤ) → Bytes
append_extended_length output (negsuc n) = output
append_extended_length output (pos extra) = extended_loop extra output extra

abbrev pub nibble : ℕ → ℕ
nibble n = if ltb 15 n then 15 else n

unfoldable pub append_sequence : (output literals : Bytes) (offset match_length : ℕ) → Bytes
append_sequence output literals offset match_length =
    let token : ℕ = bit_or (nibble (length literals) * 2 ^ 4) (nibble (match_length - 4)) % 256 in
    let counted = append_extended_length (output ++ (token ∷ [])) (sub_ℕ (length literals) 15) in
    append_extended_length ((counted ++ literals) ++ ((offset % 256) ∷ (offset / 2 ^ 8 % 256) ∷ []))
      (sub_ℕ (match_length - 4) 15)

unfoldable pub append_last_literals : (output literals : Bytes) → Bytes
append_last_literals output literals =
    append_extended_length (output ++ ((nibble (length literals) * 2 ^ 4 % 256) ∷ []))
      (sub_ℕ (length literals) 15)
    ++ literals

-- `binary.LittleEndian.Uint32(source[position:])`
unfoldable pub uint32_at : Bytes → ℕ → Outcome ℕ
uint32_at source position = do
  a ← at source position
  b ← at source (position + 1)
  c ← at source (position + 2)
  d ← at source (position + 3)
  ok (a + b * 2 ^ 8 + c * 2 ^ 16 + d * 2 ^ 24)

unfoldable pub equal4 : Bytes → (first second : ℕ) → Outcome Bool
equal4 source first second = do a ← uint32_at source first; b ← uint32_at source second; ok (a == b)

-- The product is a uint32.
unfoldable pub sequence_hash : ℕ → ℕ
sequence_hash sequence = sequence * 2654435761 % 2 ^ 32 / 2 ^ 16

-- The positions by hash, -1 where there is none.
abbrev pub Table : Type 0
Table = ℕ → ℤ

abbrev pub set_table : Table → ℕ → ℕ → Table
set_table table hash position = λ k. if k == hash then pos position else table k

-- `candidate >= 0 && position-candidate <= maxOffset && equal4(...)`
unfoldable pub is_match : Bytes → (candidate : ℤ) (position : ℕ) → Outcome Bool
is_match source (negsuc n) position = ok false
is_match source (pos candidate) position =
    if ltb_ℤ (pos max_offset) (sub_ℕ position candidate)
    then ok false
    else equal4 source candidate position

-- The loop that lengthens a match.
unfoldable pub match_loop : (fuel : ℕ) → Bytes → (candidate position match_length : ℕ) → Outcome ℕ
match_loop zero source candidate position n = out_of_fuel
match_loop (suc fuel) source candidate position n =
    let longer = match_loop fuel source candidate position (n + 1) in
    if ltb_ℤ (pos (position + n)) (sub_ℕ (length source) last_literals)
    then (do
      a ← at source (candidate + n)
      b ← at source (position + n)
      if a == b then longer else ok n)
    else ok n

-- What the loop of `EncodeBlock` carries.
pub record Encoding : Type 0 where
  pub table : Table
  pub output : Bytes
  pub anchor : ℕ
  pub position : ℕ

-- The hash of the position two bytes before the end of a match is entered, if the search goes on.
unfoldable pub enter_previous : Bytes → Table → (position : ℕ) → Outcome Table
enter_previous source table position =
    if leb (position + match_find_limit) (length source)
    then (do
      sequence ← uint32_at source (position - 2)
      ok (set_table table (sequence_hash sequence) (position - 2)))
    else ok table

unfoldable pub take_match : Bytes → Table → (candidate : ℕ) → Encoding → Outcome Encoding
take_match source table candidate e = do
  n ← match_loop (length source) source candidate e.position 4
  literals ← slice source e.anchor e.position
  table' ← enter_previous source table (e.position + n)
  ok (record {
    table = table';
    output = append_sequence e.output literals (e.position - candidate) n;
    anchor = e.position + n;
    position = e.position + n;
  })

unfoldable pub encode_round : Bytes → Encoding → Outcome Encoding
encode_round source e = do
  sequence ← uint32_at source e.position
  let hash = sequence_hash sequence
  let candidate = e.table hash
  found ← is_match source candidate e.position
  (if found
      then take_match source (set_table e.table hash e.position) (pos_part candidate) e
      else ok (record e { table = set_table e.table hash e.position; position = e.position + 1 }))

unfoldable pub encode_loop : (fuel : ℕ) → Bytes → Encoding → Outcome Encoding
encode_loop zero source e = out_of_fuel
encode_loop (suc fuel) source e =
    let round = (do e' ← encode_round source e; encode_loop fuel source e') in
    if leb (e.position + match_find_limit) (length source) then round else ok e

-- A round moves the position, and one more ends the loop.
unfoldable pub encode_block : Bytes → Outcome Bytes
encode_block [] = ok (0 ∷ [])
encode_block (b ∷ source) = do
  e ←
      encode_loop (suc (length (b ∷ source))) (b ∷ source)
        (record { table = λ _. negsuc 0; output = []; anchor = 0; position = 0 })
  literals ← slice (b ∷ source) e.anchor (length (b ∷ source))
  ok (append_last_literals e.output literals)

-- ===== src/Checksum/RoundTrip.antt =====
-- `ParseChecksum` of svn/checksum.go behind `Serialize` and `Hex`.
use go_svn.Base.{
  ℕ, zero, suc, ◌+◌, ◌*◌, ◌/◌, ◌%◌, ◌≤◌, ◌<◌, ◌≡◌, refl, ◌∙◌, true, false, [], ◌∷◌, Bytes, ◌==◌,
  length, arith, All, IsByte,
}
use go_svn.Base.Outcome.{ok}
use go_svn.Checksum.{
  Checksum, kind_string, hex_digit, encode_hex, hex_value, decode_hex, checksum_size,
  parse_checksum_hex, has_prefix, parse_bare, parse_prefixed, parse_checksum, hex, serialize,
}

hex_value-hex_digit : (n : ℕ) → n < 16 → hex_value (hex_digit n) ≡ ok n
unfolding hex_value
hex_value-hex_digit n h = ground arith

length-encode_hex : (input : Bytes) → length (encode_hex input) ≡ length input * 2
unfolding encode_hex
length-encode_hex [] = refl
length-encode_hex (b ∷ input) = omega (arith, length-encode_hex input)

decode_hex-encode_hex :
    (input : Bytes) → All IsByte input → decode_hex (encode_hex input) ≡ ok input
unfolding decode_hex encode_hex
decode_hex-encode_hex [] h = refl
decode_hex-encode_hex (b ∷ input) (byte, h) =
    let whole : b / 16 * 16 + b % 16 ≡ b = omega arith in
    rw (
      hex_value-hex_digit (b / 16) (omega arith),
      hex_value-hex_digit (b % 16) (omega arith),
      decode_hex-encode_hex input h,
      whole,
    )

-- A digest of the size of its kind.
pub record IsSized (c : Checksum) : Type 0 where
  pub known : c.kind ≤ 2
  pub sized : length c.digest ≡ checksum_size c.kind
  pub bytes : All IsByte c.digest

parse_checksum_hex-hex : (c : Checksum) → IsSized c → parse_checksum_hex c.kind (hex c) ≡ ok c
unfolding parse_checksum_hex hex
parse_checksum_hex-hex c s =
    let some_size : (checksum_size c.kind == 0) ≡ false =
      unfold checksum_size in ground (arith, s.known) in
    let count : (length (encode_hex c.digest) == checksum_size c.kind * 2) ≡ true =
      ground (arith, length-encode_hex c.digest, s.sized) in
    rw (some_size, count, decode_hex-encode_hex c.digest s.bytes)

no_dollar : (n : ℕ) → n < 16 → (hex_digit n == 36) ≡ false
no_dollar n h = ground arith

parse_prefixed-hex :
    (input : Bytes)
    → All IsByte input
    → parse_checksum (encode_hex input) ≡ parse_bare (encode_hex input)
unfolding parse_checksum parse_prefixed has_prefix encode_hex
parse_prefixed-hex [] h = refl
parse_prefixed-hex (b ∷ input) (byte, h) = rw (no_dollar (b / 16) (omega arith))

abbrev made : ℕ → Bytes → Checksum
made kind digest = record { kind = kind; digest = digest }

parse_serialized :
    (kind : ℕ) (digest : Bytes)
    → IsSized (made kind digest)
    → parse_checksum (serialize (made kind digest))
      ≡ parse_checksum_hex kind (hex (made kind digest))
unfolding parse_checksum parse_prefixed has_prefix serialize kind_string
parse_serialized zero digest s = refl
parse_serialized (suc zero) digest s = refl
parse_serialized (suc (suc zero)) digest s = refl
parse_serialized (suc (suc (suc n))) digest s = absurd (omega (arith, s.known))

parse_bare-hex :
    (kind : ℕ) (digest : Bytes)
    → IsSized (made kind digest)
    → parse_bare (encode_hex digest) ≡ parse_checksum_hex kind (encode_hex digest)
unfolding parse_bare checksum_size
parse_bare-hex zero digest s =
    let n : length (encode_hex digest) ≡ 32 = omega (arith, length-encode_hex digest, s.sized) in
    rw n
parse_bare-hex (suc zero) digest s =
    let n : length (encode_hex digest) ≡ 40 = omega (arith, length-encode_hex digest, s.sized) in
    rw n
parse_bare-hex (suc (suc zero)) digest s =
    let n : length (encode_hex digest) ≡ 8 = omega (arith, length-encode_hex digest, s.sized) in
    rw n
parse_bare-hex (suc (suc (suc n))) digest s = absurd (omega (arith, s.known))

-- A checksum of a known kind, with as many bytes as the kind has, is parsed from what `Serialize`
-- writes, and from its `Hex` alone.
pub parse_checksum-serialize :
    (c : Checksum)
    → IsSized c
    → (parse_checksum (serialize c) ≡ ok c) × (parse_checksum (hex c) ≡ ok c)
unfolding hex
parse_checksum-serialize c s = (
  parse_serialized c.kind c.digest s ∙ parse_checksum_hex-hex c s,
  parse_prefixed-hex c.digest s.bytes
      ∙ parse_bare-hex c.kind c.digest s
      ∙ parse_checksum_hex-hex c s,
)

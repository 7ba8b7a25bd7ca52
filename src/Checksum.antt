-- ===== src/Checksum.antt =====
-- svn/checksum.go: checksums with their kinds, and their two textual forms.
pub mod RoundTrip
use go_svn.Base.{
  ℕ, ◌+◌, ◌-◌, ◌*◌, ◌/◌, ◌%◌, ◌^◌, ◌≡◌, Bool, true, false, ◌&&◌, ◌||◌, List, [], ◌∷◌, ◌++◌, Bytes,
  codes, equal, leb, ltb, ◌==◌, if◌then◌else◌, length, take, drop,
}
use go_svn.Base.Outcome.{
  Outcome, ok, err, guard, bad_checksum_parse, bad_checksum_kind, ◌>>=◌, ◌>>◌,
}
use go_svn.Skel.{itoa}

-- What is used of crypto/md5, crypto/sha1 and hash/fnv: the digest of all that was written.
pub record Hashes : Type 0 where
  pub md5 : Bytes → Bytes
  pub sha1 : Bytes → Bytes
  pub fnv1a32 : Bytes → ℕ
  pub md5_size : (input : Bytes) → length (md5 input) ≡ 16
  pub sha1_size : (input : Bytes) → length (sha1 input) ≡ 20

abbrev pub checksum_md5 : ℕ
checksum_md5 = 0

abbrev pub checksum_sha1 : ℕ
checksum_sha1 = 1

abbrev pub checksum_fnv1a32 : ℕ
checksum_fnv1a32 = 2

pub record Checksum : Type 0 where
  pub kind : ℕ
  pub digest : Bytes

unfoldable pub kind_string : ℕ → Bytes
kind_string kind =
    if kind == checksum_md5
    then codes "md5"
    else if kind == checksum_sha1
    then codes "sha1"
    else if kind == checksum_fnv1a32
    then codes "fnv1"
    else codes "ChecksumKind(" ++ (itoa kind ++ codes ")")

-- `binary.BigEndian.PutUint32`
unfoldable pub big_endian32 : ℕ → Bytes
big_endian32 n = (n / 2 ^ 24 % 256) ∷ (n / 2 ^ 16 % 256) ∷ (n / 2 ^ 8 % 256) ∷ (n % 256) ∷ []

unfoldable pub sum : Hashes → (kind : ℕ) → Bytes → Checksum
sum h kind input = record {
  kind = kind;
  digest =
      if kind == checksum_md5
      then h.md5 input
      else if kind == checksum_sha1
      then h.sha1 input
      else if kind == checksum_fnv1a32
      then big_endian32 (h.fnv1a32 input)
      else [];
}

-- `hex.EncodeToString`
abbrev pub hex_digit : ℕ → ℕ
hex_digit n = if ltb n 10 then 48 + n else 87 + n

unfoldable pub encode_hex : Bytes → Bytes
encode_hex [] = []
encode_hex (b ∷ input) = hex_digit (b / 16) ∷ hex_digit (b % 16) ∷ encode_hex input

-- `hex.DecodeString`, which takes digits of both cases.
unfoldable pub hex_value : ℕ → Outcome ℕ
hex_value c =
    if leb 48 c && leb c 57
    then ok (c - 48)
    else if leb 97 c && leb c 102
    then ok (c - 87)
    else if leb 65 c && leb c 70
    then ok (c - 55)
    else err bad_checksum_parse

unfoldable pub decode_hex : Bytes → Outcome Bytes
decode_hex [] = ok []
decode_hex (c ∷ []) = err bad_checksum_parse
decode_hex (c ∷ d ∷ input) = do
  high ← hex_value c
  low ← hex_value d
  rest ← decode_hex input
  ok ((high * 16 + low) ∷ rest)

unfoldable pub checksum_size : ℕ → ℕ
checksum_size kind =
    if kind == checksum_md5
    then 16
    else if kind == checksum_sha1
    then 20
    else if kind == checksum_fnv1a32
    then 4
    else 0

unfoldable pub parse_checksum_hex : (kind : ℕ) → Bytes → Outcome Checksum
parse_checksum_hex kind value = if checksum_size kind == 0 then err bad_checksum_kind else (do
  guard (length value == checksum_size kind * 2) bad_checksum_parse
  digest ← decode_hex value
  ok (record { kind = kind; digest = digest }))

-- The prefixes of a serialized checksum, in the order in which they are tried.
abbrev pub prefixes : List (Bytes × ℕ)
prefixes =
    (codes "$md5 $", checksum_md5)
    ∷ (codes "$md5$", checksum_md5)
    ∷ (codes "$sha1$", checksum_sha1)
    ∷ (codes "$fnv1$", checksum_fnv1a32)
    ∷ []

unfoldable pub has_prefix : (value start : Bytes) → Bool
has_prefix value [] = true
has_prefix [] (p ∷ start) = false
has_prefix (v ∷ value) (p ∷ start) =
    let rest = has_prefix value start in if v == p then rest else false

-- The `switch` of `ParseChecksum` on the length.
unfoldable pub parse_bare : Bytes → Outcome Checksum
parse_bare value =
    if length value == 32
    then parse_checksum_hex checksum_md5 value
    else if length value == 40
    then parse_checksum_hex checksum_sha1 value
    else if length value == 8
    then parse_checksum_hex checksum_fnv1a32 value
    else err bad_checksum_parse

unfoldable pub parse_prefixed : List (Bytes × ℕ) → Bytes → Outcome Checksum
parse_prefixed [] value = parse_bare value
parse_prefixed ((start, kind) ∷ candidates) value =
    let others = parse_prefixed candidates value in
    if has_prefix value start then parse_checksum_hex kind (drop (length start) value) else others

unfoldable pub parse_checksum : Bytes → Outcome Checksum
parse_checksum value = parse_prefixed prefixes value

unfoldable pub hex : Checksum → Bytes
hex c = encode_hex c.digest

unfoldable pub serialize : Checksum → Bytes
serialize c =
    (if c.kind == checksum_md5
      then codes "$md5 $"
      else codes "$" ++ (kind_string c.kind ++ codes "$"))
    ++ hex c

unfoldable pub equal_checksum : Checksum → Checksum → Bool
equal_checksum a b = a.kind == b.kind && equal a.digest b.digest

unfoldable pub is_empty : Hashes → Checksum → Bool
is_empty h c = equal_checksum c (sum h c.kind [])

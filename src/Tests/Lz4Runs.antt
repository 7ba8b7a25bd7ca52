-- ===== src/Tests/Lz4Runs.antt =====
-- Runs of internal/lz4/lz4.go.
use go_svn.Base.{◌⊎◌, ◌≤◌, ◌<◌, arith, ◌≡◌, refl, Bytes, codes, length}
use go_svn.Base.Int.{pos}
use go_svn.Base.Outcome.{err, ok, panic, lz4_corrupt, slice, at, ◌>>=◌, max_alloc, make_slice}
use go_svn.Lz4.RoundTrip.{decode_block-encode_block}
use go_svn.Lz4.Total.{decode_block_cases}
use go_svn.Lz4.{
  encode_block, encode_loop, encode_round, take_match, enter_previous, match_loop, is_match,
  sequence_hash, equal4, uint32_at, append_last_literals, append_sequence, append_extended_length,
  extended_loop, decode_block, block_loop, decode_sequence, decode_match, copy_match, read_length,
  extended_length,
}

abbrev repetitive : Bytes
repetitive = codes "abcdabcdabcdabcdabcdabcdabcdabcdabcdabcdabcd, and so on"

packed : (encode_block repetitive >>= λ b. ok (length b)) ≡ ok 20
unfolding encode_block encode_loop encode_round take_match enter_previous match_loop is_match
    sequence_hash equal4 uint32_at append_last_literals append_sequence append_extended_length
    extended_loop slice at
packed = refl

unpacked : (encode_block repetitive >>= λ b. decode_block b (pos 55)) ≡ ok repetitive
unfolding encode_block encode_loop encode_round take_match enter_previous match_loop is_match
    sequence_hash equal4 uint32_at append_last_literals append_sequence append_extended_length
    extended_loop slice at decode_block make_slice block_loop decode_sequence decode_match
    copy_match read_length extended_length
unpacked = refl

decode_block-encode_block_example :
    (block : Bytes) × (encode_block repetitive ≡ ok block)
    × (decode_block block (pos (length repetitive)) ≡ ok repetitive)
decode_block-encode_block_example = decode_block-encode_block repetitive (omega arith) (omega arith)

-- A literal run that the block does not hold.
decode_block_cases_example :
    ((output : Bytes) × (decode_block (codes "0ab") (pos 9) ≡ ok output)
      × (pos 9 ≡ pos (length output))
      × (length output ≤ max_alloc))
    ⊎ ((decode_block (codes "0ab") (pos 9) ≡ err lz4_corrupt) × (9 ≤ max_alloc))
    ⊎ ((decode_block (codes "0ab") (pos 9) ≡ panic) × (max_alloc < 9))
decode_block_cases_example = decode_block_cases (codes "0ab") (pos 9)

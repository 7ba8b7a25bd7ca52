-- ===== src/Tests/StreamRuns.antt =====
-- Runs of the svndiff documents, the delta streams and the checksums.
use go_svn.Base.{
  ◌≡◌, sym, ltb-true, IsByte, refl, Bytes, codes, ℕ, List, [], ◌∷◌, ◌++◌, All, false, some, none,
  length, suc, zero, arith, ltb, if◌then◌else◌, replicate,
}
use go_svn.Base.Int.{pos, negsuc}
use go_svn.Base.Outcome.{ok, slice, at}
use mathlib.Core.Option.{some-injective}
use go_svn.Checksum.{checksum_size, Checksum, Hashes, checksum_sha1, parse_checksum, serialize, hex}
use go_svn.Checksum.RoundTrip.{IsSized, parse_checksum-serialize}
use go_svn.Delta.Window.{
  Window, op_new, op_source, op_target, validate, validate_ops, validate_op, validate_kind,
}
use go_svn.Delta.Stream.{md5_checksum, send_stream, apply, list_reader}
use go_svn.Delta.Stream.Correct.{collector, apply-send_stream}
use go_svn.Delta.Instructions.{encode_instructions, encode_ops, encode_op}
use go_svn.Delta.Instructions.RoundTrip.{Sequential, done, takes_new, takes_old}
use go_svn.Delta.Varint.{append_varint}
use go_svn.Delta.Varint.Encode.{encoding, leading}
use go_svn.Delta.Svndiff.{
  Zlib, Encoder, Decoder, encode_section, encode_lz4_section, write_window, next_window,
}
use go_svn.Delta.Svndiff.Framing.{window_bytes, header_bytes}
use go_svn.Delta.Svndiff.RoundTrip.{Fits, advanced, next_window-write_window}
use go_svn.Lz4.{
  encode_block, encode_loop, encode_round, append_last_literals, append_extended_length,
  extended_loop,
}

-- Digests of the right size that say only the length, and a compression that does nothing.
length_hashes : Hashes
length_hashes = record {
  md5 = λ input. length input ∷ replicate 15 0;
  sha1 = λ input. length input ∷ replicate 19 0;
  fnv1a32 = λ input. length input;
  md5_size = λ input. refl;
  sha1_size = λ input. refl;
}

apply-send_stream_example :
    (windows : List Window) × (send_stream length_hashes collector
        (codes "one two")
        (codes "two one")
        []
      ≡ ok (windows, md5_checksum length_hashes (codes "two one")))
    × (apply list_reader length_hashes
          (suc (length windows))
          (codes "one two")
          windows
          (some (md5_checksum length_hashes (codes "two one")))
        ≡ ok (codes "two one", md5_checksum length_hashes (codes "two one")))
apply-send_stream_example = apply-send_stream length_hashes (codes "one two") (codes "two one")

abbrev digest : Checksum
digest = record { kind = checksum_sha1; digest = replicate 20 171 }

replicate-All : (n b : ℕ) → IsByte b → All IsByte (replicate n b)
replicate-All zero b h = tt
replicate-All (suc n) b h = (h, replicate-All n b h)

digest-IsSized : IsSized digest
unfolding checksum_size
digest-IsSized = record {
  known = omega arith;
  sized = refl;
  bytes = replicate-All 20 171 (omega arith);
}

parse_checksum-serialize_example :
    (parse_checksum (serialize digest) ≡ ok digest) × (parse_checksum (hex digest) ≡ ok digest)
parse_checksum-serialize_example = parse_checksum-serialize digest digest-IsSized

abbrev stored : Zlib
stored = record {
  deflate = λ level input. some input;
  inflate =
      λ compressed limit. if ltb (length compressed) limit then some (compressed, []) else none;
  inflate-deflate = λ level input compressed limit e lt.
      let same : input ≡ compressed = some-injective _ _ e in rw (sym same, ltb-true _ _ lt) refl;
}

abbrev sent_window : Window
sent_window = record {
  source_offset = pos 7;
  source_length = pos 4;
  target_length = pos 9;
  ops =
      record { kind = op_source; offset = pos 1; length = pos 2 }
      ∷ record { kind = op_new; offset = pos 0; length = pos 3 }
      ∷ record { kind = op_target; offset = pos 3; length = pos 4 }
      ∷ [];
  new_data = codes "xyz";
}

abbrev encoder : Encoder
encoder = record { output = []; version = 2; compression = negsuc 0; closed = false }

abbrev written : Bytes
written = 7 ∷ 4 ∷ 9 ∷ 6 ∷ 4 ∷ 5 ∷ 2 ∷ 1 ∷ 131 ∷ 68 ∷ 3 ∷ 3 ∷ 120 ∷ 121 ∷ 122 ∷ []

abbrev sent_instructions : Bytes
sent_instructions = 5 ∷ 2 ∷ 1 ∷ 131 ∷ 68 ∷ 3 ∷ []

abbrev sent_data : Bytes
sent_data = 3 ∷ 120 ∷ 121 ∷ 122 ∷ []

test_instructions :
    encode_section stored 2 (negsuc 0) (encode_instructions sent_window.ops) ≡ ok sent_instructions
unfolding encode_section encode_lz4_section encode_instructions encode_ops encode_op append_varint
    encode_block encode_loop encode_round append_last_literals append_extended_length extended_loop
    slice at
test_instructions = refl

test_data : encode_section stored 2 (negsuc 0) sent_window.new_data ≡ ok sent_data
unfolding encode_section encode_lz4_section encode_instructions encode_ops encode_op append_varint
    encode_block encode_loop encode_round append_last_literals append_extended_length extended_loop
    slice at
test_data = refl

sent_window-Sequential : Sequential 0 sent_window.ops (length sent_window.new_data)
sent_window-Sequential =
    takes_old (omega arith) (takes_new refl refl (takes_old (omega arith) (done 3)))

test_validate : validate sent_window ≡ ok tt
unfolding validate validate_ops validate_op validate_kind
test_validate = refl

sent_window-Fits : Fits stored encoder sent_window
unfolding encode_instructions encode_ops encode_op append_varint
sent_window-Fits = record {
  instructions = sent_instructions;
  new_data = sent_data;
  encode_instructions_ok = test_instructions;
  encode_new_data_ok = test_data;
  source_offset_fits = omega arith;
  source_length_fits = omega arith;
  target_length_fits = omega arith;
  instructions_fit = omega arith;
  new_data_fits = omega arith;
  contents_fit = (omega arith, omega arith);
}

test_write : write_window stored encoder sent_window ≡ ok (record encoder { output = written })
unfolding write_window append_varint
test_write = rw (test_validate, test_instructions, test_data) refl

abbrev decoder : Decoder
decoder = record {
  input = written ++ (1 ∷ []);
  version = 2;
  last_source_offset = pos 0;
  started = false;
}

next_window-write_window_example :
    (record encoder { output = written }
      ≡ record encoder { output = window_bytes sent_window sent_instructions sent_data })
    × (next_window stored decoder ≡ ok (sent_window, advanced decoder sent_window (1 ∷ [])))
unfolding window_bytes header_bytes encoding leading sent_window-Fits
next_window-write_window_example =
    next_window-write_window stored encoder _ sent_window decoder (1 ∷ []) test_write (omega arith)
      (omega arith, (omega arith, (omega arith, tt))) sent_window-Sequential sent_window-Fits refl
      refl refl

-- ===== src/Delta/Svndiff.antt =====
-- The svndiff documents of delta/svndiff_read.go and delta/svndiff_write.go. The reader is the list of
-- the bytes left, the writer the list of the bytes written; failures of a writer are left out.
pub mod Sections
pub mod Framing
pub mod RoundTrip
use go_svn.Base.{
  ℕ, ◌+◌, ◌<◌, ◌≡◌, Bool, true, false, not, ◌&&◌, ◌||◌, Option, none, some, [], ◌∷◌, ◌++◌, Bytes,
  ltb, leb, ◌==◌, equal, if◌then◌else◌, length, drop,
}
use go_svn.Base.Int.{ℤ, pos, negsuc, pos_part, ltb_ℤ, to_uint64, max_int}
use go_svn.Base.Outcome.{
  Outcome, ok, err, eof, svndiff_invalid_header, svndiff_corrupt_window, svndiff_backward_view,
  svndiff_unexpected_end, svndiff_invalid_compressed_data, unsupported_version, encoder_closed,
  compression_failed, ◌>>=◌, ◌>>◌, guard, wrap, slice,
}
use go_svn.Delta.Varint.{append_varint, read_varint, consume_varint}
use go_svn.Delta.Window.{Window, validate}
use go_svn.Delta.Instructions.{encode_instructions, decode_instructions}
use go_svn.Lz4.{encode_block, decode_block}

-- What is used of the package compress/zlib. `deflate` writes data at a level and closes the writer;
-- `inflate` reads up to `limit` bytes and closes the reader, and answers them with the compressed bytes
-- that were not needed. Nothing is answered on an error.
pub record Zlib : Type 0 where
  pub deflate : (level : ℤ) → Bytes → Option Bytes
  pub inflate : Bytes → (limit : ℕ) → Option (Bytes × Bytes)
  -- A reader with room for more than was written gets it all, and needs the whole stream.
  pub inflate-deflate :
      (level : ℤ) (input compressed : Bytes) (limit : ℕ)
      → deflate level input ≡ some compressed
      → length input < limit
      → inflate compressed limit ≡ some (input, [])

abbrev pub max_window_size : ℕ
max_window_size = 102400

abbrev pub max_instruction_section_size : ℕ
max_instruction_section_size = 2150400

abbrev pub magic : Bytes
magic = 83 ∷ 86 ∷ 78 ∷ []

pub record Decoder : Type 0 where
  pub input : Bytes
  pub version : ℕ
  pub last_source_offset : ℤ
  pub started : Bool

unfoldable pub new_decoder : Bytes → Outcome Decoder
new_decoder (a ∷ b ∷ c ∷ version ∷ input) = do
  guard (equal (a ∷ b ∷ c ∷ []) magic && leb version 2) svndiff_invalid_header
  ok (record { input = input; version = version; last_source_offset = pos 0; started = false })
new_decoder _ = err svndiff_invalid_header

pub record Encoder : Type 0 where
  pub output : Bytes
  pub version : ℕ
  pub compression : ℤ
  pub closed : Bool

-- The default compression level is -1.
unfoldable pub new_encoder : (output : Bytes) (version : ℤ) → Outcome Encoder
new_encoder output version = do
  guard (not (ltb_ℤ version (pos 0) || ltb_ℤ (pos 2) version)) unsupported_version
  ok (record {
    output = output ++ (magic ++ (pos_part version ∷ []));
    version = pos_part version;
    compression = negsuc 0;
    closed = false;
  })

-- `newEncoder`: levels from -2, `HuffmanOnly`, to 9, `BestCompression`.
unfoldable pub new_encoder_level : (output : Bytes) (version compression : ℤ) → Outcome Encoder
new_encoder_level output version compression = do
  guard (not (ltb_ℤ compression (negsuc 1) || ltb_ℤ (pos 9) compression)) unsupported_version
  e ← new_encoder output version
  ok (record e { compression = compression })

-- The end of `readSection` for version 1.
unfoldable pub inflated : (original : ℕ) → Option (Bytes × Bytes) → Outcome Bytes
inflated original none = err svndiff_invalid_compressed_data
inflated original (some (decoded, left)) = do
  guard (length left == 0) svndiff_invalid_compressed_data
  guard (length decoded == original) svndiff_invalid_compressed_data
  ok decoded

-- A number of the window header. The end of the input within the header is an error.
abbrev pub header_number : Bytes → Outcome (ℕ × Bytes)
header_number input = wrap svndiff_unexpected_end (read_varint input)

unfoldable pub encode_lz4_section : Bytes → Outcome Bytes
encode_lz4_section input = do
  compressed ← encode_block input
  ok (
      append_varint [] (length input)
      ++ (if leb (length input) (length compressed) then input else compressed))

-- `Close`, and `Window` on nil.
unfoldable pub close : Encoder → Encoder
close e = record e { closed = true }

module _ (z : Zlib) where
  -- The contents of a section that was read.
  unfoldable pub decode_section : Bytes → (version limit : ℕ) → Outcome Bytes
  decode_section encoded version limit = if version == 0 then ok encoded else (do
    (original, payload) ← wrap svndiff_invalid_compressed_data (consume_varint encoded)
    guard (leb original limit) svndiff_invalid_compressed_data
    (if length payload == original
        then ok payload
        else if version == 2
        then wrap svndiff_invalid_compressed_data (decode_block payload (pos original))
        else inflated original (z.inflate payload (original + 1))))

  unfoldable pub read_section : Bytes → (encoded_length version limit : ℕ) → Outcome (Bytes × Bytes)
  read_section input encoded_length version limit = do
    guard (leb encoded_length (length input)) svndiff_unexpected_end
    encoded ← slice input 0 encoded_length
    contents ← decode_section encoded version limit
    ok (contents, drop encoded_length input)

  -- The rest of `NextWindow`, behind the five numbers of the header.
  unfoldable pub window_contents :
      Decoder
      → (source_offset source_length target_length instruction_length new_length : ℕ)
      → Outcome (Window × Decoder)
  window_contents d source_offset source_length target_length instruction_length new_length = do
    guard
        (not (
          ltb max_int source_offset
          || ltb max_window_size source_length
          || ltb max_window_size target_length
          || ltb max_instruction_section_size instruction_length
          || ltb max_window_size new_length))
        svndiff_corrupt_window
    guard (not (d.started && ltb_ℤ (pos source_offset) d.last_source_offset)) svndiff_backward_view
    (instructions, input) ←
        read_section d.input instruction_length d.version max_instruction_section_size
    (new_data, input') ← read_section input new_length d.version max_window_size
    operations ←
        decode_instructions instructions (pos source_length) (pos target_length) (length new_data)
    let w : Window = record {
      source_offset = pos source_offset;
      source_length = pos source_length;
      target_length = pos target_length;
      ops = operations;
      new_data = new_data;
    }
    validate w
    ok (
      w,
      record {
        input = input';
        version = d.version;
        last_source_offset = pos source_offset;
        started = true;
      },
    )

  unfoldable pub next_header : Decoder → Outcome (Window × Decoder)
  next_header d = do
    (source_offset, input₁) ← header_number d.input
    (source_length, input₂) ← header_number input₁
    (target_length, input₃) ← header_number input₂
    (instruction_length, input₄) ← header_number input₃
    (new_length, input₅) ← header_number input₄
    window_contents (record d { input = input₅ }) source_offset source_length target_length
        instruction_length new_length

  unfoldable pub next_window : Decoder → Outcome (Window × Decoder)
  next_window d = if length d.input == 0 then err eof else next_header d

  unfoldable pub encode_zlib_section : Bytes → (compression : ℤ) → Outcome Bytes
  encode_zlib_section input compression =
      let result = append_varint [] (length input) in
      if ltb (length input) 512 then ok (result ++ input) else elim (z.deflate compression input) [
        | none ↦ err compression_failed
        | some compressed ↦
            ok (result ++ (if leb (length input) (length compressed) then input else compressed))
      ]

  -- A section of `WriteWindow`, by the version.
  unfoldable pub encode_section : (version : ℕ) (compression : ℤ) → Bytes → Outcome Bytes
  encode_section version compression input =
      if version == 1
      then encode_zlib_section input compression
      else if version == 2
      then encode_lz4_section input
      else ok input

  unfoldable pub write_window : Encoder → Window → Outcome Encoder
  write_window e w = do
    guard (not e.closed) encoder_closed
    validate w
    instructions ← encode_section e.version e.compression (encode_instructions w.ops)
    new_data ← encode_section e.version e.compression w.new_data
    let header =
        append_varint
          (append_varint
            (append_varint
              (append_varint (append_varint [] (to_uint64 w.source_offset))
                (to_uint64 w.source_length))
              (to_uint64 w.target_length))
            (length instructions))
          (length new_data)
    ok (record e { output = ((e.output ++ header) ++ instructions) ++ new_data })

  unfoldable pub window : Encoder → Option Window → Outcome Encoder
  window e none = ok (close e)
  window e (some w) = write_window e w

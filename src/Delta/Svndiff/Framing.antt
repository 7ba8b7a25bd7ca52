-- ===== src/Delta/Svndiff/Framing.antt =====
-- The bytes of a svndiff window: what `WriteWindow` of delta/svndiff_write.go appends, and the header
-- as `NextWindow` of delta/svndiff_read.go reads it.
use go_svn.Base.{
  ℕ, ◌^◌, ◌≤◌, ◌<◌, ◌≡◌, ap, ◌∙◌, false, not, [], ◌++◌, Bytes, ◌==◌, length, length-append,
  append_assoc, arith,
}
use go_svn.Base.Int.{ℤ, pos, pos_part, to_uint64, max_int}
use go_svn.Base.Outcome.{ok, guard, encoder_closed, >>=-eq-ok}
use go_svn.Delta.Varint.{append_varint}
use go_svn.Delta.Varint.Encode.{encoding, append_varint-encoding}
use go_svn.Delta.Varint.RoundTrip.{read-encoding}
use go_svn.Delta.Window.{Window, validate}
use go_svn.Delta.Window.Total.{validate-ValidFacts}
use go_svn.Delta.Instructions.{encode_instructions}
use go_svn.Delta.Svndiff.{
  Zlib, Decoder, Encoder, encode_section, header_number, next_header, next_window, window_contents,
  write_window,
}

unfoldable pub header_bytes : (a b c i n : ℕ) → Bytes
header_bytes a b c i n = encoding a ++ (encoding b ++ (encoding c ++ (encoding i ++ encoding n)))

nested_header :
    (a b c i n : ℕ)
    → a < 2 ^ 64
    → b < 2 ^ 64
    → c < 2 ^ 64
    → i < 2 ^ 64
    → n < 2 ^ 64
    → append_varint (append_varint (append_varint (append_varint (append_varint [] a) b) c) i) n
      ≡ header_bytes a b c i n
unfolding header_bytes
nested_header a b c i n ha hb hc hi hn =
    rw
      (
        append_varint-encoding [] a ha,
        append_varint-encoding _ b hb,
        append_varint-encoding _ c hc,
        append_varint-encoding _ i hi,
        append_varint-encoding _ n hn,
      )
      (simp append_assoc)

encoding_nonempty : (v : ℕ) → 0 < length (encoding v)
unfolding encoding
encoding_nonempty v = rw length-append (omega arith)

header_number-encoding :
    (v : ℕ) (rest : Bytes) → v < 2 ^ 64 → header_number (encoding v ++ rest) ≡ ok (v, rest)
header_number-encoding v rest h = rw (read-encoding v rest h)

header_assoc :
    (a b c i n : ℕ) (rest : Bytes)
    → header_bytes a b c i n ++ rest
      ≡ encoding a ++ (encoding b ++ (encoding c ++ (encoding i ++ (encoding n ++ rest))))
unfolding header_bytes
header_assoc a b c i n rest = simp append_assoc

module _ (z : Zlib) where
  -- The header is read back, and the sections come next.
  pub next_window-header_bytes :
      (d : Decoder) (a b c i n : ℕ) (rest : Bytes)
      → a < 2 ^ 64
      → b < 2 ^ 64
      → c < 2 ^ 64
      → i < 2 ^ 64
      → n < 2 ^ 64
      → d.input ≡ header_bytes a b c i n ++ rest
      → next_window z d ≡ window_contents z (record d { input = rest }) a b c i n
  unfolding next_window next_header
  next_window-header_bytes d a b c i n rest ha hb hc hi hn e =
      let e' = e ∙ header_assoc a b c i n rest in
      let some_bytes : (length d.input == 0) ≡ false =
        rw (e', length-append) (ground (arith, encoding_nonempty a)) in
      rw (
        some_bytes,
        e',
        header_number-encoding a _ ha,
        header_number-encoding b _ hb,
        header_number-encoding c _ hc,
        header_number-encoding i _ hi,
        header_number-encoding n _ hn,
      )

unfoldable pub window_bytes : Window → (instructions new_data : Bytes) → Bytes
window_bytes w instructions new_data =
    header_bytes (pos_part w.source_offset) (pos_part w.source_length) (pos_part w.target_length)
      (length instructions) (length new_data)
    ++ (instructions ++ new_data)

-- The numbers of a window that the header has room for.
pub record HasRoom (w : Window) (instructions new_data : Bytes) : Type 0 where
  pub source_offset : pos_part w.source_offset ≤ max_int
  pub source_length : pos_part w.source_length ≤ max_int
  pub target_length : pos_part w.target_length ≤ max_int
  pub instructions_length : length instructions ≤ max_int
  pub new_length : length new_data ≤ max_int

to_uint64_nonneg : (x : ℤ) → x ≡ pos (pos_part x) → pos_part x ≤ max_int → to_uint64 x ≡ pos_part x
to_uint64_nonneg x e h = ground arith

window_layout :
    (w : Window) (instructions new_data output : Bytes)
    → validate w ≡ ok tt
    → HasRoom w instructions new_data
    → ((output
            ++ append_varint
                (append_varint
                  (append_varint
                    (append_varint
                      (append_varint [] (to_uint64 w.source_offset))
                      (to_uint64 w.source_length))
                    (to_uint64 w.target_length))
                  (length instructions))
                (length new_data))
          ++ instructions)
        ++ new_data
      ≡ output ++ window_bytes w instructions new_data
unfolding window_bytes
window_layout w instructions new_data output v r =
    let facts = validate-ValidFacts w v in
    let o = to_uint64_nonneg w.source_offset facts.source_offset_nonneg r.source_offset in
    let s = to_uint64_nonneg w.source_length facts.source_length_nonneg r.source_length in
    let t = to_uint64_nonneg w.target_length facts.target_length_nonneg r.target_length in
    rw
      (
        o,
        s,
        t,
        nested_header (pos_part w.source_offset) (pos_part w.source_length)
            (pos_part w.target_length) (length instructions) (length new_data)
            (omega (arith, r.source_offset)) (omega (arith, r.source_length))
            (omega (arith, r.target_length)) (omega (arith, r.instructions_length))
            (omega (arith, r.new_length)),
      )
      (simp append_assoc)

-- `WriteWindow` appends the bytes of the window, and changes nothing else.
pub write_window-output :
    (z : Zlib) (e e' : Encoder) (w : Window) (instructions new_data : Bytes)
    → encode_section z e.version e.compression (encode_instructions w.ops) ≡ ok instructions
    → encode_section z e.version e.compression w.new_data ≡ ok new_data
    → HasRoom w instructions new_data
    → write_window z e w ≡ ok e'
    → (validate w ≡ ok tt)
      × (e' ≡ record e { output = e.output ++ window_bytes w instructions new_data })
unfolding write_window
write_window-output z e e' w instructions new_data si sn r h =
    let (_, _, h₁) = >>=-eq-ok (guard (not e.closed) encoder_closed) _ h in
    let (_, v, h₂) = >>=-eq-ok (validate w) _ h₁ in
    let h₃ = rw (si, sn) at h₂ in
    let laid : Encoder → Bytes → Encoder = λ (e : Encoder) (o : Bytes). record e { output = o } in
    (v, cc (h₃, ap (laid e) (window_layout w instructions new_data e.output v r)))

-- ===== src/Delta/Svndiff/RoundTrip.antt =====
-- `NextWindow` of delta/svndiff_read.go behind `WriteWindow` of delta/svndiff_write.go.
use go_svn.Base.{
  ℕ, ◌-◌, ◌≤◌, ◌<◌, ◌≡◌, sym, ap, ◌∙◌, true, false, ◌&&◌, ◌||◌, List, ◌++◌, Bytes, ltb, length,
  length-append, append_assoc, take-append_seam, drop-append_seam, leb-true, arith, All, IsByte,
}
use mathlib.Core.Path.{subst}
use go_svn.Base.Int.{ℤ, pos, pos_part, ltb_ℤ, max_int}
use go_svn.Base.Outcome.{ok, err, slice_lem, svndiff_corrupt_window}
use go_svn.Delta.Window.{Op, Window, validate}
use go_svn.Delta.Window.Total.{validate-ValidFacts}
use go_svn.Delta.Instructions.{encode_instructions, decode_instructions}
use go_svn.Delta.Instructions.RoundTrip.{Sequential, decode_instructions-encode_instructions}
use go_svn.Delta.Instructions.Width.{encode_instructions-IsByte}
use go_svn.Delta.Svndiff.{
  Zlib, Decoder, Encoder, encode_section, decode_section, read_section, next_window,
  window_contents, write_window, max_window_size, max_instruction_section_size,
}
use go_svn.Delta.Svndiff.Sections.{decode_section-encode_section}
use go_svn.Delta.Svndiff.Framing.{
  HasRoom, header_bytes, next_window-header_bytes, window_bytes, write_window-output,
}

-- The encoded sections of a window, within the limits of the decoder.
pub record Fits (z : Zlib) (e : Encoder) (w : Window) : Type 0 where
  pub instructions : Bytes
  pub new_data : Bytes
  pub encode_instructions_ok :
      encode_section z e.version e.compression (encode_instructions w.ops) ≡ ok instructions
  pub encode_new_data_ok : encode_section z e.version e.compression w.new_data ≡ ok new_data
  pub source_offset_fits : pos_part w.source_offset ≤ max_int
  pub source_length_fits : pos_part w.source_length ≤ max_window_size
  pub target_length_fits : pos_part w.target_length ≤ max_window_size
  pub instructions_fit : length instructions ≤ max_instruction_section_size
  pub new_data_fits : length new_data ≤ max_window_size
  pub contents_fit :
      (length (encode_instructions w.ops) ≤ max_instruction_section_size)
      × (length w.new_data ≤ max_window_size)

-- The view does not move backward.
abbrev pub Forward : Decoder → ℤ → Type 0
Forward d offset = (d.started && ltb_ℤ offset d.last_source_offset) ≡ false

abbrev make_window : (o s t : ℕ) → List Op → Bytes → Window
make_window o s t ops contents = record {
  source_offset = pos o;
  source_length = pos s;
  target_length = pos t;
  ops = ops;
  new_data = contents;
}

unfoldable pub advanced : Decoder → Window → Bytes → Decoder
advanced d w rest = record {
  input = rest;
  version = d.version;
  last_source_offset = w.source_offset;
  started = true;
}

module _ (z : Zlib) where
  read_section-append :
      (section rest contents : Bytes) (version limit : ℕ)
      → decode_section z section version limit ≡ ok contents
      → read_section z (section ++ rest) (length section) version limit ≡ ok (contents, rest)
  unfolding read_section
  read_section-append section rest contents version limit h =
      let fits : length section ≤ length (section ++ rest) =
        omega (arith, length-append section rest) in
      let all_of : length section - 0 ≡ length section = omega arith in
      rw (
        leb-true _ _ fits,
        slice_lem (section ++ rest) 0 (length section) (omega arith) fits,
        all_of,
        take-append_seam section rest,
        h,
        drop-append_seam section rest,
      )

  window_contents-sections :
      (d : Decoder) (o s t : ℕ) (ops : List Op) (contents instructions new_data rest : Bytes)
      → d.input ≡ instructions ++ (new_data ++ rest)
      → Forward d (pos o)
      → validate (make_window o s t ops contents) ≡ ok tt
      → (o ≤ max_int)
        × (s ≤ max_window_size)
        × (t ≤ max_window_size)
        × (length instructions ≤ max_instruction_section_size)
        × (length new_data ≤ max_window_size)
      → decode_section z instructions d.version max_instruction_section_size
        ≡ ok (encode_instructions ops)
      → decode_section z new_data d.version max_window_size ≡ ok contents
      → decode_instructions (encode_instructions ops) (pos s) (pos t) (length contents) ≡ ok ops
      → window_contents z d o s t (length instructions) (length new_data)
        ≡ ok (make_window o s t ops contents, advanced d (make_window o s t ops contents) rest)
  unfolding window_contents advanced
  window_contents-sections d o s t ops contents instructions new_data rest input forward v
        (bo, bs, bt, bi, bn) si sn back =
      let legal : (ltb max_int o
            || ltb max_window_size s
            || ltb max_window_size t
            || ltb max_instruction_section_size (length instructions)
            || ltb max_window_size (length new_data))
          ≡ false =
        ground arith in
      rw (
        legal,
        forward,
        input,
        read_section-append instructions (new_data ++ rest) (encode_instructions ops) d.version
            max_instruction_section_size si,
        read_section-append new_data rest contents d.version max_window_size sn,
        back,
        v,
      )

  next_window-window_bytes :
      (d : Decoder) (o s t : ℕ) (ops : List Op) (contents instructions new_data rest : Bytes)
      → d.input ≡ window_bytes (make_window o s t ops contents) instructions new_data ++ rest
      → Forward d (pos o)
      → validate (make_window o s t ops contents) ≡ ok tt
      → (o ≤ max_int)
        × (s ≤ max_window_size)
        × (t ≤ max_window_size)
        × (length instructions ≤ max_instruction_section_size)
        × (length new_data ≤ max_window_size)
      → decode_section z instructions d.version max_instruction_section_size
        ≡ ok (encode_instructions ops)
      → decode_section z new_data d.version max_window_size ≡ ok contents
      → decode_instructions (encode_instructions ops) (pos s) (pos t) (length contents) ≡ ok ops
      → next_window z d
        ≡ ok (make_window o s t ops contents, advanced d (make_window o s t ops contents) rest)
  unfolding window_bytes advanced
  next_window-window_bytes d o s t ops contents instructions new_data rest input forward v
        (bo, bs, bt, bi, bn) si sn back =
      let input' =
        input
        ∙ append_assoc (header_bytes o s t (length instructions) (length new_data))
            (instructions ++ new_data) rest in
      next_window-header_bytes z d o s t (length instructions) (length new_data)
        ((instructions ++ new_data) ++ rest) (omega arith) (omega arith) (omega arith) (omega arith)
        (omega arith) input'
      ∙ window_contents-sections (record d { input = (instructions ++ new_data) ++ rest }) o s t ops
          contents instructions new_data rest (append_assoc instructions new_data rest) forward v
          (bo, bs, bt, bi, bn) si sn back

window_shape :
    (w : Window)
    → validate w ≡ ok tt
    → w
      ≡ make_window
          (pos_part w.source_offset)
          (pos_part w.source_length)
          (pos_part w.target_length)
          w.ops
          w.new_data
window_shape w v =
    let facts = validate-ValidFacts w v in
    λ i. record {
      source_offset = facts.source_offset_nonneg i;
      source_length = facts.source_length_nonneg i;
      target_length = facts.target_length_nonneg i;
      ops = w.ops;
      new_data = w.new_data;
    }

-- What `WriteWindow` appends for a window whose new data is taken in order, `NextWindow` reads back as
-- the same window, whatever follows it, and is then behind it. That is so in every version, where the
-- source view and the target view have at most 102400 bytes each, the offset of the source view is an
-- `int`, the two sections are within the limits of the decoder, both as encoded and as decoded, the new
-- data are bytes, and the source view does not move backward.
pub next_window-write_window :
    (z : Zlib) (e e' : Encoder) (w : Window) (d : Decoder) (rest : Bytes)
    → write_window z e w ≡ ok e'
    → e.version ≤ 2
    → All IsByte w.new_data
    → Sequential 0 w.ops (length w.new_data)
    → (f : Fits z e w) → d.version ≡ e.version
    → Forward d w.source_offset
    → d.input ≡ window_bytes w f.instructions f.new_data ++ rest
    → (e' ≡ record e { output = e.output ++ window_bytes w f.instructions f.new_data })
      × (next_window z d ≡ ok (w, advanced d w rest))
next_window-write_window z e e' w d rest run version bytes s f same forward input =
    let (v, out) =
      write_window-output z e e' w f.instructions f.new_data f.encode_instructions_ok
        f.encode_new_data_ok
        (record {
          source_offset = f.source_offset_fits;
          source_length = omega (arith, f.source_length_fits);
          target_length = omega (arith, f.target_length_fits);
          instructions_length = omega (arith, f.instructions_fit);
          new_length = omega (arith, f.new_data_fits);
        })
        run in
    (
      out,
      let facts = validate-ValidFacts w v in
          let shape = window_shape w v in
          let decoded =
            decode_instructions-encode_instructions w v s (omega (arith, f.source_length_fits))
              (omega (arith, f.target_length_fits)) (omega (arith, f.contents_fit.1)) in
          let code =
            encode_instructions-IsByte w v (omega (arith, f.source_length_fits))
              (omega (arith, f.target_length_fits)) (omega (arith, f.contents_fit.1)) in
          next_window-window_bytes z d (pos_part w.source_offset) (pos_part w.source_length)
            (pos_part w.target_length) w.ops w.new_data f.instructions f.new_data rest
            (input ∙ ap (λ (x : Window). window_bytes x f.instructions f.new_data ++ rest) shape)
            (subst (Forward d) facts.source_offset_nonneg forward)
            (subst (λ (x : Window). validate x ≡ ok tt) shape v)
            (
              f.source_offset_fits, f.source_length_fits, f.target_length_fits, f.instructions_fit,
              f.new_data_fits,
            )
            (rw same (
              decode_section-encode_section z max_instruction_section_size (omega arith) e.version
                e.compression (encode_instructions w.ops) f.instructions version code
                f.encode_instructions_ok f.contents_fit.0))
            (rw same (
              decode_section-encode_section z max_window_size (omega arith) e.version e.compression
                w.new_data f.new_data version bytes f.encode_new_data_ok f.contents_fit.1))
            (subst
              (λ (x : ℤ).
                decode_instructions (encode_instructions w.ops) (pos (pos_part w.source_length)) x
                  (length w.new_data)
                ≡ ok w.ops)
              facts.target_length_nonneg
              (subst
                (λ (x : ℤ).
                  decode_instructions (encode_instructions w.ops) x w.target_length
                    (length w.new_data)
                  ≡ ok w.ops)
                facts.source_length_nonneg decoded))
          ∙ ap (λ (x : Window). ok (x, advanced d x rest)) (sym shape),
    )

-- A window whose encoded new data are longer than a window may be is written without an error, and
-- `NextWindow` refuses it with `ErrSvndiffCorruptWindow`.
pub next_window-too_long :
    (z : Zlib) (e e' : Encoder) (w : Window) (instructions new_data : Bytes) (d : Decoder)
    (rest : Bytes)
    → write_window z e w ≡ ok e'
    → encode_section z e.version e.compression (encode_instructions w.ops) ≡ ok instructions
    → encode_section z e.version e.compression w.new_data ≡ ok new_data
    → HasRoom w instructions new_data
    → max_window_size < length new_data
    → d.input ≡ window_bytes w instructions new_data ++ rest
    → (e' ≡ record e { output = e.output ++ window_bytes w instructions new_data })
      × (next_window z d ≡ err svndiff_corrupt_window)
unfolding window_bytes window_contents
next_window-too_long z e e' w instructions new_data d rest run si sn r long input =
    let (v, out) = write_window-output z e e' w instructions new_data si sn r run in
    (
      out,
      let o = pos_part w.source_offset in
          let s = pos_part w.source_length in
          let t = pos_part w.target_length in
          let illegal : (ltb max_int o
                || ltb max_window_size s
                || ltb max_window_size t
                || ltb max_instruction_section_size (length instructions)
                || ltb max_window_size (length new_data))
              ≡ true =
            ground arith in
          next_window-header_bytes z d o s t (length instructions) (length new_data)
            ((instructions ++ new_data) ++ rest) (omega (arith, r.source_offset))
            (omega (arith, r.source_length)) (omega (arith, r.target_length))
            (omega (arith, r.instructions_length)) (omega (arith, r.new_length))
            (input
              ∙ append_assoc (header_bytes o s t (length instructions) (length new_data))
                  (instructions ++ new_data) rest)
          ∙ rw illegal,
    )

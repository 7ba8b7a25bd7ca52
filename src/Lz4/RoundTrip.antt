-- ===== src/Lz4/RoundTrip.antt =====
-- `DecodeBlock` of internal/lz4/lz4.go behind `EncodeBlock`.
use go_svn.Base.{
  ℕ, suc, ◌-◌, ◌≤◌, ◌≡◌, refl, ap, ◌∙◌, [], ◌∷◌, ◌++◌, Bytes, length, take, drop, length-take,
  length-drop, take-append-take, take_all, arith, All, IsByte,
}
use go_svn.Base.Int.{pos, negsuc}
use go_svn.Base.Outcome.{◌>>=◌, ok, slice, slice_lem, max_alloc, make_slice, make_slice_lem}
use go_svn.Lz4.{
  read_length, Encoding, block_loop, decode_block, decode_sequence, decode_match,
  append_last_literals, encode_loop, encode_block,
}
use go_svn.Lz4.Sequence.{append_last_literals-bytes, decode_sequence-last, last_token, sized}
use go_svn.Lz4.Rounds.{Decodes, Encodes, block_step, block_loop-nil, encode_loop_lem}

module _ (source : Bytes) (bytes : All IsByte source) (int : length source ≤ max_alloc) where
  decode_last_literals :
      (output : Bytes) (anchor : ℕ)
      → Decodes source output anchor
      → anchor ≤ length source
      → decode_block
          (append_last_literals output (take (length source - anchor) (drop anchor source)))
          (pos (length source))
        ≡ ok source
  unfolding decode_block
  decode_last_literals output anchor h le =
      let literals = take (length source - anchor) (drop anchor source) in
      let count : length literals ≡ length source - anchor = omega (
        arith,
        length-take (length source - anchor) (drop anchor source),
        length-drop anchor source,
      ) in
      let done : length (take anchor source) ≡ anchor = omega (arith, length-take anchor source) in
      let whole : take anchor source ++ literals ≡ source =
        take-append-take anchor (length source - anchor) source ∙ take_all _ source (omega arith) in
      let tail : Bytes = sized (length literals) ++ literals in
      let block = output ++ (last_token (length literals) ∷ tail) in
      let (fuel, enough, run) =
        h (last_token (length literals) ∷ tail) (length block) (omega arith) in
      let last : decode_sequence (length source) (last_token (length literals)) tail
            (take anchor source)
          ≡ ok (source, []) =
        decode_sequence-last (length source) (take anchor source) literals (omega arith)
          (omega arith)
        ∙ ap (λ r. ok (r, [])) whole in
      let (fuel', _, step) =
        block_step fuel (length source) (last_token (length literals)) tail (take anchor source)
          source [] enough (omega arith) last in
      let all : block_loop (length block) (length source) block [] ≡ ok source =
        run ∙ step ∙ block_loop-nil fuel' (length source) source in
      rw (append_last_literals-bytes output literals, make_slice_lem _ int, all) (ground arith)

  encode_start : Encoding
  encode_start = record { table = λ _. negsuc 0; output = []; anchor = 0; position = 0 }

  encode_start-Encodes : Encodes source encode_start
  unfolding encode_start
  encode_start-Encodes = record {
    below = λ hash c e. cc;
    anchored = omega arith;
    inside = omega arith;
    decodes = λ rest fuel enough. (fuel, enough, refl);
  }

  encode_nonempty :
      (e : Encoding)
      → encode_loop (suc (length source)) source encode_start ≡ ok e
      → Encodes source e
      → (block : Bytes) × ((do
        f ← encode_loop (suc (length source)) source encode_start
        literals ← slice source f.anchor (length source)
        ok (append_last_literals f.output literals))
          ≡ ok block)
        × (decode_block block (pos (length source)) ≡ ok source)
  encode_nonempty e run v =
      let literals =
        slice_lem source e.anchor (length source) (omega (arith, v.anchored, v.inside))
          (omega arith) in
      (
        _,
        rw (run, literals),
        decode_last_literals e.output e.anchor v.decodes (omega (arith, v.anchored, v.inside)),
      )

decode_empty : decode_block (0 ∷ []) (pos 0) ≡ ok []
unfolding decode_block make_slice block_loop decode_sequence read_length decode_match slice
decode_empty = refl

-- `EncodeBlock` of any bytes, as many as a slice can hold, returns a block without a panic, and
-- `DecodeBlock` gives the bytes back from it and their number.
pub decode_block-encode_block :
    (source : Bytes)
    → All IsByte source
    → length source ≤ max_alloc
    → (block : Bytes) × (encode_block source ≡ ok block)
      × (decode_block block (pos (length source)) ≡ ok source)
unfolding encode_block encode_start
decode_block-encode_block [] bytes int = (0 ∷ [], refl, decode_empty)
decode_block-encode_block (b ∷ source) bytes int =
    let (e, run, v) =
      encode_loop_lem (b ∷ source) bytes (omega arith) (suc (length (b ∷ source)))
        (encode_start (b ∷ source) bytes int) (omega arith)
        (encode_start-Encodes (b ∷ source) bytes int) in
    encode_nonempty (b ∷ source) bytes int e run v

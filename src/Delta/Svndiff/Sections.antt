-- ===== src/Delta/Svndiff/Sections.antt =====
-- The sections of a svndiff window: `readSection` of delta/svndiff_read.go behind the encoders of
-- delta/svndiff_write.go.
use go_svn.Base.{
  ℕ, zero, suc, ◌+◌, ◌≤◌, ◌<◌, ◌≡◌, refl, true, false, Option, none, some, [], ◌++◌, Bytes, ltb,
  leb, ◌==◌, if◌then◌else◌, length, leb-true, ==_true, arith, All, IsByte, Bool-cases, inl, inr,
}
use go_svn.Base.Int.{ℤ}
use go_svn.Base.Outcome.{max_alloc, compression_failed, Outcome, ok, err, >>=-eq-ok}
use go_svn.Delta.Varint.{append_varint}
use go_svn.Delta.Varint.Encode.{append_varint-encoding}
use go_svn.Delta.Varint.RoundTrip.{consume-encoding}
use go_svn.Delta.Svndiff.{
  Zlib, inflated, decode_section, encode_zlib_section, encode_lz4_section, encode_section,
}
use go_svn.Lz4.{encode_block}
use go_svn.Lz4.RoundTrip.{decode_block-encode_block}

module _ (z : Zlib) (limit : ℕ) (allocated : limit ≤ max_alloc) where
  -- A section that holds its contents as they are.
  decode_section-plain :
      (version : ℕ) (input : Bytes)
      → (version == 0) ≡ false
      → length input ≤ limit
      → decode_section z (append_varint [] (length input) ++ input) version limit ≡ ok input
  unfolding decode_section
  decode_section-plain version input v fits =
      let same : (length input == length input) ≡ true = ==_true _ _ refl in
      rw (
        v,
        append_varint-encoding [] (length input) (omega arith),
        consume-encoding (length input) input (omega arith),
        leb-true _ _ fits,
        same,
      )

  decode_section-inflate :
      (level : ℤ) (input compressed : Bytes)
      → z.deflate level input ≡ some compressed
      → length compressed < length input
      → length input ≤ limit
      → decode_section z (append_varint [] (length input) ++ compressed) 1 limit ≡ ok input
  unfolding decode_section inflated
  decode_section-inflate level input compressed run less fits =
      let other : (length compressed == length input) ≡ false = ground arith in
      let same : (length input == length input) ≡ true = ==_true _ _ refl in
      rw (
        append_varint-encoding [] (length input) (omega arith),
        consume-encoding (length input) compressed (omega arith),
        leb-true _ _ fits,
        other,
        z.inflate-deflate level input compressed (length input + 1) run (omega arith),
        same,
      )

  decode_section-lz4 :
      (input compressed : Bytes)
      → All IsByte input
      → encode_block input ≡ ok compressed
      → length compressed < length input
      → length input ≤ limit
      → decode_section z (append_varint [] (length input) ++ compressed) 2 limit ≡ ok input
  unfolding decode_section
  decode_section-lz4 input compressed bytes run less fits =
      let other : (length compressed == length input) ≡ false = ground arith in
      let (block, run', back) = decode_block-encode_block input bytes (omega arith) in
      let same : block ≡ compressed = cc in
      let back' = rw same at back in
      rw (
        append_varint-encoding [] (length input) (omega arith),
        consume-encoding (length input) compressed (omega arith),
        leb-true _ _ fits,
        other,
        back',
      )

  zlib_section :
      (level : ℤ) (input section : Bytes)
      → encode_zlib_section z input level ≡ ok section
      → length input ≤ limit
      → decode_section z section 1 limit ≡ ok input
  unfolding encode_zlib_section
  zlib_section level input section h fits = elim (Bool-cases (ltb (length input) 512)) [
    | inl e ↦
        let s : append_varint [] (length input) ++ input ≡ section = cc (rw e at h) in
        rw (← s) (decode_section-plain 1 input refl fits)
    | inr e ↦ by_zlib (z.deflate level input) refl (rw e at h)
  ]
    where
      by_zlib :
          (m : Option Bytes)
          → z.deflate level input ≡ m
          → (elim m as (λ m. Outcome Bytes) [
            | none ↦ err compression_failed
            | some compressed ↦ ok (
                append_varint [] (length input)
                ++ (if leb (length input) (length compressed) then input else compressed))
          ])
            ≡ ok section
          → decode_section z section 1 limit ≡ ok input
      by_zlib none run h = cc
      by_zlib (some compressed) run h = elim (Bool-cases (leb (length input) (length compressed))) [
        | inl e ↦
            let s : append_varint [] (length input) ++ input ≡ section = cc (rw e at h) in
            rw (← s) (decode_section-plain 1 input refl fits)
        | inr e ↦
            let s : append_varint [] (length input) ++ compressed ≡ section = cc (rw e at h) in
            rw (← s) (decode_section-inflate level input compressed run (ground arith) fits)
      ]

  lz4_section :
      (input section : Bytes)
      → All IsByte input
      → encode_lz4_section input ≡ ok section
      → length input ≤ limit
      → decode_section z section 2 limit ≡ ok input
  unfolding encode_lz4_section
  lz4_section input section bytes h fits =
      let (compressed, run, h') = >>=-eq-ok (encode_block input) _ h in
      elim (Bool-cases (leb (length input) (length compressed))) [
        | inl e ↦
            let s : append_varint [] (length input) ++ input ≡ section = cc (rw e at h') in
            rw (← s) (decode_section-plain 2 input refl fits)
        | inr e ↦
            let s : append_varint [] (length input) ++ compressed ≡ section = cc (rw e at h') in
            rw (← s) (decode_section-lz4 input compressed bytes run (ground arith) fits)
      ]

  -- In every version, the contents of a section are read back.
  pub decode_section-encode_section :
      (version : ℕ) (level : ℤ) (input section : Bytes)
      → version ≤ 2
      → All IsByte input
      → encode_section z version level input ≡ ok section
      → length input ≤ limit
      → decode_section z section version limit ≡ ok input
  unfolding encode_section
  decode_section-encode_section zero level input section v bytes h fits =
      unfold decode_section in cc h
  decode_section-encode_section (suc zero) level input section v bytes h fits =
      zlib_section level input section h fits
  decode_section-encode_section (suc (suc zero)) level input section v bytes h fits =
      lz4_section input section bytes h fits
  decode_section-encode_section (suc (suc (suc n))) level input section v bytes h fits =
      absurd (omega arith)

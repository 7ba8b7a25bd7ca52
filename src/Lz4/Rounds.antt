-- ===== src/Lz4/Rounds.antt =====
-- The rounds of `EncodeBlock` of internal/lz4/lz4.go, against what the decoder makes of the bytes so
-- far.
use go_svn.Base.{
  ℕ, zero, suc, ◌+◌, ◌-◌, ◌^◌, ◌≤◌, ◌<◌, ◌≡◌, refl, ap, ◌∙◌, [], ◌∷◌, ◌++◌, Bytes, leb, ◌==◌,
  length, take, drop, length-take, length-drop, length-append, take-append-take, append_assoc,
  arith, All, IsByte, Bool-cases, inl, inr,
}
use go_svn.Base.Int.{pos, max_int}
use go_svn.Base.Outcome.{ok, slice, slice_lem}
use go_svn.Lz4.{
  copy_match, Encoding, Table, set_table, block_loop, decode_sequence, append_sequence,
  match_find_limit, enter_previous, take_match, encode_round, encode_loop, sequence_hash,
}
use go_svn.Lz4.Sequence.{
  sequence_bytes, body, token_of, append_sequence-sequence_bytes, decode_sequence-body,
}
use go_svn.Lz4.Match.{Agrees, copy_match-take, uint32_at_lem, is_match_lem, match_loop_lem}

-- Every position in the table is an earlier one.
abbrev pub Below : Table → ℕ → Type 0
Below table position = (hash c : ℕ) → table hash ≡ pos c → c < position

Below-set_table :
    (table : Table) (hash entry position : ℕ)
    → Below table position
    → entry < position
    → Below (set_table table hash entry) position
Below-set_table table hash entry p h lt k c e = elim (Bool-cases (k == hash)) [
  | inl t ↦ let same : pos entry ≡ pos c = rw t at e in ground arith
  | inr t ↦ h k c (rw t at e)
]

Below-later : (table : Table) (p q : ℕ) → Below table p → p ≤ q → Below table q
Below-later table p q h le k c e = omega (arith, h k c e)

-- The decoder reads the bytes written so far, whatever follows them, as the source up to a place.
abbrev pub Decodes : (source output : Bytes) (anchor : ℕ) → Type 0
Decodes source output anchor =
    (rest : Bytes) (fuel : ℕ)
    → length (output ++ rest) ≤ fuel
    → (fuel' : ℕ) × (length rest ≤ fuel')
      × (block_loop fuel (length source) (output ++ rest) []
          ≡ block_loop fuel' (length source) rest (take anchor source))

pub record Encodes (source : Bytes) (e : Encoding) : Type 0 where
  pub below : Below e.table e.position
  pub anchored : e.anchor ≤ e.position
  pub inside : e.position ≤ length source
  pub decodes : Decodes source e.output e.anchor

block_loop-suc :
    (fuel size token : ℕ) (input output result rest : Bytes)
    → decode_sequence size token input output ≡ ok (result, rest)
    → block_loop (suc fuel) size (token ∷ input) output ≡ block_loop fuel size rest result
unfolding block_loop
block_loop-suc fuel size token input output result rest e = rw e

pub block_step :
    (fuel size token : ℕ) (input output result rest : Bytes)
    → length (token ∷ input) ≤ fuel
    → length rest ≤ length input
    → decode_sequence size token input output ≡ ok (result, rest)
    → (fuel' : ℕ) × (length rest ≤ fuel')
      × (block_loop fuel size (token ∷ input) output ≡ block_loop fuel' size rest result)
block_step zero size token input output result rest enough left e = absurd (omega arith)
block_step (suc fuel) size token input output result rest enough left e =
    (fuel, omega arith, block_loop-suc fuel size token input output result rest e)

pub block_loop-nil : (fuel size : ℕ) (output : Bytes) → block_loop fuel size [] output ≡ ok output
unfolding block_loop
block_loop-nil zero size output = refl
block_loop-nil (suc fuel) size output = refl

module _ (source : Bytes) (bytes : All IsByte source) (int : length source ≤ max_int) where
  -- One more sequence behind what is written.
  Decodes-append_sequence :
      (output : Bytes) (anchor position c n : ℕ)
      → Decodes source output anchor
      → anchor ≤ position
      → c < position
      → position - c < 2 ^ 16
      → 4 ≤ n
      → position + n ≤ length source
      → Agrees source c position n
      → Decodes source
          (append_sequence output (take (position - anchor) (drop anchor source)) (position - c) n)
          (position + n)
  unfolding sequence_bytes
  Decodes-append_sequence output anchor p c n h le lt near four fits same rest fuel enough =
      let literals = take (p - anchor) (drop anchor source) in
      let count : length literals ≡ p - anchor =
        omega (arith, length-take (p - anchor) (drop anchor source), length-drop anchor source) in
      let done : length (take anchor source) ≡ anchor = omega (arith, length-take anchor source) in
      let joined : take anchor source ++ literals ≡ take p source =
        take-append-take anchor (p - anchor) source ∙ ap (λ (k : ℕ). take k source) (omega arith) in
      let start : length (take p source) - (p - c) ≡ c = omega (arith, length-take p source) in
      let token = token_of (length literals) n in
      let written : append_sequence output literals (p - c) n ++ rest
          ≡ output ++ (token ∷ (body literals (p - c) n ++ rest)) =
        rw append_sequence-sequence_bytes (append_assoc output _ rest) in
      let (fuel', enough', run) =
        h (token ∷ (body literals (p - c) n ++ rest)) fuel (rw written at enough) in
      let copied : copy_match n (length (take anchor source ++ literals) - (p - c))
            (take anchor source ++ literals)
          ≡ ok (take (p + n) source) =
        rw (joined, start) (copy_match-take n c p source lt fits same) in
      let sequence =
        decode_sequence-body (length source) (take anchor source) literals rest
          (take (p + n) source) (p - c) n four (omega arith) near (omega arith) (omega arith) int
          copied in
      let left : length rest ≤ length (body literals (p - c) n ++ rest) =
        omega (arith, length-append (body literals (p - c) n) rest) in
      let (fuel'', enough'', step) =
        block_step fuel' (length source) token (body literals (p - c) n ++ rest)
          (take anchor source) (take (p + n) source) rest enough' left sequence in
      (fuel'', enough'', rw written (run ∙ step))

  enter_previous_lem :
      (table : Table) (position : ℕ)
      → Below table position
      → 2 ≤ position
      → (table' : Table) × (enter_previous source table position ≡ ok table')
        × Below table' position
  unfolding enter_previous
  enter_previous_lem table p h two =
      elim (Bool-cases (leb (p + match_find_limit) (length source))) [
        | inr e ↦ (table, rw e, h)
        | inl e ↦
            let (word, run, _) = uint32_at_lem source (p - 2) bytes (ground arith) in
            (
              set_table table (sequence_hash word) (p - 2),
              rw (e, run),
              Below-set_table table (sequence_hash word) (p - 2) p h (omega arith),
            )
      ]

  take_match_lem :
      (table : Table) (c : ℕ) (e : Encoding)
      → Below table (e.position + 1)
      → Encodes source e
      → c < e.position
      → e.position - c < 2 ^ 16
      → e.position + 4 ≤ length source
      → Agrees source c e.position 4
      → (e' : Encoding) × (take_match source table c e ≡ ok e')
        × Encodes source e'
        × (e.position < e'.position)
  unfolding take_match
  take_match_lem table c e below v lt near fits same =
      let (n, run, four, fits', same') =
        match_loop_lem (length source) source c e.position 4 (omega arith) lt fits same in
      let (table', run', below') =
        enter_previous_lem table (e.position + n)
          (Below-later table (e.position + 1) (e.position + n) below (omega arith)) (omega arith) in
      let literals : slice source e.anchor e.position
          ≡ ok (take (e.position - e.anchor) (drop e.anchor source)) =
        slice_lem source e.anchor e.position v.anchored v.inside in
      (
        record {
          table = table';
          output =
              append_sequence e.output (take (e.position - e.anchor) (drop e.anchor source))
                (e.position - c) n;
          anchor = e.position + n;
          position = e.position + n;
        },
        rw (run, literals, run'),
        record {
          below = below';
          anchored = omega arith;
          inside = fits';
          decodes =
              Decodes-append_sequence e.output e.anchor e.position c n v.decodes v.anchored lt near
                four fits' same';
        },
        omega arith,
      )

  encode_round_lem :
      (e : Encoding)
      → Encodes source e
      → e.position + match_find_limit ≤ length source
      → (e' : Encoding) × (encode_round source e ≡ ok e')
        × Encodes source e'
        × (e.position < e'.position)
  unfolding encode_round
  encode_round_lem e v room =
      let (word, read, _) = uint32_at_lem source e.position bytes (omega arith) in
      let hash = sequence_hash word in
      let table = set_table e.table hash e.position in
      let below : Below table (e.position + 1) =
        Below-set_table e.table hash e.position (e.position + 1)
          (Below-later e.table e.position (e.position + 1) v.below (omega arith)) (omega arith) in
      let (found, test, facts) =
        is_match_lem source (e.table hash) e.position bytes (v.below hash) (omega arith) in
      elim (Bool-cases found) [
        | inr no_match ↦ (
          record e { table = table; position = e.position + 1 },
          rw (read, test, no_match),
          record {
            below = below;
            anchored = omega (arith, v.anchored);
            inside = omega arith;
            decodes = v.decodes;
          },
          omega arith,
        )
        | inl a_match ↦
            let (c, eq, near, same) = facts a_match in
            let (e', run, v', more) =
              take_match_lem table c e below v (v.below hash c eq) (omega arith) (omega arith)
                same in
            (e', rw (read, test, a_match, eq) run, v', more)
      ]

  pub encode_loop_lem :
      (fuel : ℕ) (e : Encoding)
      → length source < e.position + fuel
      → Encodes source e
      → (e' : Encoding) × (encode_loop fuel source e ≡ ok e') × Encodes source e'
  unfolding encode_loop
  encode_loop_lem zero e f v = absurd (omega (arith, v.inside))
  encode_loop_lem (suc fuel) e f v =
      elim (Bool-cases (leb (e.position + match_find_limit) (length source))) [
        | inr out ↦ (e, rw out, v)
        | inl more ↦
            let (e', run, v', further) = encode_round_lem e v (ground arith) in
            let (e'', runs, v'') = encode_loop_lem fuel e' (omega arith) v' in
            (e'', rw (more, run) runs, v'')
      ]
  -- The last literals complete the source.

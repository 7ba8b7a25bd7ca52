-- ===== src/Lz4/Total.antt =====
-- `DecodeBlock` of internal/lz4/lz4.go on any bytes, well formed or not.
use Prim.Native.Nat.{bit_and}
use go_svn.Base.{
  ℕ, zero, suc, ◌+◌, ◌-◌, ◌*◌, ◌/◌, ◌^◌, ◌≤◌, ◌<◌, ◌≡◌, refl, ap, sym, ◌∙◌, Bool, true, false, ◌&&◌,
  ◌||◌, [], ◌∷◌, ◌++◌, Bytes, leb, ltb, ◌==◌, length, length-append, length-drop, drop,
  get_elem?_bound, arith, Bool-cases, ◌⊎◌, inl, inr, if◌then◌else◌,
}
use go_svn.Base.Int.{ℤ, pos, negsuc, pos_part, max_int}
use go_svn.Base.Outcome.{
  >>=-eq-ok, Outcome, ok, err, at_lem, slice_lem, guard, lz4_corrupt, FailsWith, FailsWith-cases,
  fails, returns, fails_rules, ◌>>=◌, ◌>>◌, panic, max_alloc, make_slice, make_slice_lem,
}
use go_svn.Lz4.{
  extended_length, read_length, copy_match, decode_match, decode_sequence, block_loop, decode_block,
}

-- The call answers something with no more bytes left than there were, or it finds the block corrupt.
data Leaves {ℓ} {A : Type ℓ} (bytes : ℕ) : Outcome (A × Bytes) → Type ℓ where
  leaves : (a : A) (rest : Bytes) → length rest ≤ bytes → Leaves bytes (ok (a, rest))
  corrupt : Leaves bytes (err lz4_corrupt)

if-Leaves {ℓ} :
    {A : Type ℓ} (bytes : ℕ) (b : Bool) (m n : Outcome (A × Bytes))
    → Leaves bytes m
    → Leaves bytes n
    → Leaves bytes (if b then m else n)
if-Leaves bytes true m n p q = p
if-Leaves bytes false m n p q = q

>>=-Leaves {ℓ κ} :
    {A : Type ℓ} {B : Type κ} (bytes more : ℕ) (m : Outcome (A × Bytes))
    (f : A × Bytes → Outcome (B × Bytes))
    → Leaves bytes m
    → ((a : A) (rest : Bytes) → length rest ≤ bytes → Leaves more (f (a, rest)))
    → Leaves more (m >>= f)
>>=-Leaves bytes more _ f (leaves a rest h) q = q a rest h
>>=-Leaves bytes more _ f corrupt q = corrupt

Leaves-more {ℓ} :
    {A : Type ℓ} (few many : ℕ) (m : Outcome (A × Bytes))
    → few ≤ many
    → Leaves few m
    → Leaves many m
Leaves-more few many _ h (leaves a rest le) = leaves a rest (omega arith)
Leaves-more few many _ h corrupt = corrupt

Leaves-FailsWith {ℓ κ} :
    {A : Type ℓ} {B : Type κ} (bytes : ℕ) (m : Outcome (A × Bytes)) (f : A × Bytes → Outcome B)
    → Leaves bytes m
    → ((a : A) (rest : Bytes) → length rest ≤ bytes → FailsWith lz4_corrupt (f (a, rest)))
    → FailsWith lz4_corrupt (m >>= f)
Leaves-FailsWith bytes _ f (leaves a rest h) q = q a rest h
Leaves-FailsWith bytes _ f corrupt q = fails

extended_length-Leaves : (input : Bytes) (n : ℕ) → Leaves (length input) (extended_length input n)
unfolding extended_length
extended_length-Leaves [] n = corrupt
extended_length-Leaves (v ∷ input) n = if-Leaves _ (ltb (max_int - v) n) _ _ corrupt (
    if-Leaves _ (v == 255) _ _
      (Leaves-more _ _ _ (omega arith) (extended_length-Leaves input (n + v)))
      (leaves (n + v) input (omega arith)))

read_length-Leaves : (input : Bytes) (n : ℕ) → Leaves (length input) (read_length input n)
unfolding read_length
read_length-Leaves input n =
    if-Leaves _ (n == 15) _ _ (extended_length-Leaves input n) (leaves n input (omega arith))

copy_match_total :
    (n start : ℕ) (output : Bytes)
    → start < length output
    → (result : Bytes) × (copy_match n start output ≡ ok result)
unfolding copy_match
copy_match_total zero start output h = (output, refl)
copy_match_total (suc n) start output h =
    let (b, found) = get_elem?_bound output start h in
    let (result, run) =
      copy_match_total n (start + 1) (output ++ (b ∷ []))
        (omega (arith, length-append output (b ∷ []))) in
    (result, rw (at_lem output start found) run)

decode_match-Leaves :
    (size token : ℕ) (input output : Bytes)
    → Leaves (length input) (decode_match size token input output)
unfolding decode_match
decode_match-Leaves size token [] output = leaves output [] (omega arith)
decode_match-Leaves size token (low ∷ []) output = corrupt
decode_match-Leaves size token (low ∷ high ∷ input) output =
    elim (Bool-cases (low + high * 2 ^ 8 == 0 || ltb (length output) (low + high * 2 ^ 8))) [
      | inl bad ↦ rw bad corrupt
      | inr good ↦
          let offset : ℕ = low + high * 2 ^ 8 in
          let inner : length output - offset < length output = ground arith in
          rw good (
            >>=-Leaves (length input) _ (read_length input (bit_and token 0x0f)) _
              (read_length-Leaves input (bit_and token 0x0f))
              (λ n rest le. elim (Bool-cases (leb (n + 4) (size - length output))) [
                | inr far ↦ rw far corrupt
                | inl near ↦
                    let (result, run) =
                      copy_match_total (n + 4) (length output - offset) output inner in
                    rw (near, run) (leaves result rest (omega arith))
              ]))
    ]

decode_sequence-Leaves :
    (size token : ℕ) (input output : Bytes)
    → Leaves (length input) (decode_sequence size token input output)
unfolding decode_sequence
decode_sequence-Leaves size token input output =
    >>=-Leaves (length input) _ (read_length input (token / 2 ^ 4)) _
      (read_length-Leaves input (token / 2 ^ 4))
      (λ n rest le. elim (Bool-cases (leb n (size - length output) && leb n (length rest))) [
        | inr out ↦ rw out corrupt
        | inl fits ↦
            let room : n ≤ length rest = ground arith in
            rw (fits, slice_lem rest 0 n (omega arith) room)
              (Leaves-more (length (drop n rest)) _ _ (omega (arith, length-drop n rest))
                (decode_match-Leaves size token (drop n rest) _))
      ])

block_loop-FailsWith :
    (fuel size : ℕ) (input output : Bytes)
    → length input ≤ fuel
    → FailsWith lz4_corrupt (block_loop fuel size input output)
unfolding block_loop
block_loop-FailsWith zero size [] output h = returns output
block_loop-FailsWith (suc fuel) size [] output h = returns output
block_loop-FailsWith zero size (token ∷ input) output h = absurd (omega arith)
block_loop-FailsWith (suc fuel) size (token ∷ input) output h =
    Leaves-FailsWith (length input) _ _ (decode_sequence-Leaves size token input output)
      (λ result rest le. block_loop-FailsWith fuel size rest result (omega arith))

guarded : (a b : ℕ) → guard (a == b) lz4_corrupt ≡ ok tt → a ≡ b
guarded a b h = ground arith

-- What `DecodeBlock` does once its slice is made.
filled : (source : Bytes) (size : ℕ) → Outcome Bytes
filled source size = do
  output ← block_loop (length source) size source []
  guard (length output == size) lz4_corrupt
  ok output

filled-FailsWith : (source : Bytes) (size : ℕ) → FailsWith lz4_corrupt (filled source size)
unfolding filled
filled-FailsWith source size =
    search (fails_rules, block_loop-FailsWith (length source) size source [] (omega arith))

counted :
    (source : Bytes) (size : ℕ) (output : Bytes)
    → filled source size ≡ ok output
    → length output ≡ size
unfolding filled
counted source size output h =
    let (result, _, h') = >>=-eq-ok (block_loop (length source) size source []) _ h in
    let (_, g, e) = >>=-eq-ok (guard (length result == size) lz4_corrupt) _ h' in
    let same : result ≡ output = cc in rw same at (guarded (length result) size g)

decode_block-filled :
    (source : Bytes) (size : ℕ)
    → size ≤ max_alloc
    → decode_block source (pos size) ≡ filled source size
unfolding decode_block filled
decode_block-filled source size fits =
    let sign : ltb (size + 0) 0 ≡ false = ground arith in rw (sign, make_slice_lem size fits) refl

decode_block-over :
    (source : Bytes) (size : ℕ) → max_alloc < size → decode_block source (pos size) ≡ panic
unfolding decode_block make_slice
decode_block-over source size over =
    let sign : ltb (size + 0) 0 ≡ false = ground arith in
    let no : leb size max_alloc ≡ false = ground arith in rw (sign, no) refl

-- On any bytes and any size `DecodeBlock` does one of three things. It returns as many bytes as the size
-- says; it finds the block corrupt; or it panics, where the size is above what a slice can be made of,
-- which the first two are not.
pub decode_block_cases :
    (source : Bytes) (size : ℤ)
    → ((output : Bytes) × (decode_block source size ≡ ok output)
        × (size ≡ pos (length output))
        × (length output ≤ max_alloc))
      ⊎ ((decode_block source size ≡ err lz4_corrupt) × (pos_part size ≤ max_alloc))
      ⊎ ((decode_block source size ≡ panic) × (max_alloc < pos_part size))
unfolding decode_block
decode_block_cases source (negsuc n) =
    let sign : ltb 0 (0 + suc n) ≡ true = ground arith in inr (inl (rw sign refl, omega arith))
decode_block_cases source (pos size) = elim (Bool-cases (leb size max_alloc)) [
  | inr over ↦ inr (inr (decode_block-over source size (ground arith), ground arith))
  | inl fits ↦
      let same = decode_block-filled source size (ground arith) in
      elim (FailsWith-cases (filled-FailsWith source size)) [
        | inl (output, run) ↦
            let n : length output ≡ size = counted source size output run in
            inl (output, same ∙ run, ap pos (sym n), ground (arith, n))
        | inr e ↦ inr (inl (same ∙ e, ground arith))
      ]
]

-- ===== src/Rasvn/Reads.antt =====
-- The loops of `decodeNumberOrString` and `decodeWord` of rasvn/marshal.go on any bytes.
use go_svn.Base.{
  ℕ, suc, ◌+◌, ◌≤◌, ◌<◌, ◌≡◌, refl, Bool, true, false, [], ◌∷◌, ◌++◌, Bytes, ◌==◌, ltb, leb,
  if◌then◌else◌, length, length-append, length-drop, length-take, ◌-◌, arith, Bool-cases, inl, inr,
  drop,
}
use go_svn.Base.Outcome.{Outcome, ok, err, guard, slice_lem, ra_svn_malformed, ◌>>=◌, ◌>>◌}
use go_svn.Skel.{is_digit, parse_uint}
use go_svn.Rasvn.Encode.{Fits, IsItem}
use go_svn.Rasvn.Item.{
  Item, number, word, string, max_string_length, max_nesting_depth, max_word_length, uint64_end,
  is_alpha, is_whitespace, in_word, valid_word, all_in_word, decode_word, decode_number_or_string,
  number_or_string, require_whitespace,
}

-- The call reads an item that the encoder accepts, and leaves at most so many bytes; or it fails.
pub data Reads (depth bytes : ℕ) : Outcome (Item × Bytes) → Type 0 where
  reads :
      (i : Item) (rest : Bytes)
      → Fits depth i
      → IsItem i
      → length rest ≤ bytes
      → Reads depth bytes (ok (i, rest))
  malformed : Reads depth bytes (err ra_svn_malformed)

module _ {depth bytes : ℕ} where
  pub guard-Reads :
      (b : Bool) (m : Outcome (Item × Bytes))
      → (b ≡ true → Reads depth bytes m)
      → Reads depth bytes (guard b ra_svn_malformed >> m)
  guard-Reads true m h = h refl
  guard-Reads false m h = malformed

  pub if-Reads :
      (b : Bool) (m n : Outcome (Item × Bytes))
      → (b ≡ true → Reads depth bytes m)
      → (b ≡ false → Reads depth bytes n)
      → Reads depth bytes (if b then m else n)
  if-Reads true m n p q = p refl
  if-Reads false m n p q = q refl

  pub >>=-Reads :
      (deep fewer : ℕ) (m : Outcome (Item × Bytes)) (f : Item × Bytes → Outcome (Item × Bytes))
      → Reads deep fewer m
      → ((i : Item) (rest : Bytes)
          → Fits deep i
          → IsItem i
          → length rest ≤ fewer
          → Reads depth bytes (f (i, rest)))
      → Reads depth bytes (m >>= f)
  >>=-Reads deep fewer _ f (reads i rest fit one h) q = q i rest fit one h
  >>=-Reads deep fewer _ f malformed q = malformed

pub Reads-more :
    (depth few many : ℕ) (m : Outcome (Item × Bytes))
    → few ≤ many
    → Reads depth few m
    → Reads depth many m
Reads-more depth few many _ h (reads i rest fit one lt) = reads i rest fit one (omega arith)
Reads-more depth few many _ h malformed = malformed

pub whitespace-Reads :
    (depth : ℕ) (i : Item) (input : Bytes)
    → Fits depth i
    → IsItem i
    → Reads depth (length input) (do rest ← require_whitespace input; ok (i, rest))
unfolding require_whitespace
whitespace-Reads depth i [] fit one = malformed
whitespace-Reads depth i (c ∷ input) fit one = elim (Bool-cases (is_whitespace c)) [
  | inl e ↦ rw e (reads i input fit one (omega arith))
  | inr e ↦ rw e malformed
]

all_in_word-append :
    (xs : Bytes) (c : ℕ)
    → all_in_word xs ≡ true
    → in_word c ≡ true
    → all_in_word (xs ++ (c ∷ [])) ≡ true
unfolding all_in_word
all_in_word-append [] c h inside = rw inside
all_in_word-append (x ∷ xs) c h inside = elim (Bool-cases (in_word x)) [
  | inl e ↦ rw (e, all_in_word-append xs c (rw e at h) inside)
  | inr e ↦ cc (rw e at h)
]

pub valid_word_one : (c : ℕ) → is_alpha c ≡ true → valid_word (c ∷ []) ≡ true
unfolding valid_word all_in_word
valid_word_one c h = rw h

valid_word-append :
    (w : Bytes) (c : ℕ)
    → valid_word w ≡ true
    → in_word c ≡ true
    → (length w == max_word_length) ≡ false
    → valid_word (w ++ (c ∷ [])) ≡ true
unfolding valid_word
valid_word-append [] c h inside room = cc
valid_word-append (x ∷ xs) c h inside room =
    let size : length (xs ++ (c ∷ [])) ≡ length xs + 1 = length-append xs (c ∷ []) in
    let alpha : is_alpha x ≡ true = ground arith in
    let plain : all_in_word xs ≡ true = ground arith in
    let small : ltb max_word_length (suc (length xs + 1)) ≡ false = ground arith in
    rw (size, small, alpha, all_in_word-append xs c plain inside)

module _ (depth : ℕ) (shallow : depth < max_nesting_depth) where
  number_or_string-Reads :
      (digits : Bytes) (value : ℕ) (input : Bytes)
      → Reads depth (length input) (number_or_string digits value input)
  unfolding number_or_string
  number_or_string-Reads digits value input =
      let n = parse_uint 0 digits in
      guard-Reads (ltb n uint64_end) _ λ (small : ltb n uint64_end ≡ true).
        if-Reads (value == 58) _ _
          (λ _. guard-Reads (leb n max_string_length) _ λ (short : leb n max_string_length ≡ true).
            guard-Reads (leb n (length input)) _ λ (there : leb n (length input) ≡ true).
              let few : n ≤ max_string_length = ground arith in
              let fits : n ≤ length input = ground arith in
              rw (slice_lem input 0 n (omega arith) fits) (
                Reads-more depth _ _ _ (omega (arith, length-drop n input)) (
                  whitespace-Reads depth (string _) (drop n input)
                    (shallow, omega (arith, length-take (n - 0) (drop 0 input))) tt)))
          (λ _.
            guard-Reads (is_whitespace value) _
              (λ _. reads (number n) input shallow (ground arith) (omega arith)))

  pub decode_number_or_string-Reads :
      (digits input : Bytes) → Reads depth (length input) (decode_number_or_string digits input)
  unfolding decode_number_or_string
  decode_number_or_string-Reads digits [] = malformed
  decode_number_or_string-Reads digits (c ∷ input) =
      if-Reads (is_digit c) _ _
        (λ _.
          if-Reads (length digits == 20) _ _ (λ _. malformed)
            (λ _.
              Reads-more depth _ _ _ (omega arith)
                (decode_number_or_string-Reads (digits ++ (c ∷ [])) input)))
        (λ _. Reads-more depth _ _ _ (omega arith) (number_or_string-Reads digits c input))

  pub decode_word-Reads :
      (w input : Bytes) → valid_word w ≡ true → Reads depth (length input) (decode_word w input)
  unfolding decode_word
  decode_word-Reads w [] v = malformed
  decode_word-Reads w (c ∷ input) v =
      if-Reads (in_word c) _ _
        (λ (inside : in_word c ≡ true).
          if-Reads (length w == max_word_length) _ _ (λ _. malformed)
            (λ (room : (length w == max_word_length) ≡ false).
              Reads-more depth _ _ _ (omega arith)
                (decode_word-Reads (w ++ (c ∷ [])) input (valid_word-append w c v inside room))))
        (λ _.
          guard-Reads (is_whitespace c) _ (λ _. reads (word w) input (shallow, v) tt (omega arith)))

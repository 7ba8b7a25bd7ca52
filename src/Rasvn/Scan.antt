-- ===== src/Rasvn/Scan.antt =====
-- The loops of `decodeNumberOrString` and `decodeWord` of rasvn/marshal.go over what an encoder
-- writes.
use go_svn.Base.{
  ℕ, ◌+◌, ◌-◌, ◌≤◌, ◌<◌, ◌≡◌, refl, ◌∙◌, true, false, [], ◌∷◌, ◌++◌, Bytes, ◌==◌, length,
  length-append, arith, append_assoc, append-nil, leb-true, ltb-true, Bool-cases, inl, inr, All,
  take-append_seam, drop-append_seam,
}
use go_svn.Base.Outcome.{ok, slice_lem}
use go_svn.Skel.{is_digit, itoa}
use go_svn.Skel.Atom.{itoa_facts, length-itoa}
use go_svn.Rasvn.Item.{
  number, word, string, max_string_length, max_word_length, uint64_end, is_alpha, in_word,
  valid_word, all_in_word, number_or_string, decode_number_or_string, decode_word,
  require_whitespace,
}

digits_end :
    (digits more : Bytes) (value : ℕ) (rest : Bytes)
    → All (λ d. is_digit d ≡ true) more
    → length digits + length more ≤ 20
    → is_digit value ≡ false
    → decode_number_or_string digits (more ++ (value ∷ rest))
      ≡ number_or_string (digits ++ more) value rest
unfolding decode_number_or_string
digits_end digits [] value rest h l e = rw (e, append-nil digits)
digits_end digits (d ∷ more) value rest (f, h) l e =
    let room : (length digits == 20) ≡ false = ground arith in
    let size : length (digits ++ (d ∷ [])) ≡ length digits + 1 = length-append digits (d ∷ []) in
    rw (f, room)
      (digits_end (digits ++ (d ∷ [])) more value rest h (omega arith) e
        ∙ rw (append_assoc digits (d ∷ []) more))

-- Digits that are read, with the first one in hand.
pub decode-itoa :
    (n value : ℕ) (rest : Bytes)
    → n < uint64_end
    → is_digit value ≡ false
    → (d : ℕ) × (ds : Bytes) × (itoa n ≡ d ∷ ds)
      × (is_digit d ≡ true)
      × (decode_number_or_string (d ∷ []) (ds ++ (value ∷ rest))
          ≡ number_or_string (itoa n) value rest)
decode-itoa n value rest h e =
    let (d, ds, eq, (digit, digits), _) = itoa_facts n in
    let size : length (itoa n) ≤ 20 = length-itoa 19 n (omega arith) in
    let size' : length (d ∷ ds) ≤ 20 = rw eq at size in
    (d, ds, eq, digit, rw eq (digits_end (d ∷ []) ds value rest digits (omega arith) e))

pub number_or_string-number :
    (n : ℕ) (rest : Bytes)
    → n < uint64_end
    → number_or_string (itoa n) 32 rest ≡ ok (number n, rest)
unfolding number_or_string
number_or_string-number n rest h =
    let (d, ds, eq, _, back) = itoa_facts n in rw (eq, back, ltb-true n uint64_end h)

pub number_or_string-string :
    (s rest : Bytes)
    → length s ≤ max_string_length
    → number_or_string (itoa (length s)) 58 (s ++ (32 ∷ rest)) ≡ ok (string s, rest)
unfolding number_or_string require_whitespace
number_or_string-string s rest h =
    let (d, ds, eq, _, back) = itoa_facts (length s) in
    let fits : length s ≤ length (s ++ (32 ∷ rest)) = omega (arith, length-append s (32 ∷ rest)) in
    let all_of : length s - 0 ≡ length s = omega arith in
    rw (
      eq,
      back,
      ltb-true (length s) uint64_end (omega arith),
      leb-true (length s) max_string_length h,
      leb-true (length s) (length (s ++ (32 ∷ rest))) fits,
      slice_lem (s ++ (32 ∷ rest)) 0 (length s) (omega arith) fits,
      all_of,
      take-append_seam s (32 ∷ rest),
      drop-append_seam s (32 ∷ rest),
    )

word_end :
    (w more rest : Bytes)
    → all_in_word more ≡ true
    → length w + length more ≤ max_word_length
    → decode_word w (more ++ (32 ∷ rest)) ≡ ok (word (w ++ more), rest)
unfolding decode_word all_in_word
word_end w [] rest h l = rw (append-nil w)
word_end w (c ∷ more) rest h l = elim (Bool-cases (in_word c)) [
  | inl e ↦
      let room : (length w == max_word_length) ≡ false = ground arith in
      let size : length (w ++ (c ∷ [])) ≡ length w + 1 = length-append w (c ∷ []) in
      rw (e, room)
        (word_end (w ++ (c ∷ [])) more rest (rw e at h) (omega arith)
          ∙ rw (append_assoc w (c ∷ []) more))
  | inr e ↦ cc (rw e at h)
]

pub decode_word-valid :
    (w rest : Bytes)
    → valid_word w ≡ true
    → (c : ℕ) × (cs : Bytes) × (w ≡ c ∷ cs)
      × (is_alpha c ≡ true)
      × (decode_word (c ∷ []) (cs ++ (32 ∷ rest)) ≡ ok (word w, rest))
unfolding valid_word
decode_word-valid [] rest h = cc
decode_word-valid (c ∷ cs) rest h =
    let alpha : is_alpha c ≡ true = ground arith in
    let plain : all_in_word cs ≡ true = ground arith in
    let small : length (c ∷ cs) ≤ max_word_length = ground arith in
    (c, cs, refl, alpha, word_end (c ∷ []) cs rest plain (omega arith))

-- ===== src/Rasvn/Total.antt =====
-- `Decode` of rasvn/marshal.go on any bytes, well formed or not.
use go_svn.Base.{
  ℕ, zero, suc, ◌+◌, ◌*◌, ◌≤◌, ◌<◌, ◌≡◌, refl, true, [], ◌∷◌, ◌++◌, Bytes, ◌==◌, ltb, length, arith,
  Bool-cases, inl, inr, All,
}
use go_svn.Base.Outcome.{Outcome, ok, err, eof, ra_svn_malformed, ◌>>=◌, wrap}
use go_svn.Skel.{is_digit}
use go_svn.Rasvn.Encode.{print, Fits, FitAll, IsItem, AreItems, encode-Fits}
use go_svn.Rasvn.RoundTrip.{decode_item-print}
use go_svn.Rasvn.Item.{
  Item, Items, list, no_items, item, max_nesting_depth, is_alpha, is_whitespace, append_item,
  encode_item, decode, decode_list, decode_item, read_non_whitespace,
}
use go_svn.Rasvn.Reads.{
  Reads, reads, malformed, guard-Reads, if-Reads, >>=-Reads, Reads-more, whitespace-Reads,
  valid_word_one, decode_number_or_string-Reads, decode_word-Reads,
}

-- The call passes over the white space, or there is nothing else.
data NonWhitespace (bytes : ℕ) : Outcome (ℕ × Bytes) → Type 0 where
  found : (first : ℕ) (rest : Bytes) → length rest < bytes → NonWhitespace bytes (ok (first, rest))
  nothing : NonWhitespace bytes (err eof)

NonWhitespace-more :
    {bytes : ℕ} (m : Outcome (ℕ × Bytes)) → NonWhitespace bytes m → NonWhitespace (suc bytes) m
NonWhitespace-more _ (found first rest h) = found first rest (omega arith)
NonWhitespace-more _ nothing = nothing

read_non_whitespace-NonWhitespace :
    (input : Bytes) → NonWhitespace (length input) (read_non_whitespace input)
unfolding read_non_whitespace
read_non_whitespace-NonWhitespace [] = nothing
read_non_whitespace-NonWhitespace (c ∷ input) = elim (Bool-cases (is_whitespace c)) [
  | inl e ↦ rw e (NonWhitespace-more _ (read_non_whitespace-NonWhitespace input))
  | inr e ↦ rw e (found c input (omega arith))
]

wrap-Reads :
    (depth bytes : ℕ) (m : Outcome (ℕ × Bytes)) (f : ℕ × Bytes → Outcome (Item × Bytes))
    → NonWhitespace bytes m
    → ((first : ℕ) (rest : Bytes) → length rest < bytes → Reads depth bytes (f (first, rest)))
    → Reads depth bytes (wrap ra_svn_malformed m >>= f)
wrap-Reads depth bytes _ f (found first rest h) q = q first rest h
wrap-Reads depth bytes _ f nothing q = malformed

FitAll-append_item :
    (depth : ℕ) (is : Items) (i : Item)
    → FitAll depth is
    → Fits depth i
    → FitAll depth (append_item is i)
unfolding append_item
FitAll-append_item depth no_items i h fit = (fit, tt)
FitAll-append_item depth (item first is) i (f, h) fit = (f, FitAll-append_item depth is i h fit)

AreItems-append_item :
    (is : Items) (i : Item) → AreItems is → IsItem i → AreItems (append_item is i)
unfolding append_item
AreItems-append_item no_items i h one = (one, tt)
AreItems-append_item (item first is) i (f, h) one = (f, AreItems-append_item is i h one)

mutual
  unfolding decode

  decode-Reads :
      (fuel depth first : ℕ) (input : Bytes)
      → length input * 2 + 2 ≤ fuel
      → Reads depth (length input) (decode fuel depth first input)
  decode-Reads zero depth first input h = absurd (omega arith)
  decode-Reads (suc fuel) depth first input h =
      guard-Reads (ltb depth max_nesting_depth) _ λ (e : ltb depth max_nesting_depth ≡ true).
        let shallow : depth < max_nesting_depth = ground arith in
        if-Reads (is_digit first) _ _
          (λ _. decode_number_or_string-Reads depth shallow (first ∷ []) input)
          (λ _.
            if-Reads (is_alpha first) _ _
              (λ alpha.
                decode_word-Reads depth shallow (first ∷ []) input (valid_word_one first alpha))
              (λ _.
                if-Reads (first == 40) _ _
                  (λ _. decode_list-Reads fuel depth input no_items shallow tt tt (omega arith))
                  (λ _. malformed)))

  decode_list-Reads :
      (fuel depth : ℕ) (input : Bytes) (values : Items)
      → depth < max_nesting_depth
      → FitAll (depth + 1) values
      → AreItems values
      → length input * 2 + 1 ≤ fuel
      → Reads depth (length input) (decode_list fuel depth input values)
  decode_list-Reads zero depth input values shallow fits all h = absurd (omega arith)
  decode_list-Reads (suc fuel) depth input values shallow fits all h =
      wrap-Reads depth _ (read_non_whitespace input) _ (read_non_whitespace-NonWhitespace input)
        λ first rest fewer.
          if-Reads (first == 41) _ _
            (λ _.
              Reads-more depth _ _ _ (omega arith)
                (whitespace-Reads depth (list values) rest (shallow, fits) all))
            (λ _.
              >>=-Reads (depth + 1) (length rest) (decode fuel (depth + 1) first rest) _
                (decode-Reads fuel (depth + 1) first rest (omega arith))
                λ i left fit one less. Reads-more depth _ _ _ (omega arith) (
                  decode_list-Reads fuel depth left (append_item values i) shallow
                    (FitAll-append_item (depth + 1) values i fits fit)
                    (AreItems-append_item values i all one) (omega arith)))

-- What `Decode` may do with some bytes.
pub data Decodes (input : Bytes) : Outcome (Item × Bytes) → Type 0 where
  decoded :
      (i : Item) (rest bytes : Bytes)
      → length rest < length input
      → encode_item i ≡ ok bytes
      → ((more : Bytes) → decode_item (bytes ++ more) ≡ ok (i, more))
      → Decodes input (ok (i, rest))
  refused : Decodes input (err ra_svn_malformed)
  at_end : All (λ c. is_whitespace c ≡ true) input → Decodes input (err eof)

blank :
    (input : Bytes) → read_non_whitespace input ≡ err eof → All (λ c. is_whitespace c ≡ true) input
unfolding read_non_whitespace
blank [] h = tt
blank (c ∷ input) h = elim (Bool-cases (is_whitespace c)) [
  | inl e ↦ (e, blank input (rw e at h))
  | inr e ↦ cc (rw e at h)
]

Reads-Decodes :
    (input : Bytes) (bytes : ℕ) (m : Outcome (Item × Bytes))
    → bytes < length input
    → Reads 0 bytes m
    → Decodes input m
unfolding encode_item
Reads-Decodes input bytes _ h (reads i rest fit one lt) =
    decoded i rest (print i) (omega arith) (encode-Fits [] 0 i fit)
      (λ more. decode_item-print i more fit one)
Reads-Decodes input bytes _ h malformed = refused

NonWhitespace-Decodes :
    (input : Bytes) (m : Outcome (ℕ × Bytes))
    → read_non_whitespace input ≡ m
    → NonWhitespace (length input) m
    → Decodes input (m >>= λ (first, rest). decode (suc (suc (length rest * 2))) 0 first rest)
NonWhitespace-Decodes input _ e (found first rest h) =
    Reads-Decodes input (length rest) _ h
      (decode-Reads (suc (suc (length rest * 2))) 0 first rest (omega arith))
NonWhitespace-Decodes input _ e nothing = at_end (blank input e)

-- On any bytes `Decode` ends without a panic. It reads an item, leaving fewer bytes than there
-- were, and then `Encode` accepts the item, and `Decode` reads the item back from what `Encode`
-- writes, whatever follows; or its error is `ErrRASvnMalformedData`; or it is `io.EOF`, and there is
-- nothing but white space.
pub decode_item-Decodes : (input : Bytes) → Decodes input (decode_item input)
unfolding decode_item
decode_item-Decodes input =
    NonWhitespace-Decodes input (read_non_whitespace input) refl
      (read_non_whitespace-NonWhitespace input)

-- ===== src/Rasvn/Item.antt =====
-- rasvn/marshal.go: `Item`, the decoder of the protocol's items, and their encoder. An item carries
-- only the field that its kind reads.
use go_svn.Base.{
  ℕ, zero, suc, ◌+◌, ◌*◌, Bool, true, false, not, ◌&&◌, ◌||◌, [], ◌∷◌, ◌++◌, Bytes, leb, ltb, ◌==◌,
  if◌then◌else◌, length, drop,
}
use go_svn.Base.Outcome.{
  Outcome, ok, err, out_of_fuel, eof, ra_svn_malformed, ◌>>=◌, ◌>>◌, guard, wrap, slice,
}
use go_svn.Skel.{is_digit, itoa, parse_uint}

mutual
  pub data Item : Type 0 where
    number : ℕ → Item
    word : Bytes → Item
    string : Bytes → Item
    list : Items → Item

  pub data Items : Type 0 where
    no_items : Items
    item : Item → Items → Items

abbrev pub max_string_length : ℕ
max_string_length = 67108864

abbrev pub max_nesting_depth : ℕ
max_nesting_depth = 64

abbrev pub max_word_length : ℕ
max_word_length = 31

-- 2 ^ 64, the first number that `strconv.ParseUint` refuses.
abbrev pub uint64_end : ℕ
uint64_end = 18446744073709551616

abbrev pub is_alpha : ℕ → Bool
is_alpha value = leb 65 value && leb value 90 || leb 97 value && leb value 122

abbrev pub is_whitespace : ℕ → Bool
is_whitespace value = value == 32 || value == 10

-- What a word may hold behind its first byte.
abbrev pub in_word : ℕ → Bool
in_word value = is_alpha value || is_digit value || value == 45

-- The loop of `validWord` over the bytes behind the first one.
unfoldable pub all_in_word : Bytes → Bool
all_in_word [] = true
all_in_word (value ∷ rest) = let valid = all_in_word rest in if in_word value then valid else false

unfoldable pub valid_word : Bytes → Bool
valid_word [] = false
valid_word (first ∷ rest) =
    if ltb max_word_length (length (first ∷ rest)) || not (is_alpha first)
    then false
    else all_in_word rest

unfoldable mutual
  -- `encode` behind what the writer holds.
  pub encode : (output : Bytes) (depth : ℕ) → Item → Outcome Bytes
  encode output depth (number n) = do
    guard (ltb depth max_nesting_depth) ra_svn_malformed
    ok (output ++ (itoa n ++ (32 ∷ [])))
  encode output depth (word w) = do
    guard (ltb depth max_nesting_depth) ra_svn_malformed
    guard (valid_word w) ra_svn_malformed
    ok (output ++ (w ++ (32 ∷ [])))
  encode output depth (string s) = do
    guard (ltb depth max_nesting_depth) ra_svn_malformed
    guard (leb (length s) max_string_length) ra_svn_malformed
    ok (output ++ (itoa (length s) ++ (58 ∷ (s ++ (32 ∷ [])))))
  encode output depth (list values) = do
    guard (ltb depth max_nesting_depth) ra_svn_malformed
    output' ← encode_items (output ++ (40 ∷ (32 ∷ []))) depth values
    ok (output' ++ (41 ∷ (32 ∷ [])))

  -- Its loop over the items of a list.
  pub encode_items : (output : Bytes) (depth : ℕ) → Items → Outcome Bytes
  encode_items output depth no_items = ok output
  encode_items output depth (item value values) = do
    output' ← encode output (depth + 1) value
    encode_items output' depth values

unfoldable pub encode_item : Item → Outcome Bytes
encode_item value = encode [] 0 value

unfoldable pub require_whitespace : Bytes → Outcome Bytes
require_whitespace [] = err ra_svn_malformed
require_whitespace (value ∷ input) = do guard (is_whitespace value) ra_svn_malformed; ok input

-- The byte that is read and what is left.
unfoldable pub read_non_whitespace : Bytes → Outcome (ℕ × Bytes)
read_non_whitespace [] = err eof
read_non_whitespace (value ∷ input) =
    let rest = read_non_whitespace input in if is_whitespace value then rest else ok (value, input)

-- The end of `decodeNumberOrString`, with the digits and the byte that ends them.
unfoldable pub number_or_string :
    (digits : Bytes) (value : ℕ) (input : Bytes) → Outcome (Item × Bytes)
number_or_string digits value input = do
  let n = parse_uint 0 digits
  guard (ltb n uint64_end) ra_svn_malformed
  (if value == 58
      then (do
        guard (leb n max_string_length) ra_svn_malformed
        guard (leb n (length input)) ra_svn_malformed
        bytes ← slice input 0 n
        rest ← require_whitespace (drop n input)
        ok (string bytes, rest))
      else (do guard (is_whitespace value) ra_svn_malformed; ok (number n, input)))

-- The loop of `decodeNumberOrString` over the digits.
unfoldable pub decode_number_or_string : (digits input : Bytes) → Outcome (Item × Bytes)
decode_number_or_string digits [] = err ra_svn_malformed
decode_number_or_string digits (value ∷ input) =
    let more = decode_number_or_string (digits ++ (value ∷ [])) input in
    if is_digit value
    then (if length digits == 20 then err ra_svn_malformed else more)
    else number_or_string digits value input

-- The loop of `decodeWord`.
unfoldable pub decode_word : (w input : Bytes) → Outcome (Item × Bytes)
decode_word w [] = err ra_svn_malformed
decode_word w (value ∷ input) =
    let more = decode_word (w ++ (value ∷ [])) input in
    if in_word value
    then (if length w == max_word_length then err ra_svn_malformed else more)
    else (do guard (is_whitespace value) ra_svn_malformed; ok (word w, input))

-- `append(values, value)`
unfoldable pub append_item : Items → Item → Items
append_item no_items value = item value no_items
append_item (item first rest) value = item first (append_item rest value)

-- `decode` and the loop of `decodeList`. What a call leaves is no structural part of the input, so
-- that each call costs a unit of fuel.
unfoldable mutual
  pub decode : (fuel depth first : ℕ) → Bytes → Outcome (Item × Bytes)
  decode zero depth first input = out_of_fuel
  decode (suc fuel) depth first input =
      let values = decode_list fuel depth input no_items in
      do
        guard (ltb depth max_nesting_depth) ra_svn_malformed
        (if is_digit first
            then decode_number_or_string (first ∷ []) input
            else if is_alpha first
            then decode_word (first ∷ []) input
            else if first == 40
            then values
            else err ra_svn_malformed)

  pub decode_list : (fuel depth : ℕ) → Bytes → Items → Outcome (Item × Bytes)
  decode_list zero depth input values = out_of_fuel
  decode_list (suc fuel) depth input values = do
    (first, input') ← wrap ra_svn_malformed (read_non_whitespace input)
    let more = (do
      (value, rest) ← decode fuel (depth + 1) first input'
      decode_list fuel depth rest (append_item values value))
    (if first == 41 then (do rest ← require_whitespace input'; ok (list values, rest)) else more)

-- `Decode`, with the bytes it leaves. A byte costs two units of fuel at most, one for the loop of a
-- list and one for an item in it; the end of the bytes costs the other two.
unfoldable pub decode_item : Bytes → Outcome (Item × Bytes)
decode_item input = do
  (first, input') ← read_non_whitespace input
  decode (suc (suc (length input' * 2))) 0 first input'

-- ===== src/Rasvn/RoundTrip.antt =====
-- `Decode` of rasvn/marshal.go behind `Encode`.
use go_svn.Base.{
  ℕ, zero, suc, ◌+◌, ◌*◌, ◌≤◌, ◌<◌, ◌≡◌, refl, ◌∙◌, true, false, [], ◌∷◌, ◌++◌, Bytes, ◌==◌, length,
  length-append, arith, append_assoc, ltb-true,
}
use go_svn.Base.Outcome.{Outcome, ok, err, ra_svn_malformed}
use go_svn.Skel.{is_digit, itoa}
use go_svn.Skel.Atom.{itoa_facts}
use go_svn.Rasvn.Encode.{print, print_items, Fits, FitAll, IsItem, AreItems, encode-print}
use go_svn.Rasvn.Scan.{
  decode-itoa, number_or_string-number, number_or_string-string, decode_word-valid,
}
use go_svn.Rasvn.Item.{
  Item, Items, number, word, string, list, no_items, item, max_nesting_depth, is_alpha,
  is_whitespace, append_item, encode_item, decode, decode_list, decode_item, read_non_whitespace,
  require_whitespace,
}

abbrev pub append_items : Items → Items → Items
append_items no_items more = more
append_items (item value rest) more = item value (append_items rest more)

pub append_items-none : (is : Items) → append_items is no_items ≡ is
append_items-none no_items = refl
append_items-none (item value rest) = rw (append_items-none rest)

pub append_items-append_item :
    (earlier : Items) (value : Item) (more : Items)
    → append_items (append_item earlier value) more ≡ append_items earlier (item value more)
unfolding append_item
append_items-append_item no_items value more = refl
append_items-append_item (item first rest) value more =
    rw (append_items-append_item rest value more)

-- `decode` on bytes whose first one is read.
abbrev decode_from : (fuel depth : ℕ) → Bytes → Outcome (Item × Bytes)
decode_from fuel depth [] = err ra_svn_malformed
decode_from fuel depth (first ∷ input) = decode fuel depth first input

-- An item starts with a byte that is no space and no closing bracket.
abbrev Starts : Bytes → Type 0
Starts bytes =
    (c : ℕ) × (cs : Bytes) × (bytes ≡ c ∷ cs) × (is_whitespace c ≡ false) × ((c == 41) ≡ false)

digit_starts : (c : ℕ) → is_digit c ≡ true → (is_whitespace c ≡ false) × ((c == 41) ≡ false)
digit_starts c h = (ground arith, ground arith)

alpha_starts :
    (c : ℕ)
    → is_alpha c ≡ true
    → (is_whitespace c ≡ false) × ((c == 41) ≡ false) × (is_digit c ≡ false)
alpha_starts c h = (ground arith, ground arith, ground arith)

itoa-Starts : (n : ℕ) (rest : Bytes) → Starts (itoa n ++ rest)
itoa-Starts n rest =
    let (d, ds, eq, (digit, _), _) = itoa_facts n in
    let (p, q) = digit_starts d digit in rw eq (d, ds ++ rest, refl, p, q)

print-Starts : (depth : ℕ) (i : Item) → Fits depth i → Starts (print i)
unfolding print
print-Starts depth (number n) h = itoa-Starts n (32 ∷ [])
print-Starts depth (word w) (h, v) =
    let (c, cs, eq, alpha, _) = decode_word-valid w [] v in
    let (p, q, _) = alpha_starts c alpha in rw eq (c, cs ++ (32 ∷ []), refl, p, q)
print-Starts depth (string s) h = itoa-Starts (length s) (58 ∷ (s ++ (32 ∷ [])))
print-Starts depth (list values) h = (40, _, refl, refl, refl)

decode-number :
    (fuel depth n : ℕ) (rest : Bytes)
    → depth < max_nesting_depth
    → IsItem (number n)
    → decode_from (suc fuel) depth (print (number n) ++ rest) ≡ ok (number n, rest)
unfolding decode print
decode-number fuel depth n rest h small =
    let (d, ds, eq, digit, run) = decode-itoa n 32 rest small refl in
    rw (append_assoc (itoa n) (32 ∷ []) rest, eq, ltb-true depth max_nesting_depth h, digit)
      (run ∙ number_or_string-number n rest small)

decode-string :
    (fuel depth : ℕ) (s rest : Bytes)
    → Fits depth (string s)
    → decode_from (suc fuel) depth (print (string s) ++ rest) ≡ ok (string s, rest)
unfolding decode print
decode-string fuel depth s rest (h, small) =
    let (d, ds, eq, digit, run) = decode-itoa (length s) 58 (s ++ (32 ∷ rest)) (omega arith) refl in
    rw
      (
        append_assoc (itoa (length s)) (58 ∷ (s ++ (32 ∷ []))) rest,
        append_assoc s (32 ∷ []) rest,
        eq,
        ltb-true depth max_nesting_depth h,
        digit,
      )
      (run ∙ number_or_string-string s rest small)

decode-word :
    (fuel depth : ℕ) (w rest : Bytes)
    → Fits depth (word w)
    → decode_from (suc fuel) depth (print (word w) ++ rest) ≡ ok (word w, rest)
unfolding decode print
decode-word fuel depth w rest (h, v) =
    let (c, cs, eq, alpha, run) = decode_word-valid w rest v in
    let (_, _, no_digit) = alpha_starts c alpha in
    rw (append_assoc w (32 ∷ []) rest, eq, ltb-true depth max_nesting_depth h, no_digit, alpha)
      (rw eq at run)

read_space :
    (bytes rest : Bytes)
    → Starts bytes
    → (c : ℕ) × (cs : Bytes) × (bytes ++ rest ≡ c ∷ cs)
      × ((c == 41) ≡ false)
      × (read_non_whitespace (bytes ++ rest) ≡ ok (c, cs))
unfolding read_non_whitespace
read_space bytes rest (c, cs, e, p, q) = (c, cs ++ rest, rw e refl, q, rw (e, p) refl)

-- One round of the loop of `decodeList`, over an item that is read.
decode_list-round :
    (fuel depth : ℕ) (bytes rest : Bytes) (value : Item) (values : Items)
    → Starts bytes
    → decode_from fuel (depth + 1) (bytes ++ rest) ≡ ok (value, rest)
    → decode_list (suc fuel) depth (bytes ++ rest) values
      ≡ decode_list fuel depth rest (append_item values value)
unfolding decode_list
decode_list-round fuel depth bytes rest value values starts run =
    let (c, cs, eq, close, read) = read_space bytes rest starts in
    let run' : decode fuel (depth + 1) c cs ≡ ok (value, rest) = rw eq at run in
    rw (read, close, run')

decode_list_end :
    (fuel depth : ℕ) (rest : Bytes) (values : Items)
    → decode_list (suc fuel) depth (41 ∷ (32 ∷ rest)) values ≡ ok (list values, rest)
unfolding decode_list read_non_whitespace require_whitespace
decode_list_end fuel depth rest values = refl

-- The space behind the opening bracket is passed over.
decode_list_space :
    (fuel depth : ℕ) (input : Bytes) (values : Items)
    → decode_list fuel depth (32 ∷ input) values ≡ decode_list fuel depth input values
unfolding decode_list read_non_whitespace
decode_list_space zero depth input values = refl
decode_list_space (suc fuel) depth input values = refl

decode_list_start :
    (fuel depth : ℕ) (input : Bytes)
    → depth < max_nesting_depth
    → decode (suc fuel) depth 40 input ≡ decode_list fuel depth input no_items
unfolding decode
decode_list_start fuel depth input h = rw (ltb-true depth max_nesting_depth h)

Starts-length : (bytes : Bytes) → Starts bytes → 0 < length bytes
Starts-length bytes (c, cs, e, _, _) = rw e (omega arith)

list_end : (inner rest : Bytes) → (inner ++ (41 ∷ (32 ∷ []))) ++ rest ≡ inner ++ (41 ∷ (32 ∷ rest))
list_end inner rest = append_assoc inner (41 ∷ (32 ∷ [])) rest

mutual
  unfolding print

  pub decode-print :
      (i : Item) (fuel depth : ℕ) (rest : Bytes)
      → Fits depth i
      → IsItem i
      → length (print i) * 2 ≤ fuel + 1
      → decode_from fuel depth (print i ++ rest) ≡ ok (i, rest)
  decode-print i zero depth rest fits small enough =
      absurd (omega (arith, Starts-length (print i) (print-Starts depth i fits)))
  decode-print (number n) (suc fuel) depth rest fits small enough =
      decode-number fuel depth n rest fits small
  decode-print (word w) (suc fuel) depth rest fits small enough = decode-word fuel depth w rest fits
  decode-print (string s) (suc fuel) depth rest fits small enough =
      decode-string fuel depth s rest fits
  decode-print (list values) (suc fuel) depth rest (h, fits) small enough =
      let inner = print_items values in
      let count : length (inner ++ (41 ∷ (32 ∷ []))) ≡ length inner + 2 =
        length-append inner (41 ∷ (32 ∷ [])) in
      decode_list_start fuel depth (32 ∷ ((inner ++ (41 ∷ (32 ∷ []))) ++ rest)) h
      ∙ decode_list_space fuel depth ((inner ++ (41 ∷ (32 ∷ []))) ++ rest) no_items
      ∙ rw (list_end inner rest)
          (decode_list-print values fuel depth rest no_items fits small (omega arith))

  decode_list-print :
      (is : Items) (fuel depth : ℕ) (rest : Bytes) (earlier : Items)
      → FitAll (depth + 1) is
      → AreItems is
      → length (print_items is) * 2 + 2 ≤ fuel
      → decode_list fuel depth (print_items is ++ (41 ∷ (32 ∷ rest))) earlier
        ≡ ok (list (append_items earlier is), rest)
  decode_list-print is zero depth rest earlier fits small enough = absurd (omega arith)
  decode_list-print no_items (suc fuel) depth rest earlier fits small enough =
      decode_list_end fuel depth rest earlier ∙ rw (append_items-none earlier)
  decode_list-print (item value values) (suc fuel) depth rest earlier (fit, fits) (one, all)
        enough =
      let starts = print-Starts (depth + 1) value fit in
      let more = Starts-length (print value) starts in
      let sizes = length-append (print value) (print_items values) in
      let after = print_items values ++ (41 ∷ (32 ∷ rest)) in
      let read : decode_from fuel (depth + 1) (print value ++ after) ≡ ok (value, after) =
        decode-print value fuel (depth + 1) after fit one (omega arith) in
      rw
        (
          append_assoc (print value) (print_items values) (41 ∷ (32 ∷ rest)),
          decode_list-round fuel depth (print value) after value earlier starts read,
          ← append_items-append_item earlier value values,
        )
        (decode_list-print values fuel depth rest (append_item earlier value) fits all
          (omega arith))

pub decode_item-print :
    (i : Item) (rest : Bytes) → Fits 0 i → IsItem i → decode_item (print i ++ rest) ≡ ok (i, rest)
unfolding decode_item
decode_item-print i rest fits small =
    let (c, cs, eq, _, read) = read_space (print i) rest (print-Starts 0 i fits) in
    let count : length (print i ++ rest) ≡ length (print i) + length rest =
      length-append (print i) rest in
    let count' : length (c ∷ cs) ≡ length (print i) + length rest = rw eq at count in
    let run : decode_from (suc (suc (length cs * 2))) 0 (print i ++ rest) ≡ ok (i, rest) =
      decode-print i (suc (suc (length cs * 2))) 0 rest fits small (omega arith) in
    let run' : decode (suc (suc (length cs * 2))) 0 c cs ≡ ok (i, rest) = rw eq at run in
    rw (read, run')

-- What `Encode` writes for an item whose numbers are of 64 bits, `Decode` reads back as the same
-- item, whatever bytes follow it, and it leaves just those.
pub decode_item-encode_item :
    (i : Item) (bytes rest : Bytes)
    → IsItem i
    → encode_item i ≡ ok bytes
    → decode_item (bytes ++ rest) ≡ ok (i, rest)
unfolding encode_item
decode_item-encode_item i bytes rest small h =
    let (same, fits) = encode-print [] 0 i bytes h in rw same (decode_item-print i rest fits small)

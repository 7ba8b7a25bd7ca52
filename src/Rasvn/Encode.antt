-- ===== src/Rasvn/Encode.antt =====
-- `encode` of rasvn/marshal.go as a plain function to bytes, and its checks as a predicate.
use go_svn.Base.{
  ℕ, ◌+◌, ◌≤◌, ◌<◌, ◌≡◌, refl, ap, ◌∙◌, Bool, true, false, [], ◌∷◌, ◌++◌, Bytes, leb, ltb, length,
  arith, append_assoc, append-nil, leb-true, ltb-true,
}
use go_svn.Base.Outcome.{ok, >>=-eq-ok, ra_svn_malformed, guard}
use go_svn.Skel.{itoa}
use go_svn.Rasvn.Item.{
  Item, Items, number, word, string, list, no_items, item, max_string_length, max_nesting_depth,
  uint64_end, valid_word, encode, encode_items,
}

unfoldable mutual
  pub print : Item → Bytes
  print (number n) = itoa n ++ (32 ∷ [])
  print (word w) = w ++ (32 ∷ [])
  print (string s) = itoa (length s) ++ (58 ∷ (s ++ (32 ∷ [])))
  print (list values) = 40 ∷ (32 ∷ (print_items values ++ (41 ∷ (32 ∷ []))))

  pub print_items : Items → Bytes
  print_items no_items = []
  print_items (item value values) = print value ++ print_items values

-- What the encoder checks.
abbrev mutual
  pub Fits : (depth : ℕ) → Item → Type 0
  Fits depth (number n) = depth < max_nesting_depth
  Fits depth (word w) = (depth < max_nesting_depth) × (valid_word w ≡ true)
  Fits depth (string s) = (depth < max_nesting_depth) × (length s ≤ max_string_length)
  Fits depth (list values) = (depth < max_nesting_depth) × FitAll (depth + 1) values

  pub FitAll : (depth : ℕ) → Items → Type 0
  FitAll depth no_items = Unit
  FitAll depth (item value values) = Fits depth value × FitAll depth values

-- What the type `uint64` of the field `Number` gives.
abbrev mutual
  pub IsItem : Item → Type 0
  IsItem (number n) = n < uint64_end
  IsItem (word w) = Unit
  IsItem (string s) = Unit
  IsItem (list values) = AreItems values

  pub AreItems : Items → Type 0
  AreItems no_items = Unit
  AreItems (item value values) = IsItem value × AreItems values

below_passed : (a b : ℕ) → guard (ltb a b) ra_svn_malformed ≡ ok tt → a < b
below_passed a b h = ground arith

at_most_passed : (a b : ℕ) → guard (leb a b) ra_svn_malformed ≡ ok tt → a ≤ b
at_most_passed a b h = ground arith

test_passed : (b : Bool) → guard b ra_svn_malformed ≡ ok tt → b ≡ true
test_passed true h = refl
test_passed false h = cc

list_bytes :
    (output inner : Bytes)
    → ((output ++ (40 ∷ (32 ∷ []))) ++ inner) ++ (41 ∷ (32 ∷ []))
      ≡ output ++ (40 ∷ (32 ∷ (inner ++ (41 ∷ (32 ∷ [])))))
list_bytes output inner =
    append_assoc (output ++ (40 ∷ (32 ∷ []))) inner (41 ∷ (32 ∷ []))
    ∙ append_assoc output (40 ∷ (32 ∷ [])) (inner ++ (41 ∷ (32 ∷ [])))

mutual
  unfolding encode print

  pub encode-print :
      (output : Bytes) (depth : ℕ) (i : Item) (bytes : Bytes)
      → encode output depth i ≡ ok bytes
      → (bytes ≡ output ++ print i) × Fits depth i
  encode-print output depth (number n) bytes h =
      let (_, g, e) = >>=-eq-ok (guard (ltb depth max_nesting_depth) ra_svn_malformed) _ h in
      (cc e, below_passed depth max_nesting_depth g)
  encode-print output depth (word w) bytes h =
      let (_, g, h') = >>=-eq-ok (guard (ltb depth max_nesting_depth) ra_svn_malformed) _ h in
      let (_, v, e) = >>=-eq-ok (guard (valid_word w) ra_svn_malformed) _ h' in
      (cc e, (below_passed depth max_nesting_depth g, test_passed (valid_word w) v))
  encode-print output depth (string s) bytes h =
      let (_, g, h') = >>=-eq-ok (guard (ltb depth max_nesting_depth) ra_svn_malformed) _ h in
      let (_, v, e) = >>=-eq-ok (guard (leb (length s) max_string_length) ra_svn_malformed) _ h' in
      (
        cc e,
        (below_passed depth max_nesting_depth g, at_most_passed (length s) max_string_length v),
      )
  encode-print output depth (list values) bytes h =
      let (_, g, h') = >>=-eq-ok (guard (ltb depth max_nesting_depth) ra_svn_malformed) _ h in
      let (inner, w, e) = >>=-eq-ok (encode_items (output ++ (40 ∷ (32 ∷ []))) depth values) _ h' in
      let (eq, fit) = encode_items-print (output ++ (40 ∷ (32 ∷ []))) depth values inner w in
      (
        cc (e, ap (λ b. b ++ (41 ∷ (32 ∷ []))) eq, list_bytes output (print_items values)),
        (below_passed depth max_nesting_depth g, fit),
      )

  encode_items-print :
      (output : Bytes) (depth : ℕ) (is : Items) (bytes : Bytes)
      → encode_items output depth is ≡ ok bytes
      → (bytes ≡ output ++ print_items is) × FitAll (depth + 1) is
  encode_items-print output depth no_items bytes h = (cc (h, append-nil output), tt)
  encode_items-print output depth (item value values) bytes h =
      let (inner, w, w') = >>=-eq-ok (encode output (depth + 1) value) _ h in
      let (eq, fit) = encode-print output (depth + 1) value inner w in
      let (eq', fit') = encode_items-print inner depth values bytes w' in
      (eq' ∙ rw eq (append_assoc output (print value) (print_items values)), (fit, fit'))

mutual
  unfolding encode print

  pub encode-Fits :
      (output : Bytes) (depth : ℕ) (i : Item)
      → Fits depth i
      → encode output depth i ≡ ok (output ++ print i)
  encode-Fits output depth (number n) h = rw (ltb-true depth max_nesting_depth h)
  encode-Fits output depth (word w) (h, v) = rw (ltb-true depth max_nesting_depth h, v)
  encode-Fits output depth (string s) (h, v) =
      rw (ltb-true depth max_nesting_depth h, leb-true (length s) max_string_length v)
  encode-Fits output depth (list values) (h, fits) = rw (
    ltb-true depth max_nesting_depth h,
    encode_items-Fits (output ++ (40 ∷ (32 ∷ []))) depth values fits,
    list_bytes output (print_items values),
  )

  encode_items-Fits :
      (output : Bytes) (depth : ℕ) (is : Items)
      → FitAll (depth + 1) is
      → encode_items output depth is ≡ ok (output ++ print_items is)
  encode_items-Fits output depth no_items h = rw (append-nil output)
  encode_items-Fits output depth (item value values) (fit, fits) = rw (
    encode-Fits output (depth + 1) value fit,
    encode_items-Fits (output ++ print value) depth values fits,
    append_assoc output (print value) (print_items values),
  )

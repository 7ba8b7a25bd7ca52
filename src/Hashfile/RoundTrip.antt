-- ===== src/Hashfile/RoundTrip.antt =====
-- `Read` and `ReadIncremental` of svn/hashfile/hashfile.go behind `Write`.
use go_svn.Base.{
  ℕ, zero, suc, ◌≤◌, ◌<◌, ◌≡◌, refl, ap, ◌∙◌, Bool, true, false, ◌||◌, [], ◌∷◌, ◌++◌, append_assoc,
  Bytes, codes, equal, ltb, leb, ◌==◌, length, length-append, take-append_seam, drop-append_seam,
  leb-true, Bool-cases, inl, inr, All, arith,
}
use go_svn.Base.Outcome.{ok}
use go_svn.Skel.{is_digit, itoa}
use go_svn.Skel.Atom.{itoa_facts, length-itoa}
use go_svn.Hashfile.{
  Props, set_prop, write_record, write, read_slice, trim_cr, all_digits, parse_length,
  read_terminator, read_payload, read_header, read_record, read_loop, read, read_incremental,
  max_record_size,
}
use go_svn.Hashfile.Overlay.{IsSorted, set_all, set_all-sorted}

read_slice-append :
    (n : ℕ) (line rest : Bytes)
    → All (λ c. (c == 10) ≡ false) line
    → length line < n
    → read_slice n (line ++ (10 ∷ rest)) ≡ ok (line, rest)
unfolding read_slice
read_slice-append zero line rest h lt = absurd (omega arith)
read_slice-append (suc n) [] rest h lt = refl
read_slice-append (suc n) (c ∷ line) rest (e, h) lt =
    rw (e, read_slice-append n line rest h (omega arith))

trim_cr_none : (line : Bytes) → All (λ c. (c == 13) ≡ false) line → trim_cr line ≡ line
unfolding trim_cr
trim_cr_none [] h = refl
trim_cr_none (c ∷ []) (e, h) = rw e
trim_cr_none (c ∷ (d ∷ line)) (e, h) = ap (λ t. c ∷ t) (trim_cr_none (d ∷ line) h)

digit_facts :
    (c : ℕ)
    → is_digit c ≡ true
    → ((c == 10) ≡ false) × ((c == 13) ≡ false) × ((c == 43 || c == 45) ≡ false)
digit_facts c h = (ground arith, ground arith, ground arith)

digits-All :
    (text : Bytes)
    → All (λ c. is_digit c ≡ true) text
    → All (λ c. (c == 10) ≡ false) text
      × All (λ c. (c == 13) ≡ false) text
      × (all_digits text ≡ true)
unfolding all_digits
digits-All [] h = (tt, tt, refl)
digits-All (c ∷ text) (e, h) =
    let (newline, return, sign) = digit_facts c e in
    let (newlines, returns, digits) = digits-All text h in
    ((newline, newlines), (return, returns), rw e digits)

short_length : (n : ℕ) → n ≤ max_record_size → length (itoa n) ≤ 8
short_length n h = length-itoa 7 n (omega arith)

not_end : (kind : ℕ) (text : Bytes) → equal (kind ∷ (32 ∷ text)) (codes "END") ≡ false
unfolding equal
not_end kind text = elim (Bool-cases (kind == 69)) [ inl e ↦ rw e refl | inr e ↦ rw e refl ]

read_terminator_lem : (rest : Bytes) → read_terminator (10 ∷ rest) ≡ ok rest
unfolding read_terminator
read_terminator_lem [] = refl
read_terminator_lem (d ∷ rest) = refl

module _ (value rest : Bytes) (small : length value ≤ max_record_size) where
  read_payload_lem :
      (kind : ℕ)
      → (kind == 75 || kind == 86 || kind == 68) ≡ true
      → read_payload kind (itoa (length value)) (value ++ (10 ∷ rest))
        ≡ ok (record { kind = kind; payload = value; rest = rest })
  unfolding read_payload parse_length
  read_payload_lem kind known =
      let (d, ds, same, digits, back) = itoa_facts (length value) in
      let (newline, return, sign) = digit_facts d digits.0 in
      let (newlines, returns, all) = digits-All (d ∷ ds) digits in
      let fits : leb (length value) (length (value ++ (10 ∷ rest))) ≡ true =
        leb-true _ _ (omega (arith, length-append value (10 ∷ rest))) in
      rw
        (
          known,
          same,
          sign,
          all,
          back,
          leb-true (length value) max_record_size small,
          fits,
          drop-append_seam value (10 ∷ rest),
          take-append_seam value (10 ∷ rest),
          read_terminator_lem rest,
        )
        refl

  -- A record is read back with its kind, and what follows it is left.
  read_record-write_record :
      (kind : ℕ)
      → (kind == 75 || kind == 86 || kind == 68) ≡ true
      → read_record (write_record kind value ++ rest)
        ≡ ok (record { kind = kind; payload = value; rest = rest })
  unfolding read_record write_record read_header
  read_record-write_record kind known =
      let (d, ds, same, digits, back) = itoa_facts (length value) in
      let (newlines, returns, all) = digits-All (d ∷ ds) digits in
      let line : Bytes = kind ∷ (32 ∷ (d ∷ ds)) in
      let short : length line < 128 =
        omega (arith, ap length same, short_length (length value) small) in
      let not_newline : (kind == 10) ≡ false = ground arith in
      let not_return : (kind == 13) ≡ false = ground arith in
      let shape : (kind ∷ (32 ∷ itoa (length value))) ++ (10 ∷ (value ++ (10 ∷ []))) ++ rest
          ≡ line ++ (10 ∷ (value ++ (10 ∷ rest))) =
        rw same (
          ap (λ t. kind ∷ (32 ∷ t))
            (append_assoc (d ∷ ds) (10 ∷ (value ++ (10 ∷ []))) rest
              ∙ ap (λ t. (d ∷ ds) ++ (10 ∷ t)) (append_assoc value (10 ∷ []) rest))) in
      rw
        (
          shape,
          read_slice-append 128 line (value ++ (10 ∷ rest)) (not_newline, (refl, newlines)) short,
          trim_cr_none line (not_return, (refl, returns)),
          not_end kind (d ∷ ds),
        )
        (rw same at (read_payload_lem kind known))

read_record_end :
    (rest : Bytes)
    → read_record (codes "END\n" ++ rest) ≡ ok (record { kind = 69; payload = []; rest = rest })
unfolding read_record read_slice trim_cr read_header equal
read_record_end rest = refl

-- Keys and values within the limit.
abbrev pub IsSmall : Props → Type 0
IsSmall props = All (λ e. (length e.0 ≤ max_record_size) × (length e.1 ≤ max_record_size)) props

abbrev written : Props → Bytes
written [] = codes "END\n"
written ((key, value) ∷ props) = write_record 75 key ++ (write_record 86 value ++ written props)

write-written : (props : Props) → IsSmall props → write props ≡ ok (written props)
unfolding write
write-written [] h = refl
write-written ((key, value) ∷ props) ((k, v), h) =
    let small : (ltb max_record_size (length key) || ltb max_record_size (length value)) ≡ false =
      ground arith in
    rw (small, write-written props h) refl

length-write_record : (kind : ℕ) (value : Bytes) → 0 < length (write_record kind value)
unfolding write_record
length-write_record kind value = omega arith

length-written : (props : Props) → length props < length (written props)
length-written [] = omega arith
length-written ((key, value) ∷ props) = omega (
  arith,
  length-append (write_record 75 key) (write_record 86 value ++ written props),
  length-append (write_record 86 value) (written props),
  length-write_record 75 key,
  length-written props,
)

read_loop-written :
    (fuel : ℕ) (incremental : Bool) (base props : Props) (rest : Bytes)
    → length props < fuel
    → IsSmall props
    → read_loop fuel incremental base (written props ++ rest) ≡ ok (set_all base props)
unfolding read_loop
read_loop-written zero incremental base props rest f h = absurd (omega arith)
read_loop-written (suc fuel) incremental base [] rest f h = rw (read_record_end rest) refl
read_loop-written (suc fuel) incremental base ((key, value) ∷ props) rest f ((k, v), h) =
    let behind = write_record 86 value ++ (written props ++ rest) in
    let shape : (write_record 75 key ++ (write_record 86 value ++ written props)) ++ rest
        ≡ write_record 75 key ++ behind =
      append_assoc (write_record 75 key) (write_record 86 value ++ written props) rest
      ∙ ap (λ t. write_record 75 key ++ t)
          (append_assoc (write_record 86 value) (written props) rest) in
    rw
      (
        shape,
        read_record-write_record key behind k 75 refl,
        read_record-write_record value (written props ++ rest) v 86 refl,
      )
      (read_loop-written fuel incremental (set_prop key value base) props rest (omega arith) h)

-- `Write` of properties in the order of their keys, with keys and values within the limit, succeeds.
-- Whatever follows what it wrote, `Read` gives the same properties back, and `ReadIncremental` puts
-- them into the base.
pub read-write :
    (base props : Props) (rest : Bytes)
    → IsSorted props
    → IsSmall props
    → (out : Bytes) × (write props ≡ ok out)
      × (read (out ++ rest) ≡ ok props)
      × (read_incremental base (out ++ rest) ≡ ok (set_all base props))
unfolding read read_incremental
read-write base props rest sorted small =
    let enough : length props < suc (length (written props ++ rest)) =
      omega (arith, length-append (written props) rest, length-written props) in
    (
      written props,
      write-written props small,
      read_loop-written _ false [] props rest enough small ∙ ap ok (set_all-sorted props sorted),
      read_loop-written _ true base props rest enough small,
    )

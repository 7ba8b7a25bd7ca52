-- ===== src/Skel/Atom.antt =====
-- Atoms of svn/skel/skel.go in both forms: what the parser makes of their bytes.
use go_svn.Mergeinfo.Value.{value}
use go_svn.Base.{
  ℕ, zero, suc, ◌+◌, ◌-◌, ◌*◌, ◌/◌, ◌%◌, ◌≤◌, ◌<◌, ◌≡◌, refl, sym, ap, ◌∙◌, true, false, ◌||◌, [],
  ◌∷◌, ◌++◌, Bytes, ltb, ◌==◌, length, arith, append_assoc, Bool-cases, inl, inr, All, leb-true,
  ltb-true, take-append_seam, drop-append_seam, length-append,
}
use go_svn.Base.Outcome.{ok, slice_lem}
use go_svn.Skel.Encode.{encode_atom}
use go_svn.Skel.{
  atom, max_depth, max_size, is_name, is_space, is_paren, is_digit, all_plain, use_implicit, itoa,
  itoa_loop, take_name, take_digits, parse_uint, explicit_atom, parse_explicit, parse_implicit,
  parse_node,
}

-- What may follow an implicit atom.
abbrev pub Delimited : Bytes → Type 0
Delimited [] = Unit
Delimited (current ∷ rest) = (is_space current || is_paren current) ≡ true

take_name-append :
    (name rest : Bytes)
    → all_plain name ≡ true
    → Delimited rest
    → take_name (name ++ rest) ≡ (name, rest)
unfolding take_name all_plain
take_name-append [] [] p d = refl
take_name-append [] (c ∷ rest) p d = rw d
take_name-append (c ∷ name) rest p d = elim (Bool-cases (is_space c || is_paren c)) [
  | inl e ↦ cc (rw e at p)
  | inr e ↦ rw (e, take_name-append name rest (rw e at p) d)
]

take_digits-append :
    (digits rest : Bytes)
    → All (λ d. is_digit d ≡ true) digits
    → take_digits (digits ++ (32 ∷ rest)) ≡ (digits, 32 ∷ rest)
unfolding take_digits
take_digits-append [] rest h = refl
take_digits-append (d ∷ digits) rest (e, h) = rw (e, take_digits-append digits rest h)

digit_of : (n : ℕ) → n < 10 → is_digit (48 + n) ≡ true
digit_of n h = ground arith

itoa_loop-digits :
    (fuel n : ℕ) (digits : Bytes)
    → n ≤ fuel
    → All (λ d. is_digit d ≡ true) digits
    → All (λ d. is_digit d ≡ true) (itoa_loop fuel n digits)
unfolding itoa_loop
itoa_loop-digits zero n digits h a = (digit_of n (omega arith), a)
itoa_loop-digits (suc fuel) n digits h a = elim (Bool-cases (ltb n 10)) [
  | inl e ↦ rw e (digit_of n (ground arith), a)
  | inr e ↦
      let big : 10 ≤ n = ground arith in
      rw e (itoa_loop-digits fuel (n / 10) _ (omega arith) (digit_of (n % 10) (omega arith), a))
]

parse_uint-itoa_loop :
    (fuel n : ℕ) (digits : Bytes)
    → n ≤ fuel
    → parse_uint 0 (itoa_loop fuel n digits) ≡ parse_uint n digits
unfolding itoa_loop parse_uint
parse_uint-itoa_loop zero n digits h =
    let same : 0 * 10 + (48 + n - 48) ≡ n = omega arith in ap (λ (v : ℕ). parse_uint v digits) same
parse_uint-itoa_loop (suc fuel) n digits h = elim (Bool-cases (ltb n 10)) [
  | inl e ↦
      let same : 0 * 10 + (48 + n - 48) ≡ n = omega arith in
      rw e (ap (λ (v : ℕ). parse_uint v digits) same)
  | inr e ↦
      let big : 10 ≤ n = ground arith in
      let same : n / 10 * 10 + (48 + n % 10 - 48) ≡ n = omega arith in
      rw e (
        parse_uint-itoa_loop fuel (n / 10) ((48 + n % 10) ∷ digits) (omega arith)
        ∙ ap (λ (v : ℕ). parse_uint v digits) same)
]

itoa_loop-cons :
    (fuel n : ℕ) (digits : Bytes) → (d : ℕ) × (ds : Bytes) × (itoa_loop fuel n digits ≡ d ∷ ds)
unfolding itoa_loop
itoa_loop-cons zero n digits = (_, _, refl)
itoa_loop-cons (suc fuel) n digits = elim (Bool-cases (ltb n 10)) [
  | inl e ↦ (48 + n, digits, rw e)
  | inr e ↦ rw e (itoa_loop-cons fuel (n / 10) _)
]

-- A length as digits: not empty, digits only, and read back as the same number.
pub itoa_facts :
    (n : ℕ)
    → (d : ℕ) × (ds : Bytes) × (itoa n ≡ d ∷ ds)
      × All (λ c. is_digit c ≡ true) (d ∷ ds)
      × (parse_uint 0 (d ∷ ds) ≡ n)
unfolding itoa parse_uint
itoa_facts n =
    let (d, ds, e) = itoa_loop-cons n n [] in
    (
      d,
      ds,
      e,
      rw e at (itoa_loop-digits n n [] (omega arith) tt),
      ap (parse_uint 0) (sym e) ∙ parse_uint-itoa_loop n n [] (omega arith),
    )

-- A power of ten, `10 ^ (k + 1)`.
abbrev pub tens : ℕ → ℕ
tens zero = 10
tens (suc k) = tens k * 10

length-itoa_loop :
    (k fuel n : ℕ) (digits : Bytes)
    → n < tens k
    → length (itoa_loop fuel n digits) ≤ k + 1 + length digits
unfolding itoa_loop
length-itoa_loop k zero n digits h = omega arith
length-itoa_loop zero (suc fuel) n digits h =
    let small : ltb n 10 ≡ true = ltb-true n 10 h in rw small (omega arith)
length-itoa_loop (suc k) (suc fuel) n digits h = elim (Bool-cases (ltb n 10)) [
  | inl e ↦ rw e (omega arith)
  | inr e ↦
      rw e (omega (arith, length-itoa_loop k fuel (n / 10) ((48 + n % 10) ∷ digits) (omega arith)))
]

-- A number below `10 ^ (k + 1)` has at most `k + 1` digits.
pub length-itoa : (k n : ℕ) → n < tens k → length (itoa n) ≤ k + 1
unfolding itoa
length-itoa k n h = omega (arith, length-itoa_loop k n n [] h)

explicit_atom-append :
    (d : ℕ) (ds value rest : Bytes)
    → parse_uint 0 (d ∷ ds) ≡ length value
    → length value ≤ max_size
    → explicit_atom (d ∷ ds) (32 ∷ (value ++ rest)) ≡ ok (atom value, rest)
unfolding explicit_atom
explicit_atom-append d ds value rest e h =
    let fits : length value ≤ length (value ++ rest) = omega (arith, length-append value rest) in
    let all_of : length value - 0 ≡ length value = omega arith in
    rw (
      e,
      leb-true (length value) max_size h,
      leb-true (length value) (length (value ++ rest)) fits,
      slice_lem (value ++ rest) 0 (length value) (omega arith) fits,
      all_of,
      take-append_seam value rest,
      drop-append_seam value rest,
    )

explicit_name : (d : ℕ) → is_digit d ≡ true → ((d == 40) ≡ false) × (is_name d ≡ false)
explicit_name d h = (ground arith, ground arith)

implicit_name : (c : ℕ) → is_name c ≡ true → (c == 40) ≡ false
implicit_name c h = ground arith

pub use_implicit_facts :
    (value : Bytes)
    → use_implicit value ≡ true
    → (c : ℕ) × (cs : Bytes) × (value ≡ c ∷ cs) × (is_name c ≡ true) × (all_plain cs ≡ true)
unfolding use_implicit
use_implicit_facts [] h = cc
use_implicit_facts (c ∷ cs) h = (c, cs, refl, ground arith, ground arith)

parse_node-implicit :
    (fuel depth c : ℕ) (name rest : Bytes)
    → depth ≤ max_depth
    → is_name c ≡ true
    → all_plain name ≡ true
    → Delimited rest
    → parse_node (suc fuel) depth (c ∷ (name ++ rest)) ≡ ok (atom (c ∷ name), rest)
unfolding parse_node parse_implicit
parse_node-implicit fuel depth c name rest h n p d =
    rw (leb-true depth max_depth h, implicit_name c n, n, take_name-append name rest p d)

parse_node-explicit :
    (fuel depth : ℕ) (value rest : Bytes)
    → depth ≤ max_depth
    → length value ≤ max_size
    → parse_node (suc fuel) depth ((itoa (length value) ++ (32 ∷ value)) ++ rest)
      ≡ ok (atom value, rest)
unfolding parse_node parse_explicit
parse_node-explicit fuel depth value rest h size =
    let (d, ds, e, (digit, digits), back) = itoa_facts (length value) in
    let (p, q) = explicit_name d digit in
    rw
      (
        e,
        append_assoc ds (32 ∷ value) rest,
        leb-true depth max_depth h,
        p,
        q,
        take_digits-append (d ∷ ds) (value ++ rest) (digit, digits),
      )
      (explicit_atom-append d ds value rest back size)

-- In either form the parser reads an atom back, if what follows delimits it.
pub parse_node-encode_atom :
    (fuel depth : ℕ) (value rest : Bytes)
    → depth ≤ max_depth
    → length value ≤ max_size
    → Delimited rest
    → parse_node (suc fuel) depth (encode_atom value ++ rest) ≡ ok (atom value, rest)
unfolding encode_atom
parse_node-encode_atom fuel depth value rest h size d = elim (Bool-cases (use_implicit value)) [
  | inl e ↦
      let (c, cs, eq, n, p) = use_implicit_facts value e in
      rw e (rw eq (parse_node-implicit fuel depth c cs rest h n p d))
  | inr e ↦ rw e (parse_node-explicit fuel depth value rest h size)
]

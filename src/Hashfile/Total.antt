-- ===== src/Hashfile/Total.antt =====
-- `Read` and `ReadIncremental` of svn/hashfile/hashfile.go on any bytes.
use go_svn.Base.{
  ℕ, zero, suc, ◌≤◌, ◌<◌, Bool, true, false, not, ◌||◌, [], ◌∷◌, Bytes, codes, equal, leb, ◌==◌,
  if◌then◌else◌, length, drop, length-drop, arith,
}
use go_svn.Base.Outcome.{
  Error, Outcome, ok, err, malformed_file, incomplete_data, ◌>>=◌, ◌>>◌, guard,
}
use go_svn.Skel.{parse_uint}
use go_svn.Hashfile.{
  Props, Record, set_prop, delete_prop, read_slice, trim_cr, all_digits, parse_length,
  read_terminator, read_payload, read_header, read_record, read_loop, read, read_incremental,
  max_record_size,
}

-- The errors of a hash file.
abbrev pub IsHashError : Error → Type 0
IsHashError malformed_file = Unit
IsHashError incomplete_data = Unit
IsHashError _ = ⊥

-- A value with a property, or an error of a hash file.
pub data Answers {ℓ} {A : Type ℓ} (P : A → Type 0) : Outcome A → Type ℓ where
  returns : {a : A} → P a → Answers P (ok a)
  fails : {e : Error} → IsHashError e → Answers P (err e)

Answers-bind {ℓ κ} :
    {A : Type ℓ} {B : Type κ} {P : A → Type 0} {Q : B → Type 0} {m : Outcome A} {f : A → Outcome B}
    → Answers P m
    → ((a : A) → P a → Answers Q (f a))
    → Answers Q (m >>= f)
Answers-bind (returns h) k = k _ h
Answers-bind (fails h) k = fails h

Answers-guard {κ} :
    {B : Type κ} {Q : B → Type 0} (b : Bool) (e : Error) {n : Outcome B}
    → IsHashError e
    → Answers Q n
    → Answers Q (guard b e >> n)
Answers-guard true e i h = h
Answers-guard false e i h = fails i

Answers-if {κ} :
    {B : Type κ} {Q : B → Type 0} (b : Bool) {m n : Outcome B}
    → Answers Q m
    → Answers Q n
    → Answers Q (if b then m else n)
Answers-if true h k = h
Answers-if false h k = k

-- What is left is shorter than the input.
abbrev Shorter : ℕ → Bytes × Bytes → Type 0
Shorter n split = length split.1 < n

read_slice-Answers : (n : ℕ) (input : Bytes) → Answers (Shorter (length input)) (read_slice n input)
unfolding read_slice
read_slice-Answers zero input = fails tt
read_slice-Answers (suc n) [] = fails tt
read_slice-Answers (suc n) (c ∷ input) =
    Answers-if (c == 10) (returns (omega arith))
      (Answers-bind (read_slice-Answers n input) (λ p h. returns (omega arith)))

abbrev Within : ℕ → Bytes → Type 0
Within n rest = length rest ≤ n

read_terminator-Answers : (input : Bytes) → Answers (Within (length input)) (read_terminator input)
unfolding read_terminator
read_terminator-Answers [] = fails tt
read_terminator-Answers (c ∷ []) =
    Answers-if (c == 13) (fails tt) (Answers-if (c == 10) (returns (omega arith)) (fails tt))
read_terminator-Answers (c ∷ (d ∷ input)) =
    Answers-if (c == 13) (Answers-if (d == 10) (returns (omega arith)) (fails tt))
      (Answers-if (c == 10) (returns (omega arith)) (fails tt))

parse_length-Answers : (text : Bytes) → Answers (λ (n : ℕ). Unit) (parse_length text)
unfolding parse_length
parse_length-Answers [] = fails tt
parse_length-Answers (c ∷ text) = Answers-guard (not (c == 43 || c == 45)) malformed_file tt (
    Answers-guard (all_digits (c ∷ text)) malformed_file tt (
      Answers-guard (leb (parse_uint 0 (c ∷ text)) max_record_size) malformed_file tt (returns tt)))

abbrev Leaves : ℕ → Record → Type 0
Leaves n r = length r.rest ≤ n

read_payload-Answers :
    (kind : ℕ) (text input : Bytes) → Answers (Leaves (length input)) (read_payload kind text input)
unfolding read_payload
read_payload-Answers kind text input =
    Answers-guard (kind == 75 || kind == 86 || kind == 68) malformed_file tt (
      Answers-bind (parse_length-Answers text) (λ size _.
        Answers-guard (leb size (length input)) incomplete_data tt (
          Answers-bind (read_terminator-Answers (drop size input))
            (λ rest h. returns (omega (arith, length-drop size input))))))

read_header-Answers :
    (header input : Bytes) → Answers (Leaves (length input)) (read_header header input)
unfolding read_header
read_header-Answers [] input = fails tt
read_header-Answers (k ∷ []) input = fails tt
read_header-Answers (k ∷ (s ∷ [])) input = fails tt
read_header-Answers (k ∷ (s ∷ (c ∷ text))) input =
    Answers-if (equal (k ∷ (s ∷ (c ∷ text))) (codes "END")) (returns (omega arith))
      (Answers-guard (s == 32) malformed_file tt (read_payload-Answers k (c ∷ text) input))

abbrev Further : ℕ → Record → Type 0
Further n r = length r.rest < n

Leaves-Further :
    {m : Outcome Record} (n k : ℕ) → k < n → Answers (Leaves k) m → Answers (Further n) m
Leaves-Further n k lt (returns h) = returns (omega arith)
Leaves-Further n k lt (fails h) = fails h

read_record-Answers : (input : Bytes) → Answers (Further (length input)) (read_record input)
unfolding read_record
read_record-Answers input =
    Answers-bind (read_slice-Answers 128 input)
      (λ p h. Leaves-Further (length input) (length p.1) h (read_header-Answers (trim_cr p.0) p.1))

abbrev Any : Props → Type 0
Any props = Unit

read_loop-Answers :
    (fuel : ℕ) (incremental : Bool) (props : Props) (input : Bytes)
    → length input < fuel
    → Answers Any (read_loop fuel incremental props input)
unfolding read_loop
read_loop-Answers zero incremental props input f = absurd (omega arith)
read_loop-Answers (suc fuel) incremental props input f =
    Answers-bind (read_record-Answers input) (λ r h. Answers-if (r.kind == 69) (returns tt) (
      Answers-if (r.kind == 68)
        (Answers-guard incremental malformed_file tt
          (read_loop-Answers fuel incremental (delete_prop r.payload props) r.rest (omega arith)))
        (Answers-if (r.kind == 75)
          (Answers-bind (read_record-Answers r.rest) (λ v h'.
            Answers-guard (v.kind == 86) malformed_file tt (
              read_loop-Answers fuel incremental (set_prop r.payload v.payload props) v.rest
                (omega arith))))
          (fails tt))))

-- On any bytes and any base, `Read` and `ReadIncremental` end: they return properties, or their error
-- says that the file is malformed or incomplete.
pub read-Answers :
    (base : Props) (input : Bytes)
    → Answers (λ (props : Props). Unit) (read input)
      × Answers (λ (props : Props). Unit) (read_incremental base input)
unfolding read read_incremental
read-Answers base input = (
  read_loop-Answers (suc (length input)) false [] input (omega arith),
  read_loop-Answers (suc (length input)) true base input (omega arith),
)

-- ===== src/Skel/Total.antt =====
-- `Parse` of svn/skel/skel.go on any bytes, well formed or not.
use go_svn.Base.{
  ℕ, zero, suc, ◌+◌, ◌*◌, ◌≤◌, ◌<◌, ◌≡◌, Bool, true, false, [], ◌∷◌, Bytes, ◌==◌, leb, ◌||◌,
  if◌then◌else◌, length, length-drop, arith, Bool-cases, inl, inr,
}
use go_svn.Base.Outcome.{
  Outcome, ok, err, guard, slice_lem, fs_malformed_skel, FailsWith, fails, returns, ◌>>=◌, ◌>>◌,
  fails_rules,
}
use go_svn.Skel.{
  no_nodes, Node, Nodes, max_size, max_depth, is_space, is_name, is_digit, is_paren, skip_space,
  take_name, take_digits, parse_uint, explicit_atom, parse_explicit, parse_implicit, append_node,
  parse_node, parse_list, parse,
}

-- The call reads a node and leaves fewer bytes than there were, or it fails with
-- `ErrFSMalformedSkel`.
data Reads (bytes : ℕ) : Outcome (Node × Bytes) → Type 0 where
  reads : (n : Node) (rest : Bytes) → length rest < bytes → Reads bytes (ok (n, rest))
  malformed : Reads bytes (err fs_malformed_skel)

guard-Reads :
    (bytes : ℕ) (b : Bool) (m : Outcome (Node × Bytes))
    → Reads bytes m
    → Reads bytes (guard b fs_malformed_skel >> m)
guard-Reads bytes true m h = h
guard-Reads bytes false m h = malformed

if-Reads :
    (bytes : ℕ) (b : Bool) (m n : Outcome (Node × Bytes))
    → Reads bytes m
    → Reads bytes n
    → Reads bytes (if b then m else n)
if-Reads bytes true m n p q = p
if-Reads bytes false m n p q = q

length-skip_space : (input : Bytes) → length (skip_space input) ≤ length input
unfolding skip_space
length-skip_space [] = omega arith
length-skip_space (c ∷ input) = elim (Bool-cases (is_space c)) [
  | inl e ↦ rw e (omega (arith, length-skip_space input))
  | inr e ↦ rw e (omega arith)
]

length-take_name : (input : Bytes) → length (take_name input).1 ≤ length input
unfolding take_name
length-take_name [] = omega arith
length-take_name (c ∷ input) = elim (Bool-cases (is_space c || is_paren c)) [
  | inl e ↦ rw e (omega arith)
  | inr e ↦ rw e (omega (arith, length-take_name input))
]

length-take_digits :
    (input : Bytes) → length (take_digits input).0 + length (take_digits input).1 ≡ length input
unfolding take_digits
length-take_digits [] = omega arith
length-take_digits (c ∷ input) = elim (Bool-cases (is_digit c)) [
  | inl e ↦ rw e (omega (arith, length-take_digits input))
  | inr e ↦ rw e (omega arith)
]

explicit_atom-Reads :
    (digits input : Bytes) → Reads (length digits + length input) (explicit_atom digits input)
unfolding explicit_atom
explicit_atom-Reads [] input = malformed
explicit_atom-Reads (d ∷ digits) [] = malformed
explicit_atom-Reads (d ∷ digits) (c ∷ input) = guard-Reads _ (is_space c) _ (
    guard-Reads _ (leb (parse_uint 0 (d ∷ digits)) max_size) _
      (elim (Bool-cases (leb (parse_uint 0 (d ∷ digits)) (length input))) [
        | inl e ↦
            let fits : parse_uint 0 (d ∷ digits) ≤ length input = ground arith in
            rw (e, slice_lem input 0 (parse_uint 0 (d ∷ digits)) (omega arith) fits)
              (reads _ _ (omega (arith, length-drop (parse_uint 0 (d ∷ digits)) input)))
        | inr e ↦ rw e malformed
      ]))

parse_explicit-Reads : (input : Bytes) → Reads (length input) (parse_explicit input)
unfolding parse_explicit
parse_explicit-Reads input =
    rw (← length-take_digits input)
      (explicit_atom-Reads (take_digits input).0 (take_digits input).1)

-- The loop goes on behind a child that was read.
>>=-Reads :
    (bytes more : ℕ) (m : Outcome (Node × Bytes)) (f : Node × Bytes → Outcome (Node × Bytes))
    → Reads bytes m
    → ((n : Node) (rest : Bytes) → length rest < bytes → Reads more (f (n, rest)))
    → Reads more (m >>= f)
>>=-Reads bytes more _ f (reads n rest h) q = q n rest h
>>=-Reads bytes more _ f malformed q = malformed

Reads-more : (few many : ℕ) (m : Outcome (Node × Bytes)) → few ≤ many → Reads few m → Reads many m
Reads-more few many _ h (reads n rest lt) = reads n rest (omega arith)
Reads-more few many _ h malformed = malformed

mutual
  unfolding parse_node parse_implicit

  parse_node-Reads :
      (fuel depth : ℕ) (input : Bytes)
      → length input * 2 + 1 ≤ fuel
      → Reads (length input) (parse_node fuel depth input)
  parse_node-Reads zero depth input h = absurd (omega arith)
  parse_node-Reads (suc fuel) depth [] h = guard-Reads _ (leb depth max_depth) _ malformed
  parse_node-Reads (suc fuel) depth (c ∷ input) h =
      let inner = length-skip_space input in
      guard-Reads _ (leb depth max_depth) _ (
        if-Reads _ (c == 40) _ _
          (Reads-more _ _ _ (omega arith)
            (parse_list-Reads fuel depth (skip_space input) no_nodes (omega arith)))
          (if-Reads _ (is_name c) _ _ (reads _ _ (omega (arith, length-take_name input)))
            (parse_explicit-Reads (c ∷ input))))

  parse_list-Reads :
      (fuel depth : ℕ) (input : Bytes) (children : Nodes)
      → length input * 2 + 2 ≤ fuel
      → Reads (length input) (parse_list fuel depth input children)
  parse_list-Reads zero depth input children h = absurd (omega arith)
  parse_list-Reads (suc fuel) depth [] children h = malformed
  parse_list-Reads (suc fuel) depth (c ∷ input) children h =
      if-Reads _ (c == 41) _ _ (reads _ _ (omega arith)) (
        >>=-Reads (length (c ∷ input)) _ (parse_node fuel (depth + 1) (c ∷ input)) _
          (parse_node-Reads fuel (depth + 1) (c ∷ input) (omega arith))
          (λ n rest lt.
            let left = length-skip_space rest in
            Reads-more _ _ _ (omega arith) (
              parse_list-Reads fuel depth (skip_space rest) (append_node children n)
                (omega arith))))

Reads-FailsWith :
    (bytes : ℕ) (m : Outcome (Node × Bytes)) → Reads bytes m → FailsWith fs_malformed_skel m
Reads-FailsWith bytes _ (reads n rest h) = returns (n, rest)
Reads-FailsWith bytes _ malformed = fails

-- On any bytes `Parse` ends without a panic: it returns a node, or its error is
-- `ErrFSMalformedSkel`.
pub parse-FailsWith : (input : Bytes) → FailsWith fs_malformed_skel (parse input)
unfolding parse
parse-FailsWith input = search (
  fails_rules,
  Reads-FailsWith (length input) (parse_node (suc (length input * 2)) 0 input)
      (parse_node-Reads (suc (length input * 2)) 0 input (omega arith)),
)

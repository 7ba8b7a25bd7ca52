-- ===== src/Skel.antt =====
-- svn/skel/skel.go: skeletons, the nested lists of byte strings of the repository format. A `*Node` is
-- nil, an atom of `NewAtom` or a list of `NewList`. The parser's position is the list of bytes left.
pub mod Encode
pub mod Atom
pub mod RoundTrip
pub mod Total
pub mod Proplist
use go_svn.Mergeinfo.Value.{value}
use go_svn.Base.{
  ℕ, zero, suc, ◌+◌, ◌-◌, ◌*◌, ◌/◌, ◌%◌, Bool, true, false, not, ◌&&◌, ◌||◌, List, [], ◌∷◌, ◌++◌,
  Bytes, leb, ltb, ◌==◌, if◌then◌else◌, length, drop,
}
use go_svn.Base.Outcome.{
  Outcome, ok, err, out_of_fuel, fs_malformed_skel, ◌>>=◌, ◌>>◌, guard, slice,
}

mutual
  pub data Node : Type 0 where
    null : Node
    atom : Bytes → Node
    list : Nodes → Node

  pub data Nodes : Type 0 where
    no_nodes : Nodes
    node : Node → Nodes → Nodes

abbrev pub max_size : ℕ
max_size = 67108864

abbrev pub max_depth : ℕ
max_depth = 64

abbrev pub is_name : ℕ → Bool
is_name value = leb 65 value && leb value 90 || leb 97 value && leb value 122

abbrev pub is_space : ℕ → Bool
is_space value = value == 9 || value == 10 || value == 12 || value == 13 || value == 32

abbrev pub is_paren : ℕ → Bool
is_paren value = value == 40 || value == 41 || value == 91 || value == 93

abbrev pub is_digit : ℕ → Bool
is_digit value = leb 48 value && leb value 57

-- The loop of `useImplicit` over the bytes behind the first one.
unfoldable pub all_plain : Bytes → Bool
all_plain [] = true
all_plain (current ∷ rest) =
    let plain = all_plain rest in if is_space current || is_paren current then false else plain

unfoldable pub use_implicit : Bytes → Bool
use_implicit [] = false
use_implicit (first ∷ rest) =
    if leb 100 (length (first ∷ rest)) || not (is_name first) then false else all_plain rest

-- `strconv.Itoa` of a length: the digits before those that are there. The number itself is fuel
-- enough, since a round divides it by ten.
unfoldable pub itoa_loop : (fuel n : ℕ) → Bytes → Bytes
itoa_loop zero n digits = (48 + n) ∷ digits
itoa_loop (suc fuel) n digits =
    let more = itoa_loop fuel (n / 10) ((48 + n % 10) ∷ digits) in
    if ltb n 10 then (48 + n) ∷ digits else more

unfoldable pub itoa : ℕ → Bytes
itoa n = itoa_loop n n []

unfoldable mutual
  -- `write` of a node, behind what the buffer holds.
  pub write_node : (output : Bytes) (depth : ℕ) → Node → Outcome Bytes
  write_node output depth null = err fs_malformed_skel
  write_node output depth (atom value) = do
    guard (leb depth max_depth) fs_malformed_skel
    ok (
        if use_implicit value
        then output ++ value
        else ((output ++ itoa (length value)) ++ (32 ∷ [])) ++ value)
  write_node output depth (list children) = do
    guard (leb depth max_depth) fs_malformed_skel
    output' ← write_children (output ++ (40 ∷ [])) (depth + 1) true children
    ok (output' ++ (41 ∷ []))

  -- Its loop over the children.
  pub write_children : (output : Bytes) (depth : ℕ) (first : Bool) → Nodes → Outcome Bytes
  write_children output depth first no_nodes = ok output
  write_children output depth first (node child children) = do
    output' ← write_node (if first then output else output ++ (32 ∷ [])) depth child
    write_children output' depth false children

unfoldable pub marshal_binary : Node → Outcome Bytes
marshal_binary n = do
  output ← write_node [] 0 n
  guard (leb (length output) max_size) fs_malformed_skel
  ok output

unfoldable pub skip_space : Bytes → Bytes
skip_space [] = []
skip_space (current ∷ input) =
    let rest = skip_space input in if is_space current then rest else current ∷ input

-- The loop of `parseImplicit`: the bytes up to a space or a bracket, and what is left.
unfoldable pub take_name : Bytes → Bytes × Bytes
take_name [] = ([], [])
take_name (current ∷ input) =
    let (name, rest) = take_name input in
    if is_space current || is_paren current then ([], current ∷ input) else (current ∷ name, rest)

-- The loop of `parseExplicit` over the digits.
unfoldable pub take_digits : Bytes → Bytes × Bytes
take_digits [] = ([], [])
take_digits (current ∷ input) =
    let (digits, rest) = take_digits input in
    if is_digit current then (current ∷ digits, rest) else ([], current ∷ input)

-- `strconv.ParseUint` on digits. A number that is too large for it is above `maxSize` too, so both
-- end in the same error.
unfoldable pub parse_uint : ℕ → Bytes → ℕ
parse_uint value [] = value
parse_uint value (digit ∷ digits) = parse_uint (value * 10 + (digit - 48)) digits

-- The rest of `parseExplicit`, with the digits and what follows them.
unfoldable pub explicit_atom : (digits input : Bytes) → Outcome (Node × Bytes)
explicit_atom [] input = err fs_malformed_skel
explicit_atom (digit ∷ digits) [] = err fs_malformed_skel
explicit_atom (digit ∷ digits) (separator ∷ input) = do
  guard (is_space separator) fs_malformed_skel
  let size = parse_uint 0 (digit ∷ digits)
  guard (leb size max_size) fs_malformed_skel
  guard (leb size (length input)) fs_malformed_skel
  value ← slice input 0 size
  ok (atom value, drop size input)

unfoldable pub parse_explicit : Bytes → Outcome (Node × Bytes)
parse_explicit input = let (digits, rest) = take_digits input in explicit_atom digits rest

unfoldable pub parse_implicit : (first : ℕ) → Bytes → Node × Bytes
parse_implicit first input = let (name, rest) = take_name input in (atom (first ∷ name), rest)

-- `append(children, child)`
unfoldable pub append_node : Nodes → Node → Nodes
append_node no_nodes child = node child no_nodes
append_node (node first rest) child = node first (append_node rest child)

-- `parse` and the loop of `parseList`: what they read and the bytes left. What a call leaves is no
-- structural part of the input, so that each call costs a unit of fuel.
unfoldable mutual
  pub parse_node : (fuel depth : ℕ) → Bytes → Outcome (Node × Bytes)
  parse_node zero depth input = out_of_fuel
  parse_node (suc fuel) depth [] = do
    guard (leb depth max_depth) fs_malformed_skel
    err fs_malformed_skel
  parse_node (suc fuel) depth (current ∷ input) =
      let nested = parse_list fuel depth (skip_space input) no_nodes in
      do
        guard (leb depth max_depth) fs_malformed_skel
        (if current == 40
            then nested
            else if is_name current
            then ok (parse_implicit current input)
            else parse_explicit (current ∷ input))

  pub parse_list : (fuel depth : ℕ) → Bytes → Nodes → Outcome (Node × Bytes)
  parse_list zero depth input children = out_of_fuel
  parse_list (suc fuel) depth [] children = err fs_malformed_skel
  parse_list (suc fuel) depth (current ∷ input) children =
      let child = (do
        (child, rest) ← parse_node fuel (depth + 1) (current ∷ input)
        parse_list fuel depth (skip_space rest) (append_node children child)) in
      if current == 41 then ok (list children, input) else child

-- Two units of fuel for each byte are enough: one for the loop of a list, and one for a node in it.
unfoldable pub parse : Bytes → Outcome Node
parse input = do
  guard (not (length input == 0 || ltb max_size (length input))) fs_malformed_skel
  (n, rest) ← parse_node (suc (length input * 2)) 0 input
  guard (length (skip_space rest) == 0) fs_malformed_skel
  ok n

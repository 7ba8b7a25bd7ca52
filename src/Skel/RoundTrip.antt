-- ===== src/Skel/RoundTrip.antt =====
-- `Parse` of svn/skel/skel.go behind `MarshalBinary`.
use go_svn.Base.{
  ◌<◌, ◌||◌, ltb, ℕ, zero, suc, ◌+◌, ◌*◌, ◌≤◌, ◌≡◌, refl, ap, ◌∙◌, Bool, true, false, [], ◌∷◌, ◌++◌,
  Bytes, ◌==◌, leb, length, length-append, arith, append_assoc, append-nil, leb-true, Bool-cases,
  inl, inr,
}
use go_svn.Base.Outcome.{ok, guard, fs_malformed_skel, >>=-eq-ok}
use go_svn.Skel.Encode.{
  encode, encode_atom, encode_children, separator, Fits, FitAll, write_node-encode,
}
use go_svn.Skel.Atom.{Delimited, parse_node-encode_atom, use_implicit_facts, itoa_facts}
use go_svn.Skel.{
  Node, Nodes, null, atom, list, no_nodes, node, max_depth, max_size, is_space, is_name, is_digit,
  use_implicit, itoa, skip_space, append_node, parse_node, parse_list, parse, marshal_binary,
  write_node,
}

abbrev append_nodes : Nodes → Nodes → Nodes
append_nodes no_nodes more = more
append_nodes (node child rest) more = node child (append_nodes rest more)

append_nodes-nil : (ns : Nodes) → append_nodes ns no_nodes ≡ ns
append_nodes-nil no_nodes = refl
append_nodes-nil (node child rest) = rw (append_nodes-nil rest)

append_nodes-append_node :
    (earlier : Nodes) (child : Node) (more : Nodes)
    → append_nodes (append_node earlier child) more ≡ append_nodes earlier (node child more)
unfolding append_node
append_nodes-append_node no_nodes child more = refl
append_nodes-append_node (node first rest) child more =
    rw (append_nodes-append_node rest child more)

-- A node that is written starts with a byte that is no space and no closing bracket.
abbrev Starts : Bytes → Type 0
Starts bytes =
    (c : ℕ) × (cs : Bytes) × (bytes ≡ c ∷ cs) × (is_space c ≡ false) × ((c == 41) ≡ false)

name_starts : (c : ℕ) → is_name c ≡ true → (is_space c ≡ false) × ((c == 41) ≡ false)
name_starts c h = (ground arith, ground arith)

digit_starts : (c : ℕ) → is_digit c ≡ true → (is_space c ≡ false) × ((c == 41) ≡ false)
digit_starts c h = (ground arith, ground arith)

encode_atom-Starts : (value : Bytes) → Starts (encode_atom value)
unfolding encode_atom
encode_atom-Starts value = elim (Bool-cases (use_implicit value)) [
  | inl e ↦
      let (c, cs, eq, n, _) = use_implicit_facts value e in
      let (p, q) = name_starts c n in rw e (c, cs, eq, p, q)
  | inr e ↦
      let (d, ds, eq, (digit, _), _) = itoa_facts (length value) in
      let (p, q) = digit_starts d digit in
      rw e (d, ds ++ (32 ∷ value), ap (λ b. b ++ (32 ∷ value)) eq, p, q)
]

encode-Starts : (depth : ℕ) (n : Node) → Fits depth n → Starts (encode n)
unfolding encode
encode-Starts depth null h = absurd h
encode-Starts depth (atom value) h = encode_atom-Starts value
encode-Starts depth (list children) h = (40, _, refl, refl, refl)

atom_size : (value : Bytes) → length value ≤ length (encode_atom value)
unfolding encode_atom
atom_size value = elim (Bool-cases (use_implicit value)) [
  | inl e ↦ rw e (omega arith)
  | inr e ↦ rw e (omega (arith, length-append (itoa (length value)) (32 ∷ value)))
]

skip_space-Starts : (bytes rest : Bytes) → Starts bytes → skip_space (bytes ++ rest) ≡ bytes ++ rest
unfolding skip_space
skip_space-Starts bytes rest (c, cs, e, p, _) = rw (e, p)

skip_space-separator :
    (first : Bool) (bytes rest : Bytes)
    → Starts bytes
    → skip_space (separator first ++ (bytes ++ rest)) ≡ bytes ++ rest
unfolding skip_space
skip_space-separator true bytes rest s = skip_space-Starts bytes rest s
skip_space-separator false bytes rest s = skip_space-Starts bytes rest s

children-Delimited :
    (ns : Nodes) (rest : Bytes) → Delimited (encode_children false ns ++ (41 ∷ rest))
unfolding encode
children-Delimited no_nodes rest = refl
children-Delimited (node child children) rest = refl

children_assoc :
    (first : Bool) (child children rest : Bytes)
    → (separator first ++ (child ++ children)) ++ rest
      ≡ separator first ++ (child ++ (children ++ rest))
children_assoc first child children rest =
    append_assoc (separator first) (child ++ children) rest
    ∙ ap (λ b. separator first ++ b) (append_assoc child children rest)

-- One round of the loop of `parseList`, over a child that is read.
parse_list-round :
    (fuel depth : ℕ) (bytes rest : Bytes) (child : Node) (children : Nodes)
    → Starts bytes
    → parse_node fuel (depth + 1) (bytes ++ rest) ≡ ok (child, rest)
    → parse_list (suc fuel) depth (bytes ++ rest) children
      ≡ parse_list fuel depth (skip_space rest) (append_node children child)
unfolding parse_list
parse_list-round fuel depth bytes rest child children (c, cs, e, _, q) run =
    let run' : parse_node fuel (depth + 1) (c ∷ (cs ++ rest)) ≡ ok (child, rest) = rw e at run in
    rw (e, q, run')

parse_list_end :
    (fuel depth : ℕ) (rest : Bytes) (children : Nodes)
    → parse_list (suc fuel) depth (skip_space (41 ∷ rest)) children ≡ ok (list children, rest)
unfolding parse_list skip_space
parse_list_end fuel depth rest children = refl

parse_node_list :
    (fuel depth : ℕ) (bytes rest : Bytes)
    → depth ≤ max_depth
    → parse_node (suc fuel) depth (40 ∷ (bytes ++ rest))
      ≡ parse_list fuel depth (skip_space (bytes ++ rest)) no_nodes
unfolding parse_node
parse_node_list fuel depth bytes rest h = rw (leb-true depth max_depth h)

children_size :
    (first : Bool) (child children : Bytes)
    → Starts child
    → (0 < length child)
      × (length child + length children ≤ length (separator first ++ (child ++ children)))
children_size true child children (c, cs, e, _, _) =
    (rw e (omega arith), omega (arith, length-append child children))
children_size false child children (c, cs, e, _, _) =
    (rw e (omega arith), omega (arith, length-append child children))

mutual
  unfolding encode

  parse_node-encode :
      (n : Node) (fuel depth : ℕ) (rest : Bytes)
      → Fits depth n
      → length (encode n) ≤ max_size
      → Delimited rest
      → length (encode n) * 2 + 1 ≤ fuel
      → parse_node fuel depth (encode n ++ rest) ≡ ok (n, rest)
  parse_node-encode n zero depth rest fits size d enough = absurd (omega arith)
  parse_node-encode null (suc fuel) depth rest fits size d enough = absurd fits
  parse_node-encode (atom bytes) (suc fuel) depth rest fits size d enough =
      parse_node-encode_atom fuel depth bytes rest fits (omega (arith, atom_size bytes)) d
  parse_node-encode (list children) (suc fuel) depth rest (h, fits) size d enough =
      let inner = encode_children true children in
      let count : length (inner ++ (41 ∷ [])) ≡ length inner + 1 = length-append inner (41 ∷ []) in
      parse_node_list fuel depth (inner ++ (41 ∷ [])) rest h
      ∙ rw append_assoc (
          parse_list-encode true children fuel depth rest no_nodes fits (omega arith) (omega arith))

  parse_list-encode :
      (first : Bool) (ns : Nodes) (fuel depth : ℕ) (rest : Bytes) (earlier : Nodes)
      → FitAll (depth + 1) ns
      → length (encode_children first ns) ≤ max_size
      → length (encode_children first ns) * 2 + 2 ≤ fuel
      → parse_list fuel depth (skip_space (encode_children first ns ++ (41 ∷ rest))) earlier
        ≡ ok (list (append_nodes earlier ns), rest)
  parse_list-encode first ns zero depth rest earlier fits size enough = absurd (omega arith)
  parse_list-encode first no_nodes (suc fuel) depth rest earlier fits size enough =
      parse_list_end fuel depth rest earlier ∙ rw (append_nodes-nil earlier)
  parse_list-encode first (node child children) (suc fuel) depth rest earlier (fit, fits) size
        enough =
      let starts = encode-Starts (depth + 1) child fit in
      let sizes = children_size first (encode child) (encode_children false children) starts in
      let after = encode_children false children ++ (41 ∷ rest) in
      let read : parse_node fuel (depth + 1) (encode child ++ after) ≡ ok (child, after) =
        parse_node-encode child fuel (depth + 1) after fit (omega arith)
          (children-Delimited children rest) (omega arith) in
      rw
        (
          children_assoc first (encode child) (encode_children false children) (41 ∷ rest),
          skip_space-separator first (encode child) after starts,
          parse_list-round fuel depth (encode child) after child earlier starts read,
          ← append_nodes-append_node earlier child children,
        )
        (parse_list-encode false children fuel depth rest (append_node earlier child) fits
          (omega arith) (omega arith))

parse-encode : (n : Node) → Fits 0 n → length (encode n) ≤ max_size → parse (encode n) ≡ ok n
unfolding parse skip_space
parse-encode n fits size =
    let (c, cs, e, _, _) = encode-Starts 0 n fits in
    let some_bytes : 0 < length (encode n) = rw e (omega arith) in
    let checked : (length (encode n) == 0 || ltb max_size (length (encode n))) ≡ false =
      ground arith in
    let run : parse_node (suc (length (encode n) * 2)) 0 (encode n ++ []) ≡ ok (n, []) =
      parse_node-encode n (suc (length (encode n) * 2)) 0 [] fits size tt (omega arith) in
    let run' : parse_node (suc (length (encode n) * 2)) 0 (encode n) ≡ ok (n, []) =
      rw append-nil at run in
    rw (checked, run')

-- What `MarshalBinary` writes for a node, `Parse` reads back as the same node.
pub parse-marshal_binary :
    (n : Node) (bytes : Bytes) → marshal_binary n ≡ ok bytes → parse bytes ≡ ok n
unfolding marshal_binary
parse-marshal_binary n bytes h =
    let (output, w, h') = >>=-eq-ok (write_node [] 0 n) _ h in
    let (_, g, e) = >>=-eq-ok (guard (leb (length output) max_size) fs_malformed_skel) _ h' in
    let (eq, fits) = write_node-encode [] 0 n output w in
    let size : length output ≤ max_size = ground arith in
    let same : bytes ≡ encode n = cc in rw same (parse-encode n fits (rw eq at size))

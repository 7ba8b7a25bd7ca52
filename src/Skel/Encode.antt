-- ===== src/Skel/Encode.antt =====
-- `write` of svn/skel/skel.go as a plain function to bytes, and its checks as a predicate.
use go_svn.Mergeinfo.Value.{value}
use go_svn.Base.{
  ℕ, ◌+◌, ◌≤◌, ◌≡◌, refl, ap, ◌∙◌, Bool, true, false, [], ◌∷◌, ◌++◌, Bytes, leb, if◌then◌else◌,
  length, arith, append_assoc, append-nil, Bool-cases, inl, inr,
}
use go_svn.Base.Outcome.{ok, >>=-eq-ok, fs_malformed_skel, guard}
use go_svn.Skel.{
  Node, Nodes, null, atom, list, no_nodes, node, max_depth, use_implicit, itoa, write_node,
  write_children,
}

unfoldable pub encode_atom : Bytes → Bytes
encode_atom value = if use_implicit value then value else itoa (length value) ++ (32 ∷ value)

abbrev pub separator : Bool → Bytes
separator true = []
separator false = 32 ∷ []

unfoldable mutual
  pub encode : Node → Bytes
  encode null = []
  encode (atom value) = encode_atom value
  encode (list children) = 40 ∷ (encode_children true children ++ (41 ∷ []))

  pub encode_children : Bool → Nodes → Bytes
  encode_children first no_nodes = []
  encode_children first (node child children) =
      separator first ++ (encode child ++ encode_children false children)

-- No node is nil, and none is nested too deeply.
abbrev mutual
  pub Fits : (depth : ℕ) → Node → Type 0
  Fits depth null = ⊥
  Fits depth (atom value) = depth ≤ max_depth
  Fits depth (list children) = (depth ≤ max_depth) × FitAll (depth + 1) children

  pub FitAll : (depth : ℕ) → Nodes → Type 0
  FitAll depth no_nodes = Unit
  FitAll depth (node child children) = Fits depth child × FitAll depth children

guard_depth :
    (depth : ℕ) → guard (leb depth max_depth) fs_malformed_skel ≡ ok tt → depth ≤ max_depth
guard_depth depth h = ground arith

atom_bytes :
    (output value : Bytes)
    → (if use_implicit value
        then output ++ value
        else ((output ++ itoa (length value)) ++ (32 ∷ [])) ++ value)
      ≡ output ++ encode_atom value
unfolding encode_atom
atom_bytes output value = elim (Bool-cases (use_implicit value)) [
  | inl e ↦ rw e
  | inr e ↦ rw (e, append_assoc, append_assoc)
]

list_bytes :
    (output inner : Bytes)
    → ((output ++ (40 ∷ [])) ++ inner) ++ (41 ∷ []) ≡ output ++ (40 ∷ (inner ++ (41 ∷ [])))
list_bytes output inner =
    append_assoc (output ++ (40 ∷ [])) inner (41 ∷ [])
    ∙ append_assoc output (40 ∷ []) (inner ++ (41 ∷ []))

children_bytes :
    (first : Bool) (output child rest : Bytes)
    → ((if first then output else output ++ (32 ∷ [])) ++ child) ++ rest
      ≡ output ++ (separator first ++ (child ++ rest))
children_bytes true output child rest = append_assoc output child rest
children_bytes false output child rest =
    append_assoc (output ++ (32 ∷ [])) child rest ∙ append_assoc output (32 ∷ []) (child ++ rest)

mutual
  unfolding write_node encode

  pub write_node-encode :
      (output : Bytes) (depth : ℕ) (n : Node) (bytes : Bytes)
      → write_node output depth n ≡ ok bytes
      → (bytes ≡ output ++ encode n) × Fits depth n
  write_node-encode output depth null bytes h = cc
  write_node-encode output depth (atom value) bytes h =
      let (_, g, e) = >>=-eq-ok (guard (leb depth max_depth) fs_malformed_skel) _ h in
      (cc (atom_bytes output value), guard_depth depth (g ∙ refl))
  write_node-encode output depth (list children) bytes h =
      let (_, g, h') = >>=-eq-ok (guard (leb depth max_depth) fs_malformed_skel) _ h in
      let (inner, w, e) =
        >>=-eq-ok (write_children (output ++ (40 ∷ [])) (depth + 1) true children) _ h' in
      let (eq, fit) =
        write_children-encode (output ++ (40 ∷ [])) (depth + 1) true children inner w in
      (
        cc (e, ap (λ b. b ++ (41 ∷ [])) eq, list_bytes output (encode_children true children)),
        (guard_depth depth g, fit),
      )

  pub write_children-encode :
      (output : Bytes) (depth : ℕ) (first : Bool) (ns : Nodes) (bytes : Bytes)
      → write_children output depth first ns ≡ ok bytes
      → (bytes ≡ output ++ encode_children first ns) × FitAll depth ns
  write_children-encode output depth first no_nodes bytes h = (cc (h, append-nil output), tt)
  write_children-encode output depth first (node child children) bytes h =
      let (inner, w, w') =
        >>=-eq-ok (write_node (if first then output else output ++ (32 ∷ [])) depth child) _ h in
      let (eq, fit) = write_node-encode _ depth child inner w in
      let (eq', fit') = write_children-encode inner depth false children bytes w' in
      (
        eq' ∙ rw eq (children_bytes first output (encode child) (encode_children false children)),
        (fit, fit'),
      )

-- ===== src/Skel/Proplist.antt =====
-- The property lists of svn/skel/skel.go: `IsValidProplist`, `PropsToProplist` and `ProplistToProps`.
use go_svn.Base.{
  ℕ, suc, ◌%◌, ◌≡◌, refl, ap, ◌∙◌, Bool, true, false, ◌&&◌, [], ◌∷◌, Bytes, ◌==◌, if◌then◌else◌,
  arith,
}
use go_svn.Base.Outcome.{Outcome, ok, fs_malformed_skel, ◌>>=◌, ◌>>◌, guard}
use go_svn.Hashfile.{Props, set_prop}
use go_svn.Hashfile.Overlay.{IsSorted, set_all, set_all-sorted}
use go_svn.Skel.{Node, null, atom, list, Nodes, no_nodes, node, parse, marshal_binary}
use go_svn.Skel.RoundTrip.{parse-marshal_binary}

-- `len(node.Children)`
unfoldable pub count_nodes : Nodes → ℕ
count_nodes no_nodes = 0
count_nodes (node child children) = suc (count_nodes children)

unfoldable pub is_atom : Node → Bool
is_atom null = false
is_atom (atom value) = true
is_atom (list children) = false

-- The loop of `IsValidProplist`.
unfoldable pub all_atoms : Nodes → Bool
all_atoms no_nodes = true
all_atoms (node child children) =
    let rest = all_atoms children in if is_atom child then rest else false

unfoldable pub is_valid_proplist : Node → Bool
is_valid_proplist null = false
is_valid_proplist (atom value) = false
is_valid_proplist (list children) = count_nodes children % 2 == 0 && all_atoms children

-- The loop of `PropsToProplist` over the entries in the order of the keys.
unfoldable pub prop_nodes : Props → Nodes
prop_nodes [] = no_nodes
prop_nodes ((key, value) ∷ props) = node (atom key) (node (atom value) (prop_nodes props))

unfoldable pub props_to_proplist : Props → Node
props_to_proplist props = list (prop_nodes props)

-- The field `Atom` of a node.
abbrev pub atom_of : Node → Bytes
atom_of null = []
atom_of (atom value) = value
atom_of (list children) = []

-- The loop of `ProplistToProps`. A valid list has an even number of children.
unfoldable pub node_props : Props → Nodes → Props
node_props props no_nodes = props
node_props props (node key no_nodes) = props
node_props props (node key (node value children)) =
    node_props (set_prop (atom_of key) (atom_of value) props) children

abbrev pub children_of : Node → Nodes
children_of null = no_nodes
children_of (atom value) = no_nodes
children_of (list children) = children

unfoldable pub proplist_to_props : Node → Outcome Props
proplist_to_props n = do
  guard (is_valid_proplist n) fs_malformed_skel
  ok (node_props [] (children_of n))

prop_nodes_lem :
    (props : Props)
    → ((count_nodes (prop_nodes props) % 2 == 0) ≡ true) × (all_atoms (prop_nodes props) ≡ true)
unfolding prop_nodes count_nodes all_atoms is_atom
prop_nodes_lem [] = (refl, refl)
prop_nodes_lem ((key, value) ∷ props) =
    let (even, atoms) = prop_nodes_lem props in (ground arith, atoms)

node_props-prop_nodes :
    (base props : Props) → node_props base (prop_nodes props) ≡ set_all base props
unfolding node_props prop_nodes
node_props-prop_nodes base [] = refl
node_props-prop_nodes base ((key, value) ∷ props) =
    node_props-prop_nodes (set_prop key value base) props

proplist_to_props-props_to_proplist :
    (props : Props) → IsSorted props → proplist_to_props (props_to_proplist props) ≡ ok props
unfolding proplist_to_props props_to_proplist is_valid_proplist
proplist_to_props-props_to_proplist props sorted =
    let (even, atoms) = prop_nodes_lem props in
    rw (even, atoms) (ap ok (node_props-prop_nodes [] props ∙ set_all-sorted props sorted))

-- For properties in the order of their keys, `ProplistToProps` gives back what `PropsToProplist` was
-- given, from its list and from what `Parse` makes of the bytes that `MarshalBinary` writes for it.
pub proplist_to_props-parse :
    (props : Props) (output : Bytes)
    → IsSorted props
    → marshal_binary (props_to_proplist props) ≡ ok output
    → (proplist_to_props (props_to_proplist props) ≡ ok props)
      × ((parse output >>= proplist_to_props) ≡ ok props)
proplist_to_props-parse props output sorted written =
    let back = proplist_to_props-props_to_proplist props sorted in
    (back, rw (parse-marshal_binary (props_to_proplist props) output written) back)

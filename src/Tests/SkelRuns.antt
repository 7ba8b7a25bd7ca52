-- ===== src/Tests/SkelRuns.antt =====
-- Runs of svn/skel/skel.go.
use go_svn.Base.{◌≡◌, refl, Bytes, codes}
use go_svn.Base.Outcome.{ok, err, fs_malformed_skel, FailsWith}
use go_svn.Skel.{
  Node, atom, list, node, no_nodes, marshal_binary, write_node, use_implicit, all_plain, itoa,
  itoa_loop, parse, parse_node, parse_implicit, parse_explicit, parse_uint, take_name, take_digits,
  explicit_atom, skip_space, append_node,
}
use go_svn.Base.Outcome.{slice}
use go_svn.Skel.RoundTrip.{parse-marshal_binary}
use go_svn.Skel.Total.{parse-FailsWith}

-- A list of an implicit atom, an explicit one, and an empty list.
abbrev change : Node
change =
    list (node (atom (codes "add")) (node (atom (codes "a b")) (node (list no_nodes) no_nodes)))

abbrev change_bytes : Bytes
change_bytes = codes "(add 3 a b ())"

change_written : marshal_binary change ≡ ok change_bytes
unfolding marshal_binary write_node use_implicit all_plain itoa itoa_loop
change_written = refl

loose_spaces : parse (codes "( add\t3 a b( ) ) ") ≡ ok change
unfolding parse parse_node parse_implicit parse_explicit parse_uint take_name take_digits
    explicit_atom skip_space append_node slice
loose_spaces = refl

unterminated : parse (codes "(add (") ≡ err fs_malformed_skel
unfolding parse parse_node parse_implicit parse_explicit parse_uint take_name take_digits
    explicit_atom skip_space append_node slice
unterminated = refl

parse-marshal_binary_example : parse change_bytes ≡ ok change
parse-marshal_binary_example = parse-marshal_binary change change_bytes change_written

parse-FailsWith_example : FailsWith fs_malformed_skel (parse (codes "(add 9 short)"))
parse-FailsWith_example = parse-FailsWith (codes "(add 9 short)")

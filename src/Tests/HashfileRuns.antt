-- ===== src/Tests/HashfileRuns.antt =====
-- Runs of svn/hashfile.
use go_svn.Base.{◌≡◌, refl, [], ◌∷◌, ◌++◌, codes, equal, arith, Bytes}
use go_svn.Base.Outcome.{ok, ◌>>=◌}
use go_svn.Skel.Proplist.{proplist_to_props, props_to_proplist, prop_nodes, proplist_to_props-parse}
use go_svn.Skel.{
  itoa, itoa_loop, parse_uint, parse, marshal_binary, write_node, use_implicit, all_plain,
}
use go_svn.Hashfile.{
  Props, set_prop, before, delete_prop, write, write_record, read, read_incremental, read_loop,
  read_record, read_slice, trim_cr, read_header, read_payload, parse_length, all_digits,
  read_terminator,
}
use go_svn.Hashfile.Overlay.{set_all}
use go_svn.Hashfile.RoundTrip.{read-write}
use go_svn.Hashfile.Total.{Answers, read-Answers}

abbrev two_props : Props
two_props = (codes "name", codes "a\nb") ∷ ((codes "owner", []) ∷ [])

test_write : write two_props ≡ ok (codes "K 4\nname\nV 3\na\nb\nK 5\nowner\nV 0\n\nEND\n")
unfolding write write_record itoa itoa_loop
test_write = refl

-- A deletion and carriage returns.
test_incremental :
    read_incremental two_props (codes "D 5\r\nowner\r\nK 1\nx\nV 1\ny\nEND\n")
    ≡ ok ((codes "name", codes "a\nb") ∷ ((codes "x", codes "y") ∷ []))
unfolding read_incremental read_loop read_record read_slice trim_cr read_header read_payload
    parse_length all_digits read_terminator set_prop before delete_prop parse_uint equal
test_incremental = refl

read-write_example :
    (out : Bytes) × (write two_props ≡ ok out)
    × (read (out ++ codes "next") ≡ ok two_props)
    × (read_incremental [] (out ++ codes "next") ≡ ok (set_all [] two_props))
unfolding before
read-write_example =
    read-write [] two_props (codes "next") ((refl, tt), (tt, tt))
      ((omega arith, omega arith), ((omega arith, omega arith), tt))

read-Answers_example :
    Answers (λ (props : Props). Unit) (read (codes "K 4\nna"))
    × Answers (λ (props : Props). Unit) (read_incremental two_props (codes "K 4\nna"))
read-Answers_example = read-Answers two_props (codes "K 4\nna")

proplist_to_props-parse_example :
    (proplist_to_props (props_to_proplist two_props) ≡ ok two_props)
    × ((parse (codes "(name 3 a\nb owner 0 )") >>= proplist_to_props) ≡ ok two_props)
unfolding before marshal_binary write_node use_implicit all_plain itoa itoa_loop props_to_proplist
    prop_nodes
proplist_to_props-parse_example =
    proplist_to_props-parse two_props (codes "(name 3 a\nb owner 0 )") ((refl, tt), (tt, tt)) refl

-- ===== src/Tests/RasvnRuns.antt =====
-- Runs of rasvn/marshal.go.
use go_svn.Base.{◌≡◌, refl, inl, inr, true, false, [], ◌++◌, Bytes, codes, arith, map}
use go_svn.Base.Int.{pos, negsuc}
use go_svn.Base.Outcome.{ok, err, ra_svn_malformed, slice}
use go_svn.Skel.{itoa, itoa_loop, parse_uint}
use go_svn.Rasvn.Item.{
  Item, Items, number, word, string, list, no_items, item, encode, encode_item, decode, decode_item,
  decode_word, decode_number_or_string, number_or_string, read_non_whitespace, require_whitespace,
  append_item, valid_word, all_in_word,
}
use go_svn.Rasvn.RoundTrip.{decode_item-encode_item}
use go_svn.Rasvn.Total.{Decodes, decode_item-Decodes}
use go_svn.Rasvn.Tuple.{
  Value, Slot, write_tuple, build_tuple, build_tuple_items, tuple_item, parse_tuple,
}
use go_svn.Rasvn.Tuple.Shape.{
  Entries, field, group, end, optional_from, entry, pattern_of, values_of, slots_of, Sent, Omitted,
  received,
}
use go_svn.Rasvn.Tuple.Wire.{parse_tuple-write_tuple}

-- `( success ( 3:a b ( ) 42 ) ) `
abbrev reply : Item
reply = list (
    item (word (codes "success")) (
      item (list (item (string (codes "a b")) (item (list no_items) (item (number 42) no_items))))
        no_items))

abbrev reply_bytes : Bytes
reply_bytes = codes "( success ( 3:a b ( ) 42 ) ) "

reply_encoded : encode_item reply ≡ ok reply_bytes
unfolding encode_item encode itoa itoa_loop valid_word all_in_word
reply_encoded = refl

loose_list :
    decode_item (codes " \n(\n007 x-1 ) tail")
    ≡ ok (list (item (number 7) (item (word (codes "x-1")) no_items)), codes "tail")
unfolding decode_item decode decode_word decode_number_or_string number_or_string
    read_non_whitespace require_whitespace append_item parse_uint slice
loose_list = refl

unspaced_string : decode_item (codes "3:abcd") ≡ err ra_svn_malformed
unfolding decode_item decode decode_word decode_number_or_string number_or_string
    read_non_whitespace require_whitespace append_item parse_uint slice
unspaced_string = refl

decode_item-encode_item_example :
    decode_item (reply_bytes ++ codes "( ) ") ≡ ok (reply, codes "( ) ")
decode_item-encode_item_example =
    decode_item-encode_item reply reply_bytes (codes "( ) ")
      (tt, ((tt, (tt, (omega arith, tt))), tt)) reply_encoded

decode_item-Decodes_example :
    Decodes (codes "( 99999999999999999999 )") (decode_item (codes "( 99999999999999999999 )"))
decode_item-Decodes_example = decode_item-Decodes (codes "( 99999999999999999999 )")

-- `c(?r)b` with a revision that is absent.
abbrev arguments : Entries
arguments = entry (field b'c' (Value.text (codes "trunk")) (Slot.text [])) (
    entry
      (group (
        optional_from (entry (field b'r' (Value.revision (negsuc 0)) (Slot.revision (pos 9))) end)))
      (entry (field b'b' (Value.boolean true) (Slot.boolean false)) end))

arguments_written :
    write_tuple [] (pattern_of arguments) (values_of arguments) ≡ ok (codes "( 5:trunk ( ) true ) ")
unfolding write_tuple build_tuple build_tuple_items tuple_item pattern_of values_of append_item
    encode itoa itoa_loop valid_word all_in_word
arguments_written = refl

parse_tuple-write_tuple_example :
    (is : Items) × (decode_item (codes "( 5:trunk ( ) true ) " ++ []) ≡ ok (list is, []))
    × (parse_tuple is (pattern_of arguments) (slots_of arguments)
        ≡ ok (map received (values_of arguments)))
parse_tuple-write_tuple_example =
    parse_tuple-write_tuple arguments (codes "( 5:trunk ( ) true ) ") []
      (inl (
        Sent.text (codes "trunk") [],
        (inr (refl, Omitted.revision (pos 9), tt), inl (Sent.boolean true false, tt)),
      ))
      arguments_written

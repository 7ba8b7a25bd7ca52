-- ===== src/Rasvn/Tuple/Wire.antt =====
-- `WriteTuple`, `Decode` and `ParseTuple` of rasvn/marshal.go, one behind the other.
use go_svn.Base.{
  ℕ, suc, ◌≡◌, refl, ap, Bool, true, false, inl, inr, [], ◌∷◌, ◌++◌, Bytes, append-nil, length,
  arith, map, ◌==◌,
}
use go_svn.Base.Outcome.{ok}
use go_svn.Rasvn.Item.{Items, list, encode_item, decode_item}
use go_svn.Rasvn.RoundTrip.{decode_item-encode_item}
use go_svn.Rasvn.Tuple.{
  kind_of, plain, wraps, unwrapped, pattern_fuel, build_tuple, write_tuple, parse_tuple,
}
use go_svn.Rasvn.Tuple.Shape.{
  Entries, field, group, end, optional_from, entry, pattern_of, values_of, slots_of, Sendable,
  Sent-item, Omitted-item, received,
}
use go_svn.Rasvn.Tuple.Send.{items_of, items_of-AreItems, build-Sendable}
use go_svn.Rasvn.Tuple.Receive.{parse-Sendable}

pattern_fuel_lem : (pattern : Bytes) → pattern_fuel pattern ≡ suc (length pattern)
pattern_fuel_lem [] = refl
pattern_fuel_lem (code ∷ pattern) = ap suc (pattern_fuel_lem pattern)

plain-wraps :
    (code : ℕ) (pattern : Bytes)
    → kind_of code ≡ plain
    → (wraps (code ∷ pattern) ≡ true) × (unwrapped (code ∷ pattern) ≡ code ∷ pattern)
plain-wraps code pattern k = let e : (code == 33) ≡ false = ground arith in (rw e refl, rw e refl)

pattern_of-wraps :
    (es : Entries) (optional : Bool)
    → Sendable optional es
    → (wraps (pattern_of es) ≡ true) × (unwrapped (pattern_of es) ≡ pattern_of es)
unfolding pattern_of
pattern_of-wraps end optional h = (refl, refl)
pattern_of-wraps (optional_from es) optional h = (refl, refl)
pattern_of-wraps (entry (field code v slot) es) optional (inl (sent, h)) =
    let (_, _, _, kind, _) = Sent-item code v slot sent in plain-wraps code (pattern_of es) kind
pattern_of-wraps (entry (field code v slot) es) optional (inr (_, o, h)) =
    let (_, kind, _, _) = Omitted-item code v slot o in plain-wraps code (pattern_of es) kind
pattern_of-wraps (entry (group inner) es) optional h = (refl, refl)

module _ (es : Entries) (h : Sendable false es) where
  build_tuple-Sendable : build_tuple (pattern_of es) (values_of es) ≡ ok (items_of false es h, true)
  unfolding build_tuple
  build_tuple-Sendable =
      let (wrapped, same) = pattern_of-wraps es false h in
      let run =
        rw (append-nil (pattern_of es), append-nil (values_of es)) at
          (build-Sendable es false false [] (suc (length (pattern_of es))) [] Items.no_items h
            (omega arith)) in
      rw (same, pattern_fuel_lem (pattern_of es), run, wrapped) refl

  parse_tuple-Sendable :
      parse_tuple (items_of false es h) (pattern_of es) (slots_of es)
      ≡ ok (map received (values_of es))
  unfolding parse_tuple
  parse_tuple-Sendable =
      let (wrapped, same) = pattern_of-wraps es false h in
      let run =
        rw (append-nil (pattern_of es), append-nil (slots_of es)) at
          (parse-Sendable es false false [] (suc (length (pattern_of es))) [] [] h (omega arith)) in
      rw (same, pattern_fuel_lem (pattern_of es), run) refl

-- A tuple whose values fit the pattern and the destinations, where an absent value is optional and
-- all behind it in its group are absent too: what `WriteTuple` writes, `Decode` reads back as a
-- list, leaving what follows, and `ParseTuple` with the same pattern stores every value that was
-- sent in its destination, and for an absent one `InvalidRevnum` or the empty string or list.
pub parse_tuple-write_tuple :
    (es : Entries) (bytes rest : Bytes)
    → Sendable false es
    → write_tuple [] (pattern_of es) (values_of es) ≡ ok bytes
    → (is : Items) × (decode_item (bytes ++ rest) ≡ ok (list is, rest))
      × (parse_tuple is (pattern_of es) (slots_of es) ≡ ok (map received (values_of es)))
unfolding write_tuple encode_item
parse_tuple-write_tuple es bytes rest h written =
    let made = items_of false es h in
    let sent : encode_item (list made) ≡ ok bytes = rw (build_tuple-Sendable es h) at written in
    (
      made,
      decode_item-encode_item (list made) bytes rest (items_of-AreItems false es h) sent,
      parse_tuple-Sendable es h,
    )

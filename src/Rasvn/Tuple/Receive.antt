-- ===== src/Rasvn/Tuple/Receive.antt =====
-- `ParseTuple` of rasvn/marshal.go on the items of a tree.
use go_svn.Base.{
  ℕ, zero, suc, ◌<◌, ◌≡◌, refl, ◌∙◌, Bool, true, false, inl, inr, List, [], ◌∷◌, ◌++◌, Bytes,
  append-nil, length, arith, append_assoc, map, ◌==◌,
}
use mathlib.Core.List.{map-append}
use go_svn.Base.Outcome.{ok}
use go_svn.Rasvn.Item.{Item, Items, no_items, item}
use go_svn.Rasvn.Tuple.{
  Slot, Slots, plain, kind_of, parse_tuple_items, assign_tuple_value, missing_value,
  set_missing_tuple_value,
}
use go_svn.Rasvn.Tuple.Shape.{
  Entries, field, group, end, optional_from, entry, pattern_of, values_of, slots_of, Sendable,
  AllOmitted, Sent-item, Omitted-item, received,
}
use go_svn.Rasvn.Tuple.Send.{items_of, closing, behind, pattern_length}

abbrev results : Entries → List Slot
results es = map received (values_of es)

abbrev at_slots : List Slot → List Slot → Slots
at_slots stored left = record { stored = stored; left = left }

parse_closing :
    (nested : Bool) (tail : Bytes) (fuel : ℕ) (optional : Bool) (is : Items) (slots : Slots)
    → parse_tuple_items (suc fuel) nested optional (closing nested tail) is slots
      ≡ ok (behind nested tail, slots)
unfolding parse_tuple_items
parse_closing true tail fuel optional is slots = refl
parse_closing false tail fuel optional is slots = refl

-- One round of the loop over a field, with an item for it and without one.
parse_field :
    (fuel : ℕ) (nested optional : Bool) (code : ℕ) (pattern : Bytes) (i : Item) (is : Items)
    (slot slot' : Slot) (stored left : List Slot)
    → kind_of code ≡ plain
    → assign_tuple_value i code slot ≡ ok slot'
    → parse_tuple_items
        (suc fuel)
        nested
        optional
        (code ∷ pattern)
        (item i is)
        (at_slots stored (slot ∷ left))
      ≡ parse_tuple_items fuel nested optional pattern is (at_slots (stored ++ (slot' ∷ [])) left)
unfolding parse_tuple_items
parse_field fuel nested optional code pattern i is slot slot' stored left k t =
    rw (parse_tuple_items, k, t) refl

parse_missing :
    (fuel : ℕ) (nested : Bool) (code : ℕ) (pattern : Bytes) (slot slot' : Slot)
    (stored left : List Slot)
    → kind_of code ≡ plain
    → (code == 40) ≡ false
    → missing_value slot ≡ ok slot'
    → parse_tuple_items
        (suc fuel)
        nested
        true
        (code ∷ pattern)
        no_items
        (at_slots stored (slot ∷ left))
      ≡ parse_tuple_items fuel nested true pattern no_items (at_slots (stored ++ (slot' ∷ [])) left)
unfolding parse_tuple_items set_missing_tuple_value
parse_missing fuel nested code pattern slot slot' stored left k e t =
    rw (parse_tuple_items, k, set_missing_tuple_value, e, t) refl

stored_assoc :
    (stored : List Slot) (slot : Slot) (rest : List Slot)
    → (stored ++ (slot ∷ [])) ++ rest ≡ stored ++ (slot ∷ rest)
stored_assoc stored slot rest = append_assoc stored (slot ∷ []) rest

module _ (nested : Bool) (tail : Bytes) where
  parse-AllOmitted :
      (es : Entries) (fuel : ℕ) (stored more : List Slot)
      → AllOmitted es
      → length (pattern_of es) < fuel
      → parse_tuple_items fuel nested true
          (pattern_of es ++ closing nested tail)
          no_items
          (at_slots stored (slots_of es ++ more))
        ≡ ok (behind nested tail, at_slots (stored ++ results es) more)
  unfolding parse_tuple_items pattern_of values_of slots_of
  parse-AllOmitted es zero stored more h enough = absurd (omega arith)
  parse-AllOmitted end (suc fuel) stored more h enough =
      rw (append-nil stored) (parse_closing nested tail fuel true no_items _)
  parse-AllOmitted (optional_from es) (suc fuel) stored more h enough =
      parse-AllOmitted es fuel stored more h (omega arith)
  parse-AllOmitted (entry (field code v slot) es) (suc fuel) stored more (o, h) enough =
      let (_, kind, no_group, stores) = Omitted-item code v slot o in
      parse_missing fuel nested code _ slot (received v) stored _ kind no_group stores
      ∙ rw (← stored_assoc stored (received v) (results es))
          (parse-AllOmitted es fuel (stored ++ (received v ∷ [])) more h (omega arith))
  parse-AllOmitted (entry (group inner) es) (suc fuel) stored more h enough = absurd h

pub parse-Sendable :
    (es : Entries) (nested optional : Bool) (tail : Bytes) (fuel : ℕ) (stored more : List Slot)
    (h : Sendable optional es)
    → length (pattern_of es) < fuel
    → parse_tuple_items fuel nested optional
        (pattern_of es ++ closing nested tail)
        (items_of optional es h)
        (at_slots stored (slots_of es ++ more))
      ≡ ok (behind nested tail, at_slots (stored ++ results es) more)
unfolding parse_tuple_items pattern_of values_of slots_of items_of
parse-Sendable es nested optional tail zero stored more h enough = absurd (omega arith)
parse-Sendable end nested optional tail (suc fuel) stored more h enough =
    rw (append-nil stored) (parse_closing nested tail fuel optional no_items _)
parse-Sendable (optional_from es) nested optional tail (suc fuel) stored more h enough =
    parse-Sendable es nested true tail fuel stored more h (omega arith)
parse-Sendable (entry (field code v slot) es) nested optional tail (suc fuel) stored more
      (inl (sent, h)) enough =
    let (i, _, _, kind, stores) = Sent-item code v slot sent in
    parse_field fuel nested optional code _ i _ slot (received v) stored _ kind stores
    ∙ rw (← stored_assoc stored (received v) (results es)) (
        parse-Sendable es nested optional tail fuel (stored ++ (received v ∷ [])) more h
          (omega arith))
parse-Sendable (entry (field code v slot) es) nested optional tail (suc fuel) stored more
      (inr (e, o, h)) enough =
    let (_, kind, no_group, stores) = Omitted-item code v slot o in
    rw e (
      parse_missing fuel nested code _ slot (received v) stored _ kind no_group stores
      ∙ rw (← stored_assoc stored (received v) (results es))
          (parse-AllOmitted nested tail es fuel (stored ++ (received v ∷ [])) more h (omega arith)))
parse-Sendable (entry (group inner) es) nested optional tail (suc fuel) stored more (h, h') enough =
    let size = pattern_length inner es in
    rw
      (
        append_assoc (pattern_of inner) (41 ∷ pattern_of es) (closing nested tail),
        append_assoc (slots_of inner) (slots_of es) more,
        parse-Sendable inner true false (pattern_of es ++ closing nested tail) fuel stored
            (slots_of es ++ more) h (omega arith),
        map-append received (values_of inner) (values_of es),
        ← append_assoc stored (results inner) (results es),
      )
      (parse-Sendable es nested false tail fuel (stored ++ results inner) more h' (omega arith))

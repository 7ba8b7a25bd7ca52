-- ===== src/Rasvn/Tuple/Send.antt =====
-- `buildTuple` of rasvn/marshal.go on the values of a tree.
use go_svn.Base.{
  ℕ, zero, suc, ◌+◌, ◌<◌, ◌≡◌, refl, ◌∙◌, Bool, true, false, ◌||◌, inl, inr, List, [], ◌∷◌, ◌++◌,
  Bytes, Option, none, some, length, length-append, arith, append_assoc,
}
use go_svn.Base.Outcome.{ok}
use go_svn.Rasvn.Encode.{AreItems}
use go_svn.Rasvn.Item.{Item, Items, list, no_items, item, append_item}
use go_svn.Rasvn.RoundTrip.{append_items, append_items-none, append_items-append_item}
use go_svn.Rasvn.Tuple.{
  Value, plain, build_tuple_items, kind_of, tuple_item, append_present, is_some,
}
use go_svn.Rasvn.Tuple.Shape.{
  Entries, field, group, end, optional_from, entry, pattern_of, values_of, Sendable, AllOmitted,
  Sent-item, Omitted-item,
}

-- The items that are sent for a tree.
unfoldable pub items_of : (optional : Bool) (es : Entries) → Sendable optional es → Items
items_of optional end h = no_items
items_of optional (optional_from es) h = items_of true es h
items_of optional (entry (field code v slot) es) (inl (sent, h)) =
    item (Sent-item code v slot sent).0 (items_of optional es h)
items_of optional (entry (field code v slot) es) (inr h) = no_items
items_of optional (entry (group inner) es) (h, h') =
    item (list (items_of false inner h)) (items_of false es h')

pub items_of-AreItems :
    (optional : Bool) (es : Entries) (h : Sendable optional es) → AreItems (items_of optional es h)
unfolding items_of
items_of-AreItems optional end h = tt
items_of-AreItems optional (optional_from es) h = items_of-AreItems true es h
items_of-AreItems optional (entry (field code v slot) es) (inl (sent, h)) =
    let (_, _, one, _, _) = Sent-item code v slot sent in (one, items_of-AreItems optional es h)
items_of-AreItems optional (entry (field code v slot) es) (inr h) = tt
items_of-AreItems optional (entry (group inner) es) (h, h') =
    (items_of-AreItems false inner h, items_of-AreItems false es h')

-- The end of a group, and of the pattern itself.
abbrev pub closing : (nested : Bool) → Bytes → Bytes
closing true tail = 41 ∷ tail
closing false tail = []

abbrev pub behind : (nested : Bool) → Bytes → Bytes
behind true tail = tail
behind false tail = []

pub pattern_length :
    (inner es : Entries)
    → length (pattern_of (entry (group inner) es))
      ≡ length (pattern_of inner) + length (pattern_of es) + 2
unfolding pattern_of
pattern_length inner es = omega (arith, length-append (pattern_of inner) (41 ∷ pattern_of es))

build-end :
    (nested : Bool) (tail : Bytes) (fuel : ℕ) (optional : Bool) (more : List Value) (made : Items)
    → build_tuple_items (suc fuel) nested optional (closing nested tail) more made
      ≡ ok (record { made = made; present = true; pattern = behind nested tail; values = more })
unfolding build_tuple_items
build-end true tail fuel optional more made = refl
build-end false tail fuel optional more made = refl

-- One round of the loop over a field.
build-field :
    (fuel : ℕ) (nested optional : Bool) (code : ℕ) (pattern : Bytes) (v : Value)
    (values : List Value) (made : Items) (i : Option Item)
    → kind_of code ≡ plain
    → tuple_item code v ≡ ok i
    → (is_some i || optional) ≡ true
    → build_tuple_items (suc fuel) nested optional (code ∷ pattern) (v ∷ values) made
      ≡ build_tuple_items fuel nested optional pattern values (append_present made i)
unfolding build_tuple_items
build-field fuel nested optional code pattern v values made i k t s =
    rw (build_tuple_items, k, t, s) refl

module _ (nested : Bool) (tail : Bytes) where
  build-AllOmitted :
      (es : Entries) (fuel : ℕ) (more : List Value) (made : Items)
      → AllOmitted es
      → length (pattern_of es) < fuel
      → build_tuple_items fuel nested true
          (pattern_of es ++ closing nested tail)
          (values_of es ++ more)
          made
        ≡ ok (record { made = made; present = true; pattern = behind nested tail; values = more })
  unfolding build_tuple_items pattern_of values_of
  build-AllOmitted es zero more made h enough = absurd (omega arith)
  build-AllOmitted end (suc fuel) more made h enough = build-end nested tail fuel true more made
  build-AllOmitted (optional_from es) (suc fuel) more made h enough =
      build-AllOmitted es fuel more made h (omega arith)
  build-AllOmitted (entry (field code v slot) es) (suc fuel) more made (o, h) enough =
      let (none_there, kind, _, _) = Omitted-item code v slot o in
      build-field fuel nested true code _ v _ made none kind none_there refl
      ∙ build-AllOmitted es fuel more made h (omega arith)
  build-AllOmitted (entry (group inner) es) (suc fuel) more made h enough = absurd h

pub build-Sendable :
    (es : Entries) (nested optional : Bool) (tail : Bytes) (fuel : ℕ) (more : List Value)
    (made : Items) (h : Sendable optional es)
    → length (pattern_of es) < fuel
    → build_tuple_items fuel nested optional
        (pattern_of es ++ closing nested tail)
        (values_of es ++ more)
        made
      ≡ ok (record {
        made = append_items made (items_of optional es h);
        present = true;
        pattern = behind nested tail;
        values = more;
      })
unfolding build_tuple_items pattern_of values_of items_of
build-Sendable es nested optional tail zero more made h enough = absurd (omega arith)
build-Sendable end nested optional tail (suc fuel) more made h enough =
    rw (append_items-none made) (build-end nested tail fuel optional more made)
build-Sendable (optional_from es) nested optional tail (suc fuel) more made h enough =
    build-Sendable es nested true tail fuel more made h (omega arith)
build-Sendable (entry (field code v slot) es) nested optional tail (suc fuel) more made
      (inl (sent, h)) enough =
    let (i, made_of, _, kind, _) = Sent-item code v slot sent in
    build-field fuel nested optional code _ v _ made (some i) kind made_of refl
    ∙ rw (← append_items-append_item made i (items_of optional es h))
        (build-Sendable es nested optional tail fuel more (append_item made i) h (omega arith))
build-Sendable (entry (field code v slot) es) nested optional tail (suc fuel) more made
      (inr (e, o, h)) enough =
    let (none_there, kind, _, _) = Omitted-item code v slot o in
    rw (e, append_items-none made)
      (build-field fuel nested true code _ v _ made none kind none_there refl
        ∙ build-AllOmitted nested tail es fuel more made h (omega arith))
build-Sendable (entry (group inner) es) nested optional tail (suc fuel) more made (h, h') enough =
    let size = pattern_length inner es in
    let sent = items_of false inner h in
    rw
      (
        append_assoc (pattern_of inner) (41 ∷ pattern_of es) (closing nested tail),
        append_assoc (values_of inner) (values_of es) more,
        build-Sendable inner true false (pattern_of es ++ closing nested tail) fuel
            (values_of es ++ more) no_items h (omega arith),
        ← append_items-append_item made (list sent) (items_of false es h'),
      )
      (build-Sendable es nested false tail fuel more (append_item made (list sent)) h'
        (omega arith))

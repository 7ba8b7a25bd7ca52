-- ===== src/Rasvn/Tuple/Shape.antt =====
-- Tuples of rasvn/marshal.go as trees: the fields of a pattern with the values that a call of
-- `WriteTuple` is given for them, and what the destinations of `ParseTuple` held before.
use go_svn.Base.{
  ℕ, ◌≤◌, ◌<◌, ◌≡◌, refl, Bool, true, false, ◌⊎◌, List, [], ◌∷◌, ◌++◌, Bytes, codes, equal, ◌==◌,
  none, some, leb-true, arith,
}
use go_svn.Base.Int.{ℤ, pos, negsuc}
use go_svn.Base.Outcome.{ok}
use go_svn.Rasvn.Encode.{AreItems, IsItem}
use go_svn.Rasvn.Item.{Item, Items, number, word, string, list, no_items, uint64_end}
use go_svn.Rasvn.Tuple.{
  Value, Slot, kind_of, plain, tuple_item, assign_tuple_value, missing_value, max_revision,
}

mutual
  pub data Entry : Type 0 where
    field : (code : ℕ) → Value → Slot → Entry
    group : Entries → Entry

  pub data Entries : Type 0 where
    end : Entries
    optional_from : Entries → Entries
    entry : Entry → Entries → Entries

unfoldable pub pattern_of : Entries → Bytes
pattern_of end = []
pattern_of (optional_from es) = 63 ∷ pattern_of es
pattern_of (entry (field code v slot) es) = code ∷ pattern_of es
pattern_of (entry (group inner) es) = 40 ∷ (pattern_of inner ++ (41 ∷ pattern_of es))

unfoldable pub values_of : Entries → List Value
values_of end = []
values_of (optional_from es) = values_of es
values_of (entry (field code v slot) es) = v ∷ values_of es
values_of (entry (group inner) es) = values_of inner ++ values_of es

unfoldable pub slots_of : Entries → List Slot
slots_of end = []
slots_of (optional_from es) = slots_of es
slots_of (entry (field code v slot) es) = slot ∷ slots_of es
slots_of (entry (group inner) es) = slots_of inner ++ slots_of es

-- What a destination holds in the end: the value, and for one that is absent `InvalidRevnum`, or
-- the empty string or list.
abbrev pub received : Value → Slot
received (Value.text s) = Slot.text s
received (Value.text_pointer none) = Slot.text []
received (Value.text_pointer (some s)) = Slot.text s
received (Value.octets s) = Slot.octets s
received (Value.octets_pointer none) = Slot.octets []
received (Value.octets_pointer (some s)) = Slot.octets s
received (Value.revision r) = Slot.revision r
received (Value.unsigned n) = Slot.unsigned n
received (Value.boolean b) = Slot.boolean b
received (Value.items is) = Slot.items is
received (Value.items_pointer none) = Slot.items no_items
received (Value.items_pointer (some is)) = Slot.items is
received Value.other = Slot.other

-- The value fits the code and the destination, and it is there.
pub data Sent : (code : ℕ) → Value → Slot → Type 0 where
  text : (s old : Bytes) → Sent b'c' (Value.text s) (Slot.text old)
  text_pointer : (s old : Bytes) → Sent b'c' (Value.text_pointer (some s)) (Slot.text old)
  octets : (s old : Bytes) → Sent b's' (Value.octets s) (Slot.octets old)
  octets_pointer : (s old : Bytes) → Sent b's' (Value.octets_pointer (some s)) (Slot.octets old)
  word_text : (s old : Bytes) → Sent b'w' (Value.text s) (Slot.text old)
  revision :
      (r : ℕ) (old : ℤ) → r ≤ max_revision → Sent b'r' (Value.revision (pos r)) (Slot.revision old)
  unsigned : (n old : ℕ) → n < uint64_end → Sent b'n' (Value.unsigned n) (Slot.unsigned old)
  boolean : (b old : Bool) → Sent b'b' (Value.boolean b) (Slot.boolean old)
  items : (is old : Items) → AreItems is → Sent b'l' (Value.items is) (Slot.items old)
  items_pointer :
      (is old : Items) → AreItems is → Sent b'l' (Value.items_pointer (some is)) (Slot.items old)

-- The value fits them, and it is absent.
pub data Omitted : (code : ℕ) → Value → Slot → Type 0 where
  text_pointer : (old : Bytes) → Omitted b'c' (Value.text_pointer none) (Slot.text old)
  octets_pointer : (old : Bytes) → Omitted b's' (Value.octets_pointer none) (Slot.octets old)
  revision : (old : ℤ) → Omitted b'r' (Value.revision (negsuc 0)) (Slot.revision old)
  items_pointer : (old : Items) → Omitted b'l' (Value.items_pointer none) (Slot.items old)

-- Behind a value that is absent, all of them are, up to the end of the group.
abbrev pub AllOmitted : Entries → Type 0
AllOmitted end = Unit
AllOmitted (optional_from es) = AllOmitted es
AllOmitted (entry (field code v slot) es) = Omitted code v slot × AllOmitted es
AllOmitted (entry (group inner) es) = ⊥

-- Every value fits; absent ones are optional and the last ones of their group.
abbrev pub Sendable : (optional : Bool) → Entries → Type 0
Sendable optional end = Unit
Sendable optional (optional_from es) = Sendable true es
Sendable optional (entry (field code v slot) es) =
    (Sent code v slot × Sendable optional es)
    ⊎ ((optional ≡ true) × Omitted code v slot × AllOmitted es)
Sendable optional (entry (group inner) es) = Sendable false inner × Sendable false es

pub Sent-item :
    (code : ℕ) (v : Value) (slot : Slot)
    → Sent code v slot
    → (i : Item) × (tuple_item code v ≡ ok (some i))
      × IsItem i
      × (kind_of code ≡ plain)
      × (assign_tuple_value i code slot ≡ ok (received v))
unfolding tuple_item assign_tuple_value equal
Sent-item _ _ _ (Sent.text s old) = (string s, refl, tt, refl, refl)
Sent-item _ _ _ (Sent.text_pointer s old) = (string s, refl, tt, refl, refl)
Sent-item _ _ _ (Sent.octets s old) = (string s, refl, tt, refl, refl)
Sent-item _ _ _ (Sent.octets_pointer s old) = (string s, refl, tt, refl, refl)
Sent-item _ _ _ (Sent.word_text s old) = (word s, refl, tt, refl, refl)
Sent-item _ _ _ (Sent.revision r old h) =
    (number r, refl, omega arith, refl, rw (leb-true r max_revision h) refl)
Sent-item _ _ _ (Sent.unsigned n old h) = (number n, refl, h, refl, refl)
Sent-item _ _ _ (Sent.boolean true old) = (word (codes "true"), refl, tt, refl, refl)
Sent-item _ _ _ (Sent.boolean false old) = (word (codes "false"), refl, tt, refl, refl)
Sent-item _ _ _ (Sent.items is old h) = (list is, refl, h, refl, refl)
Sent-item _ _ _ (Sent.items_pointer is old h) = (list is, refl, h, refl, refl)

pub Omitted-item :
    (code : ℕ) (v : Value) (slot : Slot)
    → Omitted code v slot
    → (tuple_item code v ≡ ok none)
      × (kind_of code ≡ plain)
      × ((code == 40) ≡ false)
      × (missing_value slot ≡ ok (received v))
unfolding tuple_item missing_value
Omitted-item _ _ _ (Omitted.text_pointer old) = (refl, refl, refl, refl)
Omitted-item _ _ _ (Omitted.octets_pointer old) = (refl, refl, refl, refl)
Omitted-item _ _ _ (Omitted.revision old) = (refl, refl, refl, refl)
Omitted-item _ _ _ (Omitted.items_pointer old) = (refl, refl, refl, refl)

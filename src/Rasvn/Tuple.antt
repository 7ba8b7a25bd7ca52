-- ===== src/Rasvn/Tuple.antt =====
-- rasvn/marshal.go: `WriteTuple` and `ParseTuple`, the items of a tuple by a pattern. The values and
-- the destinations that a call may be given are data types here: a value of another type is
-- `Value.other` or `Slot.other`. A slot is what a destination holds; no two of them are the same
-- variable, and a nil slice is an empty one. What a call that fails has stored is left out.
pub mod Shape
pub mod Send
pub mod Receive
pub mod Wire
use go_svn.Base.{
  ℕ, zero, suc, ◌+◌, ◌-◌, Bool, true, false, not, ◌||◌, ◌&&◌, List, [], ◌∷◌, ◌++◌, Bytes, codes,
  equal, leb, ◌==◌, if◌then◌else◌, Option, none, some,
}
use go_svn.Base.Int.{ℤ, pos, negsuc}
use go_svn.Base.Outcome.{Outcome, ok, err, out_of_fuel, ra_svn_malformed, ◌>>=◌, ◌>>◌, guard}
use go_svn.Rasvn.Item.{
  Item, Items, number, word, string, list, no_items, item, append_item, encode, encode_item,
}

pub data Value : Type 0 where
  text : Bytes → Value
  text_pointer : Option Bytes → Value
  octets : Bytes → Value
  octets_pointer : Option Bytes → Value
  revision : ℤ → Value
  unsigned : ℕ → Value
  boolean : Bool → Value
  items : Items → Value
  items_pointer : Option Items → Value
  other : Value

pub data TriState : Type 0 where
  unknown : TriState
  is_false : TriState
  is_true : TriState

pub data Slot : Type 0 where
  text : Bytes → Slot
  octets : Bytes → Slot
  revision : ℤ → Slot
  unsigned : ℕ → Slot
  boolean : Bool → Slot
  tri_state : TriState → Slot
  items : Items → Slot
  other : Slot

-- What the loops over a pattern do with one of its bytes.
pub data Code : Type 0 where
  question close bang open_group plain : Code

abbrev pub kind_of : ℕ → Code
kind_of code =
    if code == 63
    then question
    else if code == 41
    then close
    else if code == 33
    then bang
    else if code == 40
    then open_group
    else plain

abbrev malformed {ℓ} : {A : Type ℓ} → Outcome A
malformed = err ra_svn_malformed

abbrev pub none_left {ℓ} : {A : Type ℓ} → List A → Bool
none_left [] = true
none_left (x ∷ xs) = false

abbrev when {ℓ} : {A : Type ℓ} → Bool → A → Outcome A
when test a = if test then ok a else malformed

-- `tupleItem`: the item, or none for a value that is absent.
unfoldable pub tuple_item : (code : ℕ) → Value → Outcome (Option Item)
tuple_item code (Value.text s) =
    if code == b'c' then ok (some (string s)) else when (code == b'w') (some (word s))
tuple_item code (Value.text_pointer none) = when (code == b'c') none
tuple_item code (Value.text_pointer (some s)) = when (code == b'c') (some (string s))
tuple_item code (Value.octets s) = when (code == b's') (some (string s))
tuple_item code (Value.octets_pointer none) = when (code == b's') none
tuple_item code (Value.octets_pointer (some s)) = when (code == b's') (some (string s))
tuple_item code (Value.revision (pos r)) = when (code == b'r') (some (number r))
tuple_item code (Value.revision (negsuc zero)) = when (code == b'r') none
tuple_item code (Value.revision (negsuc (suc r))) = malformed
tuple_item code (Value.unsigned n) = when (code == b'n') (some (number n))
tuple_item code (Value.boolean true) = when (code == b'b') (some (word (codes "true")))
tuple_item code (Value.boolean false) = when (code == b'b') (some (word (codes "false")))
tuple_item code (Value.items is) = when (code == b'l') (some (list is))
tuple_item code (Value.items_pointer none) = when (code == b'l') none
tuple_item code (Value.items_pointer (some is)) = when (code == b'l') (some (list is))
tuple_item code Value.other = malformed

pub record Built : Type 0 where
  pub made : Items
  pub present : Bool
  pub pattern : Bytes
  pub values : List Value

abbrev next_value : List Value → Outcome (Value × List Value)
next_value [] = malformed
next_value (value ∷ values) = ok (value, values)

abbrev pub append_present : Items → Option Item → Items
append_present made none = made
append_present made (some i) = append_item made i

abbrev pub is_some {ℓ} : {A : Type ℓ} → Option A → Bool
is_some none = false
is_some (some a) = true

-- `buildTupleItems`: the items, and what is left of the pattern and of the values. Each byte of the
-- pattern costs a unit of fuel.
unfoldable pub build_tuple_items :
    (fuel : ℕ) (nested optional : Bool) (pattern : Bytes) (values : List Value) (made : Items)
    → Outcome Built
build_tuple_items zero nested optional pattern values made = out_of_fuel
build_tuple_items (suc fuel) nested optional [] values made = do
  guard (not nested) ra_svn_malformed
  ok (record { made = made; present = true; pattern = []; values = values })
build_tuple_items (suc fuel) nested optional (code ∷ pattern) values made = elim (kind_of code) [
  | question ↦ build_tuple_items fuel nested true pattern values made
  | close ↦ do
    guard nested ra_svn_malformed
    ok (record { made = made; present = true; pattern = pattern; values = values })
  | bang ↦ do
    guard (none_left pattern) ra_svn_malformed
    ok (record { made = made; present = false; pattern = pattern; values = values })
  | open_group ↦ do
    group ← build_tuple_items fuel true false pattern values no_items
    build_tuple_items fuel nested false group.pattern group.values
        (if group.present || not optional then append_item made (list group.made) else made)
  | plain ↦ do
    (value, values') ← next_value values
    i ← tuple_item code value
    guard (is_some i || optional) ra_svn_malformed
    build_tuple_items fuel nested optional pattern values' (append_present made i)
]

-- A pattern that starts with `!` is for items that no list wraps.
abbrev pub wraps : Bytes → Bool
wraps [] = true
wraps (code ∷ pattern) = not (code == 33)

abbrev pub unwrapped : Bytes → Bytes
unwrapped [] = []
unwrapped (code ∷ pattern) = if code == 33 then pattern else code ∷ pattern

abbrev pub pattern_fuel : Bytes → ℕ
pattern_fuel [] = 1
pattern_fuel (code ∷ pattern) = suc (pattern_fuel pattern)

unfoldable pub build_tuple : (pattern : Bytes) (values : List Value) → Outcome (Items × Bool)
build_tuple pattern values = do
  built ← build_tuple_items (pattern_fuel pattern) false false (unwrapped pattern) values no_items
  guard (none_left built.values) ra_svn_malformed
  ok (built.made, wraps pattern)

-- The loop of `WriteTuple` over items that no list wraps.
unfoldable pub write_items : (output : Bytes) → Items → Outcome Bytes
write_items output no_items = ok output
write_items output (item i is) = do output' ← encode output 0 i; write_items output' is

unfoldable pub write_tuple : (output pattern : Bytes) (values : List Value) → Outcome Bytes
write_tuple output pattern values = do
  (made, wrapped) ← build_tuple pattern values
  (if wrapped then encode output 0 (list made) else write_items output made)

abbrev string_of : Item → Outcome Bytes
string_of (string s) = ok s
string_of i = malformed

abbrev word_of : Item → Outcome Bytes
word_of (word w) = ok w
word_of i = malformed

abbrev number_of : Item → Outcome ℕ
number_of (number n) = ok n
number_of i = malformed

abbrev list_of : Item → Outcome Items
list_of (list is) = ok is
list_of i = malformed

abbrev boolean_of : Item → Outcome Bool
boolean_of (word w) =
    if equal w (codes "true") then ok true else when (equal w (codes "false")) false
boolean_of i = malformed

abbrev put_text : Slot → Bytes → Outcome Slot
put_text (Slot.text old) s = ok (Slot.text s)
put_text slot s = malformed

abbrev put_octets : Slot → Bytes → Outcome Slot
put_octets (Slot.octets old) s = ok (Slot.octets s)
put_octets slot s = malformed

abbrev put_revision : Slot → ℕ → Outcome Slot
put_revision (Slot.revision old) r = ok (Slot.revision (pos r))
put_revision slot r = malformed

abbrev put_unsigned : Slot → ℕ → Outcome Slot
put_unsigned (Slot.unsigned old) n = ok (Slot.unsigned n)
put_unsigned slot n = malformed

abbrev put_boolean : Slot → Bool → Outcome Slot
put_boolean (Slot.boolean old) b = ok (Slot.boolean b)
put_boolean slot b = malformed

abbrev put_tri_state : Slot → Bool → Outcome Slot
put_tri_state (Slot.tri_state old) b = ok (Slot.tri_state (if b then is_true else is_false))
put_tri_state slot b = malformed

abbrev put_items : Slot → Items → Outcome Slot
put_items (Slot.items old) is = ok (Slot.items is)
put_items slot is = malformed

-- 2 ^ 63 - 1
abbrev pub max_revision : ℕ
max_revision = 9223372036854775807

-- `assignTupleValue`, with the destination that the call stores to.
unfoldable pub assign_tuple_value : Item → (code : ℕ) → Slot → Outcome Slot
assign_tuple_value i code slot =
    if code == b'c'
    then string_of i >>= put_text slot
    else if code == b's'
    then string_of i >>= put_octets slot
    else if code == b'w'
    then word_of i >>= put_text slot
    else if code == b'r'
    then (do r ← number_of i; guard (leb r max_revision) ra_svn_malformed; put_revision slot r)
    else if code == b'n'
    then number_of i >>= put_unsigned slot
    else if code == b'b'
    then boolean_of i >>= put_boolean slot
    else if code == b'B'
    then (do b ← boolean_of i; put_unsigned slot (if b then 1 else 0))
    else if code == b'3'
    then boolean_of i >>= put_tri_state slot
    else if code == b'l'
    then list_of i >>= put_items slot
    else malformed

-- `UnspecifiedNumber`
abbrev pub unspecified_number : ℕ
unspecified_number = 18446744073709551615

-- The store of `setMissingTupleValue`.
unfoldable pub missing_value : Slot → Outcome Slot
missing_value (Slot.text old) = ok (Slot.text [])
missing_value (Slot.octets old) = ok (Slot.octets [])
missing_value (Slot.revision old) = ok (Slot.revision (negsuc 0))
missing_value (Slot.unsigned old) = ok (Slot.unsigned unspecified_number)
missing_value (Slot.boolean old) = ok (Slot.boolean false)
missing_value (Slot.tri_state old) = ok (Slot.tri_state unknown)
missing_value (Slot.items old) = ok (Slot.items no_items)
missing_value Slot.other = malformed

-- The destinations that are stored to, and those to come.
pub record Slots : Type 0 where
  pub stored : List Slot
  pub left : List Slot

abbrev store : (Slot → Outcome Slot) → List Slot → List Slot → Outcome Slots
store f stored [] = malformed
store f stored (slot ∷ left) = do
  slot' ← f slot
  ok (record { stored = stored ++ (slot' ∷ []); left = left })

abbrev pub store_next : (Slot → Outcome Slot) → Slots → Outcome Slots
store_next f slots = store f slots.stored slots.left

-- The loop of `setMissingTupleValue` over a group: what is left of the pattern, and the destinations.
unfoldable pub skip_group : (depth : ℕ) (pattern : Bytes) → Slots → Outcome (Bytes × Slots)
skip_group zero pattern slots = ok (pattern, slots)
skip_group (suc depth) [] slots = ok ([], slots)
skip_group (suc depth) (code ∷ pattern) slots = elim (kind_of code) [
  | open_group ↦ skip_group (suc (suc depth)) pattern slots
  | close ↦ skip_group depth pattern slots
  | question ↦ skip_group (suc depth) pattern slots
  | _ ↦ do slots' ← store_next missing_value slots; skip_group (suc depth) pattern slots'
]

unfoldable pub set_missing_tuple_value :
    (code : ℕ) (pattern : Bytes) → Slots → Outcome (Bytes × Slots)
set_missing_tuple_value code pattern slots =
    if code == 40
    then skip_group 1 pattern slots
    else (do slots' ← store_next missing_value slots; ok (pattern, slots'))

-- `parseTupleItems`: what is left of the pattern, and the destinations. Each byte of the pattern
-- costs a unit of fuel.
unfoldable pub parse_tuple_items :
    (fuel : ℕ) (nested optional : Bool) (pattern : Bytes) → Items → Slots → Outcome (Bytes × Slots)
parse_tuple_items zero nested optional pattern is slots = out_of_fuel
parse_tuple_items (suc fuel) nested optional [] is slots = do
  guard (not nested) ra_svn_malformed
  ok ([], slots)
parse_tuple_items (suc fuel) nested optional (code ∷ pattern) is slots = elim (kind_of code) [
  | question ↦ parse_tuple_items fuel nested true pattern is slots
  | close ↦ do guard nested ra_svn_malformed; ok (pattern, slots)
  | bang ↦ do guard (none_left pattern) ra_svn_malformed; ok (pattern, slots)
  | kind ↦ elim is [
    | no_items ↦ do
      guard optional ra_svn_malformed
      (pattern', slots') ← set_missing_tuple_value code pattern slots
      parse_tuple_items fuel nested optional pattern' no_items slots'
    | item i rest ↦ elim kind [
      | open_group ↦ do
        inner ← list_of i
        (pattern', slots') ← parse_tuple_items fuel true false pattern inner slots
        parse_tuple_items fuel nested false pattern' rest slots'
      | _ ↦ do
        slots' ← store_next (assign_tuple_value i code) slots
        parse_tuple_items fuel nested optional pattern rest slots'
    ]
  ]
]

-- `ParseTuple`: what the destinations hold then.
unfoldable pub parse_tuple : Items → (pattern : Bytes) (slots : List Slot) → Outcome (List Slot)
parse_tuple is pattern slots = do
  (_, slots') ←
      parse_tuple_items (pattern_fuel pattern) false false (unwrapped pattern) is
        (record { stored = []; left = slots })
  guard (none_left slots'.left) ra_svn_malformed
  ok slots'.stored

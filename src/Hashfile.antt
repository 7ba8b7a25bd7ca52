-- ===== src/Hashfile.antt =====
-- svn/hashfile/hashfile.go: properties as records of keys and values. A `Props` map is the list of its
-- entries in the order of the keys, which is the order in which `Write` takes them.
pub mod Overlay
pub mod RoundTrip
pub mod Total
use go_svn.Base.{
  ℕ, zero, suc, ◌+◌, ◌-◌, ◌≡◌, Bool, true, false, not, ◌&&◌, ◌||◌, List, [], ◌∷◌, ◌++◌, Bytes,
  codes, equal, ltb, leb, ◌==◌, if◌then◌else◌, length, take, drop,
}
use go_svn.Base.Outcome.{
  Outcome, ok, err, out_of_fuel, malformed_file, incomplete_data, ◌>>=◌, ◌>>◌, guard,
}
use go_svn.Skel.{is_digit, itoa, parse_uint}

abbrev pub max_record_size : ℕ
max_record_size = 67108864

abbrev pub Props : Type 0
Props = List (Bytes × Bytes)

-- The order of strings.
unfoldable pub before : Bytes → Bytes → Bool
before xs [] = false
before [] (y ∷ ys) = true
before (x ∷ xs) (y ∷ ys) = let rest = before xs ys in if x == y then rest else ltb x y

-- `properties[key] = value`
unfoldable pub set_prop : (key value : Bytes) → Props → Props
set_prop key value [] = (key, value) ∷ []
set_prop key value ((k, v) ∷ props) =
    let rest = set_prop key value props in
    if equal key k
    then (key, value) ∷ props
    else if before key k
    then (key, value) ∷ ((k, v) ∷ props)
    else (k, v) ∷ rest

-- `delete(properties, key)`
unfoldable pub delete_prop : (key : Bytes) → Props → Props
delete_prop key [] = []
delete_prop key ((k, v) ∷ props) =
    let rest = delete_prop key props in if equal key k then props else (k, v) ∷ rest

unfoldable pub write_record : (kind : ℕ) (value : Bytes) → Bytes
write_record kind value = (kind ∷ (32 ∷ itoa (length value))) ++ (10 ∷ (value ++ (10 ∷ [])))

-- The loop of `Write` and the end that it writes.
unfoldable pub write : Props → Outcome Bytes
write [] = ok (codes "END\n")
write ((key, value) ∷ props) = do
  guard (not (ltb max_record_size (length key) || ltb max_record_size (length value)))
      malformed_file
  rest ← write props
  ok (write_record 75 key ++ (write_record 86 value ++ rest))

-- `ReadSlice` of a buffer of so many bytes: a line without its newline, and what is behind it.
unfoldable pub read_slice : (buffer : ℕ) → Bytes → Outcome (Bytes × Bytes)
read_slice zero input = err malformed_file
read_slice (suc n) [] = err incomplete_data
read_slice (suc n) (c ∷ input) =
    let more = (do (line, rest) ← read_slice n input; ok (c ∷ line, rest)) in
    if c == 10 then ok ([], input) else more

-- `bytes.TrimSuffix` of a carriage return.
unfoldable pub trim_cr : Bytes → Bytes
trim_cr [] = []
trim_cr (c ∷ []) = if c == 13 then [] else c ∷ []
trim_cr (c ∷ (d ∷ line)) = c ∷ trim_cr (d ∷ line)

-- A kind with a payload and what is behind it.
pub record Record : Type 0 where
  pub kind : ℕ
  pub payload : Bytes
  pub rest : Bytes

unfoldable pub all_digits : Bytes → Bool
all_digits [] = true
all_digits (c ∷ text) = let rest = all_digits text in if is_digit c then rest else false

-- `strconv.ParseUint` and the test of its result. A number above 64 bits is above the limit too.
unfoldable pub parse_length : Bytes → Outcome ℕ
parse_length [] = err malformed_file
parse_length (c ∷ text) = do
  guard (not (c == 43 || c == 45)) malformed_file
  guard (all_digits (c ∷ text)) malformed_file
  guard (leb (parse_uint 0 (c ∷ text)) max_record_size) malformed_file
  ok (parse_uint 0 (c ∷ text))

-- The byte that is to end a record, behind a carriage return or not.
unfoldable pub read_terminator : Bytes → Outcome Bytes
read_terminator [] = err incomplete_data
read_terminator (c ∷ []) =
    if c == 13 then err incomplete_data else if c == 10 then ok [] else err malformed_file
read_terminator (c ∷ (d ∷ input)) =
    if c == 13
    then if d == 10 then ok input else err malformed_file
    else if c == 10
    then ok (d ∷ input)
    else err malformed_file

-- `readRecord` behind its header line.
unfoldable pub read_payload : (kind : ℕ) (length_text input : Bytes) → Outcome Record
read_payload kind length_text input = do
  guard (kind == 75 || kind == 86 || kind == 68) malformed_file
  size ← parse_length length_text
  guard (leb size (length input)) incomplete_data
  rest ← read_terminator (drop size input)
  ok (record { kind = kind; payload = take size input; rest = rest })

unfoldable pub read_header : (header input : Bytes) → Outcome Record
read_header (kind ∷ (space ∷ (c ∷ text))) input =
    if equal (kind ∷ (space ∷ (c ∷ text))) (codes "END")
    then ok (record { kind = 69; payload = []; rest = input })
    else (do guard (space == 32) malformed_file; read_payload kind (c ∷ text) input)
read_header header input = err malformed_file

unfoldable pub read_record : Bytes → Outcome Record
read_record input = do (line, rest) ← read_slice 128 input; read_header (trim_cr line) rest

-- The loop of `read`. A record takes a byte at least.
unfoldable pub read_loop : (fuel : ℕ) (incremental : Bool) → Props → Bytes → Outcome Props
read_loop zero incremental props input = out_of_fuel
read_loop (suc fuel) incremental props input = do
  r ← read_record input
  let deleted = read_loop fuel incremental (delete_prop r.payload props) r.rest
  (if r.kind == 69
      then ok props
      else if r.kind == 68
      then (do guard incremental malformed_file; deleted)
      else if r.kind == 75
      then (do
        v ← read_record r.rest
        guard (v.kind == 86) malformed_file
        read_loop fuel incremental (set_prop r.payload v.payload props) v.rest)
      else err malformed_file)

-- `Read` and `ReadIncremental`
unfoldable pub read : Bytes → Outcome Props
read input = read_loop (suc (length input)) false [] input

unfoldable pub read_incremental : (base : Props) → Bytes → Outcome Props
read_incremental base input = read_loop (suc (length input)) true base input

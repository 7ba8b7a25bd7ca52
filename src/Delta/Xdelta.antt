-- ===== src/Delta/Xdelta.antt =====
-- delta/xdelta.go: one window from a source view to a target view, by block matches found through a
-- rolling hash.
pub mod Hash
pub mod Index
pub mod Blocks
pub mod Match
pub mod Build
use Prim.Native.Nat.{bit_or}
use go_svn.Base.Outcome.{Outcome, at, ok, out_of_fuel, slice, ◌>>=◌, ◌>>◌}
use go_svn.Delta.Window.{Window, op_new, op_source}
use go_svn.Base.Int.{negsuc, pos, ℤ}
use go_svn.Base.{
  Bool, false, length, not, Bytes, List, [], equal, if◌then◌else◌, leb, ltb, suc, zero, ℕ, ◌%◌,
  ◌&&◌, ◌*◌, ◌++◌, ◌+◌, ◌-◌, ◌/◌, ◌==◌, ◌^◌, ◌∷◌,
}

abbrev pub block_size : ℕ
block_size = 64

abbrev pub max_candidates : ℕ
max_candidates = 64

abbrev pub good_match : ℕ
good_match = 1024

-- The loop of `rollingHash` over the bytes left; `len(block)-index` is their number. The sums are
-- uint32.
unfoldable pub rolling_loop : Bytes → (low high : ℕ) → ℕ
rolling_loop [] low high = bit_or low (high * 2 ^ 16 % 2 ^ 32)
rolling_loop (value ∷ block) low high =
    rolling_loop block ((low + value) % 2 ^ 32)
      ((high + length (value ∷ block) * value % 2 ^ 32) % 2 ^ 32)

unfoldable pub rolling_hash : Bytes → ℕ
rolling_hash block = rolling_loop block 0 0

-- uint32 arithmetic: a difference wraps.
unfoldable pub roll_hash : (hash outgoing incoming : ℕ) → ℕ
roll_hash hash outgoing incoming =
    let low : ℕ = ((hash % 2 ^ 16 + 2 ^ 32 - outgoing) % 2 ^ 32 + incoming) % 2 ^ 32 in
    let high : ℕ =
      ((hash / 2 ^ 16 % 2 ^ 16 + 2 ^ 32 - block_size * outgoing % 2 ^ 32) % 2 ^ 32 + low)
      % 2 ^ 32 in
    bit_or (low % 2 ^ 16) (high % 2 ^ 16 * 2 ^ 16 % 2 ^ 32)

-- `map[uint32][]int`; a missing key has no positions.
abbrev pub SourceIndex : Type 0
SourceIndex = List (ℕ × List ℕ)

unfoldable pub index_get : ℕ → SourceIndex → List ℕ
index_get hash [] = []
index_get hash ((key, positions) ∷ index) = if key == hash then positions else index_get hash index

unfoldable pub index_append : ℕ → ℕ → SourceIndex → SourceIndex
index_append hash position [] = (hash, position ∷ []) ∷ []
index_append hash position ((key, positions) ∷ index) =
    if key == hash
    then (key, positions ++ (position ∷ [])) ∷ index
    else (key, positions) ∷ index_append hash position index

unfoldable pub index_loop :
    (fuel : ℕ) (source : Bytes) (position hash : ℕ) → SourceIndex → Outcome SourceIndex
index_loop zero source position hash index = out_of_fuel
index_loop (suc fuel) source position hash index =
    let round = (do
      outgoing ← at source (position - 1)
      incoming ← at source (position + block_size - 1)
      let hash' = roll_hash hash outgoing incoming
      index_loop fuel source (position + 1) hash' (index_append hash' position index)) in
    if leb (position + block_size) (length source) then round else ok index

unfoldable pub build_source_index : Bytes → Outcome SourceIndex
build_source_index source = if ltb (length source) block_size then ok [] else (do
  first ← slice source 0 block_size
  index_loop (length source) source 1 (rolling_hash first) (index_append (rolling_hash first) 0 []))

-- The innermost loop of `buildWindow`: the match from `candidate` is lengthened.
unfoldable pub extend :
    (fuel : ℕ) (source target : Bytes) (candidate position length : ℕ) → Outcome ℕ
extend zero source target candidate position n = out_of_fuel
extend (suc fuel) source target candidate position n =
    let longer = extend fuel source target candidate position (n + 1) in
    if ltb (candidate + n) (length source) && ltb (position + n) (length target)
    then (do
      a ← at source (candidate + n)
      b ← at target (position + n)
      if a == b then longer else ok n)
    else ok n

-- One round of the loop over the candidates, with the best match so far: the best match after it,
-- and whether the loop is left.
unfoldable pub try_candidate :
    (source target : Bytes) (position candidate : ℕ) (match_offset : ℤ) (match_length : ℕ)
    → Outcome (ℤ × ℕ × Bool)
try_candidate source target position candidate match_offset match_length = do
  block ← slice source candidate (candidate + block_size)
  wanted ← slice target position (position + block_size)
  (if not (equal block wanted) then ok (match_offset, match_length, false) else (do
    n ← extend (length target) source target candidate position block_size
    (if ltb match_length n
        then ok (pos candidate, n, leb good_match n)
        else ok (match_offset, match_length, false))))

unfoldable pub find_match :
    (source target : Bytes) (position : ℕ)
    → List ℕ
    → (match_offset : ℤ) (match_length : ℕ) → Outcome (ℤ × ℕ)
find_match source target position [] match_offset match_length = ok (match_offset, match_length)
find_match source target position (candidate ∷ candidates) match_offset match_length = do
  (match_offset', match_length', stop) ←
      try_candidate source target position candidate match_offset match_length
  let rest = find_match source target position candidates match_offset' match_length'
  (if stop then ok (match_offset', match_length') else rest)

-- The candidates at a position, cut to the first ones, and the best match among them.
unfoldable pub match_at : (source target : Bytes) → SourceIndex → (position : ℕ) → Outcome (ℤ × ℕ)
match_at source target index position =
    if leb (position + block_size) (length target)
    then (do
      block ← slice target position (position + block_size)
      let candidates = index_get (rolling_hash block) index
      candidates' ←
          (if ltb max_candidates (length candidates)
            then slice candidates 0 max_candidates
            else ok candidates)
      find_match source target position candidates' (negsuc 0) 0)
    else ok (negsuc 0, 0)

unfoldable pub append_literal : Window → Bytes → Window
append_literal w [] = w
append_literal w (b ∷ literal) = record w {
  ops =
      w.ops
      ++ (record {
        kind = op_new;
        offset = pos (length w.new_data);
        length = pos (length (b ∷ literal));
      }
          ∷ []);
  new_data = w.new_data ++ (b ∷ literal);
}

unfoldable pub append_source : Window → (match_offset : ℤ) (match_length : ℕ) → Window
append_source w match_offset match_length = record w {
  ops =
      w.ops ++ (record { kind = op_source; offset = match_offset; length = pos match_length } ∷ []);
}

-- One round of the loop of `buildWindow`: the new start of the pending literal, position and window.
unfoldable pub build_round :
    (source target : Bytes)
    → SourceIndex
    → (literal_start position : ℕ) → Window
    → Outcome (ℕ × ℕ × Window)
build_round source target index literal_start position w = do
  (match_offset, match_length) ← match_at source target index position
  (if match_length == 0 then ok (literal_start, position + 1, w) else (do
    literal ← slice target literal_start position
    ok (
      position + match_length,
      position + match_length,
      append_source (append_literal w literal) match_offset match_length,
    )))

unfoldable pub build_loop :
    (fuel : ℕ) (source target : Bytes)
    → SourceIndex
    → (literal_start position : ℕ) → Window
    → Outcome (ℕ × Window)
build_loop zero source target index literal_start position w = out_of_fuel
build_loop (suc fuel) source target index literal_start position w =
    let round = (do
      (literal_start', position', w') ← build_round source target index literal_start position w
      build_loop fuel source target index literal_start' position' w') in
    if ltb position (length target) then round else ok (literal_start, w)

-- A round takes a byte of the target at least, and one more round ends the loop.
unfoldable pub build_window : (source target : Bytes) (source_offset : ℤ) → Outcome Window
build_window source target source_offset = do
  index ← build_source_index source
  (literal_start, w) ← build_loop (suc (length target)) source target index 0 0 (record {
    source_offset = source_offset;
    source_length = pos (length source);
    target_length = pos (length target);
    ops = [];
    new_data = [];
  })
  literal ← slice target literal_start (length target)
  ok (append_literal w literal)

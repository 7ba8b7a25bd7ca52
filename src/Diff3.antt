-- ===== src/Diff3.antt =====
-- internal/diff3/diff3.go: the merge of two texts that were made from a third one, line by line.
pub mod Patch
pub mod Spaced
pub mod Groups
pub mod OneSided
pub mod BothSides
use go_svn.Base.{
  ℕ, zero, suc, ◌+◌, ◌-◌, Bool, true, false, not, ◌&&◌, ◌||◌, List, [], ◌∷◌, ◌++◌, Bytes, codes,
  ltb, leb, ◌==◌, equal, if◌then◌else◌, length, drop, min,
}
use go_svn.Base.Outcome.{Outcome, ok, out_of_fuel, ◌>>=◌, slice}
use go_svn.Lcs.{cell, table}

-- The result of a merge.
pub record Merged : Type 0 where
  pub contents : Bytes
  pub conflicted : Bool

-- The lines from `start` up to `stop`, the field `end`, replaced by others.
pub record Hunk : Type 0 where
  pub start : ℕ
  pub stop : ℕ
  pub lines : List Bytes

-- `contents[:index+1]` and `contents[index+1:]` at the first newline, or all and nothing.
unfoldable pub take_line : Bytes → Bytes × Bytes
take_line [] = ([], [])
take_line (c ∷ text) =
    let (line, rest) = take_line text in if c == 10 then (c ∷ [], text) else (c ∷ line, rest)

-- `splitLines`: a round takes a byte at least.
unfoldable pub split_contents : (fuel : ℕ) → Bytes → List Bytes
split_contents fuel [] = []
split_contents zero (c ∷ text) = []
split_contents (suc fuel) (c ∷ text) =
    let (line, rest) = take_line (c ∷ text) in line ∷ split_contents fuel rest

-- What the loops of `differences` work on: the two indices, the lines left behind them, and the lines
-- of the hunk so far.
pub record Progress : Type 0 where
  pub left : ℕ
  pub right : ℕ
  pub base : List Bytes
  pub target : List Bytes
  pub replacement : List Bytes

abbrev pub progress : (left right : ℕ) (base target replacement : List Bytes) → Progress
progress left right base target replacement = record {
  left = left;
  right = right;
  base = base;
  target = target;
  replacement = replacement;
}

-- The inner loop, up to the next line that both have. A round takes a line.
unfoldable pub replace_loop :
    List (List ℕ) → (fuel left right : ℕ) (base target replacement : List Bytes) → Progress
replace_loop t zero i j base target r = progress i j base target r
replace_loop t (suc fuel) i j [] [] r = progress i j [] [] r
replace_loop t (suc fuel) i j [] (n ∷ target) r =
    replace_loop t fuel i (j + 1) [] target (r ++ (n ∷ []))
replace_loop t (suc fuel) i j (o ∷ base) [] r = replace_loop t fuel (i + 1) j base [] r
replace_loop t (suc fuel) i j (o ∷ base) (n ∷ target) r =
    let added = replace_loop t fuel i (j + 1) (o ∷ base) target (r ++ (n ∷ [])) in
    let removed = replace_loop t fuel (i + 1) j base (n ∷ target) r in
    if equal o n
    then progress i j (o ∷ base) (n ∷ target) r
    else if ltb (cell t (i + 1) j) (cell t i (j + 1))
    then added
    else removed

abbrev pub starts_equal : List Bytes → List Bytes → Bool
starts_equal [] target = false
starts_equal (o ∷ base) [] = false
starts_equal (o ∷ base) (n ∷ target) = equal o n

-- The outer loop. A round takes a line of either text at least.
unfoldable pub differences_loop :
    List (List ℕ) → (fuel left right : ℕ) (base target : List Bytes) → List Hunk
differences_loop t zero i j base target = []
differences_loop t (suc fuel) i j base target =
    let next = replace_loop t (length base + length target) i j base target [] in
    let skipped = differences_loop t fuel (i + 1) (j + 1) (drop 1 base) (drop 1 target) in
    let changed = differences_loop t fuel next.left next.right next.base next.target in
    if length base == 0 && length target == 0
    then []
    else if starts_equal base target
    then skipped
    else record { start = i; stop = next.left; lines = next.replacement } ∷ changed

unfoldable pub differences : (base target : List Bytes) → List Hunk
differences base target =
    differences_loop (table equal base target) (length base + length target) 0 0 base target

-- The loop of `apply` and what is behind it.
unfoldable pub apply_hunks :
    (base : List Bytes) (position stop : ℕ) → List Hunk → Outcome (List Bytes)
apply_hunks base position stop [] = slice base position stop
apply_hunks base position stop (change ∷ changes) = do
  kept ← slice base position change.start
  rest ← apply_hunks base change.stop stop changes
  ok (kept ++ (change.lines ++ rest))

unfoldable pub touches : Hunk → (start stop : ℕ) → Bool
touches change start stop =
    if start == stop
    then change.start == start
    else if change.start == change.stop
    then leb start change.start && ltb change.start stop
    else ltb change.start stop && ltb start change.stop

-- A loop over the hunks of one side that touch the lines from `start` up to `stop`: these hunks, where
-- the lines end now, and the hunks behind.
pub record Gathered : Type 0 where
  pub taken : List Hunk
  pub stop : ℕ
  pub rest : List Hunk

unfoldable pub gather : (start stop : ℕ) → List Hunk → Gathered
gather start stop [] = record { taken = []; stop = stop; rest = [] }
gather start stop (change ∷ changes) =
    let more = gather start (if ltb stop change.stop then change.stop else stop) changes in
    if touches change start stop
    then record { taken = change ∷ more.taken; stop = more.stop; rest = more.rest }
    else record { taken = []; stop = stop; rest = change ∷ changes }

-- The hunks of both sides that are merged in one round.
pub record Group : Type 0 where
  pub mine : List Hunk
  pub theirs : List Hunk
  pub stop : ℕ
  pub mine_rest : List Hunk
  pub theirs_rest : List Hunk

-- `for { changed := false; ... }`: a round that takes no hunk ends it.
unfoldable pub gather_both : (fuel start stop : ℕ) (mine theirs : List Hunk) → Group
gather_both zero start stop mine theirs = record {
  mine = [];
  theirs = [];
  stop = stop;
  mine_rest = mine;
  theirs_rest = theirs;
}
gather_both (suc fuel) start stop mine theirs =
    let a = gather start stop mine in
    let b = gather start a.stop theirs in
    let more = gather_both fuel start b.stop a.rest b.rest in
    if length a.taken + length b.taken == 0
    then record { mine = []; theirs = []; stop = stop; mine_rest = mine; theirs_rest = theirs }
    else record {
      mine = a.taken ++ more.mine;
      theirs = b.taken ++ more.theirs;
      stop = more.stop;
      mine_rest = more.mine_rest;
      theirs_rest = more.theirs_rest;
    }

-- `join` and `writeLines`
unfoldable pub join_lines : List Bytes → Bytes
join_lines [] = []
join_lines (line ∷ lines) = line ++ join_lines lines

abbrev next_start : ℕ → List Hunk → ℕ
next_start limit [] = limit
next_start limit (change ∷ changes) = min change.start limit

module _ (old_label new_label : Bytes) where
  unfoldable pub conflict : (mine base theirs : List Bytes) → Bytes
  conflict mine base theirs =
      (codes "<<<<<<< .mine\n" ++ join_lines mine)
      ++ (((codes "||||||| " ++ old_label) ++ ((10 ∷ []) ++ join_lines base))
          ++ ((codes "=======\n" ++ join_lines theirs)
              ++ ((codes ">>>>>>> " ++ new_label) ++ (10 ∷ []))))

  -- The `switch` of `Merge`: what is written for a group of hunks, and whether it is a conflict.
  unfoldable pub resolve : Group → (mine base theirs : List Bytes) → Bytes × Bool
  resolve group mine base theirs =
      if length group.mine == 0
      then (join_lines theirs, false)
      else if length group.theirs == 0 || equal (join_lines mine) (join_lines theirs)
      then (join_lines mine, false)
      else (conflict mine base theirs, true)

  -- What a round of `Merge` writes: the lines before a group of hunks, and what becomes of the group.
  unfoldable pub merge_group :
      (base : List Bytes) (position next : ℕ) → Group → Outcome (Bytes × Bool)
  merge_group base position next group = do
    kept ← slice base position next
    mine ← apply_hunks base next group.stop group.mine
    theirs ← apply_hunks base next group.stop group.theirs
    between ← slice base next group.stop
    let (written, conflicts) = resolve group mine between theirs
    ok (join_lines kept ++ written, conflicts)

  -- The loop of `Merge`, and the lines behind it. A round takes a hunk of either side.
  unfoldable pub merge_loop :
      (fuel : ℕ) (base : List Bytes) (position : ℕ) (mine theirs : List Hunk) → Outcome Merged
  merge_loop fuel base position [] [] = do
    rest ← slice base position (length base)
    ok (record { contents = join_lines rest; conflicted = false })
  merge_loop zero base position mine theirs = out_of_fuel
  merge_loop (suc fuel) base position mine theirs =
      let next = next_start (next_start (length base) mine) theirs in
      let group = gather_both (suc (length mine + length theirs)) next next mine theirs in
      do
        (written, conflicts) ← merge_group base position next group
        rest ← merge_loop fuel base group.stop group.mine_rest group.theirs_rest
        ok (record {
          contents = written ++ rest.contents;
          conflicted = conflicts || rest.conflicted;
        })

  unfoldable pub merge : (base mine theirs : Bytes) → Outcome Merged
  merge base mine theirs =
      let base_lines = split_contents (length base) base in
      let mine_hunks = differences base_lines (split_contents (length mine) mine) in
      let their_hunks = differences base_lines (split_contents (length theirs) theirs) in
      merge_loop (length mine_hunks + length their_hunks) base_lines 0 mine_hunks their_hunks

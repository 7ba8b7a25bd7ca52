-- ===== src/Diff3/Groups.antt =====
-- The groups of hunks of `Merge` of internal/diff3/diff3.go, and the lines that are written for them.
use go_svn.Base.{
  ℕ, zero, suc, ◌+◌, ◌-◌, ◌≤◌, ◌≡◌, refl, sym, ap, ◌∙◌, ◌==◌, true, false, List, [], ◌∷◌, ◌++◌,
  Bytes, ltb, if◌then◌else◌, length, arith, Bool-cases, inl, inr, append_assoc, append-nil,
}
use go_svn.Base.Outcome.{ok, slice_lem}
use go_svn.Diff3.{
  Hunk, Gathered, apply_hunks, gather, gather_both, join_lines, split_contents, take_line, touches,
}
use go_svn.Diff3.Spaced.{Spaced}

join_lines-append : (xs ys : List Bytes) → join_lines (xs ++ ys) ≡ join_lines xs ++ join_lines ys
unfolding join_lines
join_lines-append [] ys = refl
join_lines-append (x ∷ xs) ys =
    rw (join_lines-append xs ys) (sym (append_assoc x (join_lines xs) (join_lines ys)))

-- The lines before a hunk, its own, and those behind it.
pub join_lines-append_two :
    (kept lines rest : List Bytes)
    → (join_lines kept ++ join_lines lines) ++ join_lines rest
      ≡ join_lines (kept ++ (lines ++ rest))
join_lines-append_two kept lines rest =
    append_assoc (join_lines kept) (join_lines lines) (join_lines rest)
    ∙ ap (λ t. join_lines kept ++ t) (sym (join_lines-append lines rest))
    ∙ sym (join_lines-append kept (lines ++ rest))

-- The bytes of a line and of what is behind it.
take_line_lem :
    (text : Bytes)
    → ((take_line text).0 ++ (take_line text).1 ≡ text)
      × (length (take_line text).1 ≤ length text - 1)
unfolding take_line
take_line_lem [] = (refl, omega arith)
take_line_lem (c ∷ text) =
    let (whole, shorter) = take_line_lem text in
    elim (Bool-cases (c == 10)) [
      | inl e ↦ rw e (refl, omega arith)
      | inr e ↦ rw e (ap (λ t. c ∷ t) whole, omega (arith, shorter))
    ]

pub join_lines-split_contents :
    (fuel : ℕ) (text : Bytes) → length text ≤ fuel → join_lines (split_contents fuel text) ≡ text
unfolding split_contents join_lines
join_lines-split_contents fuel [] h = refl
join_lines-split_contents zero (c ∷ text) h = absurd (omega arith)
join_lines-split_contents (suc fuel) (c ∷ text) h =
    let (whole, shorter) = take_line_lem (c ∷ text) in
    rw (join_lines-split_contents fuel (take_line (c ∷ text)).1 (omega (arith, shorter))) whole

touches_after :
    (start stop : ℕ) (change : Hunk)
    → start ≤ stop
    → stop + 1 ≤ change.start
    → change.start ≤ change.stop
    → touches change start stop ≡ false
unfolding touches
touches_after start stop change le after forward = ground arith

touches_first : (change : Hunk) → touches change change.start change.start ≡ true
unfolding touches
touches_first change = ground arith

-- The hunks behind one are not taken with it.
pub gather_none :
    (start stop count : ℕ) (changes : List Hunk)
    → start ≤ stop
    → Spaced (stop + 1) count changes
    → gather start stop changes ≡ record { taken = []; stop = stop; rest = changes }
unfolding gather
gather_none start stop count [] le h = refl
gather_none start stop count (next ∷ changes) le (after, forward, inside, h) =
    let apart : touches next start stop ≡ false = touches_after start stop next le after forward in
    rw apart

pub gather_one :
    (change : Hunk) (changes : List Hunk) (count : ℕ)
    → change.start ≤ change.stop
    → Spaced (change.stop + 1) count changes
    → gather change.start change.start (change ∷ changes)
      ≡ record { taken = change ∷ []; stop = change.stop; rest = changes }
unfolding gather
gather_one change changes count le h =
    let first : touches change change.start change.start ≡ true = touches_first change in
    let furthest : (if ltb change.start change.stop then change.stop else change.start)
        ≡ change.stop =
      ground arith in
    rw (first, furthest, gather_none change.start change.stop count changes le h)

pub gather_empty :
    (start stop : ℕ) → gather start stop [] ≡ record { taken = []; stop = stop; rest = [] }
unfolding gather
gather_empty start stop = refl

-- A round that takes nothing, and one that takes hunks.
pub gather_both_end :
    (fuel start stop : ℕ) (mine theirs : List Hunk)
    → gather start stop mine ≡ record { taken = []; stop = stop; rest = mine }
    → gather start stop theirs ≡ record { taken = []; stop = stop; rest = theirs }
    → gather_both (suc fuel) start stop mine theirs
      ≡ record { mine = []; theirs = []; stop = stop; mine_rest = mine; theirs_rest = theirs }
unfolding gather_both
gather_both_end fuel start stop mine theirs a b = rw (a, b)

pub gather_both_round :
    (fuel start stop : ℕ) (mine theirs : List Hunk) (a b : Gathered)
    → gather start stop mine ≡ a
    → gather start a.stop theirs ≡ b
    → (length a.taken + length b.taken == 0) ≡ false
    → let more = gather_both fuel start b.stop a.rest b.rest in
      gather_both (suc fuel) start stop mine theirs ≡ record {
        mine = a.taken ++ more.mine;
        theirs = b.taken ++ more.theirs;
        stop = more.stop;
        mine_rest = more.mine_rest;
        theirs_rest = more.theirs_rest;
      }
unfolding gather_both
gather_both_round fuel start stop mine theirs a b ea eb e = rw (ea, eb, e)

pub gather_both_mine :
    (change : Hunk) (changes : List Hunk) (fuel count : ℕ)
    → change.start ≤ change.stop
    → Spaced (change.stop + 1) count changes
    → gather_both (suc (suc fuel)) change.start change.start (change ∷ changes) [] ≡ record {
      mine = change ∷ [];
      theirs = [];
      stop = change.stop;
      mine_rest = changes;
      theirs_rest = [];
    }
gather_both_mine change changes fuel count le h =
    gather_both_round (suc fuel) change.start change.start (change ∷ changes) [] _ _
      (gather_one change changes count le h) (gather_empty change.start change.stop) refl
    ∙ rw
        (gather_both_end fuel change.start change.stop changes []
          (gather_none change.start change.stop count changes le h)
          (gather_empty change.start change.stop))
        refl

pub gather_both_theirs :
    (change : Hunk) (changes : List Hunk) (fuel count : ℕ)
    → change.start ≤ change.stop
    → Spaced (change.stop + 1) count changes
    → gather_both (suc (suc fuel)) change.start change.start [] (change ∷ changes) ≡ record {
      mine = [];
      theirs = change ∷ [];
      stop = change.stop;
      mine_rest = [];
      theirs_rest = changes;
    }
gather_both_theirs change changes fuel count le h =
    gather_both_round (suc fuel) change.start change.start [] (change ∷ changes) _ _
      (gather_empty change.start change.start) (gather_one change changes count le h) refl
    ∙ rw
        (gather_both_end fuel change.start change.stop [] changes
          (gather_empty change.start change.stop)
          (gather_none change.start change.stop count changes le h))
        refl

-- A hunk by itself gives its lines.
pub apply_one :
    (base : List Bytes) (change : Hunk)
    → change.start ≤ change.stop
    → change.stop ≤ length base
    → apply_hunks base change.start change.stop (change ∷ []) ≡ ok change.lines
unfolding apply_hunks
apply_one base change le h =
    let none : change.start - change.start ≡ 0 = omega arith in
    let none' : change.stop - change.stop ≡ 0 = omega arith in
    rw
      (
        slice_lem base change.start change.start (omega arith) (omega arith),
        slice_lem base change.stop change.stop (omega arith) h,
        none,
        none',
        append-nil change.lines,
      )
      refl

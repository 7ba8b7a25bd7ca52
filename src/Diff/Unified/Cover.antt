-- ===== src/Diff/Unified/Cover.antt =====
-- The hunks of a unified diff of internal/diff/diff.go, against the operations that they are to show.
use go_svn.Base.{
  ℕ, zero, suc, ◌+◌, ◌-◌, ◌*◌, ◌%◌, ◌^◌, ltb, true, ◌≤◌, ◌<◌, ◌≡◌, refl, Bool-cases, inl, inr, List,
  [], ◌∷◌, leb, length, min, get_elem?, some, All, All-append, ◌++◌, ap, sym, arith,
}
use mathlib.Core.Path.{subst}
use mathlib.Core.Option.{some-injective}
use go_svn.Diff.{Options, Operation, op_equal, op_delete, op_add}
use go_svn.Base.Int.{pos}
use go_svn.Base.Outcome.{ok}
use go_svn.Diff.Unified.{
  to_int, hunk_bounds, changes, last_change, next_hunk, hunks, context_of, script_hunks,
}

-- Increasing numbers from a bound on, below a second one.
abbrev Ascending : (low count : ℕ) → List ℕ → Type 0
Ascending low count [] = Unit
Ascending low count (c ∷ cs) = (low ≤ c) × (c < count) × Ascending (c + 1) count cs

-- Hunks in order, at least one operation apart, none of them empty or running past the end.
abbrev pub Apart : (low count : ℕ) → List (ℕ × ℕ) → Type 0
Apart low count [] = Unit
Apart low count (hunk ∷ rest) =
    (low ≤ hunk.0) × (hunk.0 < hunk.1) × (hunk.1 ≤ count) × Apart (hunk.1 + 1) count rest

-- An index lies in one of the hunks.
pub data InSome (i : ℕ) : List (ℕ × ℕ) → Type 0 where
  here : {hunk : ℕ × ℕ} {rest : List (ℕ × ℕ)} → hunk.0 ≤ i → i < hunk.1 → InSome i (hunk ∷ rest)
  there : {hunk : ℕ × ℕ} {rest : List (ℕ × ℕ)} → InSome i rest → InSome i (hunk ∷ rest)

Ascending_weak :
    (low low' count : ℕ) (cs : List ℕ)
    → low ≤ low'
    → Ascending low' count cs
    → Ascending low count cs
Ascending_weak low low' count [] le h = tt
Ascending_weak low low' count (c ∷ cs) le (h, b, h') = (omega arith, b, h')

changes-Ascending :
    (index count : ℕ) (ops : List Operation)
    → index + length ops ≡ count
    → Ascending index count (changes index ops)
unfolding changes
changes-Ascending index count [] e = tt
changes-Ascending index count (op_equal line ∷ ops) e =
    Ascending_weak index (index + 1) count _ (omega arith)
      (changes-Ascending (index + 1) count ops (omega arith))
changes-Ascending index count (op_delete line ∷ ops) e =
    (omega arith, omega arith, changes-Ascending (index + 1) count ops (omega arith))
changes-Ascending index count (op_add line ∷ ops) e =
    (omega arith, omega arith, changes-Ascending (index + 1) count ops (omega arith))

-- The changes of a hunk, and those behind it.
record IsTaken (context count last : ℕ) (cs : List ℕ) (found : ℕ × List ℕ) : Type 0 where
  consumed : List ℕ
  split : cs ≡ consumed ++ found.1
  reached : All (λ c. (last ≤ c) × (c ≤ found.0)) consumed
  further : last ≤ found.0
  inside : found.0 < count
  behind : Ascending (found.0 + 2 * context + 2) count found.1
  shorter : length found.1 ≤ length cs

All-weak :
    (low low' high : ℕ) (cs : List ℕ)
    → low ≤ low'
    → All (λ c. (low' ≤ c) × (c ≤ high)) cs
    → All (λ c. (low ≤ c) × (c ≤ high)) cs
All-weak low low' high [] le h = tt
All-weak low low' high (c ∷ cs) le ((a, b), h) = ((omega arith, b), All-weak low low' high cs le h)

to_int-small : (n : ℕ) → n < 2 ^ 63 → to_int n ≡ pos n
to_int-small n h =
    let same : n % 2 ^ 64 ≡ n = omega arith in
    let low : ltb n (2 ^ 63) ≡ true = ground arith in rw (same, low) refl

last_change_lem :
    (context count last : ℕ) (cs : List ℕ)
    → context < 2 ^ 62
    → last < count
    → Ascending (last + 1) count cs
    → IsTaken context count last cs (last_change context last cs)
unfolding last_change
last_change_lem context count last [] small lt h = record {
  consumed = [];
  split = refl;
  reached = tt;
  further = omega arith;
  inside = lt;
  behind = tt;
  shorter = omega arith;
}
last_change_lem context count last (c ∷ cs) small lt (le, below, h) =
    let r = last_change_lem context count c cs small below h in
    rw (to_int-small (2 * context + 1) (omega arith))
      (elim (Bool-cases (leb (c - last + 0) (2 * context + 1 + 0))) [
        | inl e ↦ rw e (record {
          consumed = c ∷ r.consumed;
          split = ap (λ t. c ∷ t) r.split;
          reached =
              ((omega arith, r.further), All-weak last c _ r.consumed (omega arith) r.reached);
          further = omega (arith, r.further);
          inside = r.inside;
          behind = r.behind;
          shorter = omega (arith, r.shorter);
        })
        | inr e ↦ rw e (record {
          consumed = [];
          split = refl;
          reached = tt;
          further = omega arith;
          inside = lt;
          behind = (ground arith, below, h);
          shorter = omega arith;
        })
      ])

-- The first change is far enough for its context to start at a bound.
abbrev Far : (low context : ℕ) → List ℕ → Type 0
Far low context [] = Unit
Far low context (c ∷ cs) = low ≤ c - context

All-InSome_there :
    (hunk : ℕ × ℕ) (rest : List (ℕ × ℕ)) (cs : List ℕ)
    → All (λ c. InSome c rest) cs
    → All (λ c. InSome c (hunk ∷ rest)) cs
All-InSome_there hunk rest [] h = tt
All-InSome_there hunk rest (c ∷ cs) (p, h) = (there p, All-InSome_there hunk rest cs h)

All-InSome_here :
    (start end low high : ℕ) (rest : List (ℕ × ℕ)) (cs : List ℕ)
    → start ≤ low
    → high < end
    → All (λ c. (low ≤ c) × (c ≤ high)) cs
    → All (λ c. InSome c ((start, end) ∷ rest)) cs
All-InSome_here start end low high rest [] a b h = tt
All-InSome_here start end low high rest (c ∷ cs) a b ((p, q), h) =
    (here (omega arith) (omega arith), All-InSome_here start end low high rest cs a b h)

Far-behind :
    (context count last : ℕ) (cs : List ℕ)
    → Ascending (last + 2 * context + 2) count cs
    → Far (min (last + context + 1) count + 1) context cs
Far-behind context count last [] h = tt
Far-behind context count last (c ∷ cs) (le, b, h) = omega arith

next_hunk_lem :
    (context count change : ℕ) (cs : List ℕ)
    → context + count < 2 ^ 62
    → change < count
    → change ≤ (last_change context change cs).0
    → (last_change context change cs).0 < count
    → next_hunk context count change cs
      ≡ ok (
        (change - context, min ((last_change context change cs).0 + context + 1) count),
        (last_change context change cs).1,
      )
unfolding next_hunk hunk_bounds
next_hunk_lem context count change cs small lt le inside =
    let last : ℕ = (last_change context change cs).0 in
    let inner : leb (change - context) (min (last + context + 1) count) ≡ true = ground arith in
    rw (to_int-small (last + context + 1) (omega arith), inner) refl

-- The hunks that the loop finds are apart, and every change lies in one of them.
HasHunks : (fuel context count low : ℕ) → List ℕ → Type 0
HasHunks fuel context count low cs =
    (hs : List (ℕ × ℕ)) × (hunks fuel context count cs ≡ ok hs)
    × Apart low count hs
    × All (λ c. InSome c hs) cs

hunks_lem :
    (fuel context count low : ℕ) (cs : List ℕ)
    → context + count < 2 ^ 62
    → length cs ≤ fuel
    → Ascending 0 count cs
    → Far low context cs
    → HasHunks fuel context count low cs
unfolding hunks HasHunks
hunks_lem fuel context count low [] small f h far = ([], refl, tt, tt)
hunks_lem zero context count low (c ∷ cs) small f h far = absurd (omega arith)
hunks_lem (suc fuel) context count low (c ∷ cs) small f (le, below, h) far =
    let r = last_change_lem context count c cs (omega arith) below h in
    let step = next_hunk_lem context count c cs small below r.further r.inside in
    let last = (last_change context c cs).0 in
    let behind = (last_change context c cs).1 in
    let (rest, run, apart, cover) =
      hunks_lem fuel context count (min (last + context + 1) count + 1) behind small
        (omega (arith, r.shorter)) (Ascending_weak 0 _ count behind (omega arith) r.behind)
        (Far-behind context count last behind r.behind) in
    let hunk : ℕ × ℕ = (c - context, min (last + context + 1) count) in
    let consumed_in =
      All-InSome_here (c - context) (min (last + context + 1) count) c last rest r.consumed
        (omega arith) (omega (arith, r.inside)) r.reached in
    let cover_all : All (λ x. InSome x (hunk ∷ rest)) (c ∷ cs) = (
      here (omega arith) (omega (arith, r.further, r.inside)),
      subst (All (λ x. InSome x (hunk ∷ rest))) (sym r.split) (
          All-append (λ x. InSome x (hunk ∷ rest)) r.consumed behind consumed_in
            (All-InSome_there hunk rest behind cover)),
    ) in
    (
      hunk ∷ rest,
      rw (step, run),
      (far, omega (arith, r.further, r.inside), omega arith, apart),
      cover_all,
    )

-- An operation that does not keep a line.
abbrev pub IsChange : Operation → Type 0
IsChange (op_equal line) = ⊥
IsChange (op_delete line) = Unit
IsChange (op_add line) = Unit

changes-first :
    (hs : List (ℕ × ℕ)) (index : ℕ) (op : Operation) (ops : List Operation)
    → All (λ c. InSome c hs) (changes index (op ∷ ops))
    → IsChange op
    → InSome index hs
unfolding changes
changes-first hs index (op_equal line) ops h c = elim c [ ]
changes-first hs index (op_delete line) ops h c = h.0
changes-first hs index (op_add line) ops h c = h.0

Far-zero : (context : ℕ) (cs : List ℕ) → Far 0 context cs
Far-zero context [] = tt
Far-zero context (c ∷ cs) = omega arith

changes-get :
    (hs : List (ℕ × ℕ)) (index : ℕ) (ops : List Operation) (i : ℕ) (op : Operation)
    → All (λ c. InSome c hs) (changes index ops)
    → get_elem? ops i ≡ some op
    → IsChange op
    → InSome (index + i) hs
unfolding changes
changes-get hs index [] i op h e c = cc
changes-get hs index (o ∷ ops) zero op h e c =
    let same : index + 0 ≡ index = omega arith in
    rw same (changes-first hs index o ops h (subst IsChange (sym (some-injective _ _ e)) c))
changes-get hs index (op_equal line ∷ ops) (suc i) op h e c =
    let same : index + suc i ≡ index + 1 + i = omega arith in
    rw same (changes-get hs (index + 1) ops i op h e c)
changes-get hs index (op_delete line ∷ ops) (suc i) op h e c =
    let same : index + suc i ≡ index + 1 + i = omega arith in
    rw same (changes-get hs (index + 1) ops i op h.1 e c)
changes-get hs index (op_add line ∷ ops) (suc i) op h e c =
    let same : index + suc i ≡ index + 1 + i = omega arith in
    rw same (changes-get hs (index + 1) ops i op h.1 e c)

-- Where the lines of context and the operations are together fewer than 2^62, the hunks of a unified
-- diff are found without a panic. They are in order, none of them empty, each ends within the operations
-- and at least one operation before the next, and an operation that does not keep a line lies in one of
-- them.
pub script_hunks-InSome :
    (options : Options) (ops : List Operation) (i : ℕ) (op : Operation)
    → context_of options + length ops < 2 ^ 62
    → get_elem? ops i ≡ some op
    → IsChange op
    → (hs : List (ℕ × ℕ)) × (script_hunks options ops ≡ ok hs)
      × Apart 0 (length ops) hs
      × InSome i hs
unfolding script_hunks HasHunks
script_hunks-InSome options ops i op small e c =
    let (hs, run, apart, cover) =
      hunks_lem (length (changes 0 ops)) (context_of options) (length ops) 0 (changes 0 ops) small
        (omega arith) (changes-Ascending 0 (length ops) ops (omega arith)) (Far-zero _ _) in
    let same : 0 + i ≡ i = omega arith in
    (hs, run, apart, rw same at (changes-get hs 0 ops i op cover e c))

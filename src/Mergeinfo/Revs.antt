-- ===== src/Mergeinfo/Revs.antt =====
-- `ToRevs` of mergeinfo/mergeinfo.go, against what a range list says of a revision.
use go_svn.Mergeinfo.{Range, Rangelist, normalize}
use go_svn.Mergeinfo.Value.{IsProper, join, value, value_of}
use go_svn.Mergeinfo.Algebra.{Nonneg, value-normalize}
use go_svn.Mergeinfo.Canonical.{IsCanonical}
use go_svn.Mergeinfo.Equality.{normalize-IsCanonical}
use go_svn.Mergeinfo.Text.{max_int64, next_int64}
use go_svn.Mergeinfo.Catalog.{revs_loop, range_revs, all_revs, to_revs}
use go_svn.Base.Int.{ℤ, pos, negsuc, pos_part, neg_part, ltb_ℤ, leb_ℤ, eqb_ℤ, ◌<ℤ◌}
use go_svn.Base.Outcome.{ok}
use go_svn.Base.{
  ℕ, zero, suc, ◌+◌, ◌≤◌, ◌<◌, ◌≡◌, ◌==◌, refl, sym, ap, ◌∙◌, Bool, true, false, ◌&&◌, ◌||◌,
  Bool-cases, inl, inr, Option, none, some, List, [], ◌∷◌, ◌++◌, All, arith,
}

-- A revision is in a list of revisions.
unfoldable pub contains : ℤ → List ℤ → Bool
contains x [] = false
contains x (r ∷ revisions) = eqb_ℤ r x || contains x revisions

contains-append : (x : ℤ) (a b : List ℤ) → contains x (a ++ b) ≡ (contains x a || contains x b)
unfolding contains
contains-append x [] b = refl
contains-append x (r ∷ a) b = rw (contains-append x a b) (or_assoc (eqb_ℤ r x) (contains x a) _)
  where
    or_assoc : (p q r : Bool) → (p || (q || r)) ≡ ((p || q) || r)
    or_assoc true q r = refl
    or_assoc false q r = refl

-- A list of ranges says something of a revision.
abbrev pub is_said : Option Bool → Bool
is_said none = false
is_said (some inheritable) = true

is_said-join : (a b : Option Bool) → is_said (join a b) ≡ (is_said a || is_said b)
is_said-join none b = refl
is_said-join (some i) none = refl
is_said-join (some i) (some j) = refl

is_said-value_of : (s e x : ℤ) (i : Bool) → is_said (value_of s e i x) ≡ (ltb_ℤ s x && leb_ℤ x e)
unfolding value_of
is_said-value_of s e x i = elim (Bool-cases (ltb_ℤ s x && leb_ℤ x e)) [
  | inl t ↦ rw t refl
  | inr t ↦ rw t refl
]

next_int64_lem :
    (r : ℤ)
    → r <ℤ pos max_int64
    → pos_part (next_int64 r) + neg_part r ≡ suc (pos_part r + neg_part (next_int64 r))
next_int64_lem (pos n) h = let low : (n == max_int64) ≡ false = ground arith in rw low (omega arith)
next_int64_lem (negsuc zero) h = omega arith
next_int64_lem (negsuc (suc n)) h = omega arith

-- The revisions of a range from one on.
abbrev Counts : (fuel : ℕ) (revision end x : ℤ) → Type 0
Counts fuel revision end x =
    (revisions : List ℤ) × (revs_loop fuel revision end ≡ ok revisions)
    × (contains x revisions ≡ (leb_ℤ revision x && leb_ℤ x end))

revs_loop_lem :
    (fuel : ℕ) (revision end x : ℤ)
    → end <ℤ pos max_int64
    → 0 < fuel
    → pos_part end + neg_part revision + 2 ≤ fuel + (pos_part revision + neg_part end)
    → Counts fuel revision end x
unfolding revs_loop contains
revs_loop_lem zero r end x small some_left h = absurd (omega arith)
revs_loop_lem (suc fuel) r end x small some_left h = elim (Bool-cases (leb_ℤ r end)) [
  | inr over ↦
      let out : (leb_ℤ r x && leb_ℤ x end) ≡ false = ground arith in
      ([], rw (revs_loop, over) refl, rw out refl)
  | inl within ↦
      let below : r <ℤ pos max_int64 = ground arith in
      let step = next_int64_lem r below in
      let last : 0 < fuel = ground arith in
      let (revisions, run, found) =
        revs_loop_lem fuel (next_int64 r) end x small last (omega (arith, step)) in
      (r ∷ revisions, rw (revs_loop, within, run) refl, rw found (ground (arith, step)))
]

range_revs_lem :
    (item : Range) (x : ℤ)
    → IsProper item
    → item.end <ℤ pos max_int64
    → (revisions : List ℤ) × (range_revs item ≡ ok revisions)
      × (contains x revisions ≡ is_said (value_of item.start item.end item.inheritable x))
unfolding range_revs
range_revs_lem item x proper small =
    let below : item.start <ℤ pos max_int64 = omega arith in
    let step = next_int64_lem item.start below in
    let (revisions, run, found) =
      revs_loop_lem _ (next_int64 item.start) item.end x small (omega arith)
        (omega (arith, step)) in
    let said = is_said-value_of item.start item.end x item.inheritable in
    (revisions, run, found ∙ ground (arith, step) ∙ sym said)

all_revs_lem :
    (ranges : Rangelist) (x : ℤ)
    → All IsProper ranges
    → All (λ r. r.end <ℤ pos max_int64) ranges
    → (revisions : List ℤ) × (all_revs ranges ≡ ok revisions)
      × (contains x revisions ≡ is_said (value ranges x))
unfolding all_revs value contains
all_revs_lem [] x proper small = ([], refl, refl)
all_revs_lem (item ∷ ranges) x (p, proper) (s, small) =
    let (revisions, run, found) = range_revs_lem item x p s in
    let (more, run', found') = all_revs_lem ranges x proper small in
    (
      revisions ++ more,
      rw (run, run') refl,
      contains-append x revisions more
          ∙ rw (found, found')
              (sym
                (is_said-join (value_of item.start item.end item.inheritable x) (value ranges x))),
    )

IsCanonical-IsProper : (ranges : Rangelist) → IsCanonical ranges → All IsProper ranges
IsCanonical-IsProper [] h = tt
IsCanonical-IsProper (a ∷ []) h = (h, tt)
IsCanonical-IsProper (a ∷ b ∷ ranges) (p, _, h) = (p, IsCanonical-IsProper (b ∷ ranges) h)

-- Where no range starts before revision 0, and none of the normal form ends in the largest `int64`, the
-- loop of `ToRevs` ends, and a revision is in its result exactly where it is in a range of the list.
pub to_revs-value :
    (ranges : Rangelist) (x : ℤ)
    → Nonneg ranges
    → All (λ r. r.end <ℤ pos max_int64) (normalize ranges)
    → (revisions : List ℤ) × (to_revs ranges ≡ ok revisions)
      × (contains x revisions ≡ is_said (value ranges x))
unfolding to_revs
to_revs-value ranges x start small =
    let proper = IsCanonical-IsProper (normalize ranges) (normalize-IsCanonical ranges) in
    let (revisions, run, found) = all_revs_lem (normalize ranges) x proper small in
    (revisions, run, found ∙ ap is_said (value-normalize ranges x start))

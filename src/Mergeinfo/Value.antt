-- ===== src/Mergeinfo/Value.antt =====
-- What a range list says of one revision: whether it is in a range, and whether it is inheritable.
use go_svn.Mergeinfo.{Range, Rangelist}
use go_svn.Base.Int.{leb_ℤ, ltb_ℤ, ℤ, ◌<ℤ◌}
use go_svn.Base.{
  Bool, Option, [], arith, false, if◌then◌else◌, none, refl, some, true, ◌&&◌, ◌||◌, ◌∷◌, ◌≡◌,
}

-- Two statements about the same revision: it is in a range if one says so, and inheritable if one
-- says so.
abbrev pub join : Option Bool → Option Bool → Option Bool
join none y = y
join (some a) none = some a
join (some a) (some b) = some (a || b)

pub join_assoc : (x y z : Option Bool) → join (join x y) z ≡ join x (join y z)
join_assoc none y z = refl
join_assoc (some a) none z = refl
join_assoc (some a) (some b) none = refl
join_assoc (some true) (some b) (some c) = refl
join_assoc (some false) (some b) (some c) = refl

pub join-none : (x : Option Bool) → join x none ≡ x
join-none none = refl
join-none (some a) = refl

-- A range says something of the revisions behind its start, up to its end.
unfoldable pub value_of : (start end : ℤ) (inheritable : Bool) → ℤ → Option Bool
value_of start end inheritable x = if ltb_ℤ start x && leb_ℤ x end then some inheritable else none

unfoldable pub value : Rangelist → ℤ → Option Bool
value [] x = none
value (item ∷ ranges) x = join (value_of item.start item.end item.inheritable x) (value ranges x)

-- A pair `(present, inheritable)` of the program as such a statement, and back.
abbrev pub verdict : Bool × Bool → Option Bool
verdict (present, inherited) = if present then some inherited else none

abbrev pub pair : Option Bool → Bool × Bool
pair none = (false, false)
pair (some inherited) = (true, inherited)

-- Ranges that are not empty and not reversed.
abbrev pub IsProper : Range → Type 0
IsProper item = item.start <ℤ item.end

pub value_of-extend :
    (s m e x : ℤ) (i : Bool)
    → s <ℤ m
    → m <ℤ e
    → value_of s e i x ≡ join (value_of s m i x) (value_of m e i x)
unfolding value_of
value_of-extend s m e x i p q = ground arith

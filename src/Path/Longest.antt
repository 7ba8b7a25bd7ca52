-- ===== src/Path/Longest.antt =====
-- `RelpathLongestAncestor` of svn/path/relpath.go.
use mathlib.Core.Path.{subst}
use go_svn.Base.{
  ℕ, zero, suc, ◌≤◌, ◌<◌, ◌≡◌, refl, sym, ap, ◌∙◌, true, false, List, [], ◌∷◌, ◌++◌, Bytes, ◌==◌,
  equal, equal→eq, ltb, length, length-append, take-append_seam, arith, append_assoc, append-nil,
  Bool-cases, inl, inr, All, All-split, Option-cases, none, some, ◌⊎◌,
}
use go_svn.Path.{
  join, last_index_byte, split_path, is_some, longest_ancestor, skip_ancestor, relpath_canonicalize,
  relpath_skip_ancestor, relpath_is_ancestor, relpath_dirname, relpath_split,
  relpath_longest_ancestor,
}
use go_svn.Path.Segments.{
  segments, IsSegment, ArePath, segments-ArePath, segments-join, relpath_canonicalize-segments,
  join-append, join_cons,
}
use go_svn.Path.Ancestor.{relpath_skip_ancestor-segments, segments-relpath_skip_ancestor}

-- The parts of a path start with those of the other.
abbrev Starts : (ps cs : List Bytes) → Type 0
Starts ps cs = (rest : List Bytes) × (cs ≡ ps ++ rest)

pub last_index_plain :
    (byte : ℕ) (value : Bytes)
    → All (λ c. (c == byte) ≡ false) value
    → last_index_byte value byte ≡ none
unfolding last_index_byte
last_index_plain byte [] h = refl
last_index_plain byte (c ∷ value) (e, h) = rw (last_index_plain byte value h, e) refl

-- The last one of the byte is where nothing behind it is one.
pub last_index-append :
    (byte : ℕ) (a b : Bytes)
    → All (λ c. (c == byte) ≡ false) b
    → last_index_byte (a ++ (byte ∷ b)) byte ≡ some (length a)
unfolding last_index_byte
last_index-append byte [] b h =
    let same : (byte == byte) ≡ true = ground arith in rw (last_index_plain byte b h, same) refl
last_index-append byte (c ∷ a) b h = rw (last_index-append byte a b h) refl

canonical-join : (ps : List Bytes) → ArePath ps → relpath_canonicalize (join 47 ps) ≡ join 47 ps
canonical-join ps h = relpath_canonicalize-segments (join 47 ps) ∙ ap (join 47) (segments-join ps h)

split_path_one :
    (c : ℕ) (part : Bytes)
    → All (λ c. (c == 47) ≡ false) (c ∷ part)
    → split_path (c ∷ part) [] ≡ ([], c ∷ part)
unfolding split_path equal
split_path_one c part h = rw (last_index_plain 47 (c ∷ part) h) refl

split_path_below :
    (c : ℕ) (a last : Bytes)
    → All (λ c. (c == 47) ≡ false) last
    → (split_path ((c ∷ a) ++ (47 ∷ last)) []).0 ≡ c ∷ a
unfolding split_path equal
split_path_below c a last h =
    let at_slash : last_index_byte (c ∷ (a ++ (47 ∷ last))) 47 ≡ some (suc (length a)) =
      last_index-append 47 (c ∷ a) last h in
    let behind : ltb (suc (length a)) 0 ≡ false = ground arith in
    let not_first : (suc (length a) == 0) ≡ false = ground arith in
    rw (at_slash, behind, not_first, take-append_seam a (47 ∷ last)) refl

dirname_of :
    (value path : Bytes)
    → relpath_canonicalize value ≡ path
    → relpath_dirname value ≡ (split_path path []).0
unfolding relpath_dirname relpath_split
dirname_of value path e = ap (λ p. (split_path p []).0) e

-- The directory's name of a path lacks the last part.
dirname-join :
    (ps : List Bytes) (last : Bytes)
    → ArePath (ps ++ (last ∷ []))
    → relpath_dirname (join 47 (ps ++ (last ∷ []))) ≡ join 47 ps
unfolding join
dirname-join [] last h =
    let (c, rest, e, _) = join_cons last [] h in
    let part : last ≡ c ∷ rest = e in
    let plain : All (λ c. (c == 47) ≡ false) (c ∷ rest) = rw part at h.0.0 in
    dirname_of last last (canonical-join (last ∷ []) h)
    ∙ rw part (ap (λ p. p.0) (split_path_one c rest plain))
dirname-join (p ∷ ps) last h =
    let (hp, (hl, _)) = All-split IsSegment (p ∷ ps) (last ∷ []) h in
    let (c, rest, e, _) = join_cons p ps hp in
    let shape = canonical-join ((p ∷ ps) ++ (last ∷ [])) h ∙ join-append p ps last [] in
    dirname_of _ _ shape ∙ rw e (split_path_below c rest last hl.0)

-- A path that is not empty has a last part.
last_part :
    (p : Bytes) (ps : List Bytes)
    → (front : List Bytes) × (last : Bytes) × (p ∷ ps ≡ front ++ (last ∷ []))
last_part p [] = ([], p, refl)
last_part p (q ∷ ps) = let (front, last, e) = last_part q ps in (p ∷ front, last, ap (λ t. p ∷ t) e)

-- A path that starts one with a last part is that one, or it starts the front.
Starts-last :
    (qs front : List Bytes) (last : Bytes)
    → Starts qs (front ++ (last ∷ []))
    → (qs ≡ front ++ (last ∷ [])) ⊎ Starts qs front
Starts-last [] front last (rest, e) = inr (front, refl)
Starts-last (q ∷ []) [] last (rest, e) = inl (cc)
Starts-last (q ∷ (r ∷ qs)) [] last (rest, e) = cc
Starts-last (q ∷ qs) (f ∷ front) last (rest, e) =
    let heads : q ≡ f = cc in
    elim (Starts-last qs front last (rest, cc)) [
      | inl same ↦ inl (rw (heads, same) refl)
      | inr (more, same) ↦ inr (more, rw (heads, same) refl)
    ]

-- The parts in which the loop of `longestAncestor` ends.
abbrev Longest : (ps cs ss : List Bytes) → Type 0
Longest ps cs ss =
    Starts ps cs × Starts ps ss × ((qs : List Bytes) → Starts qs cs → Starts qs ss → Starts qs ps)

skip_of :
    (ps ss : List Bytes)
    → ArePath ps
    → ArePath ss
    → relpath_skip_ancestor (join 47 ps) (join 47 ss) ≡ skip_ancestor (join 47 ps) (join 47 ss)
unfolding relpath_skip_ancestor
skip_of ps ss hp hs = rw (canonical-join ps hp, canonical-join ss hs)

-- The test of the loop.
skip_cases :
    (ps ss : List Bytes)
    → ArePath ps
    → ArePath ss
    → ((is_some (skip_ancestor (join 47 ps) (join 47 ss)) ≡ true) × Starts ps ss)
      ⊎ ((is_some (skip_ancestor (join 47 ps) (join 47 ss)) ≡ false) × (¬ Starts ps ss))
skip_cases ps ss hp hs =
    let own = segments-join ps hp in
    let own' = segments-join ss hs in
    elim (Option-cases (relpath_skip_ancestor (join 47 ps) (join 47 ss))) [
      | inl e ↦ inr (
        (rw (← skip_of ps ss hp hs, e) refl),
        λ (rest, same).
            let here : ArePath (ps ++ rest) = rw same at hs in
            let (_, hr) = All-split IsSegment ps rest here in
            let found =
              relpath_skip_ancestor-segments (join 47 ps) (join 47 ss) rest hr
                (own' ∙ same ∙ ap (λ t. t ++ rest) (sym own)) in
            cc (e, found),
      )
      | inr (rest, e) ↦
          let (parts, _) = segments-relpath_skip_ancestor (join 47 ps) (join 47 ss) rest e in
          inl (
            (rw (← skip_of ps ss hp hs, e) refl),
            (segments rest, sym own' ∙ parts ∙ ap (λ t. t ++ segments rest) own),
          )
    ]

parts_size : (ps : List Bytes) → ArePath ps → length ps ≤ length (join 47 ps)
unfolding join
parts_size [] h = omega arith
parts_size (p ∷ []) h =
    let (c, rest, e, _) = join_cons p [] h in let same : p ≡ c ∷ rest = e in rw same (omega arith)
parts_size (p ∷ (q ∷ ps)) (_, h) =
    omega (arith, length-append p (47 ∷ join 47 (q ∷ ps)), parts_size (q ∷ ps) h)

Longest-join :
    (fuel : ℕ) (cs ss : List Bytes)
    → ArePath cs
    → ArePath ss
    → length cs < fuel
    → (ps : List Bytes) × ArePath ps
      × Longest ps cs ss
      × (longest_ancestor relpath_dirname fuel (join 47 cs) (join 47 ss) ≡ some (join 47 ps))
unfolding longest_ancestor
Longest-join zero cs ss hc hs enough = absurd (omega arith)
Longest-join (suc fuel) [] ss hc hs enough = elim (skip_cases [] ss tt hs) [
  | inl (e, starts) ↦ ([], tt, ((([], refl), starts, λ qs q q'. q)), rw e refl)
  | inr (e, none_there) ↦ absurd (none_there (ss, refl))
]
Longest-join (suc fuel) (c ∷ cs) ss hc hs enough = elim (skip_cases (c ∷ cs) ss hc hs) [
  | inl (e, starts) ↦
      (c ∷ cs, hc, (([], sym (append-nil (c ∷ cs))), starts, λ qs q q'. q), rw e refl)
  | inr (e, none_there) ↦
      let (front, last, shape) = last_part c cs in
      let hc' : ArePath (front ++ (last ∷ [])) = subst ArePath shape hc in
      let (hf, _) = All-split IsSegment front (last ∷ []) hc' in
      let size = ap length shape ∙ length-append front (last ∷ []) in
      let up : relpath_dirname (join 47 (c ∷ cs)) ≡ join 47 front =
        ap (λ t. relpath_dirname (join 47 t)) shape ∙ dirname-join front last hc' in
      let differs : equal (join 47 front) (join 47 (c ∷ cs)) ≡ false =
        elim (Bool-cases (equal (join 47 front) (join 47 (c ∷ cs)))) [
          | inl same ↦
              let paths = equal→eq _ _ same in
              let parts =
                sym (segments-join front hf) ∙ ap segments paths ∙ segments-join (c ∷ cs) hc in
              absurd (omega (arith, ap length parts, size))
          | inr other ↦ other
        ] in
      let (ps, hp, (on_front, on_second, greatest), run) =
        Longest-join fuel front ss hf hs (omega arith) in
      (
        ps,
        hp,
        (
          (
            on_front.0 ++ (last ∷ []),
            shape ∙ rw (on_front.1) (append_assoc ps on_front.0 (last ∷ [])),
          ),
          on_second,
          λ qs q q'. elim (Starts-last qs front last (q.0, sym shape ∙ q.1)) [
            | inl same ↦ absurd (none_there (subst (λ t. Starts t ss) (same ∙ sym shape) q'))
            | inr on_q ↦ greatest qs on_q q'
          ],
        ),
        rw (e, up, differs) run,
      )
]

is_ancestor-Starts :
    (parent child : Bytes)
    → relpath_is_ancestor parent child ≡ true
    → Starts (segments parent) (segments child)
unfolding relpath_is_ancestor
is_ancestor-Starts parent child h = elim (Option-cases (relpath_skip_ancestor parent child)) [
  | inl e ↦ cc (rw e at h)
  | inr (rest, e) ↦ (segments rest, (segments-relpath_skip_ancestor parent child rest e).0)
]

Starts-is_ancestor :
    (parent child : Bytes)
    → Starts (segments parent) (segments child)
    → relpath_is_ancestor parent child ≡ true
unfolding relpath_is_ancestor
Starts-is_ancestor parent child (rest, e) =
    let all : ArePath (segments parent ++ rest) = rw e at (segments-ArePath child) in
    let (_, hr) = All-split IsSegment (segments parent) rest all in
    rw (relpath_skip_ancestor-segments parent child rest hr e) refl

-- The loop of `RelpathLongestAncestor` ends, and its result is an ancestor of both paths that every
-- common ancestor of the two is an ancestor of.
pub relpath_longest_ancestor_lem :
    (first second : Bytes)
    → (longest : Bytes) × (relpath_longest_ancestor first second ≡ some longest)
      × (relpath_is_ancestor longest first ≡ true)
      × (relpath_is_ancestor longest second ≡ true)
      × ((common : Bytes)
          → relpath_is_ancestor common first ≡ true
          → relpath_is_ancestor common second ≡ true
          → relpath_is_ancestor common longest ≡ true)
unfolding relpath_longest_ancestor
relpath_longest_ancestor_lem first second =
    let cs = segments first in
    let ss = segments second in
    let path = relpath_canonicalize-segments first in
    let parts : length cs ≤ length (join 47 cs) = parts_size cs (segments-ArePath first) in
    let (ps, hp, (on_first, on_second, greatest), run) =
      Longest-join (suc (length (join 47 cs))) cs ss (segments-ArePath first)
        (segments-ArePath second) (omega arith) in
    let own = segments-join ps hp in
    (
      join 47 ps,
      rw (path, relpath_canonicalize-segments second) run,
      Starts-is_ancestor (join 47 ps) first (rw own on_first),
      Starts-is_ancestor (join 47 ps) second (rw own on_second),
      λ common h h'. Starts-is_ancestor common (join 47 ps) (
          rw own (
            greatest (segments common) (is_ancestor-Starts common first h)
              (is_ancestor-Starts common second h'))),
    )

-- ===== src/Path/Ancestor.antt =====
-- `RelpathSkipAncestor` of svn/path/relpath.go: what is left of a path below another one.
use go_svn.Base.{
  ℕ, ◌≡◌, refl, sym, ap, ◌∙◌, true, false, List, [], ◌∷◌, ◌++◌, Bytes, ◌==◌, equal, equal→eq,
  equal_refl, length, ◌⊎◌, length-append, drop, drop-append_seam, arith, append_assoc, append-nil,
  Bool-cases, inl, inr, some, ◌↔◌, All-append,
}
use go_svn.Path.{
  split, join, ends_with_slash, kept_parts, skip_ancestor, relpath_canonicalize,
  relpath_skip_ancestor, relpath_join,
}
use go_svn.Checksum.{has_prefix}
use go_svn.Path.Segments.{
  segments, IsSegment, ArePath, segments-append, segments-ArePath, segments-join,
  relpath_canonicalize-segments, join-append, join_cons, ends-join, relpath_join-segments,
}

has_prefix-append : (prefix rest : Bytes) → has_prefix (prefix ++ rest) prefix ≡ true
unfolding has_prefix
has_prefix-append [] rest = refl
has_prefix-append (c ∷ prefix) rest =
    let same : (c == c) ≡ true = ground arith in rw (same, has_prefix-append prefix rest)

pub has_prefix-drop :
    (value prefix : Bytes)
    → has_prefix value prefix ≡ true
    → value ≡ prefix ++ drop (length prefix) value
unfolding has_prefix
has_prefix-drop value [] h = refl
has_prefix-drop [] (p ∷ prefix) h = cc
has_prefix-drop (c ∷ value) (p ∷ prefix) h = elim (Bool-cases (c == p)) [
  | inl e ↦
      let same : c ≡ p = ground arith in
      let rest = has_prefix-drop value prefix (rw e at h) in rw same (ap (λ t. p ∷ t) rest)
  | inr e ↦ cc (rw e at h)
]

longer : (a b : Bytes) → equal a (a ++ (47 ∷ b)) ≡ false
unfolding equal
longer [] b = refl
longer (c ∷ a) b = let same : (c == c) ≡ true = ground arith in rw (same, longer a b)

skip_from_root :
    (c : ℕ) (rest : Bytes) → (c == 47) ≡ false → skip_ancestor [] (c ∷ rest) ≡ some (c ∷ rest)
unfolding skip_ancestor equal has_prefix
skip_from_root c rest h = rw h

skip_below :
    (parent rest : Bytes)
    → (c : ℕ) × (cs : Bytes) × (parent ≡ c ∷ cs)
    → ends_with_slash parent ≡ false
    → skip_ancestor parent (parent ++ (47 ∷ rest)) ≡ some rest
unfolding skip_ancestor equal
skip_below parent rest (c, cs, e) h =
    let not_empty : equal parent [] ≡ false = rw e refl in
    let shape : parent ++ (47 ∷ rest) ≡ (parent ++ (47 ∷ [])) ++ rest =
      sym (append_assoc parent (47 ∷ []) rest) in
    rw
      (
        longer parent rest,
        not_empty,
        h,
        shape,
        has_prefix-append (parent ++ (47 ∷ [])) rest,
        drop-append_seam (parent ++ (47 ∷ [])) rest,
      )
      refl

-- On joined parts, with those of the parent in front.
skip-join :
    (ps rs : List Bytes)
    → ArePath ps
    → ArePath rs
    → skip_ancestor (join 47 ps) (join 47 (ps ++ rs)) ≡ some (join 47 rs)
unfolding skip_ancestor join
skip-join ps [] hp hr = rw (append-nil ps, equal_refl (join 47 ps)) refl
skip-join [] (r ∷ rs) hp hr =
    let (c, rest, e, no_slash) = join_cons r rs hr in rw e (skip_from_root c rest no_slash)
skip-join (p ∷ ps) (r ∷ rs) hp hr =
    let (c, rest, e, _) = join_cons p ps hp in
    let open_end = ends-join (p ∷ ps) hp in
    rw (join-append p ps r rs)
      (skip_below (join 47 (p ∷ ps)) (join 47 (r ∷ rs)) (c, rest, e) open_end)

-- What is left below the parent, as bytes.
skip-some :
    (parent child rest : Bytes)
    → ends_with_slash parent ≡ false
    → skip_ancestor parent child ≡ some rest
    → ((child ≡ parent) × (rest ≡ []))
      ⊎ (((parent ≡ []) × (child ≡ rest)) ⊎ (child ≡ parent ++ (47 ∷ rest)))
unfolding skip_ancestor
skip-some parent child rest open_end h = elim (Bool-cases (equal parent child)) [
  | inl e ↦ let same = equal→eq parent child e in inl (sym same, cc (rw e at h))
  | inr e ↦ elim (Bool-cases (equal parent [])) [
    | inl r ↦ elim (Bool-cases (has_prefix child (47 ∷ []))) [
      | inl s ↦ cc (rw (e, r, s) at h)
      | inr s ↦ inr (inl (equal→eq parent [] r, cc (rw (e, r, s) at h)))
    ]
    | inr r ↦ elim (Bool-cases (has_prefix child (parent ++ (47 ∷ [])))) [
      | inl s ↦
          let tail : some (drop (length (parent ++ (47 ∷ []))) child) ≡ some rest =
            rw (e, r, open_end, s) at h in
          let shape = has_prefix-drop child (parent ++ (47 ∷ [])) s in
          let same : drop (length (parent ++ (47 ∷ []))) child ≡ rest = cc in
          inr (inr (shape ∙ rw same (append_assoc parent (47 ∷ []) rest)))
      | inr s ↦ cc (rw (e, r, open_end, s) at h)
    ]
  ]
]

nothing : segments [] ≡ []
unfolding split kept_parts
nothing = refl

root_canonical : relpath_canonicalize [] ≡ []
unfolding join
root_canonical = relpath_canonicalize-segments [] ∙ ap (join 47) nothing

-- What is behind the slash is the path of the parts that are left.
cancel :
    (ps rs : List Bytes) (rest : Bytes)
    → ArePath ps
    → ArePath rs
    → join 47 (ps ++ rs) ≡ join 47 ps ++ (47 ∷ rest)
    → join 47 rs ≡ rest
unfolding join
cancel ps [] rest hp hr e =
    let same : join 47 ps ≡ join 47 ps ++ (47 ∷ rest) = rw append-nil at e in
    absurd (omega (arith, ap length same, length-append (join 47 ps) (47 ∷ rest)))
cancel [] (r ∷ rs) rest hp hr e =
    let (c, more, f, no_slash) = join_cons r rs hr in
    let same : c ∷ more ≡ 47 ∷ rest = rw f at e in absurd (ground (arith, same, no_slash))
cancel (p ∷ ps) (r ∷ rs) rest hp hr e =
    let parent = join 47 (p ∷ ps) in
    let same : parent ++ (47 ∷ join 47 (r ∷ rs)) ≡ parent ++ (47 ∷ rest) =
      sym (join-append p ps r rs) ∙ e in
    let tails : 47 ∷ join 47 (r ∷ rs) ≡ 47 ∷ rest =
      sym (drop-append_seam parent (47 ∷ join 47 (r ∷ rs)))
      ∙ ap (drop (length parent)) same
      ∙ drop-append_seam parent (47 ∷ rest) in
    cc

module _ (parent child : Bytes) where
  -- A path whose parts start with those of the parent is below it.
  pub relpath_skip_ancestor-segments :
      (rest : List Bytes)
      → ArePath rest
      → segments child ≡ segments parent ++ rest
      → relpath_skip_ancestor parent child ≡ some (join 47 rest)
  unfolding relpath_skip_ancestor
  relpath_skip_ancestor-segments rest h e =
      rw (relpath_canonicalize-segments parent, relpath_canonicalize-segments child, e)
        (skip-join (segments parent) rest (segments-ArePath parent) h)

  pub segments-relpath_skip_ancestor :
      (rest : Bytes)
      → relpath_skip_ancestor parent child ≡ some rest
      → (segments child ≡ segments parent ++ segments rest) × (relpath_canonicalize rest ≡ rest)
  unfolding relpath_skip_ancestor
  segments-relpath_skip_ancestor rest h =
      let ps = segments parent in
      let run : skip_ancestor (join 47 ps) (join 47 (segments child)) ≡ some rest =
        rw (relpath_canonicalize-segments parent, relpath_canonicalize-segments child) at h in
      let own = segments-join ps (segments-ArePath parent) in
      let own' = segments-join (segments child) (segments-ArePath child) in
      let left = segments-ArePath rest in
      let canonical = relpath_canonicalize-segments rest in
      elim (skip-some (join 47 ps) (join 47 (segments child)) rest
        (ends-join ps (segments-ArePath parent)) run) [
          | inl (same, none_left) ↦
              let parts = sym own' ∙ ap segments same ∙ own in
              (rw (none_left, nothing, append-nil) parts, rw (none_left) (root_canonical))
          | inr (inl (root, same)) ↦
              let no_parts : ps ≡ [] = sym own ∙ ap segments root ∙ nothing in
              let parts : segments child ≡ segments rest = sym own' ∙ ap segments same in
              (rw no_parts parts, canonical ∙ rw (← parts) same)
          | inr (inr shape) ↦
              let parts : segments child ≡ ps ++ segments rest =
                sym own' ∙ ap segments shape ∙ segments-append (join 47 ps) rest ∙ rw own in
              (
                parts,
                canonical
                    ∙ cancel ps (segments rest) rest (segments-ArePath parent) left
                        (rw parts at shape),
              )
        ]

-- What is left of a path below a parent is found again under the same parent, and it is the rest
-- of a path exactly where joining it to the parent gives the path.
pub relpath_skip_ancestor-relpath_join :
    (parent child rest : Bytes)
    → (relpath_skip_ancestor parent (relpath_join parent (rest ∷ []))
        ≡ some (relpath_canonicalize rest))
      × ((relpath_skip_ancestor parent child ≡ some rest) ↔ (
          (relpath_join parent (rest ∷ []) ≡ relpath_canonicalize child)
          × (relpath_canonicalize rest ≡ rest)))
relpath_skip_ancestor-relpath_join parent child rest =
    let ps = segments parent in
    let rs = segments rest in
    let hr = segments-ArePath rest in
    let all : ArePath (ps ++ rs) = All-append IsSegment ps rs (segments-ArePath parent) hr in
    let joined = relpath_join-segments parent rest in
    let canonical = relpath_canonicalize-segments rest in
    let own' = segments-join (segments child) (segments-ArePath child) in
    (
      rw canonical (
          relpath_skip_ancestor-segments parent (relpath_join parent (rest ∷ [])) rs hr
            (ap segments joined ∙ segments-join (ps ++ rs) all)),
      (
        λ h.
            let (parts, same) = segments-relpath_skip_ancestor parent child rest h in
            (joined ∙ ap (join 47) (sym parts) ∙ sym (relpath_canonicalize-segments child), same),
        λ (e, same).
            let shape = sym (relpath_canonicalize-segments child) ∙ sym e ∙ joined in
            let parts = sym own' ∙ ap segments shape ∙ segments-join (ps ++ rs) all in
            relpath_skip_ancestor-segments parent child rs hr parts
            ∙ ap some (sym canonical ∙ same),
      ),
    )

-- ===== src/Path/Segments.antt =====
-- The parts that `canonicalComponents` of svn/path/common.go keeps, and the path made of them.
use go_svn.Base.{
  ℕ, ◌≡◌, refl, sym, ap, ◌∙◌, true, false, List, [], ◌∷◌, ◌++◌, Bytes, ◌==◌, arith, append_assoc,
  append-nil, Bool-cases, inl, inr, All, All-append,
}
use go_svn.Path.{
  split, join, ends_with_slash, trim_slashes, is_left_out, kept_parts, canonical_components,
  join_canonical, relpath_canonicalize, relpath_join, relpath_join_loop, fspath_canonicalize,
}

abbrev pub segments : Bytes → List Bytes
segments value = kept_parts (split 47 value)

-- A part of a canonical path: not empty, not `.`, and without a slash.
abbrev pub IsSegment : Bytes → Type 0
IsSegment part = All (λ c. (c == 47) ≡ false) part × (is_left_out part ≡ false)

abbrev pub ArePath : List Bytes → Type 0
ArePath parts = All IsSegment parts

pub split_cons :
    (separator : ℕ) (value : Bytes)
    → (part : Bytes) × (parts : List Bytes) × (split separator value ≡ part ∷ parts)
unfolding split
split_cons separator [] = ([], [], refl)
split_cons separator (c ∷ value) =
    let (part, parts, e) = split_cons separator value in
    elim (Bool-cases (c == separator)) [
      | inl s ↦ ([], part ∷ parts, rw (s, e))
      | inr s ↦ (c ∷ part, parts, rw (s, e))
    ]

pub split-append :
    (separator : ℕ) (a b : Bytes)
    → split separator (a ++ (separator ∷ b)) ≡ split separator a ++ split separator b
unfolding split
split-append separator [] b = let same : (separator == separator) ≡ true = ground arith in rw same
split-append separator (c ∷ a) b =
    let (part, parts, e) = split_cons separator a in
    elim (Bool-cases (c == separator)) [
      | inl s ↦ rw (s, split-append separator a b)
      | inr s ↦ rw (s, split-append separator a b, e)
    ]

pub split_plain :
    (separator : ℕ) (part : Bytes)
    → All (λ c. (c == separator) ≡ false) part
    → split separator part ≡ part ∷ []
unfolding split
split_plain separator [] h = refl
split_plain separator (c ∷ part) (e, h) = rw (e, split_plain separator part h)

-- Parts without the separator are joined and split again.
pub split-join :
    (separator : ℕ) (part : Bytes) (parts : List Bytes)
    → All (λ part. All (λ c. (c == separator) ≡ false) part) (part ∷ parts)
    → split separator (join separator (part ∷ parts)) ≡ part ∷ parts
unfolding join
split-join separator part [] (h, _) = split_plain separator part h
split-join separator part (next ∷ parts) (h, hs) =
    split-append separator part (join separator (next ∷ parts))
    ∙ rw (split_plain separator part h, split-join separator next parts hs)

pub split-All :
    (separator : ℕ) (value : Bytes)
    → All (λ part. All (λ c. (c == separator) ≡ false) part) (split separator value)
unfolding split
split-All separator [] = (tt, tt)
split-All separator (c ∷ value) =
    let (part, parts, e) = split_cons separator value in
    let all = rw e at (split-All separator value) in
    elim (Bool-cases (c == separator)) [
      | inl s ↦ rw (s, e) (tt, all)
      | inr s ↦ rw (s, e) ((s, all.0), all.1)
    ]

kept_parts-append : (xs ys : List Bytes) → kept_parts (xs ++ ys) ≡ kept_parts xs ++ kept_parts ys
unfolding kept_parts
kept_parts-append [] ys = refl
kept_parts-append (x ∷ xs) ys = elim (Bool-cases (is_left_out x)) [
  | inl e ↦ rw (e, kept_parts-append xs ys)
  | inr e ↦ rw (e, kept_parts-append xs ys)
]

kept_parts-All :
    (parts : List Bytes)
    → All (λ part. All (λ c. (c == 47) ≡ false) part) parts
    → ArePath (kept_parts parts)
unfolding kept_parts
kept_parts-All [] h = tt
kept_parts-All (part ∷ parts) (p, h) = elim (Bool-cases (is_left_out part)) [
  | inl e ↦ rw e (kept_parts-All parts h)
  | inr e ↦ rw e ((p, e), kept_parts-All parts h)
]

pub segments-append : (a b : Bytes) → segments (a ++ (47 ∷ b)) ≡ segments a ++ segments b
segments-append a b =
    ap kept_parts (split-append 47 a b) ∙ kept_parts-append (split 47 a) (split 47 b)

pub segments-ArePath : (value : Bytes) → ArePath (segments value)
segments-ArePath value = kept_parts-All (split 47 value) (split-All 47 value)

segments_one : (part : Bytes) → IsSegment part → segments part ≡ part ∷ []
unfolding kept_parts
segments_one part (h, e) = rw (split_plain 47 part h, e)

pub segments-join : (parts : List Bytes) → ArePath parts → segments (join 47 parts) ≡ parts
unfolding join split kept_parts
segments-join [] h = refl
segments-join (part ∷ []) (p, h) = segments_one part p
segments-join (part ∷ (next ∷ parts)) (p, h) =
    segments-append part (join 47 (next ∷ parts))
    ∙ rw (segments_one part p, segments-join (next ∷ parts) h)

segments_slash : (value : Bytes) → segments (47 ∷ value) ≡ segments value
unfolding split kept_parts
segments_slash value = refl

segments-trim_slashes : (value : Bytes) → segments (trim_slashes value) ≡ segments value
unfolding trim_slashes
segments-trim_slashes [] = refl
segments-trim_slashes (c ∷ value) = elim (Bool-cases (c == 47)) [
  | inl e ↦
      let slash : c ≡ 47 = ground arith in
      let here : segments (trim_slashes value) ≡ segments (c ∷ value) =
        rw slash (segments-trim_slashes value ∙ sym (segments_slash value)) in
      rw e here
  | inr e ↦ rw e
]

pub relpath_canonicalize-segments :
    (value : Bytes) → relpath_canonicalize value ≡ join 47 (segments value)
unfolding relpath_canonicalize canonical_components
relpath_canonicalize-segments value = ap (join 47) (segments-trim_slashes value)

pub fspath_canonicalize-segments :
    (value : Bytes) → fspath_canonicalize value ≡ 47 ∷ join 47 (segments value)
unfolding fspath_canonicalize canonical_components
fspath_canonicalize-segments value =
    ap (λ parts. 47 ∷ join 47 parts)
      (segments_slash (trim_slashes value) ∙ segments-trim_slashes value)

-- Paths are joined part by part.
pub join-append :
    (x : Bytes) (xs : List Bytes) (y : Bytes) (ys : List Bytes)
    → join 47 ((x ∷ xs) ++ (y ∷ ys)) ≡ join 47 (x ∷ xs) ++ (47 ∷ join 47 (y ∷ ys))
unfolding join
join-append x [] y ys = refl
join-append x (z ∷ xs) y ys =
    rw (join-append z xs y ys)
      (sym (append_assoc x (47 ∷ join 47 (z ∷ xs)) (47 ∷ join 47 (y ∷ ys))))

pub join_cons :
    (part : Bytes) (parts : List Bytes)
    → ArePath (part ∷ parts)
    → (c : ℕ) × (rest : Bytes) × (join 47 (part ∷ parts) ≡ c ∷ rest) × ((c == 47) ≡ false)
unfolding join
join_cons [] parts ((_, e), h) = cc
join_cons (c ∷ part) [] (((p, _), e), h) = (c, part, refl, p)
join_cons (c ∷ part) (next ∷ parts) (((p, _), e), h) = (c, _, refl, p)

ends-append :
    (a : Bytes) (c : ℕ) (b : Bytes) → ends_with_slash (a ++ (c ∷ b)) ≡ ends_with_slash (c ∷ b)
unfolding ends_with_slash
ends-append [] c b = refl
ends-append (x ∷ []) c b = refl
ends-append (x ∷ (y ∷ a)) c b = ends-append (y ∷ a) c b

segment_end : (part : Bytes) → All (λ c. (c == 47) ≡ false) part → ends_with_slash part ≡ false
unfolding ends_with_slash
segment_end [] h = refl
segment_end (c ∷ []) (e, h) = e
segment_end (c ∷ (d ∷ part)) (e, h) = segment_end (d ∷ part) h

pub ends-join : (parts : List Bytes) → ArePath parts → ends_with_slash (join 47 parts) ≡ false
unfolding join ends_with_slash
ends-join [] h = refl
ends-join (part ∷ []) ((p, _), h) = segment_end part p
ends-join (part ∷ (next ∷ parts)) (_, h) =
    let (c, rest, e, _) = join_cons next parts h in
    let there : ends_with_slash (c ∷ rest) ≡ false = rw e at (ends-join (next ∷ parts) h) in
    rw e (ends-append part 47 (c ∷ rest) ∙ there)

pub join_canonical-join :
    (xs ys : List Bytes)
    → ArePath xs
    → ArePath ys
    → join_canonical (join 47 xs) (join 47 ys) ≡ join 47 (xs ++ ys)
unfolding join_canonical join
join_canonical-join xs [] h k = rw (append-nil xs)
join_canonical-join [] (y ∷ ys) h k = let (c, rest, e, _) = join_cons y ys k in rw e
join_canonical-join (x ∷ xs) (y ∷ ys) h k =
    let (c, rest, e, _) = join_cons y ys k in
    let (b, more, f, _) = join_cons x xs h in
    let last : ends_with_slash (b ∷ more) ≡ false = rw f at (ends-join (x ∷ xs) h) in
    rw (join-append x xs y ys, f, e, last)

pub relpath_join-segments :
    (base component : Bytes)
    → relpath_join base (component ∷ []) ≡ join 47 (segments base ++ segments component)
unfolding relpath_join relpath_join_loop
relpath_join-segments base component =
    rw (relpath_canonicalize-segments base, relpath_canonicalize-segments component)
      (join_canonical-join (segments base) (segments component) (segments-ArePath base)
        (segments-ArePath component))

-- The bytes of joined parts are those of the parts and the separator.
pub All-join {κ} :
    (P : ℕ → Type κ) (separator : ℕ) (parts : List Bytes)
    → P separator
    → All (λ part. All P part) parts
    → All P (join separator parts)
unfolding join
All-join P separator [] p h = tt
All-join P separator (part ∷ []) p (h, _) = h
All-join P separator (part ∷ (next ∷ parts)) p (h, hs) =
    All-append P part (separator ∷ join separator (next ∷ parts)) h
      (p, All-join P separator (next ∷ parts) p hs)

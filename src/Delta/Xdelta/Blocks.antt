-- ===== src/Delta/Xdelta/Blocks.antt =====
-- `buildSourceIndex` of delta/xdelta.go, against the positions of the blocks in the source.
use go_svn.Base.Outcome.{at_lem, slice_lem, ok}
use go_svn.Delta.Xdelta.Hash.{roll_hash-rolling_hash}
use go_svn.Delta.Xdelta.{
  build_source_index, SourceIndex, block_size, index_append, index_get, index_loop, roll_hash,
  rolling_hash,
}
use go_svn.Delta.Xdelta.Index.{block_at, index_get-index_append, positions}
use go_svn.Base.{
  ap, get_elem?_bound, ltb, refl, length, All, All-drop, All-get, All-take, Bool-cases, Bytes,
  IsByte, [], append-nil, arith, drop, get_elem?, inl, inr, leb, length-drop, length-take, some,
  suc, take, take-drop_cons, take-suc-drop, zero, ℕ, ◌++◌, ◌+◌, ◌-◌, ◌==◌, ◌∙◌, ◌∷◌, ◌≡◌, ◌≤◌,
}

-- The index answers, for each hash, the positions below a bound whose block has that hash.
abbrev Holds : (source : Bytes) (count : ℕ) → SourceIndex → Type 0
Holds source count index = (hash : ℕ) → index_get hash index ≡ positions source hash count

Holds-index_append :
    (source : Bytes) (position hash : ℕ) (index : SourceIndex)
    → hash ≡ rolling_hash (block_at source position)
    → Holds source position index
    → Holds source (suc position) (index_append hash position index)
unfolding positions
Holds-index_append source position hash index e h key =
    index_get-index_append key hash position index ∙ elim (Bool-cases (hash == key)) [
      | inl t ↦ rw (t, h key, ← e, t)
      | inr t ↦ rw (t, h key, ← e, t, append-nil)
    ]

-- One byte further on.
next_hash :
    (source : Bytes) (position x y : ℕ)
    → All IsByte source
    → get_elem? source position ≡ some x
    → get_elem? source (suc position + 63) ≡ some y
    → suc position + block_size ≤ length source
    → roll_hash (rolling_hash (block_at source position)) x y
      ≡ rolling_hash (block_at source (suc position))
next_hash source position x y bytes ex ey room =
    let middle : Bytes = take 63 (drop (suc position) source) in
    let old : block_at source position ≡ x ∷ middle = take-drop_cons position 63 source ex in
    let new : block_at source (suc position) ≡ middle ++ (y ∷ []) =
      take-suc-drop (suc position) 63 source ey in
    let size : length (x ∷ middle) ≡ block_size =
      omega
        (arith, length-take 63 (drop (suc position) source), length-drop (suc position) source) in
    rw (old, new)
      (roll_hash-rolling_hash x y middle size
        (
          All-get IsByte source position x bytes ex,
          All-take IsByte 63 _ (All-drop IsByte (suc position) source bytes),
        )
        (All-get IsByte source (suc position + 63) y bytes ey))

index_loop-Holds :
    (fuel : ℕ) (source : Bytes) (position hash : ℕ) (index index' : SourceIndex)
    → All IsByte source
    → hash ≡ rolling_hash (block_at source position)
    → suc position + block_size ≤ length source + 1
    → Holds source (suc position) index
    → index_loop fuel source (suc position) hash index ≡ ok index'
    → Holds source (length source - 63) index'
unfolding index_loop
index_loop-Holds zero source position hash index index' bytes e p h run = cc
index_loop-Holds (suc fuel) source position hash index index' bytes e p h run =
    elim (Bool-cases (leb (suc position + block_size) (length source))) [
      | inr d ↦
          let same : index ≡ index' = cc (rw d at run) in
          let count : length source - 63 ≡ suc position = ground arith in rw (count, ← same) h
      | inl d ↦
          let room : suc position + block_size ≤ length source = ground arith in
          let (x, ex) = get_elem?_bound source position (omega arith) in
          let (y, ey) = get_elem?_bound source (suc position + 63) (omega arith) in
          let hash' : ℕ = roll_hash hash x y in
          let moved : hash' ≡ rolling_hash (block_at source (suc position)) =
            ap (λ t. roll_hash t x y) e ∙ next_hash source position x y bytes ex ey room in
          let first : suc position - 1 ≡ position = omega arith in
          let last : suc position + block_size - 1 ≡ suc position + 63 = omega arith in
          let next : suc position + 1 ≡ suc (suc position) = omega arith in
          index_loop-Holds fuel source (suc position) hash'
            (index_append hash' (suc position) index) index' bytes moved (omega arith)
            (Holds-index_append source (suc position) hash' index moved h)
            (rw
              (
                d,
                first,
                last,
                at_lem source position ex,
                at_lem source (suc position + 63) ey,
                next,
              )
              at run)
    ]

-- In a source of bytes, the candidates under a hash are exactly the positions of the blocks with
-- that hash, in increasing order: none is missing, and the rolled hashes are the true ones.
pub index_get-build_source_index :
    (source : Bytes) (index : SourceIndex) (hash : ℕ)
    → All IsByte source
    → build_source_index source ≡ ok index
    → index_get hash index ≡ positions source hash (length source - 63)
unfolding build_source_index
index_get-build_source_index source index hash bytes run =
    elim (Bool-cases (ltb (length source) block_size)) [
      | inl e ↦
          let none_left : length source - 63 ≡ 0 = ground arith in
          let same : [] ≡ index = cc (rw e at run) in
          rw (none_left, ← same) (unfold index_get positions in refl)
      | inr e ↦
          let room : block_size ≤ length source = ground arith in
          let first : Bytes = block_at source 0 in
          let one : Holds source 1 (index_append (rolling_hash first) 0 []) =
            Holds-index_append source 0 (rolling_hash first) [] refl
              (λ h. unfold index_get positions in refl) in
          index_loop-Holds (length source) source 0 (rolling_hash first)
            (index_append (rolling_hash first) 0 []) index bytes refl (omega arith) one
            (rw (e, slice_lem source 0 block_size (omega arith) room) at run) hash
    ]

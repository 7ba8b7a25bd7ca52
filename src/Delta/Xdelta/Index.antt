-- ===== src/Delta/Xdelta/Index.antt =====
-- The index of delta/xdelta.go: looking up, appending, and the loop of `buildSourceIndex`.
use go_svn.Base.Outcome.{at_lem, slice_lem, ok}
use go_svn.Delta.Xdelta.{
  build_source_index, roll_hash, SourceIndex, block_size, index_append, index_get, index_loop,
  rolling_hash,
}
use go_svn.Base.{
  get_elem?_bound, leb, ltb, ◌-◌, length, All, All-append, Bool-cases, Bytes, List, [], arith, drop,
  if◌then◌else◌, inl, inr, suc, take, zero, ℕ, ◌++◌, ◌+◌, ◌<◌, ◌==◌, ◌∷◌, ◌≡◌, ◌≤◌,
}

-- A block of the source.
abbrev pub block_at : Bytes → ℕ → Bytes
block_at source position = take block_size (drop position source)

-- The positions below `count` whose block has the hash, in increasing order.
unfoldable pub positions : (source : Bytes) (hash count : ℕ) → List ℕ
positions source hash zero = []
positions source hash (suc n) =
    positions source hash n ++ (if rolling_hash (block_at source n) == hash then n ∷ [] else [])

pub index_get-index_append :
    (hash key position : ℕ) (index : SourceIndex)
    → index_get hash (index_append key position index)
      ≡ (if key == hash then index_get hash index ++ (position ∷ []) else index_get hash index)
unfolding index_get index_append
index_get-index_append hash key position [] = ground arith
index_get-index_append hash key position ((k, ps) ∷ index) =
    ground (arith, index_get-index_append hash key position index)

-- Every position in the index leaves room for a block.
abbrev pub InRange : ℕ → SourceIndex → Type 0
InRange size = All (λ (e : ℕ × List ℕ). All (λ c. c + block_size ≤ size) e.1)

index_append-InRange :
    (size hash position : ℕ) (index : SourceIndex)
    → position + block_size ≤ size
    → InRange size index
    → InRange size (index_append hash position index)
unfolding index_append
index_append-InRange size hash position [] p h = ((p, tt), tt)
index_append-InRange size hash position ((k, ps) ∷ index) p (hp, h) =
    elim (Bool-cases (k == hash)) [
      | inl e ↦ rw e (All-append _ ps (position ∷ []) hp (p, tt), h)
      | inr e ↦ rw e (hp, index_append-InRange size hash position index p h)
    ]

pub index_get-InRange :
    (size hash : ℕ) (index : SourceIndex)
    → InRange size index
    → All (λ c. c + block_size ≤ size) (index_get hash index)
unfolding index_get
index_get-InRange size hash [] h = tt
index_get-InRange size hash ((k, ps) ∷ index) (hp, h) = elim (Bool-cases (k == hash)) [
  | inl e ↦ rw e hp
  | inr e ↦ rw e (index_get-InRange size hash index h)
]

index_loop_total :
    (fuel : ℕ) (source : Bytes) (position hash : ℕ) (index : SourceIndex)
    → length source < position + fuel
    → position + block_size ≤ length source + 1
    → 0 < position
    → InRange (length source) index
    → (index' : SourceIndex) × (index_loop fuel source position hash index ≡ ok index')
      × InRange (length source) index'
unfolding index_loop
index_loop_total zero source position hash index f p z h = absurd (omega arith)
index_loop_total (suc fuel) source position hash index f p z h =
    elim (Bool-cases (leb (position + block_size) (length source))) [
      | inr e ↦ (index, rw e, h)
      | inl e ↦
          let room : position + block_size ≤ length source = ground arith in
          let (x, ex) = get_elem?_bound source (position - 1) (omega arith) in
          let (y, ey) = get_elem?_bound source (position + block_size - 1) (omega arith) in
          let hash' : ℕ = roll_hash hash x y in
          let (index', run, h') =
            index_loop_total fuel source (position + 1) hash' (index_append hash' position index)
              (omega arith) (omega arith) (omega arith)
              (index_append-InRange (length source) hash' position index room h) in
          (
            index',
            rw (e, at_lem source (position - 1) ex, at_lem source (position + block_size - 1) ey)
                run,
            h',
          )
    ]

-- `buildSourceIndex` ends without a panic, and every position in it leaves room for a block.
pub build_source_index_total :
    (source : Bytes)
    → (index : SourceIndex) × (build_source_index source ≡ ok index) × InRange (length source) index
unfolding build_source_index
build_source_index_total source = elim (Bool-cases (ltb (length source) block_size)) [
  | inl e ↦ ([], rw e, tt)
  | inr e ↦
      let room : block_size ≤ length source = ground arith in
      let first : Bytes = take (block_size - 0) (drop 0 source) in
      let (index, run, h) =
        index_loop_total (length source) source 1 (rolling_hash first)
          (index_append (rolling_hash first) 0 []) (omega arith) (omega arith) (omega arith)
          (index_append-InRange (length source) (rolling_hash first) 0 [] room tt) in
      (index, rw (e, slice_lem source 0 block_size (omega arith) room) run, h)
]

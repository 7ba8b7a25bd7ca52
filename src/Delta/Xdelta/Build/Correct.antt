-- ===== src/Delta/Xdelta/Build/Correct.antt =====
-- `buildWindow` of delta/xdelta.go as a whole, against `ApplyWindow`.
use go_svn.Delta.Window.Total.{apply_window_valid}
use go_svn.Delta.Instructions.RoundTrip.{Sequential, done}
use go_svn.Delta.Xdelta.Build.{append_literal-Builds, append_source-Builds, Builds}
use go_svn.Delta.Window.{apply_ops, apply_window, validate, validate_ops, Window}
use go_svn.Delta.Xdelta.Index.{build_source_index_total, InRange, index_get-InRange}
use go_svn.Base.Int.{pos, negsuc, ℤ}
use go_svn.Base.Outcome.{ok, slice, slice_lem, max_alloc}
use go_svn.Delta.Xdelta.Match.{IsBest, find_match_lem, match, nothing}
use go_svn.Base.{
  sym, [], ap, append-nil, false, refl, suc, take_all, zero, ◌==◌, ◌∙◌, length, All, All-take,
  Bool-cases, Bytes, List, arith, drop, if◌then◌else◌, inl, inr, leb, ltb, take, ℕ, ◌+◌, ◌-◌, ◌<◌,
  ◌≡◌, ◌≤◌,
}
use go_svn.Delta.Xdelta.{
  append_literal, append_source, build_loop, build_window, SourceIndex, block_size, build_round,
  index_get, match_at, max_candidates, rolling_hash,
}

index_candidates :
    (source : Bytes) (index : SourceIndex) (hash : ℕ)
    → InRange (length source) index
    → (candidates : List ℕ) × ((if ltb max_candidates (length (index_get hash index))
          then slice (index_get hash index) 0 max_candidates
          else ok (index_get hash index))
        ≡ ok candidates)
      × All (λ c. c + block_size ≤ length source) candidates
index_candidates source index hash h =
    let found : List ℕ = index_get hash index in
    let all = index_get-InRange (length source) hash index h in
    elim (Bool-cases (ltb max_candidates (length found))) [
      | inr e ↦ (found, rw e, all)
      | inl e ↦ (
        take (max_candidates - 0) (drop 0 found),
        rw e (slice_lem found 0 max_candidates (omega arith) (ground arith)),
        All-take _ (max_candidates - 0) found all,
      )
    ]

module _ (source target : Bytes) (index : SourceIndex) (range : InRange (length source) index) where
  match_at_lem :
      (position : ℕ)
      → (o : ℤ) × (n : ℕ) × (match_at source target index position ≡ ok (o, n))
        × IsBest source target position o n
  unfolding match_at
  match_at_lem position = elim (Bool-cases (leb (position + block_size) (length target))) [
    | inr e ↦ (negsuc 0, 0, rw e, nothing (negsuc 0))
    | inl e ↦
        let fits : position + block_size ≤ length target = ground arith in
        let block : Bytes = take (position + block_size - position) (drop position target) in
        let (candidates, cut, all) = index_candidates source index (rolling_hash block) range in
        let (o, n, run, best) =
          find_match_lem source target position fits candidates (negsuc 0) 0 all
            (nothing (negsuc 0)) in
        (
          o,
          n,
          rw (e, slice_lem target position (position + block_size) (omega arith) fits, cut) run,
          best,
        )
  ]

  -- After a round the window still builds what lies before the pending literal, and the position
  -- has moved on.
  round_by_match :
      (offset : ℤ) (start position : ℕ) (w : Window) (o : ℤ) (n : ℕ)
      → start ≤ position
      → position < length target
      → Builds source target offset start w
      → match_at source target index position ≡ ok (o, n)
      → IsBest source target position o n
      → (start' position' : ℕ) × (w' : Window) × (build_round source target index start position w
          ≡ ok (start', position', w'))
        × (start' ≤ position')
        × (position < position')
        × (position' ≤ length target)
        × Builds source target offset start' w'
  unfolding build_round
  round_by_match offset start position w o _ le lt b found (nothing _) =
      (start, position + 1, w, rw found, omega arith, omega arith, omega arith, b)
  round_by_match offset start position w _ n le lt b found (match c _ p m) =
      let (literal, cut, b') =
        append_literal-Builds source target offset start position w le (omega arith) b in
      let some_bytes : (n == 0) ≡ false = ground arith in
      (
        position + n,
        position + n,
        append_source (append_literal w literal) (pos c) n,
        rw (found, some_bytes, cut),
        omega arith,
        omega arith,
        m.target_in,
        append_source-Builds source target offset position c n (append_literal w literal) p m b',
      )

  build_loop_lem :
      (fuel : ℕ) (offset : ℤ) (start position : ℕ) (w : Window)
      → length target < position + fuel
      → start ≤ position
      → position ≤ length target
      → Builds source target offset start w
      → (start' : ℕ) × (w' : Window) × (build_loop fuel source target index start position w
          ≡ ok (start', w'))
        × Builds source target offset start' w'
  unfolding build_loop
  build_loop_lem zero offset start position w f le h b = absurd (omega arith)
  build_loop_lem (suc fuel) offset start position w f le h b =
      elim (Bool-cases (ltb position (length target))) [
        | inr e ↦ (start, w, rw e, b)
        | inl e ↦
            let (o, n, found, best) = match_at_lem position in
            let (start₁, position₁, w₁, round, le₁, further, h₁, b₁) =
              round_by_match offset start position w o n le (ground arith) b found best in
            let (start₂, w₂, run, b₂) =
              build_loop_lem fuel offset start₁ position₁ w₁ (omega arith) le₁ h₁ b₁ in
            (start₂, w₂, rw (e, round) run, b₂)
      ]

empty-Builds :
    (source target : Bytes) (offset : ℤ)
    → Builds source target offset 0 (record {
      source_offset = offset;
      source_length = pos (length source);
      target_length = pos (length target);
      ops = [];
      new_data = [];
    })
empty-Builds source target offset = record {
  within = omega arith;
  source_offset = refl;
  source_length = refl;
  target_length = refl;
  applies = λ more. unfold apply_ops in refl;
  valid = λ more. unfold validate_ops in refl;
  sequential = done 0;
}

-- `buildWindow` ends without a panic, and its window builds the whole target.
pub build_window-Builds :
    (source target : Bytes) (offset : ℤ)
    → (w : Window) × (build_window source target offset ≡ ok w)
      × Builds source target offset (length target) w
unfolding build_window
build_window-Builds source target offset =
    let (index, indexed, range) = build_source_index_total source in
    let (start, w, run, b) =
      build_loop_lem source target index range (suc (length target)) offset 0 0 _ (omega arith)
        (omega arith) (omega arith) (empty-Builds source target offset) in
    let (literal, cut, b') =
      append_literal-Builds source target offset start (length target) w b.within (omega arith) b in
    (append_literal w literal, rw (indexed, run, cut), b')

Builds-validate :
    (source target : Bytes) (offset : ℕ) (w : Window)
    → Builds source target (pos offset) (length target) w
    → validate w ≡ ok tt
unfolding validate
Builds-validate source target offset w b =
    let valid : validate_ops (length source) (length target) (length w.new_data) 0 w.ops
        ≡ ok (length target) =
      rw (append-nil w.new_data) at (b.valid []) in
    ground (arith, valid)

pub Builds-apply_window :
    (source target : Bytes) (offset : ℕ) (w : Window)
    → Builds source target (pos offset) (length target) w
    → length target ≤ max_alloc
    → apply_window source w ≡ ok target
Builds-apply_window source target offset w b fits =
    let applies : apply_ops source w.new_data [] w.ops ≡ ok target =
      rw (append-nil w.new_data) at (b.applies [])
      ∙ ap ok (take_all (length target) target (omega arith)) in
    let (target', run, steps, _) =
      apply_window_valid source w (Builds-validate source target offset w b) b.source_length
        (rw b.target_length fits) in
    run ∙ sym steps ∙ applies

-- For every source view, target view that a slice can hold, and source offset that is not negative, `buildWindow` returns
-- a window that `Validate` accepts, from which `ApplyWindow` rebuilds the target exactly, and whose
-- new data is taken in order, as the svndiff encoding needs.
pub apply_window-build_window :
    (source target : Bytes) (offset : ℕ)
    → length target ≤ max_alloc
    → (w : Window) × (build_window source target (pos offset) ≡ ok w)
      × (validate w ≡ ok tt)
      × (apply_window source w ≡ ok target)
      × Sequential 0 w.ops (length w.new_data)
apply_window-build_window source target offset fits =
    let (w, run, b) = build_window-Builds source target (pos offset) in
    (
      w,
      run,
      Builds-validate source target offset w b,
      Builds-apply_window source target offset w b fits,
      b.sequential,
    )

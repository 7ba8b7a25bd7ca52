-- ===== src/Wc/Queue/Repeat.antt =====
-- What the items of wc/workqueue.go that remove and move files do a second time.
use go_svn.Wc.Queue.{
  Operations, Removal, Result, removed, missing, refused, clear, and_then, remove_file, move_path,
}
use go_svn.Base.{◌≡◌, refl, ap, true, Bytes, Bool-cases, inl, inr, ◌⊎◌}
use go_svn.Base.Outcome.{ok, err, panic, out_of_fuel}

-- A second call that succeeds has a first one that does.
and_then-eq-ok :
    {World : Type 0} (first : Result World) (next : World → Result World) (w : World)
    → and_then first next ≡ (w, ok tt)
    → (v : World) × (first ≡ (v, ok tt)) × (next v ≡ (w, ok tt))
and_then-eq-ok (v, ok done) next w h = (v, refl, h)
and_then-eq-ok {World} (v, err e) next w h = absurd (cc (ap (λ (r : Result World). r.1) h))
and_then-eq-ok {World} (v, panic) next w h = absurd (cc (ap (λ (r : Result World). r.1) h))
and_then-eq-ok {World} (v, out_of_fuel) next w h = absurd (cc (ap (λ (r : Result World). r.1) h))

module _ {World : Type 0} (ops : Operations World) where
  -- A file that `os.Remove` has removed is missing.
  abbrev pub RemovesForGood : Type 0
  RemovesForGood =
      (name : Bytes) (w w' : World) → ops.remove name w ≡ removed w' → ops.remove name w' ≡ missing

  -- A file that `os.Rename` has moved to where none was is missing.
  abbrev pub MovesAway : Type 0
  MovesAway =
      (source destination : Bytes) (w w' : World)
      → ops.is_missing destination w ≡ true
      → ops.rename source destination w ≡ (w', ok tt)
      → ops.is_missing source w' ≡ true

  -- Once its directory is made, the destination of a move can be cleared.
  abbrev pub CanBeCleared : (destination : Bytes) → World → Type 0
  CanBeCleared destination w =
      (made : World)
      → ops.mkdir_all (ops.dir_of destination) w ≡ (made, ok tt)
      → ops.is_missing destination (clear ops destination made) ≡ true

  removal_cases :
      (m : Removal World)
      → ((w : World) × (m ≡ removed w)) ⊎ ((m ≡ missing) ⊎ ((w : World) × (m ≡ refused w)))
  removal_cases (removed w) = inl (w, refl)
  removal_cases missing = inr (inl refl)
  removal_cases (refused w) = inr (inr (w, refl))

  remove_file_again :
      (name : Bytes) (w w' : World)
      → RemovesForGood
      → remove_file ops name w ≡ (w', ok tt)
      → remove_file ops name w' ≡ (w', ok tt)
  unfolding remove_file
  remove_file_again name w w' gone h = elim (removal_cases (ops.remove name w)) [
    | inl (v, e) ↦
        let here : v ≡ w' = ap (λ (r : Result World). r.0) (rw (remove_file, e) at h) in
        let again : ops.remove name w' ≡ missing = rw here at (gone name w v e) in
        rw (remove_file, again) refl
    | inr (inl e) ↦
        let here : w ≡ w' = ap (λ (r : Result World). r.0) (rw (remove_file, e) at h) in
        let again : ops.remove name w' ≡ missing = rw here at e in rw (remove_file, again) refl
    | inr (inr (v, e)) ↦ absurd (cc (ap (λ (r : Result World). r.1) (rw (remove_file, e) at h)))
  ]

  move_path_again :
      (source destination : Bytes) (w w' : World)
      → MovesAway
      → CanBeCleared destination w
      → move_path ops source destination w ≡ (w', ok tt)
      → move_path ops source destination w' ≡ (w', ok tt)
  unfolding move_path
  move_path_again source destination w w' away cleared h =
      elim (Bool-cases (ops.is_missing source w)) [
        | inl e ↦
            let here : w ≡ w' = ap (λ (r : Result World). r.0) (rw e at h) in
            let again : ops.is_missing source w' ≡ true = rw here at e in rw again refl
        | inr e ↦
            let (made, run, last) =
              and_then-eq-ok (ops.mkdir_all (ops.dir_of destination) w) _ w' (rw e at h) in
            rw (away source destination _ w' (cleared made run) last) refl
      ]

  -- Where a file that `os.Remove` has removed is missing, and so is the source of what `os.Rename` has
  -- moved to where no file was: a removal that succeeds, and a move that succeeds and whose destination
  -- could be cleared, may be done again, and the second time they succeed and change nothing.
  pub removals_again :
      (name source destination : Bytes) (w w' v v' : World)
      → RemovesForGood
      → MovesAway
      → CanBeCleared destination v
      → remove_file ops name w ≡ (w', ok tt)
      → move_path ops source destination v ≡ (v', ok tt)
      → (remove_file ops name w' ≡ (w', ok tt))
        × (move_path ops source destination v' ≡ (v', ok tt))
  removals_again name source destination w w' v v' gone away cleared removal move = (
    remove_file_again name w w' gone removal,
    move_path_again source destination v v' away cleared move,
  )

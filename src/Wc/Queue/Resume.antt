-- ===== src/Wc/Queue/Resume.antt =====
-- `RunWorkQueue` of wc/workqueue.go behind runs that were interrupted.
use go_svn.Wc.Queue.{
  Operations, Database, Round, error_before, error_behind, live, run_entry, run_loop,
  run_work_queue,
}
use go_svn.Wc.Queue.Order.{
  error_cases, later, run_loop-interrupted, run_loop-performed, run_loop-kept, run_loop-first,
  run_loop-next, run_work_queue-loop,
}
use go_svn.Base.{ℕ, ◌≡◌, refl, ◌∙◌, true, List, [], ◌∷◌, Bytes, All, inl, inr}
use go_svn.Base.Outcome.{ok}

module _ {World : Type 0} (ops : Operations World) where
  -- Running a row again changes nothing.
  abbrev pub Repeatable : ℕ × Bytes → Type 0
  Repeatable (id, work) =
      (w w' : World) → run_entry ops work w ≡ (w', ok tt) → run_entry ops work w' ≡ (w', ok tt)

  -- The rows may be run again, and a live loop empties the queue and leaves a world.
  abbrev Resumes : (final : World) → List (ℕ × Bytes) → World → Type 0
  Resumes final queue w = All Repeatable queue × (run_loop ops live queue w ≡ ([], final, ok tt))

  run_loop-Resumes :
      (rounds : ℕ → Round) (queue : List (ℕ × Bytes)) (w final : World)
      → Resumes final queue w
      → Resumes final (run_loop ops rounds queue w).0 (run_loop ops rounds queue w).1
  unfolding run_loop
  run_loop-Resumes rounds [] w final h = elim (error_cases (error_before (rounds 0))) [
    | inl b ↦ rw (run_loop, b) h
    | inr (e, b) ↦ rw (run_loop, b) h
  ]
  run_loop-Resumes rounds ((id, work) ∷ rest) w final ((again, others), run) =
      let (w', first, after) = run_loop-first ops id work rest w final run in
      elim (error_cases (error_before (rounds 0))) [
        | inr (e, b) ↦
            rw (run_loop-interrupted ops rounds id work rest w e b) ((again, others), run)
        | inl b ↦ elim (error_cases (error_behind (rounds 0))) [
          | inl k ↦
              rw (run_loop-performed ops rounds id work rest w w' b first k)
                (run_loop-Resumes (later rounds) rest w' final (others, after))
          | inr (e, k) ↦
              let second = run_loop-next ops id work rest w' w' (again w w' first) in
              rw (run_loop-kept ops rounds id work rest w w' e b first k)
                ((again, others), second ∙ after)
        ]
      ]

  -- What is left of the database by some runs, each with what its rounds met.
  pub interrupted : List (ℕ → Round) → Database World → Database World
  interrupted [] s = s
  interrupted (rounds ∷ more) s = interrupted more (run_work_queue ops rounds s).0

  stepped : (ℕ → Round) → Database World → Database World
  stepped rounds s = record s {
    queue = (run_loop ops rounds s.queue s.world).0;
    world = (run_loop ops rounds s.queue s.world).1;
  }

  run_work_queue-stepped :
      (rounds : ℕ → Round) (s : Database World)
      → s.writable ≡ true
      → (run_work_queue ops rounds s).0 ≡ stepped rounds s
  unfolding run_work_queue stepped
  run_work_queue-stepped rounds s h = rw h refl

  interrupted-Resumes :
      (runs : List (ℕ → Round)) (s : Database World) (final : World)
      → s.writable ≡ true
      → Resumes final s.queue s.world
      → ((interrupted runs s).writable ≡ true)
        × Resumes final (interrupted runs s).queue (interrupted runs s).world
  unfolding interrupted stepped
  interrupted-Resumes [] s final writable h = (writable, h)
  interrupted-Resumes (rounds ∷ more) s final writable h =
      rw (interrupted, run_work_queue-stepped rounds s writable)
        (interrupted-Resumes more (stepped rounds s) final writable
          (run_loop-Resumes rounds s.queue s.world final h))

  -- Where running a row again changes nothing, and a live run empties the queue of a database that may
  -- be written, the same holds behind any number of runs, each interrupted in any round: in front of a
  -- row, or behind a row that was run and before it was deleted. The live run behind them empties the
  -- queue, and leaves the same world.
  pub run_work_queue-interrupted :
      (runs : List (ℕ → Round)) (s : Database World) (final : World)
      → s.writable ≡ true
      → All Repeatable s.queue
      → run_work_queue ops live s ≡ (record s { queue = []; world = final }, ok tt)
      → run_work_queue ops live (interrupted runs s)
        ≡ (record (interrupted runs s) { queue = []; world = final }, ok tt)
  unfolding run_work_queue
  run_work_queue-interrupted runs s final writable all ran =
      let run = run_work_queue-loop ops s final writable ran in
      let (writable', (_, run')) = interrupted-Resumes runs s final writable (all, run) in
      rw (writable', run') refl

-- ===== src/Wc/Queue/Order.antt =====
-- The order in which `RunWorkQueue` of wc/workqueue.go goes through the queue.
use go_svn.Skel.{Node, marshal_binary}
use go_svn.Skel.RoundTrip.{parse-marshal_binary}
use go_svn.Wc.Queue.{
  Operations, Database, Result, Round, error_before, error_behind, live, run_entry, run_parsed,
  run_work_item, enqueue, run_loop, run_work_queue,
}
use go_svn.Base.{
  ℕ, suc, ◌≡◌, refl, sym, ap, ◌∙◌, Bool, true, false, List, [], ◌∷◌, ◌++◌, Bytes, inl, inr, ◌⊎◌,
  Option, none, some, length,
}
use go_svn.Base.Outcome.{
  Error, Outcome, ok, err, panic, out_of_fuel, wc_not_locked, guard, >>=-eq-ok,
}

triple {ℓ κ μ} :
    {A : Type ℓ} {B : Type κ} {C : Type μ} {a : A} {b : B} {c : C} (r : A × B × C)
    → r.0 ≡ a
    → r.1 ≡ b
    → r.2 ≡ c
    → r ≡ (a, b, c)
triple (x, y, z) p q r = rw (p, q, r) refl

guard-ok : (b : Bool) → guard b wc_not_locked ≡ ok tt → b ≡ true
guard-ok true h = refl
guard-ok false h = cc

pub error_cases : (o : Option Error) → (o ≡ none) ⊎ ((e : Error) × (o ≡ some e))
error_cases none = inl refl
error_cases (some e) = inr (e, refl)

pub result_cases : {World : Type 0} (r : Result World) → (r ≡ (r.0, ok tt)) ⊎ ¬ (r.1 ≡ ok tt)
result_cases (w, ok done) = inl refl
result_cases (w, err x) = inr (λ e. cc)
result_cases (w, panic) = inr (λ e. cc)
result_cases (w, out_of_fuel) = inr (λ e. cc)

leaving : {World : Type 0} {r r' : Result World} → r ≡ r' → r.0 ≡ r'.0
leaving {World = World} e = ap (λ (r : Result World). r.0) e

ending : {World : Type 0} {r r' : Result World} → r ≡ r' → r.1 ≡ r'.1
ending {World = World} e = ap (λ (r : Result World). r.1) e

-- The rounds behind the first one.
abbrev pub later : (ℕ → Round) → ℕ → Round
later rounds = λ n. rounds (suc n)

module _ {World : Type 0} (ops : Operations World) where
  -- The rows are run one after the other, each once and with success, and deleted.
  pub data Performed : (ℕ → Round) → List (ℕ × Bytes) → World → World → Type 0 where
    none_left : {rounds : ℕ → Round} {w : World} → Performed rounds [] w w
    perform :
        {rounds : ℕ → Round} {id : ℕ} {work : Bytes} {rest : List (ℕ × Bytes)} {w w' w'' : World}
        → error_before (rounds 0) ≡ none
        → run_entry ops work w ≡ (w', ok tt)
        → error_behind (rounds 0) ≡ none
        → Performed (later rounds) rest w' w''
        → Performed rounds ((id, work) ∷ rest) w w''

  -- How the loop stops in a round, and in what world: at the end of the queue; in front of a row, where
  -- the context is done or the SELECT fails; behind a row that fails, in the world that it leaves; or
  -- behind a row that is run with success, where the DELETE fails.
  pub data Stops (round : Round) (w : World)
      : List (ℕ × Bytes) → World → Outcome (Unit {0}) → Type 0 where
    drained : error_before round ≡ none → Stops round w [] w (ok tt)
    interrupted :
        {left : List (ℕ × Bytes)} (e : Error)
        → error_before round ≡ some e
        → Stops round w left w (err e)
    failed :
        (id : ℕ) (work : Bytes) (rest : List (ℕ × Bytes))
        → error_before round ≡ none
        → ¬ ((run_entry ops work w).1 ≡ ok tt)
        → Stops round w ((id, work) ∷ rest) (run_entry ops work w).0 (run_entry ops work w).1
    kept :
        (id : ℕ) (work : Bytes) (rest : List (ℕ × Bytes)) (w' : World) (e : Error)
        → error_before round ≡ none
        → run_entry ops work w ≡ (w', ok tt)
        → error_behind round ≡ some e
        → Stops round w ((id, work) ∷ rest) w' (err e)

  pub data Runs (rounds : ℕ → Round) (queue : List (ℕ × Bytes)) (w : World)
      : List (ℕ × Bytes) × World × Outcome (Unit {0}) → Type 0 where
    runs :
        (done left : List (ℕ × Bytes)) (w' w'' : World) (outcome : Outcome (Unit {0}))
        → queue ≡ done ++ left
        → Performed rounds done w w'
        → Stops (rounds (length done)) w' left w'' outcome
        → Runs rounds queue w (left, w'', outcome)

  module _ (rounds : ℕ → Round) (id : ℕ) (work : Bytes) (rest : List (ℕ × Bytes)) (w : World) where
    pub run_loop-interrupted :
        (e : Error)
        → error_before (rounds 0) ≡ some e
        → run_loop ops rounds ((id, work) ∷ rest) w ≡ ((id, work) ∷ rest, w, err e)
    unfolding run_loop
    run_loop-interrupted e h = rw (run_loop, h) refl

    pub run_loop-performed :
        (w' : World)
        → error_before (rounds 0) ≡ none
        → run_entry ops work w ≡ (w', ok tt)
        → error_behind (rounds 0) ≡ none
        → run_loop ops rounds ((id, work) ∷ rest) w ≡ run_loop ops (later rounds) rest w'
    unfolding run_loop
    run_loop-performed w' h run k = rw (run_loop, h, ending run, k, leaving run) refl

    pub run_loop-kept :
        (w' : World) (e : Error)
        → error_before (rounds 0) ≡ none
        → run_entry ops work w ≡ (w', ok tt)
        → error_behind (rounds 0) ≡ some e
        → run_loop ops rounds ((id, work) ∷ rest) w ≡ ((id, work) ∷ rest, w', err e)
    unfolding run_loop
    run_loop-kept w' e h run k = rw (run_loop, h, ending run, k, leaving run) refl

    run_loop-failed :
        (r : Result World)
        → run_entry ops work w ≡ r
        → error_before (rounds 0) ≡ none
        → ¬ (r.1 ≡ ok tt)
        → run_loop ops rounds ((id, work) ∷ rest) w ≡ ((id, work) ∷ rest, r.0, r.1)
    unfolding run_loop
    run_loop-failed (w', ok done) run h n = absurd (n refl)
    run_loop-failed (w', err x) run h n = rw (run_loop, h, ending run, leaving run) refl
    run_loop-failed (w', panic) run h n = rw (run_loop, h, ending run, leaving run) refl
    run_loop-failed (w', out_of_fuel) run h n = rw (run_loop, h, ending run, leaving run) refl

    performed_first :
        (w' : World) (result : List (ℕ × Bytes) × World × Outcome (Unit {0}))
        → error_before (rounds 0) ≡ none
        → run_entry ops work w ≡ (w', ok tt)
        → error_behind (rounds 0) ≡ none
        → Runs (later rounds) rest w' result
        → Runs rounds ((id, work) ∷ rest) w result
    performed_first w' _ h run k (runs done left v v' outcome q p s) =
        runs ((id, work) ∷ done) left v v' outcome (ap (λ t. (id, work) ∷ t) q) (perform h run k p)
          s

    -- Where the row is run with success, it is deleted and the loop goes on, or it is kept.
    success-Runs :
        (w' : World)
        → error_before (rounds 0) ≡ none
        → run_entry ops work w ≡ (w', ok tt)
        → Runs (later rounds) rest w' (run_loop ops (later rounds) rest w')
        → Runs rounds ((id, work) ∷ rest) w (run_loop ops rounds ((id, work) ∷ rest) w)
    success-Runs w' h run more = elim (error_cases (error_behind (rounds 0))) [
      | inl k ↦ rw (run_loop-performed w' h run k) (performed_first w' _ h run k more)
      | inr (e, k) ↦
          rw (run_loop-kept w' e h run k) (
            runs [] ((id, work) ∷ rest) w w' (err e) refl none_left
              (kept id work rest w' e h run k))
    ]

  run_loop-Runs :
      (rounds : ℕ → Round) (queue : List (ℕ × Bytes)) (w : World)
      → Runs rounds queue w (run_loop ops rounds queue w)
  unfolding run_loop
  run_loop-Runs rounds [] w = elim (error_cases (error_before (rounds 0))) [
    | inl h ↦ rw (run_loop, h) (runs [] [] w w (ok tt) refl none_left (drained h))
    | inr (e, h) ↦ rw (run_loop, h) (runs [] [] w w (err e) refl none_left (interrupted e h))
  ]
  run_loop-Runs rounds ((id, work) ∷ rest) w = elim (error_cases (error_before (rounds 0))) [
    | inr (e, h) ↦
        rw (run_loop-interrupted rounds id work rest w e h)
          (runs [] ((id, work) ∷ rest) w w (err e) refl none_left (interrupted e h))
    | inl h ↦ elim (result_cases (run_entry ops work w)) [
      | inl run ↦ success-Runs rounds id work rest w _ h run (run_loop-Runs (later rounds) rest _)
      | inr n ↦
          rw (run_loop-failed rounds id work rest w _ refl h n)
            (runs [] ((id, work) ∷ rest) w _ _ refl none_left (failed id work rest h n))
    ]
  ]

  -- On a database that may be written, and whatever the rounds meet, `RunWorkQueue` runs the rows in the
  -- order of their ids, each of them once, and deletes those that it ran with success. It stops in one of
  -- four ways: with an empty queue and without an error; in front of a row or at the end of the queue,
  -- with the error of the context or of the SELECT; with the error of a row that fails, in the world that
  -- this row leaves; or with the error of the DELETE of a row that was run with success. In the last two
  -- the row stays in the queue, and in all of them the rows behind it.
  pub run_work_queue-Runs :
      (rounds : ℕ → Round) (database : Database World)
      → database.writable ≡ true
      → (result : List (ℕ × Bytes) × World × Outcome (Unit {0})) × Runs rounds database.queue
          database.world result
        × (run_work_queue ops rounds database
            ≡ (record database { queue = result.0; world = result.1 }, result.2))
  unfolding run_work_queue
  run_work_queue-Runs rounds database h =
      (run_loop ops rounds database.queue database.world, run_loop-Runs rounds _ _, rw h refl)

  run_loop_end : (w : World) → run_loop ops live [] w ≡ ([], w, ok tt)
  unfolding run_loop error_before
  run_loop_end w = refl

  -- A live loop that empties its queue runs the first row with success.
  pub run_loop-first :
      (id : ℕ) (work : Bytes) (rest : List (ℕ × Bytes)) (w final : World)
      → run_loop ops live ((id, work) ∷ rest) w ≡ ([], final, ok tt)
      → (w' : World) × (run_entry ops work w ≡ (w', ok tt))
        × (run_loop ops live rest w' ≡ ([], final, ok tt))
  unfolding error_before error_behind
  run_loop-first id work rest w final h = elim (result_cases (run_entry ops work w)) [
    | inl run ↦ (_, run, sym (run_loop-performed live id work rest w _ refl run refl) ∙ h)
    | inr n ↦
        let stuck = sym (run_loop-failed live id work rest w _ refl refl n) ∙ h in
        let queue = ap (λ (r : List (ℕ × Bytes) × World × Outcome (Unit {0})). r.0) stuck in
        cc queue
  ]

  pub run_loop-next :
      (id : ℕ) (work : Bytes) (rest : List (ℕ × Bytes)) (w w' : World)
      → run_entry ops work w ≡ (w', ok tt)
      → run_loop ops live ((id, work) ∷ rest) w ≡ run_loop ops live rest w'
  unfolding error_before error_behind
  run_loop-next id work rest w w' run = run_loop-performed live id work rest w w' refl run refl

  run_loop-append :
      (queue more : List (ℕ × Bytes)) (w w' : World)
      → run_loop ops live queue w ≡ ([], w', ok tt)
      → run_loop ops live (queue ++ more) w ≡ run_loop ops live more w'
  run_loop-append [] more w w' h =
      let ended = sym (run_loop_end w) ∙ h in
      let same : w ≡ w' = ap (λ (r : List (ℕ × Bytes) × World × Outcome (Unit {0})). r.1) ended in
      rw same refl
  run_loop-append ((id, work) ∷ rest) more w w' h =
      let (v, run, after) = run_loop-first id work rest w w' h in
      run_loop-next id work (rest ++ more) w v run ∙ run_loop-append rest more v w' after

  -- A run to the end is one of the loop.
  pub run_work_queue-loop :
      (database : Database World) (w : World)
      → database.writable ≡ true
      → run_work_queue ops live database ≡ (record database { queue = []; world = w }, ok tt)
      → run_loop ops live database.queue database.world ≡ ([], w, ok tt)
  unfolding run_work_queue
  run_work_queue-loop database w h ran =
      let run = rw h at ran in
      triple (run_loop ops live database.queue database.world)
        (ap (λ (r : Database World × Outcome (Unit {0})). r.0.queue) run)
        (ap (λ (r : Database World × Outcome (Unit {0})). r.0.world) run)
        (ap (λ (r : Database World × Outcome (Unit {0})). r.1) run)

  entry-runs :
      (item : Node) (work : Bytes) (w w' : World)
      → marshal_binary item ≡ ok work
      → run_work_item ops item w ≡ (w', ok tt)
      → run_entry ops work w ≡ (w', ok tt)
  unfolding run_entry run_parsed
  entry-runs item work w w' m e = rw (parse-marshal_binary item work m, e) refl

  -- An item that `Enqueue` takes is run as it was given, behind what the queue held: where the queue
  -- is run to its end, and the item is run with success in the world that this leaves, the queue with
  -- the item is run to its end, and leaves the world that the item leaves. That is so where the context
  -- is live and no statement of the database fails.
  pub run_work_queue-enqueue :
      (database database' : Database World) (item : Node) (w w' : World)
      → run_work_queue ops live database ≡ (record database { queue = []; world = w }, ok tt)
      → enqueue ops item database ≡ ok database'
      → run_work_item ops item w ≡ (w', ok tt)
      → run_work_queue ops live database' ≡ (record database' { queue = []; world = w' }, ok tt)
  unfolding run_work_queue enqueue
  run_work_queue-enqueue database database' item w w' ran added item_runs =
      let (_, g, added') = >>=-eq-ok (guard database.writable wc_not_locked) _ added in
      let writable = guard-ok database.writable g in
      let (work, m, same) = >>=-eq-ok (marshal_binary item) _ added' in
      let id = suc database.last_id in
      let here : database'
          ≡ record database { last_id = id; queue = database.queue ++ ((id, work) ∷ []) } =
        cc in
      let run = run_work_queue-loop database w writable ran in
      let last : run_loop ops live ((id, work) ∷ []) w ≡ ([], w', ok tt) =
        run_loop-next id work [] w w' (entry-runs item work w w' m item_runs) ∙ run_loop_end w' in
      let all = run_loop-append database.queue ((id, work) ∷ []) database.world w run ∙ last in
      rw (here, writable, all) refl

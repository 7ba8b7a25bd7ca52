-- ===== src/Tests/WcRuns.antt =====
-- Runs of wc/workqueue.go, in a world of one file that is there or not.
use go_svn.Base.{
  ℕ, ◌≡◌, refl, sym, ap, ◌∙◌, ◌&&◌, ◌==◌, Bool, true, false, not, List, [], ◌∷◌, Bytes, codes,
  equal,
}
use go_svn.Base.Outcome.{Outcome, ok, err, wc_bad_adm_log, database_failed}
use go_svn.Skel.{
  Node, atom, list, node, no_nodes, parse, parse_node, parse_implicit, take_name, skip_space,
  append_node, marshal_binary, write_node, use_implicit, all_plain,
}
use go_svn.Wc.Queue.{
  move_path, Operations, Removal, removed, missing, Database, remove_file, only_path, run_operation,
  run_work_item, run_entry, run_parsed, Result, Round, failed_delete, live, error_before,
  error_behind, enqueue, run_loop, run_work_queue,
}
use go_svn.Wc.Queue.Order.{Runs, run_work_queue-Runs, run_work_queue-enqueue}
use go_svn.Wc.Queue.Repeat.{RemovesForGood, MovesAway, CanBeCleared, removals_again}
use go_svn.Wc.Queue.Resume.{Repeatable, interrupted, run_work_queue-interrupted}

abbrev remove_one : Bytes → Bool → Removal Bool
remove_one name true = removed false
remove_one name false = missing

abbrev one_file : Operations Bool
one_file = record {
  remove = remove_one;
  remove_all = λ name there. removed false;
  mkdir_all = λ name there. (there, ok tt);
  rename = λ source destination there. (there, ok tt);
  is_missing = λ name there. not there;
  dir_of = λ name. [];
  invalid_path = codes ".invalid-work-item";
  resolve_path = λ name there. ok name;
  install_file = λ relpath source times info there. (true, ok tt);
  sync_file_flags = λ relpath there. (there, ok tt);
  install_property_reject = λ relpath there. (there, ok tt);
  set_times = λ name stamp there. (there, ok tt);
  record_file_info = λ relpath there. (there, ok tt);
  post_upgrade = λ there. (there, ok tt);
}

abbrev row : ℕ × Bytes
row = (1, codes "(file-remove a)")

abbrev fresh : Database Bool
fresh = record { writable = true; last_id = 0; queue = []; world = true }

abbrev queued : Database Bool
queued = record { writable = true; last_id = 1; queue = row ∷ []; world = true }

abbrev removal : Node
removal = list (node (atom (codes "file-remove")) (node (atom (codes "a")) no_nodes))

removal_enqueued : enqueue one_file removal fresh ≡ ok queued
unfolding enqueue marshal_binary write_node use_implicit all_plain
removal_enqueued = refl

row_runs : (there : Bool) → run_entry one_file (codes "(file-remove a)") there ≡ (false, ok tt)
unfolding run_entry run_parsed run_work_item run_operation remove_file only_path equal parse
    parse_node parse_implicit take_name skip_space append_node
row_runs true = refl
row_runs false = refl

row-Repeatable : Repeatable one_file row
row-Repeatable w w' e =
    let here : w' ≡ false = ap (λ (r : Result Bool). r.0) (sym e ∙ row_runs w) in
    rw here (row_runs false)

queued_run :
    run_work_queue one_file live queued ≡ (record queued { queue = []; world = false }, ok tt)
unfolding run_work_queue run_loop error_before error_behind run_entry run_parsed run_work_item
    run_operation remove_file only_path equal parse parse_node parse_implicit take_name skip_space
    append_node
queued_run = refl

unknown_item : run_entry one_file (codes "(format a)") true ≡ (true, err wc_bad_adm_log)
unfolding run_entry run_parsed run_work_item run_operation equal parse parse_node parse_implicit
    take_name skip_space append_node
unknown_item = refl

-- The DELETE of the only row fails.
abbrev undeleted : ℕ → Round
undeleted n = failed_delete

run_work_queue-Runs_example :
    (result : List (ℕ × Bytes) × Bool × Outcome (Unit {0})) × Runs one_file undeleted queued.queue
      queued.world result
    × (run_work_queue one_file undeleted queued
        ≡ (record queued { queue = result.0; world = result.1 }, result.2))
run_work_queue-Runs_example = run_work_queue-Runs one_file undeleted queued refl

fresh_run : run_work_queue one_file live fresh ≡ (record fresh { queue = []; world = true }, ok tt)
unfolding run_work_queue run_loop error_before error_behind
fresh_run = refl

removal_runs : run_work_item one_file removal true ≡ (false, ok tt)
unfolding run_work_item run_operation remove_file only_path equal
removal_runs = refl

run_work_queue-enqueue_example :
    run_work_queue one_file live queued ≡ (record queued { queue = []; world = false }, ok tt)
run_work_queue-enqueue_example =
    run_work_queue-enqueue one_file fresh queued removal true false fresh_run removal_enqueued
      removal_runs

-- The row was run and not deleted.
undeleted_run :
    run_work_queue one_file undeleted queued
    ≡ (record queued { world = false }, err database_failed)
unfolding run_work_queue run_loop error_before error_behind run_entry run_parsed run_work_item
    run_operation remove_file only_path equal parse parse_node parse_implicit take_name skip_space
    append_node
undeleted_run = refl

run_work_queue-interrupted_example :
    run_work_queue one_file live (interrupted one_file (undeleted ∷ []) queued)
    ≡ (record (interrupted one_file (undeleted ∷ []) queued) { queue = []; world = false }, ok tt)
run_work_queue-interrupted_example =
    run_work_queue-interrupted one_file (undeleted ∷ []) queued false refl (row-Repeatable, tt)
      queued_run

-- One world more: a file named `a` that a move takes away.
abbrev is_named : Bytes → Bool
is_named [] = false
is_named (c ∷ name) = c == 97

abbrev one_move : Operations Bool
one_move = record one_file {
  remove_all = λ name there. removed (there && not (is_named name));
  rename = λ source destination there. (false, ok tt);
  is_missing = λ name there. not (there && is_named name);
}

gone_for_good : RemovesForGood one_move
gone_for_good name true w' e = let here : w' ≡ false = cc in rw here refl
gone_for_good name false w' e = cc

moved_away : MovesAway one_move
moved_away source destination w w' empty e =
    let here : w' ≡ false = sym (ap (λ (r : Result Bool). r.0) e) in rw here refl

cleared : CanBeCleared one_move (codes "b") true
cleared true e = refl
cleared false e = refl

removal_once : remove_file one_move (codes "a") true ≡ (false, ok tt)
unfolding remove_file
removal_once = refl

move_once : move_path one_move (codes "a") (codes "b") true ≡ (false, ok tt)
unfolding move_path
move_once = refl

removals_again_example :
    (remove_file one_move (codes "a") false ≡ (false, ok tt))
    × (move_path one_move (codes "a") (codes "b") false ≡ (false, ok tt))
removals_again_example =
    removals_again one_move (codes "a") (codes "a") (codes "b") true false true false gone_for_good
      moved_away cleared removal_once move_once

-- ===== src/Wc/Queue.antt =====
-- wc/workqueue.go: the queue of work items, their dispatch and the loop that runs them. What the items
-- do to the file system and to the other tables of the database are `Operations` on a world, and an item
-- that fails keeps what it has changed. Every error of an item ends in `ErrWCBadAdmLog`.
pub mod Resume
pub mod Order
pub mod Repeat
use go_svn.Skel.{Node, Nodes, null, atom, list, no_nodes, node, parse, marshal_binary, parse_uint}
use go_svn.Hashfile.{all_digits}
use go_svn.Base.{
  ℕ, zero, suc, ◌+◌, Bool, true, false, not, ◌&&◌, ◌||◌, List, [], ◌∷◌, ◌++◌, Bytes, codes, equal,
  ◌==◌, leb, ltb, if◌then◌else◌,
}
use go_svn.Base.Int.{ℤ, pos, negsuc, eqb_ℤ}
use mathlib.Core.Option.{Option, none, some}
use go_svn.Base.Outcome.{
  Error, context_canceled, database_failed, Outcome, ok, err, panic, out_of_fuel, wc_not_locked,
  wc_bad_adm_log, ◌>>=◌, ◌>>◌, guard, wrap,
}

-- What `os.Remove` and `os.RemoveAll` do: a failure may have removed a part, and one of them says that
-- there is no such file.
pub data Removal (World : Type 0) : Type 0 where
  removed : World → Removal World
  missing : Removal World
  refused : World → Removal World

-- What a call leaves, whether it fails or not, and how it ends.
abbrev pub Result : Type 0 → Type 0
Result World = World × Outcome (Unit {0})

-- The functions of package os, path/filepath and wc that the items call.
pub record Operations (World : Type 0) : Type 0 where
  pub remove : Bytes → World → Removal World
  pub remove_all : Bytes → World → Removal World
  pub mkdir_all : Bytes → World → Result World
  pub rename : (source destination : Bytes) → World → Result World
  pub is_missing : Bytes → World → Bool
  pub dir_of : Bytes → Bytes
  pub invalid_path : Bytes
  pub resolve_path : Bytes → World → Outcome Bytes
  pub install_file :
      (relpath source : Bytes) (use_commit_times record_info : Bool) → World → Result World
  pub sync_file_flags : Bytes → World → Result World
  pub install_property_reject : Bytes → World → Result World
  pub set_times : Bytes → ℤ → World → Result World
  pub record_file_info : Bytes → World → Result World
  pub post_upgrade : World → Result World

-- The next call, where one has succeeded; a failure keeps what was changed.
abbrev pub and_then : {World : Type 0} → Result World → (World → Result World) → Result World
and_then (world, ok done) next = next world
and_then (world, err e) next = (world, err e)
and_then (world, panic) next = (world, panic)
and_then (world, out_of_fuel) next = (world, out_of_fuel)

-- A call whose arguments may fail, which changes nothing.
abbrev pub call_in : {World : Type 0} → World → Outcome (Result World) → Result World
call_in world (ok result) = result
call_in world (err e) = (world, err e)
call_in world panic = (world, panic)
call_in world out_of_fuel = (world, out_of_fuel)

abbrev bad {ℓ} : {A : Type ℓ} → Outcome A
bad = err wc_bad_adm_log

-- `strconv.ParseInt(value, 10, 64)`
unfoldable pub parse_magnitude : (limit : ℕ) → Bytes → Outcome ℕ
parse_magnitude limit [] = err wc_bad_adm_log
parse_magnitude limit (c ∷ digits) = do
  guard (all_digits (c ∷ digits) && leb (parse_uint 0 (c ∷ digits)) limit) wc_bad_adm_log
  ok (parse_uint 0 (c ∷ digits))

abbrev negative : ℕ → ℤ
negative zero = pos 0
negative (suc n) = negsuc n

unfoldable pub parse_int : Bytes → Outcome ℤ
parse_int [] = err wc_bad_adm_log
parse_int (c ∷ value) =
    if c == 45 then (do n ← parse_magnitude 9223372036854775808 value; ok (negative n)) else (do
      n ← parse_magnitude 9223372036854775807 (if c == 43 then value else c ∷ value)
      ok (pos n))

-- `node.Atom`: nil for a list, and a panic for a node that is nil.
abbrev atom_bytes : Node → Outcome Bytes
atom_bytes null = panic
atom_bytes (atom bytes) = ok bytes
atom_bytes (list nodes) = ok []

unfoldable pub work_bool : Node → Outcome Bool
work_bool n = do value ← atom_bytes n >>= parse_int; ok (not (eqb_ℤ value (pos 0)))

-- `arguments[index].Atom`
abbrev first_atom : Nodes → Outcome Bytes
first_atom no_nodes = panic
first_atom (node n rest) = atom_bytes n

module _ {World : Type 0} (ops : Operations World) where
  unfoldable pub remove_file : Bytes → World → Result World
  remove_file name world = elim (ops.remove name world) [
    | removed world' ↦ (world', ok tt)
    | missing ↦ (world, ok tt)
    | refused world' ↦ (world', bad)
  ]

  unfoldable pub remove_directory : Bytes → (recursive : Bool) → World → Result World
  remove_directory name true world = elim (ops.remove_all name world) [
    | removed world' ↦ (world', ok tt)
    | missing ↦ (world, ok tt)
    | refused world' ↦ (world', bad)
  ]
  remove_directory name false world = elim (ops.remove name world) [
    | removed world' ↦ (world', ok tt)
    | missing ↦ (world, ok tt)
    | refused world' ↦ (world', ok tt)
  ]

  -- `_ = os.RemoveAll(destination)`
  abbrev pub clear : Bytes → World → World
  clear name world = elim (ops.remove_all name world) [
    | removed world' ↦ world'
    | missing ↦ world
    | refused world' ↦ world'
  ]

  unfoldable pub move_path : (source destination : Bytes) → World → Result World
  move_path source destination world =
      if ops.is_missing source world
      then (world, ok tt)
      else and_then (ops.mkdir_all (ops.dir_of destination) world)
          (λ world'. ops.rename source destination (clear destination world'))

  -- `workPath` of an argument, where there are as many as there should be.
  abbrev path_of : Node → World → Bytes
  path_of (atom bytes) world = elim (ops.resolve_path bytes world) [
    | ok path ↦ path
    | _ ↦ ops.invalid_path
  ]
  path_of n world = ops.invalid_path

  unfoldable pub only_path : Nodes → World → Bytes
  only_path (node n no_nodes) world = path_of n world
  only_path arguments world = ops.invalid_path

  unfoldable pub run_file_install : Nodes → World → Result World
  run_file_install (node name (node times (node info no_nodes))) world = call_in world (do
    use_commit_times ← work_bool times
    record_info ← work_bool info
    relpath ← atom_bytes name
    ok (ops.install_file relpath [] use_commit_times record_info world))
  run_file_install (node name (node times (node info (node source no_nodes)))) world =
      call_in world (do
        use_commit_times ← work_bool times
        record_info ← work_bool info
        source_relpath ← atom_bytes source
        relpath ← atom_bytes name
        ok (ops.install_file relpath source_relpath use_commit_times record_info world))
  run_file_install arguments world = (world, bad)

  unfoldable pub run_dir_remove : Nodes → World → Result World
  run_dir_remove (node name no_nodes) world = call_in world (do
    path ← atom_bytes name >>= λ relpath. ops.resolve_path relpath world
    ok (remove_directory path false world))
  run_dir_remove (node name (node flag no_nodes)) world = call_in world (do
    recursive ← work_bool flag
    path ← atom_bytes name >>= λ relpath. ops.resolve_path relpath world
    ok (remove_directory path recursive world))
  run_dir_remove arguments world = (world, bad)

  unfoldable pub run_file_move : Nodes → World → Result World
  run_file_move (node source (node destination no_nodes)) world =
      move_path (path_of source world) (path_of destination world) world
  run_file_move arguments world = (world, bad)

  unfoldable pub run_record_file_info : Nodes → World → Result World
  run_record_file_info (node name no_nodes) world =
      call_in world (do relpath ← atom_bytes name; ok (ops.record_file_info relpath world))
  run_record_file_info (node name (node stamp no_nodes)) world = call_in world (do
    microseconds ← atom_bytes stamp >>= parse_int
    relpath ← atom_bytes name
    path ← ops.resolve_path relpath world
    ok (
        and_then (ops.set_times path microseconds world)
          (λ world'. ops.record_file_info relpath world')))
  run_record_file_info arguments world = (world, bad)

  -- The `switch` of `runWorkItem`.
  unfoldable pub run_operation : (operation : Bytes) (arguments : Nodes) → World → Result World
  run_operation operation arguments world =
      if equal operation (codes "file-install")
      then run_file_install arguments world
      else if equal operation (codes "file-remove")
      then remove_file (only_path arguments world) world
      else if equal operation (codes "dir-remove")
      then run_dir_remove arguments world
      else if equal operation (codes "file-move")
      then run_file_move arguments world
      else if equal operation (codes "dir-install")
      then ops.mkdir_all (only_path arguments world) world
      else if equal operation (codes "sync-file-flags")
      then call_in world (do relpath ← first_atom arguments; ok (ops.sync_file_flags relpath world))
      else if equal operation (codes "prej-install")
      then call_in world
          (do relpath ← first_atom arguments; ok (ops.install_property_reject relpath world))
      else if equal operation (codes "record-fileinfo")
      then run_record_file_info arguments world
      else if equal operation (codes "postupgrade")
      then ops.post_upgrade world
      else (world, bad)

  -- `runWorkItem`, with the loop over a list of items.
  unfoldable mutual
    pub run_work_item : Node → World → Result World
    run_work_item null world = (world, bad)
    run_work_item (atom bytes) world = (world, bad)
    run_work_item (list no_nodes) world = (world, bad)
    run_work_item (list (node null rest)) world = (world, bad)
    run_work_item (list (node (atom operation) arguments)) world =
        run_operation operation arguments world
    run_work_item (list (node (list children) rest)) world =
        and_then (run_work_item (list children) world) (λ world'. run_work_items rest world')

    pub run_work_items : Nodes → World → Result World
    run_work_items no_nodes world = (world, ok tt)
    run_work_items (node n rest) world =
        and_then (run_work_item n world) (λ world'. run_work_items rest world')

  -- Every error of an item is answered by `ErrWCBadAdmLog`.
  unfoldable pub run_parsed : Node → World → Result World
  run_parsed item world =
      let (world', outcome) = run_work_item item world in (world', wrap wc_bad_adm_log outcome)

  -- A row of the table WORK_QUEUE, its bytes parsed and run.
  unfoldable pub run_entry : Bytes → World → Result World
  run_entry work world =
      call_in world (do item ← wrap wc_bad_adm_log (parse work); ok (run_parsed item world))

-- What a round of the loop of `RunWorkQueue` meets beside its row: nothing, a context that is done, a
-- SELECT that fails, or a DELETE that fails. A process that dies between two rows leaves what a context
-- that is done leaves, and one that dies behind its row and before the DELETE leaves what a DELETE that
-- fails leaves.
pub data Round : Type 0 where
  goes_on done_context failed_select failed_delete : Round

-- The error in front of the row of a round.
unfoldable pub error_before : Round → Option Error
error_before goes_on = none
error_before done_context = some context_canceled
error_before failed_select = some database_failed
error_before failed_delete = none

-- The error behind the row of a round.
unfoldable pub error_behind : Round → Option Error
error_behind failed_delete = some database_failed
error_behind round = none

-- The context is live, and the database answers.
abbrev pub live : ℕ → Round
live n = goes_on

-- The rows in the order of their ids, and the rest of the world.
pub record Database (World : Type 0) : Type 0 where
  pub writable : Bool
  pub last_id : ℕ
  pub queue : List (ℕ × Bytes)
  pub world : World

module _ {World : Type 0} (ops : Operations World) where
  -- `Enqueue`: a new id is above every one given before.
  unfoldable pub enqueue : Node → Database World → Outcome (Database World)
  enqueue item database = do
    guard database.writable wc_not_locked
    work ← marshal_binary item
    ok (record database {
      last_id = suc database.last_id;
      queue = database.queue ++ ((suc database.last_id, work) ∷ []);
    })

  -- The loop of `RunWorkQueue`: the rows and the world when it stops, and how it does. No item adds
  -- a row, so that the loop goes through the rows that there are. The round behind the last row finds
  -- none.
  unfoldable pub run_loop :
      (rounds : ℕ → Round)
      → List (ℕ × Bytes)
      → World
      → List (ℕ × Bytes) × World × Outcome (Unit {0})
  run_loop rounds [] world = elim (error_before (rounds 0)) [
    | some e ↦ ([], world, err e)
    | none ↦ ([], world, ok tt)
  ]
  run_loop rounds ((id, work) ∷ queue) world = elim (error_before (rounds 0)) [
    | some e ↦ ((id, work) ∷ queue, world, err e)
    | none ↦
        let result = run_entry ops work world in
        elim result.1 [
          | err e ↦ ((id, work) ∷ queue, result.0, err e)
          | panic ↦ ((id, work) ∷ queue, result.0, panic)
          | out_of_fuel ↦ ((id, work) ∷ queue, result.0, out_of_fuel)
          | ok done ↦ elim (error_behind (rounds 0)) [
            | some e ↦ ((id, work) ∷ queue, result.0, err e)
            | none ↦ run_loop (λ n. rounds (suc n)) queue result.0
          ]
        ]
  ]

  unfoldable pub run_work_queue :
      (rounds : ℕ → Round) → Database World → Database World × Outcome (Unit {0})
  run_work_queue rounds database =
      if database.writable
      then (let (queue, world, outcome) = run_loop rounds database.queue database.world in
          (record database { queue = queue; world = world }, outcome))
      else (database, err wc_not_locked)

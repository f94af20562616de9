-- ===== src/Metadata/Store.antt =====
-- The operations of mini_docker/metadata.py on the files. Writing a file is taken not to fail.
use mini_docker.Base.{
  ℕ, ◌/◌, ◌%◌, String, Bool, true, false, not, ◌&&◌, ◌||◌, Option, none, some, List, [], ◌∷◌, ltb,
  ◌==◌, if◌then◌else◌, insert, erase,
}
use mini_docker.Errors.{ok, Exec, ◌>>=◌, ◌>>◌, pure, gets, modify}
use mini_docker.Metadata.Config.{
  ContainerConfig, ExitCode, code, minus_one, Status, created, running, stopped,
}
use mini_docker.Metadata.Files.{
  file_of, read_container_data, hydrate, find_container_id, list_container_ids,
}
use mini_docker.World.{
  Os, World, Call, waitpid, rmtree, Waited, reaped, log, observe, absent, written,
}
use mini_docker.Utils.{is_process_alive}

-- `os.WIFEXITED` and `os.WEXITSTATUS`
abbrev pub has_exited : ℕ → Bool
has_exited status = status % 128 == 0

abbrev pub exit_status : ℕ → ℕ
exit_status status = status / 256 % 256

abbrev pub is_running : ContainerConfig → Bool
is_running config = elim config.status [ running ↦ true | _ ↦ false ]

abbrev pub or_else : Option ℕ → Option ℕ → Option ℕ
or_else none b = b
or_else (some a) b = some a

-- `save_container_config`
unfoldable pub save_container_config : ContainerConfig → World → World
save_container_config config w = record w {
  containers = insert config.id (written config) w.containers;
}

-- The exit code that refreshing records, where `waitpid` gives a status.
abbrev pub refreshed_code : Option ExitCode → Waited → Option ExitCode
refreshed_code old (reaped status) =
    some (if has_exited status then code (exit_status status) else minus_one)
refreshed_code old _ = old

abbrev pub must_reap : ContainerConfig → Bool
must_reap config = elim config.pid [
  | none ↦ false
  | some p ↦ not (p == 0) && elim config.exit_code [ none ↦ true | some _ ↦ false ]
]

-- What `update_container_status` makes of a configuration.
unfoldable pub with_status :
    Status → Option ℕ → Option ExitCode → ℕ → ContainerConfig → ContainerConfig
with_status running pid exit_code now config =
    let started = or_else config.started_at (some now) in
    elim pid [
      | none ↦ record config { status = running; started_at = started }
      | some p ↦ record config {
        status = running;
        pid = some p;
        supervisor_pid = some p;
        started_at = started;
      }
    ]
with_status stopped pid exit_code now config = record config {
  status = stopped;
  pid = none;
  supervisor_pid = none;
  finished_at = some now;
  exit_code = elim exit_code [ none ↦ config.exit_code | some c ↦ some c ];
}
with_status created pid exit_code now config = record config { status = created }

module _ (os : Os) where
  -- `super_pid and is_process_alive(super_pid)` tests 0 twice to the same effect.
  unfoldable pub has_process : ContainerConfig → List Call → Bool
  has_process config calls =
      is_process_alive os calls (or_else config.supervisor_pid config.pid)
      || is_process_alive os calls config.pid

  -- The configuration of a container whose processes are gone.
  unfoldable pub mark_stopped : ContainerConfig → List Call → Option ExitCode → ContainerConfig
  mark_stopped config calls exit_code = record config {
    status = stopped;
    finished_at = or_else config.finished_at (some (os.now calls));
    exit_code = exit_code;
    pid = none;
  }

  abbrev pub reap : ContainerConfig → Exec World (Option ExitCode)
  reap config = elim config.pid [
    | none ↦ pure config.exit_code
    | some p ↦
        if must_reap config
        then (log (λ calls. os.waitpid calls p) (waitpid p) >>= λ waited.
            pure (refreshed_code config.exit_code waited))
        else pure config.exit_code
  ]

  -- `_refresh_container_state`
  unfoldable pub refresh_container_state : ContainerConfig → Exec World ContainerConfig
  unfolding save_container_config has_process mark_stopped
  refresh_container_state config w =
      if is_running config && not (has_process config w.calls)
      then (do
        exit_code ← reap config
        let config' = mark_stopped config w.calls exit_code
        modify (save_container_config config')
        pure config')
          w
      else (ok config, w)

  -- `_load_container_config_by_id`
  unfoldable pub load_by_id : String → Bool → Exec World (Option ContainerConfig)
  unfolding refresh_container_state
  load_by_id id refresh_state w =
      elim (hydrate (read_container_data os (file_of w.containers id))) [
        | none ↦ (ok none, w)
        | some config ↦
            if refresh_state
            then (do config' ← refresh_container_state config; pure (some config')) w
            else (ok (some config), w)
      ]

  unfoldable pub load_container_config : String → Exec World (Option ContainerConfig)
  unfolding load_by_id
  load_container_config id = do
    found ← λ w. (find_container_id os w.containers id, w)
    elim found [ none ↦ pure none | some full_id ↦ load_by_id full_id true ]

  unfoldable pub update_container_status :
      String → Status → Option ℕ → Option ExitCode → Exec World Bool
  unfolding load_by_id with_status save_container_config
  update_container_status id status pid exit_code = do
    found ← λ w. (find_container_id os w.containers id, w)
    elim found [
      | none ↦ pure false
      | some full_id ↦ load_by_id full_id false >>= λ loaded. elim loaded [
        | none ↦ pure false
        | some config ↦ do
          now ← observe os.now
          modify (save_container_config (with_status status pid exit_code now config))
          pure true
      ]
    ]

  -- `shutil.rmtree` of the directory; where it fails, config.json may be gone already.
  unfoldable pub remove_directory : String → Exec World Bool
  remove_directory full_id = do
    removed ← log (λ calls. os.rmtree calls full_id) (rmtree full_id)
    if removed
        then (do modify (λ w. record w { containers = erase full_id w.containers }); pure true)
        else (do
          spared ← observe (λ calls. os.spares calls full_id)
          if spared then pure false else (do
            modify (λ w. record w { containers = insert full_id absent w.containers })
            pure false))

  unfoldable pub delete_container_config : String → Exec World Bool
  unfolding remove_directory
  delete_container_config id = do
    found ← λ w. (find_container_id os w.containers id, w)
    elim found [ none ↦ pure false | some full_id ↦ remove_directory full_id ]

  -- The loop of `list_containers`.
  unfoldable pub load_all : Bool → List String → Exec World (List ContainerConfig)
  load_all all_containers [] = pure []
  load_all all_containers (id ∷ ids) = do
    loaded ← load_by_id id true
    rest ← load_all all_containers ids
    elim loaded [
      | none ↦ pure rest
      | some config ↦
          if all_containers || is_running config then pure (config ∷ rest) else pure rest
    ]

abbrev pub insert_newest : ContainerConfig → List ContainerConfig → List ContainerConfig
insert_newest c [] = c ∷ []
insert_newest c (d ∷ ds) =
    if ltb c.created_at d.created_at then d ∷ insert_newest c ds else c ∷ d ∷ ds

-- `containers.sort(key=created_at, reverse=True)`, which is stable.
unfoldable pub newest_first : List ContainerConfig → List ContainerConfig
newest_first [] = []
newest_first (c ∷ cs) = insert_newest c (newest_first cs)

unfoldable pub list_containers : Os → Bool → Exec World (List ContainerConfig)
unfolding list_container_ids newest_first load_all
list_containers os all_containers = do
  ids ← gets (λ w. list_container_ids w.containers)
  loaded ← load_all os all_containers ids
  pure (newest_first loaded)

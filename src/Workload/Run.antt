-- ===== src/Workload/Run.antt =====
-- `_run_container` of mini_docker/container.py, in the process that `start` forked, and the
-- supervisor of a container with a namespace for process identifiers.
use mini_docker.Base.{
  ℕ, String, Bool, false, not, Option, none, some, List, [], ◌∷◌, ◌++◌, ◌==◌, if◌then◌else◌,
  contains, lookup, Dict,
}
use mini_docker.Container.Cleanup.{is_set, text_of, is_empty}
use mini_docker.Container.Stop.{exit_code_from_wait_status}
use mini_docker.Errors.{
  ok, Exec, ◌>>=◌, ◌>>◌, pure, raise, catch, container_internal_error, os_error,
}
use mini_docker.Metadata.Config.{ContainerConfig, code, running, stopped}
use mini_docker.Metadata.Store.{or_else, load_container_config, save_container_config}
use mini_docker.Pod.{load_pod_config, get_shared_ns_paths}
use mini_docker.World.{Os, World}
use mini_docker.Workload.Process.{
  Kernel, Process, perform, ask, attempt, on_world, sys_open, sys_ready, sys_proceed, sys_fork,
  sys_waitpid, sys_open_config, sys_write_config, sys_exit,
}
use mini_docker.Workload.Limits.{setup_cgroup}
use mini_docker.Workload.Namespaces.{create_namespaces, setns, flag_of}
use mini_docker.Workload.Setup.{prepare_and_exec_workload}

-- The namespaces that are made: those that are not shared with the pod, and for a rootless
-- container that of the users and that of the mounts.
unfoldable pub namespaces_to_create : ContainerConfig → Dict String → List String
namespaces_to_create config pod_ns_paths =
    let own = unshared config.namespaces in
    if config.rootless
    then (let with_user = own ++ "user" ∷ [] in
        if contains with_user "mnt" then with_user else with_user ++ "mnt" ∷ [])
    else own
  where
    unshared : List String → List String
    unshared [] = []
    unshared (ns ∷ rest) =
        let kept = unshared rest in
        elim (lookup ns pod_ns_paths) [ none ↦ ns ∷ kept | some path ↦ kept ]

-- The record that the supervisor writes when it has forked the workload, and the one it writes at
-- the end.
unfoldable pub supervised : ℕ → ℕ → ℕ → ContainerConfig → ContainerConfig
supervised workload_pid own_pid now config = record config {
  pid = some workload_pid;
  supervisor_pid = some own_pid;
  status = running;
  started_at = or_else config.started_at (some now);
}

unfoldable pub finished : ℕ → ℕ → ContainerConfig → ContainerConfig
finished exit_code now config = record config {
  status = stopped;
  pid = none;
  finished_at = some now;
  exit_code = some (code exit_code);
}

module _ (os : Os) (k : Kernel) where
  -- `_write_config_to_fd`: the file takes the new text.
  unfoldable pub write_config : ContainerConfig → Exec Process Unit
  write_config config = do
    perform k os_error (sys_write_config config)
    on_world (λ w. (ok tt, save_container_config config w))

  -- `_supervise_pid_namespace_workload`: the new process goes on with the workload, and the old
  -- one keeps the record and ends with the exit code.
  unfoldable pub supervise : ContainerConfig → Bool → Exec Process Unit
  unfolding write_config supervised finished
  supervise config attach = do
    workload_pid ← ask k.fork
    perform k os_error (sys_fork workload_pid)
    if workload_pid == 0 then prepare_and_exec_workload k os.storage config attach else (do
      own_pid ← ask k.getpid
      now ← ask k.now
      let config' = supervised workload_pid own_pid now config
      write_config config'
      status ← ask (λ calls. k.wait calls workload_pid)
      perform k os_error (sys_waitpid workload_pid)
      let exit_code = exit_code_from_wait_status status
      ended ← ask k.now
      write_config (finished exit_code ended config')
      perform k os_error (sys_exit exit_code))

  -- `_enter_pod_namespaces`
  unfoldable pub enter_pod_namespaces : Dict String → Exec Process Unit
  enter_pod_namespaces [] = pure tt
  enter_pod_namespaces ((ns_type, ns_path) ∷ rest) = do
    catch (do perform k os_error (sys_open ns_path); setns k ns_path (flag_of ns_type))
        (λ _. raise container_internal_error)
    enter_pod_namespaces rest

  -- The namespaces of the pod, if its infra process is known.
  unfoldable pub pod_namespaces : ContainerConfig → Exec World (Dict String)
  pod_namespaces config =
      if is_set config.pod_id
      then (do
        pod ← load_pod_config os (text_of config.pod_id)
        elim pod [
          | none ↦ pure []
          | some p ↦
              if is_pid p.infra_pid then get_shared_ns_paths os (text_of config.pod_id) else pure []
        ])
      else pure []
    where
      is_pid : Option ℕ → Bool
      is_pid none = false
      is_pid (some pid) = not (pid == 0)

  -- Up to the namespaces, before the parent is told.
  unfoldable pub enter_namespaces : ContainerConfig → Exec Process Unit
  unfolding namespaces_to_create enter_pod_namespaces pod_namespaces
  enter_namespaces config = do
    pod_ns_paths ← on_world (pod_namespaces config)
    setup_cgroup k config
    enter_pod_namespaces pod_ns_paths
    let wanted = namespaces_to_create config pod_ns_paths
    if is_empty wanted
        then pure tt
        else (do create_namespaces k wanted config.hostname config.rootless; pure tt)

  -- The record after the answer of the parent, which may have written the files until then.
  unfoldable pub reload : String → Exec Process (Option ContainerConfig)
  reload id = do
    on_world (λ w. (ok tt, record w { containers = k.files }))
    on_world (load_container_config os id)

  -- The parent is told, and its answer is waited for; then the record is read again.
  unfoldable pub meet_parent : ContainerConfig → Exec Process ContainerConfig
  unfolding reload
  meet_parent config = do
    attempt (perform k os_error sys_ready)
    perform k container_internal_error sys_proceed
    loaded ← reload config.id
    pure (elim loaded [ none ↦ config | some refreshed ↦ refreshed ])

  -- The part that runs the workload, with or without a supervisor.
  unfoldable pub run_workload : ContainerConfig → Bool → Exec Process Unit
  unfolding supervise
  run_workload config attach =
      if contains config.namespaces "pid"
      then (do
        perform k container_internal_error (sys_open_config config.id)
        supervise config attach)
      else prepare_and_exec_workload k os.storage config attach

  -- `_run_container`, with both pipes.
  unfoldable pub run_container : ContainerConfig → Bool → Exec Process Unit
  unfolding enter_namespaces meet_parent run_workload
  run_container config attach = do
    if attach then pure tt else perform k os_error (sys_open "container.log")
    enter_namespaces config
    refreshed ← meet_parent config
    run_workload refreshed attach

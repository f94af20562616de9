-- ===== src/Container/Remove.antt =====
-- `restart`, `remove` and the parent's part of `exec`.
use mini_docker.Base.{List, ℕ, String, Bool, not, ◌&&◌, none, some, [], ◌==◌, if◌then◌else◌}
use mini_docker.Errors.{
  container_error, container_not_found, container_invalid_state, Exec, ◌>>=◌, ◌>>◌, pure, raise,
}
use mini_docker.Metadata.Config.{ContainerConfig, ExitCode, code, minus_one}
use mini_docker.Metadata.Store.{
  load_container_config, delete_container_config, is_running, has_exited, exit_status,
}
use mini_docker.World.{Os, World, fork, waitpid, reaped, log}
use mini_docker.Filesystem.{cleanup_overlay}
use mini_docker.Pod.{remove_container_from_pod}
use mini_docker.Container.Cleanup.{
  CleanupError, overlay, pod, collect, cleanup_runtime_resources, clear_network, is_set, text_of,
}
use mini_docker.Container.Stop.{stop}
use mini_docker.Container.Start.{start}

module _ (os : Os) where
  unfoldable pub restart : String → ℕ → Exec World ℕ
  restart container_id timeout = do
    loaded ← load_container_config os container_id
    elim loaded [
      | none ↦ raise (container_not_found container_id)
      | some config ↦ do
        if is_running config then (do stop os container_id timeout; pure tt) else pure tt
        clear_network os container_id
        start os container_id
    ]

  -- The cleanup of `remove`; errors are only printed.
  unfoldable pub release_resources : ContainerConfig → Exec World (List CleanupError)
  release_resources config = do
    if config.use_overlay then collect overlay (cleanup_overlay os config.id) else pure []
    cleanup_runtime_resources os config
    if is_set config.pod_id
        then collect pod
            (do remove_container_from_pod os (text_of config.pod_id) config.id; pure tt)
        else pure []

  -- The cleanup, and the deletion of the metadata.
  unfoldable pub dispose : String → ContainerConfig → Exec World Bool
  unfolding release_resources
  dispose container_id config = do release_resources config; delete_container_config os container_id

  unfoldable pub remove : String → Bool → Exec World Bool
  unfolding dispose
  remove container_id force = do
    loaded ← load_container_config os container_id
    elim loaded [
      | none ↦ raise (container_not_found container_id)
      | some config ↦
          if is_running config
          then (if force
              then (do stop os container_id 5; dispose container_id config)
              else raise (container_invalid_state container_id))
          else dispose container_id config
    ]

  -- The parent forks and waits; `wait` is the blocking `os.waitpid`.
  unfoldable pub exec : String → Exec World ExitCode
  exec container_id = do
    loaded ← load_container_config os container_id
    elim loaded [
      | none ↦ raise (container_not_found container_id)
      | some config ↦ elim config.pid [
        | none ↦ raise container_error
        | some p ↦
            if is_running config && not (p == 0)
            then (do
              pid ← log os.fork fork
              waited ← log (λ calls. os.waitpid calls pid) (waitpid pid)
              elim waited [
                | reaped status ↦
                    if has_exited status then pure (code (exit_status status)) else pure minus_one
                | _ ↦ pure minus_one
              ])
            else raise container_error
      ]
    ]

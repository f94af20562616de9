-- ===== src/Workload/Limits.antt =====
-- mini_docker/cgroups.py: the control group of a container and its limits.
use mini_docker.Base.{
  ℕ, ◌*◌, String, ◌<>◌, Bool, Option, none, some, List, [], ◌∷◌, if◌then◌else◌, contains, filter,
}
use mini_docker.Cgroups.{mini_docker_cgroup}
use mini_docker.Errors.{
  Exec, ◌>>=◌, ◌>>◌, pure, raise, catch, cgroup_error, os_error, container_internal_error,
}
use mini_docker.Metadata.Config.{ContainerConfig}
use mini_docker.Utils.Text.{decimal}
use mini_docker.Workload.Process.{
  Kernel, Process, perform, ask, attempt, join, sys_makedirs, sys_write,
}

abbrev pub cgroup_root : String
cgroup_root = "/sys/fs/cgroup"

-- `" ".join(f"+{c}" for c in controllers)`
abbrev pub control_text : List String → String
control_text [] = ""
control_text (c ∷ []) = "+" <> c
control_text (c ∷ d ∷ rest) = "+" <> c <> " " <> control_text (d ∷ rest)

module _ (k : Kernel) where
  unfoldable pub is_cgroups_v2 : Exec Process Bool
  is_cgroups_v2 = ask (λ calls. k.exists calls (cgroup_root <> "/cgroup.controllers"))

  unfoldable pub get_available_controllers : Exec Process (List String)
  get_available_controllers = do
    content ← ask k.controllers
    pure (elim content [ none ↦ [] | some controllers ↦ controllers ])

  unfoldable pub enable_controllers : String → List String → Exec Process Unit
  enable_controllers path controllers = do
    let subtree_control = join path "cgroup.subtree_control"
    there ← ask (λ calls. k.exists calls subtree_control)
    if there
        then attempt (perform k os_error (sys_write subtree_control (control_text controllers)))
        else pure tt

  unfoldable pub create_cgroup : String → Exec Process String
  unfolding is_cgroups_v2 get_available_controllers enable_controllers
  create_cgroup container_id = do
    unified ← is_cgroups_v2
    if unified then pure tt else raise cgroup_error
    perform k os_error (sys_makedirs mini_docker_cgroup)
    available ← get_available_controllers
    let enable = filter (contains available) ("cpu" ∷ "memory" ∷ "pids" ∷ "io" ∷ [])
    enable_controllers cgroup_root enable
    enable_controllers mini_docker_cgroup enable
    perform k os_error (sys_makedirs (join mini_docker_cgroup container_id))
    pure (join mini_docker_cgroup container_id)

  unfoldable pub add_process_to_cgroup : String → ℕ → Exec Process Unit
  add_process_to_cgroup cgroup_path pid =
      perform k cgroup_error (sys_write (join cgroup_path "cgroup.procs") (decimal pid))

  unfoldable pub set_cpu_limit : String → ℕ → ℕ → Exec Process Unit
  set_cpu_limit cgroup_path quota_us period_us =
      perform k cgroup_error
        (sys_write (join cgroup_path "cpu.max") (decimal quota_us <> " " <> decimal period_us))

  unfoldable pub set_memory_limit : String → ℕ → Exec Process Unit
  set_memory_limit cgroup_path limit_bytes =
      perform k cgroup_error (sys_write (join cgroup_path "memory.max") (decimal limit_bytes))

  unfoldable pub set_pids_limit : String → ℕ → Exec Process Unit
  set_pids_limit cgroup_path max_pids =
      perform k cgroup_error (sys_write (join cgroup_path "pids.max") (decimal max_pids))

  -- `Cgroup.set_limits`
  unfoldable pub set_limits : String → Option ℕ → ℕ → Option ℕ → Option ℕ → Exec Process Unit
  unfolding set_cpu_limit set_memory_limit set_pids_limit
  set_limits path cpu_quota cpu_period memory_mb max_pids = do
    elim cpu_quota [ none ↦ pure tt | some quota ↦ set_cpu_limit path quota cpu_period ]
    elim memory_mb [ none ↦ pure tt | some mb ↦ set_memory_limit path (mb * 1024 * 1024) ]
    elim max_pids [ none ↦ pure tt | some pids ↦ set_pids_limit path pids ]

  -- `Container._setup_cgroup`; the period is the default of `set_limits`.
  unfoldable pub setup_cgroup : ContainerConfig → Exec Process Unit
  unfolding create_cgroup set_limits add_process_to_cgroup
  setup_cgroup config =
      if config.rootless
      then pure tt
      else catch
          (do
            path ← create_cgroup config.id
            set_limits path config.resources.cpu_quota 100000 config.resources.memory_mb
                config.resources.max_pids
            pid ← ask k.getpid
            add_process_to_cgroup path pid)
          (λ _. raise container_internal_error)

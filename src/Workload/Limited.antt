-- ===== src/Workload/Limited.antt =====
-- The limits that a container's process has set for itself when its control group is set up.
use mini_docker.Base.{
  ℕ, ◌*◌, String, ◌<>◌, ◌≡◌, refl, sym, ap, ◌∙◌, Bool, true, false, Option, none, some, List, [],
  ◌∷◌, ◌++◌, append-nil, append_assoc, if◌then◌else◌,
}
use mini_docker.Errors.{◌>>=◌, ◌>>◌, pure, raise, catch, cgroup_error, container_internal_error}
use mini_docker.Cgroups.{mini_docker_cgroup}
use mini_docker.Metadata.Config.{ContainerConfig}
use mini_docker.Utils.Text.{decimal}
use mini_docker.Workload.Process.{Kernel, Event, ask, join, sys_write}
use mini_docker.Workload.Limits.{
  is_cgroups_v2, get_available_controllers, enable_controllers, create_cgroup,
  add_process_to_cgroup, set_cpu_limit, set_memory_limit, set_pids_limit, set_limits, setup_cgroup,
}
use mini_docker.Workload.Steps.{
  Steps, Returns, Returns-bind, Returns-pure, Steps-bind_value, Steps-catch, Any, Only, Steps-pure,
  Steps-raise, Steps-ask, Only-bind, Steps-perform, Steps-weaken, Steps-bind,
}
use mini_docker.Workload.Quietly.{any_rules, Any-perform}

-- The limits of a container that are set, and the process in the group.
abbrev pub cpu_events : String → Option ℕ → List Event
cpu_events path none = []
cpu_events path (some quota) =
    (sys_write (join path "cpu.max") (decimal quota <> " " <> decimal 100000), true) ∷ []

abbrev pub memory_events : String → Option ℕ → List Event
memory_events path none = []
memory_events path (some mb) =
    (sys_write (join path "memory.max") (decimal (mb * 1024 * 1024)), true) ∷ []

abbrev pub pids_events : String → Option ℕ → List Event
pids_events path none = []
pids_events path (some pids) = (sys_write (join path "pids.max") (decimal pids), true) ∷ []

abbrev pub limit_events : ContainerConfig → ℕ → List Event
limit_events config pid =
    let path = join mini_docker_cgroup config.id in
    (cpu_events path config.resources.cpu_quota
      ++ (memory_events path config.resources.memory_mb
          ++ pids_events path config.resources.max_pids))
    ++ (sys_write (join path "cgroup.procs") (decimal pid), true) ∷ []

-- The limits were all set for a container that is not rootless, and the process put under them.
abbrev pub Limited : ContainerConfig → List Event → Type 0
Limited config es =
    config.rootless ≡ false
    → (pid : ℕ) × (before : List Event) × (after : List Event) × (es
        ≡ before ++ (limit_events config pid ++ after))

pub Limited-later :
    (config : ContainerConfig) (xs ys : List Event) → Limited config ys → Limited config (xs ++ ys)
Limited-later config xs ys l r =
    let (pid, before, after, e) = l r in
    (pid, xs ++ before, after, ap (λ t. xs ++ t) e ∙ sym (append_assoc xs before _))

module _ (k : Kernel) where
  cpu-Only :
      (path : String) (quota : Option ℕ)
      → Steps
          (Only (cpu_events path quota))
          (elim quota [ none ↦ pure tt | some quota ↦ set_cpu_limit k path quota 100000 ])
  unfolding set_cpu_limit
  cpu-Only path none = Steps-pure tt
  cpu-Only path (some quota) = Steps-perform k cgroup_error _ (λ done. refl)

  memory-Only :
      (path : String) (memory_mb : Option ℕ)
      → Steps
          (Only (memory_events path memory_mb))
          (elim memory_mb [ none ↦ pure tt | some mb ↦ set_memory_limit k path (mb * 1024 * 1024) ])
  unfolding set_memory_limit
  memory-Only path none = Steps-pure tt
  memory-Only path (some mb) = Steps-perform k cgroup_error _ (λ done. refl)

  pids-Only :
      (path : String) (max_pids : Option ℕ)
      → Steps
          (Only (pids_events path max_pids))
          (elim max_pids [ none ↦ pure tt | some pids ↦ set_pids_limit k path pids ])
  unfolding set_pids_limit
  pids-Only path none = Steps-pure tt
  pids-Only path (some pids) = Steps-perform k cgroup_error _ (λ done. refl)

  set_limits-Only :
      (path : String) (quota memory_mb max_pids : Option ℕ)
      → Steps
          (Only
            (cpu_events path quota ++ (memory_events path memory_mb ++ pids_events path max_pids)))
          (set_limits k path quota 100000 memory_mb max_pids)
  unfolding set_limits
  set_limits-Only path quota memory_mb max_pids =
      Only-bind _ _ _ _ (cpu-Only path quota)
        (λ _. Only-bind _ _ _ _ (memory-Only path memory_mb) (λ _. pids-Only path max_pids))

  Any-create_cgroup : (id : String) → Steps Any (create_cgroup k id)
  unfolding create_cgroup is_cgroups_v2 get_available_controllers enable_controllers
  Any-create_cgroup id = search (any_rules, Any-perform) depth 20

  Returns-create_cgroup :
      (id : String) → Returns (λ path. path ≡ join mini_docker_cgroup id) (create_cgroup k id)
  unfolding create_cgroup
  Returns-create_cgroup id = search (Returns-bind, Returns-pure) depth 20

  procs-Only :
      (path : String) (pid : ℕ)
      → Steps
          (Only ((sys_write (join path "cgroup.procs") (decimal pid), true) ∷ []))
          (add_process_to_cgroup k path pid)
  unfolding add_process_to_cgroup
  procs-Only path pid = Steps-perform k cgroup_error _ (λ done. refl)

  -- The group is left as it is where nothing fails.
  place-Limited :
      (config : ContainerConfig) (path : String)
      → path ≡ join mini_docker_cgroup config.id
      → Steps
          (λ es. (pid : ℕ) × (es ≡ limit_events config pid))
          (do
            set_limits k path config.resources.cpu_quota 100000 config.resources.memory_mb
                config.resources.max_pids
            pid ← ask k.getpid
            add_process_to_cgroup k path pid)
  place-Limited config path e = rw e (
      Steps-weaken _ _ _ (λ all (xs, ys, q, l, (pid, p)). (pid, cc))
        (Steps-bind _ Joined _ _
          (set_limits-Only (join mini_docker_cgroup config.id) config.resources.cpu_quota
            config.resources.memory_mb config.resources.max_pids)
          (λ _.
            Steps-weaken _ Joined _ (λ all (xs, ys, q, l, (pid, p)). (pid, cc))
              (Steps-bind (Only []) Joined _ _ (Steps-ask k.getpid) (λ pid.
                Steps-weaken _ Joined _ (λ es q. (pid, q))
                  (procs-Only (join mini_docker_cgroup config.id) pid))))))
    where
      Joined : List Event → Type 0
      Joined es =
          (pid : ℕ) × (es
            ≡ (
              sys_write (join (join mini_docker_cgroup config.id) "cgroup.procs") (decimal pid),
              true,
            )
              ∷ [])

  pub Limited-setup : (config : ContainerConfig) → Steps (Limited config) (setup_cgroup k config)
  unfolding setup_cgroup
  Limited-setup config = branch config.rootless refl
    where
      branch :
          (b : Bool)
          → config.rootless ≡ b
          → Steps (Limited config) (
              if b
              then pure tt
              else catch
                  (do
                    path ← create_cgroup k config.id
                    set_limits k path config.resources.cpu_quota 100000 config.resources.memory_mb
                        config.resources.max_pids
                    pid ← ask k.getpid
                    add_process_to_cgroup k path pid)
                  (λ _. raise container_internal_error))
      branch true e = Steps-weaken _ _ _ (λ es q r. absurd cc) (Steps-pure tt)
      branch false e =
          Steps-catch (Limited config) _ _ (Limited-later config)
            (Steps-weaken _ _ _
              (λ all (xs, ys, q, l, (pid, p)) r.
                (pid, xs, [], q ∙ ap (λ t. xs ++ t) (p ∙ sym (append-nil _))))
              (Steps-bind_value Any _ (λ path. path ≡ join mini_docker_cgroup config.id) _ _
                (Any-create_cgroup config.id) (Returns-create_cgroup config.id)
                (place-Limited config)))
            (λ _. Steps-raise (Limited config) container_internal_error)

-- ===== src/Workload/Setup.antt =====
-- `_prepare_and_exec_workload` of mini_docker/container.py, and the methods it calls.
use mini_docker.Base.{
  ℕ, String, ◌<>◌, Bool, true, false, not, ◌&&◌, ◌||◌, Option, none, some, List, [], ◌∷◌, ◌++◌,
  if◌then◌else◌, str_eq, contains, lookup, insert, Dict,
}
use Prim.Native.Nat.{bit_or}
use mini_docker.Capabilities.{init_caps, apply_caps}
use mini_docker.Errors.{
  ok, err, Exec, ◌>>=◌, ◌>>◌, pure, raise, catch, container_internal_error, os_error, network_error,
  capability_error,
}
use mini_docker.Metadata.Config.{ContainerConfig}
use mini_docker.Seccomp.Manager.{Prctl, Outcome, applied, init, apply_seccomp_filter}
use mini_docker.Container.Cleanup.{text_of}
use mini_docker.Workload.Process.{
  Kernel, Process, Event, perform, attempt, join, lstrip_slash, log_fd, devnull_fd, sys_open,
  sys_ip, sys_environ, sys_capset, sys_prctl, sys_setgid, sys_setuid, sys_dup2, sys_execvp,
}
use mini_docker.Workload.Mounts.{
  ms_rdonly, ms_bind, ms_rec, mount, makedirs, chdir, setup_overlay_filesystem, setup_minimal_dev,
  setup_pivot_root, setup_chroot_filesystem,
}

-- What the workload finds in `os.environ`.
unfoldable pub environment : ContainerConfig → Dict String
environment config =
    let base =
      ("PATH", "/usr/local/sbin:/usr/local/bin:/usr/sbin:/usr/bin:/sbin:/bin")
      ∷ ("HOME", "/root")
      ∷ ("TERM", "xterm")
      ∷ ("HOSTNAME", config.hostname)
      ∷ [] in
    update base config.env
  where
    update : Dict String → Dict String → Dict String
    update env [] = env
    update env ((key, value) ∷ rest) = update (insert key value env) rest

-- `vol.get(key)`, where the empty text counts as none.
abbrev pub volume_field : String → Dict String → Option String
volume_field key vol = elim (lookup key vol) [
  | none ↦ none
  | some text ↦ if str_eq text "" then none else some text
]

-- The flags of the mount of a volume.
unfoldable pub volume_flags : Dict String → ℕ
volume_flags vol =
    let flags = bit_or ms_bind ms_rec in
    elim (lookup "mode" vol) [
      | none ↦ flags
      | some mode ↦ if str_eq mode "ro" then bit_or flags ms_rdonly else flags
    ]

-- Whether the outcome is that the filter is installed.
abbrev pub is_applied : Outcome → Bool
is_applied outcome = elim outcome [ applied ↦ true | _ ↦ false ]

-- The calls of `prctl`, which end with the first one that fails.
abbrev pub prctl_events : Bool → List Prctl → List Event
prctl_events done [] = []
prctl_events done (call ∷ []) = (sys_prctl call, done) ∷ []
prctl_events done (call ∷ next ∷ rest) = (sys_prctl call, true) ∷ prctl_events done (next ∷ rest)

module _ (k : Kernel) where
  -- `configure_container_network` of network.py; `ip` is taken to be there.
  unfoldable pub configure_container_network : String → Exec Process Unit
  configure_container_network ip_address =
      catch
        (do
          perform k os_error (sys_ip ("link" ∷ "set" ∷ "lo" ∷ "up" ∷ []))
          perform k os_error (sys_ip ("addr" ∷ "add" ∷ (ip_address <> "/24") ∷ "dev" ∷ "eth0" ∷ []))
          perform k os_error (sys_ip ("link" ∷ "set" ∷ "eth0" ∷ "up" ∷ []))
          perform k os_error (sys_ip ("route" ∷ "add" ∷ "default" ∷ "via" ∷ "10.0.0.1" ∷ [])))
        (λ _. raise network_error)

  -- Where networking is enabled, with a namespace and an address.
  unfoldable pub configure_network : ContainerConfig → Exec Process Unit
  unfolding configure_container_network
  configure_network config =
      if config.network_enabled
        && contains config.namespaces "net"
        && not (str_eq (text_of config.network.ip) "")
      then catch (configure_container_network (text_of config.network.ip))
          (λ _. raise container_internal_error)
      else pure tt

  -- The directory that becomes the root: the overlay, or where a rootless container has none the
  -- root file system itself.
  unfoldable pub choose_root : String → ContainerConfig → Exec Process String
  choose_root storage config =
      if config.use_overlay
      then catch
          (do
            (lower, upper, work, merged) ←
                setup_overlay_filesystem k storage config.rootfs config.id
            pure merged)
          (λ _. if config.rootless then pure config.rootfs else raise container_internal_error)
      else pure config.rootfs

  -- One volume; the directory must be made, and a mount that fails is only logged.
  unfoldable pub mount_volume : String → Dict String → Exec Process Unit
  unfolding volume_flags
  mount_volume rootfs vol = elim (volume_field "host" vol) [
    | none ↦ pure tt
    | some host_path ↦ elim (volume_field "container" vol) [
      | none ↦ pure tt
      | some container_path ↦ do
        let target_path = join rootfs (lstrip_slash container_path)
        makedirs k target_path
        attempt (mount k host_path target_path none (volume_flags vol) none)
    ]
  ]

  unfoldable pub mount_volumes : String → List (Dict String) → Exec Process Unit
  unfolding mount_volume
  mount_volumes rootfs [] = pure tt
  mount_volumes rootfs (vol ∷ vols) = do mount_volume rootfs vol; mount_volumes rootfs vols

  -- The root of the container's file system, and its working directory.
  unfoldable pub enter_root : String → ContainerConfig → Exec Process Unit
  unfolding choose_root mount_volumes
  enter_root storage config = do
    rootfs ← choose_root storage config
    attempt (setup_minimal_dev k rootfs)
    mount_volumes rootfs config.volumes
    catch (setup_pivot_root k rootfs) (λ _. setup_chroot_filesystem k rootfs)
    catch (chdir k config.workdir) (λ _. chdir k "/")

  -- `_apply_capabilities`
  unfoldable pub apply_capabilities : ContainerConfig → Exec Process Unit
  apply_capabilities config =
      if config.rootless
      then pure tt
      else catch (perform k capability_error (sys_capset (apply_caps (init_caps true))))
          (λ _. raise container_internal_error)

  -- `prctl` after the events so far.
  abbrev pub prctl_answer : List Event → List Prctl → Prctl → ℕ
  prctl_answer trace before call =
      if k.does (trace ++ prctl_events true before) (sys_prctl call) then 0 else 1

  -- `Seccomp().apply()`, whose failures become one error.
  unfoldable pub install_filter : Exec Process Unit
  install_filter s =
      let (outcome, calls) =
        apply_seccomp_filter (prctl_answer s.trace) (some (init true).allowed) in
      let done = is_applied outcome in
      (
        (if done then ok tt else err container_internal_error),
        record s { trace = s.trace ++ prctl_events done calls },
      )

  -- `_apply_seccomp`
  unfoldable pub apply_seccomp : ContainerConfig → Exec Process Unit
  unfolding install_filter
  apply_seccomp config = if config.seccomp_enabled then install_filter else pure tt

  unfoldable pub drop_user : ContainerConfig → Exec Process Unit
  drop_user config = do
    elim config.gid [ none ↦ pure tt | some gid ↦ perform k os_error (sys_setgid gid) ]
    elim config.uid [ none ↦ pure tt | some uid ↦ perform k os_error (sys_setuid uid) ]

  -- The log takes the place of the outputs of a detached container, and /dev/null that of its
  -- input.
  unfoldable pub redirect : ContainerConfig → Bool → Exec Process Unit
  redirect config attach = if attach then pure tt else (do
    perform k os_error (sys_dup2 log_fd 1)
    perform k os_error (sys_dup2 log_fd 2)
    if config.interactive then pure tt else perform k os_error (sys_dup2 devnull_fd 0))

  unfoldable pub open_devnull : ContainerConfig → Bool → Exec Process Unit
  open_devnull config attach =
      if attach || config.interactive then pure tt else perform k os_error (sys_open "/dev/null")

  -- `_exec_workload`: where it returns, the program has taken the place of the process.
  unfoldable pub exec_workload : ContainerConfig → Exec Process Unit
  exec_workload config = perform k os_error (sys_execvp config.command)

  -- The parts of `_prepare_and_exec_workload` before the program.
  unfoldable pub isolate : String → ContainerConfig → Bool → Exec Process Unit
  unfolding open_devnull configure_network enter_root environment
  isolate storage config attach = do
    open_devnull config attach
    configure_network config
    enter_root storage config
    perform k os_error (sys_environ (environment config))

  unfoldable pub restrict : ContainerConfig → Bool → Exec Process Unit
  unfolding apply_capabilities apply_seccomp drop_user redirect
  restrict config attach = do
    apply_capabilities config
    apply_seccomp config
    drop_user config
    redirect config attach

  -- `_prepare_and_exec_workload`
  unfoldable pub prepare_and_exec_workload : String → ContainerConfig → Bool → Exec Process Unit
  unfolding isolate restrict exec_workload
  prepare_and_exec_workload storage config attach = do
    isolate storage config attach
    restrict config attach
    exec_workload config

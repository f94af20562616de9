-- ===== src/Workload/Rooted.antt =====
-- Setting up the root of a container's file system starts no program, and where it returns, the
-- root has been changed.
use mini_docker.Base.{
  ℕ, String, refl, Bool, true, false, List, [], ◌∷◌, ap, Dict, Option-cases, inl, inr, any,
}
use mini_docker.Errors.{Exec, filesystem_error}
use mini_docker.Metadata.Config.{ContainerConfig}
use mini_docker.Workload.Process.{Kernel, Process, Event, sys_chroot, sys_pivot_root}
use mini_docker.Workload.Mounts.{
  chroot, pivot_root, setup_chroot_filesystem, setup_overlay_filesystem, switch_root,
  setup_pivot_root, make_devices, make_symlinks, setup_minimal_dev,
}
use mini_docker.Workload.Setup.{choose_root, volume_field, mount_volume, mount_volumes, enter_root}
use mini_docker.Workload.Steps.{
  Steps, Any, Only, Has, Steps-Any, Any-bind, Has-first, Has-second, Has-catch, Steps-perform,
  Steps-weaken,
}
use mini_docker.Workload.Quietly.{
  any_rules, Any-perform, Any-pure, Any-ask, Any-mount_proc, Any-mount_sys, Any-mount_dev,
  Any-fill_lower, Any-leave_old_root,
}

-- The root directory of the process was changed.
abbrev pub changes_root : Event → Bool
changes_root (sys_chroot path, done) = done
changes_root (sys_pivot_root new_root put_old, done) = done
changes_root (call, done) = false

abbrev Rooted : {A : Type 0} → Exec Process A → Type 0
Rooted m = Steps (Has changes_root) m

ruleset mount_rules =
    (any_rules, Any-mount_proc, Any-mount_sys, Any-mount_dev, Any-fill_lower, Any-leave_old_root)

module _ (k : Kernel) where
  chroot-Rooted : (path : String) → Rooted (chroot k path)
  unfolding chroot
  chroot-Rooted path =
      Steps-weaken (Only ((sys_chroot path, true) ∷ [])) (Has changes_root) _
        (λ es e. ap (any changes_root) e)
        (Steps-perform k filesystem_error (sys_chroot path) (λ done. refl))

  pivot_root-Rooted : (new_root put_old : String) → Rooted (pivot_root k new_root put_old)
  unfolding pivot_root
  pivot_root-Rooted new_root put_old =
      Steps-weaken (Only ((sys_pivot_root new_root put_old, true) ∷ [])) (Has changes_root) _
        (λ es e. ap (any changes_root) e)
        (Steps-perform k filesystem_error (sys_pivot_root new_root put_old) (λ done. refl))

  switch_root-Rooted : (path : String) → Rooted (switch_root k path)
  unfolding switch_root
  switch_root-Rooted path =
      search (mount_rules, Has-first, Has-catch, pivot_root-Rooted, chroot-Rooted) depth 9

  setup_pivot_root-Rooted : (path : String) → Rooted (setup_pivot_root k path)
  unfolding setup_pivot_root
  setup_pivot_root-Rooted path = search (mount_rules, Has-second, switch_root-Rooted) depth 20

  setup_chroot-Rooted : (path : String) → Rooted (setup_chroot_filesystem k path)
  unfolding setup_chroot_filesystem
  setup_chroot-Rooted path = search (mount_rules, Has-second, Has-first, chroot-Rooted) depth 20

  Any-setup_pivot_root : (path : String) → Steps Any (setup_pivot_root k path)
  Any-setup_pivot_root path = Steps-Any _ _ (setup_pivot_root-Rooted path)

  Any-overlay :
      (storage rootfs id : String) → Steps Any (setup_overlay_filesystem k storage rootfs id)
  unfolding setup_overlay_filesystem
  Any-overlay storage rootfs id = search (mount_rules) depth 20

  Any-make_devices :
      (dev_path : String) (nodes : List (String × ℕ × ℕ × ℕ))
      → Steps Any (make_devices k dev_path nodes)
  unfolding make_devices
  Any-make_devices dev_path [] = Any-pure tt
  Any-make_devices dev_path ((name, major, minor, mode) ∷ rest) = Any-bind _ _ (Any-ask _) (λ there.
      Any-bind _ _ (search (any_rules, Any-perform) depth 5) (λ _. Any-make_devices dev_path rest))

  Any-make_symlinks :
      (dev_path : String) (links : List (String × String))
      → Steps Any (make_symlinks k dev_path links)
  unfolding make_symlinks
  Any-make_symlinks dev_path [] = Any-pure tt
  Any-make_symlinks dev_path ((name, target) ∷ rest) = Any-bind _ _ (Any-ask _) (λ there.
      Any-bind _ _ (search (any_rules, Any-perform) depth 5) (λ _. Any-make_symlinks dev_path rest))

  Any-minimal_dev : (path : String) → Steps Any (setup_minimal_dev k path)
  unfolding setup_minimal_dev
  Any-minimal_dev path = search (any_rules, Any-make_devices, Any-make_symlinks) depth 9

  Any-mount_volume : (rootfs : String) (vol : Dict String) → Steps Any (mount_volume k rootfs vol)
  unfolding mount_volume
  Any-mount_volume rootfs vol = elim (Option-cases (volume_field "host" vol)) [
    | inl h ↦ rw (h, mount_volume) (Any-pure tt)
    | inr (host_path, h) ↦ elim (Option-cases (volume_field "container" vol)) [
      | inl c ↦ rw (h, c, mount_volume) (Any-pure tt)
      | inr (container_path, c) ↦ rw (h, c, mount_volume) (search (any_rules) depth 9)
    ]
  ]

  Any-mount_volumes :
      (rootfs : String) (vols : List (Dict String)) → Steps Any (mount_volumes k rootfs vols)
  unfolding mount_volumes
  Any-mount_volumes rootfs [] = Any-pure tt
  Any-mount_volumes rootfs (vol ∷ vols) =
      Any-bind _ _ (Any-mount_volume rootfs vol) (λ _. Any-mount_volumes rootfs vols)

  Any-choose_root :
      (storage : String) (config : ContainerConfig) → Steps Any (choose_root k storage config)
  unfolding choose_root
  Any-choose_root storage config = search (any_rules, Any-overlay) depth 12

  pub enter_root-Rooted :
      (storage : String) (config : ContainerConfig) → Rooted (enter_root k storage config)
  unfolding enter_root
  enter_root-Rooted storage config =
      search
        (
          any_rules, Any-choose_root, Any-minimal_dev, Any-mount_volumes, Has-first, Has-second,
          Has-catch, setup_pivot_root-Rooted, setup_chroot-Rooted,
        )
        depth 12

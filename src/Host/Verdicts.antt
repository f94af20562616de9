-- ===== src/Host/Verdicts.antt =====
-- When the report of mini_docker/host.py on the host says that it is fit.
use mini_docker.Base.{
  String, ◌≡◌, refl, ap, ◌∙◌, Bool, true, false, not, ◌&&◌, ◌||◌, Option, none, some, List, [], ◌∷◌,
  ◌++◌, arith, if◌then◌else◌, map, any, any-append,
}
use mini_docker.Host.Checks.{
  Machine, Check, check, mark_ok, mark_warn, mark_fail, is_fail, has_line, is_zero, command_status,
  program_status, validate_rootfs, required_commands, cgroup_checks, userns_checks, mode_check,
  collect_checks, report_ok,
}
use mini_docker.Workload.Process.{join}

abbrev fails : List Check → Bool
fails checks = any (λ c. is_fail c.status) checks

-- What a host needs for root mode, and for rootless mode.
module _ (m : Machine) (rootless : Bool) (rootfs_path : String) where
  abbrev has_commands : Bool
  has_commands =
      m.has_command "mount"
      && m.has_command "chroot"
      && m.has_command "unshare"
      && (rootless || m.has_command "ip" && m.has_command "iptables")

  abbrev is_present : Option (List String) → Bool
  is_present none = false
  is_present (some found) = true

  abbrev has_program : String → Bool
  has_program rel_path =
      let path = join (m.abspath rootfs_path) rel_path in m.exists path && m.executable path

  abbrev has_rootfs : Bool
  has_rootfs = m.is_dir (m.abspath rootfs_path) && has_program "bin/busybox" && has_program "bin/sh"

  abbrev userns_enabled : Bool
  userns_enabled = not (is_zero (m.first_line "/proc/sys/kernel/unprivileged_userns_clone"))

  abbrev pub is_fit : Bool
  is_fit =
      m.is_linux
      && (rootless || m.is_root)
      && has_commands
      && (rootless || is_present m.controllers)
      && (not rootless || userns_enabled)
      && has_rootfs

  rootfs-fails : fails (validate_rootfs m rootfs_path) ≡ not has_rootfs
  unfolding validate_rootfs program_status
  rootfs-fails = ground arith

  userns-fails : fails (userns_checks m rootless) ≡ (rootless && not userns_enabled)
  unfolding userns_checks
  userns-fails = ground arith

  cgroup-fails : fails (cgroup_checks m rootless) ≡ (not rootless && not (is_present m.controllers))
  unfolding cgroup_checks
  cgroup-fails = ground arith

  commands-fails : fails (map (command_status m) (required_commands m rootless)) ≡ not has_commands
  unfolding command_status
  commands-fails = ground arith

  join-fails :
      (a rest : List Check) (p q : Bool)
      → fails a ≡ p
      → fails rest ≡ q
      → fails (a ++ rest) ≡ (p || q)
  join-fails a rest p q e f = any-append (λ c. is_fail c.status) a rest ∙ (rw (e, f) refl)

  abbrev os_part : List Check
  os_part = check "os" (if m.is_linux then mark_ok else mark_fail) ∷ []

  abbrev wsl_part : List Check
  wsl_part = if m.is_wsl then check "environment" mark_warn ∷ [] else []

  abbrev warn_part : List Check
  warn_part =
      check "overlayfs" (if m.has_overlay then mark_ok else mark_warn)
      ∷ check "seccomp" (
          if has_line (m.first_line "/proc/sys/kernel/seccomp/actions_avail")
          then mark_ok
          else mark_warn)
      ∷ []

  os-fails : fails os_part ≡ not m.is_linux
  os-fails = ground arith

  wsl-fails : fails wsl_part ≡ false
  wsl-fails = ground arith

  mode-fails : fails (mode_check m rootless ∷ []) ≡ not (rootless || m.is_root)
  mode-fails = ground arith

  warn-fails : fails warn_part ≡ false
  warn-fails = ground arith

  none_fails :
      (a b c d e f : Bool)
      → not (not a || (false || (not b || (not c || (d || (false || (e || not f)))))))
        ≡ (a && b && c && not d && not e && f)
  none_fails a b c d e f = ground arith

  -- The report says that the host is fit exactly if it is Linux, rootless mode or the superuser
  -- was asked for, the commands of the mode are there, and the control groups are there unless it
  -- is rootless, and the user namespaces are not disabled if it is, and the root file system is a
  -- directory with two programs that can be executed. Warnings do not count.
  pub report_ok-eq : report_ok m rootless rootfs_path ≡ is_fit
  unfolding report_ok collect_checks
  report_ok-eq =
      let userns = userns_checks m rootless ++ validate_rootfs m rootfs_path in
      let warn = warn_part ++ userns in
      let cgroup = cgroup_checks m rootless ++ warn in
      let commands = map (command_status m) (required_commands m rootless) ++ cgroup in
      let mode = (mode_check m rootless ∷ []) ++ commands in
      ap not (
        join-fails os_part (wsl_part ++ mode) _ _ os-fails (
          join-fails wsl_part mode _ _ wsl-fails (
            join-fails (mode_check m rootless ∷ []) commands _ _ mode-fails (
              join-fails (map (command_status m) (required_commands m rootless)) cgroup _ _
                commands-fails
                (join-fails (cgroup_checks m rootless) warn _ _ cgroup-fails (
                  join-fails warn_part userns _ _ warn-fails (
                    join-fails (userns_checks m rootless) (validate_rootfs m rootfs_path) _ _
                      userns-fails rootfs-fails)))))))
      ∙ none_fails m.is_linux (rootless || m.is_root) has_commands
          (not rootless && not (is_present m.controllers)) (rootless && not userns_enabled)
          has_rootfs
      ∙ fit m.is_linux (rootless || m.is_root) has_commands (is_present m.controllers)
          userns_enabled has_rootfs rootless
    where
      fit :
          (a b c d e f r : Bool)
          → (a && b && c && not (not r && not d) && not (r && not e) && f)
            ≡ (a && b && c && (r || d) && (not r || e) && f)
      fit a b c d e f r = ground arith

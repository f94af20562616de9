-- ===== src/Host/Checks.antt =====
-- `collect_host_report` of mini_docker/host.py: the checks, by name and status. The texts of the
-- details and of the advice are left out.
use mini_docker.Base.{
  String, ◌<>◌, Bool, true, false, not, ◌&&◌, Option, none, some, List, [], ◌∷◌, ◌++◌,
  if◌then◌else◌, contains, str_eq, map, any,
}
use mini_docker.Workload.Process.{join}

pub data Mark : Type 0 where
  mark_ok mark_warn mark_fail mark_skip : Mark

pub record Check : Type 0 where
  pub name : String
  pub status : Mark

-- What the host answers.
pub record Machine : Type 0 where
  pub is_linux : Bool
  pub is_wsl : Bool
  pub is_root : Bool
  pub abspath : String → String
  pub is_dir : String → Bool
  pub exists : String → Bool
  pub executable : String → Bool
  -- `shutil.which`
  pub has_command : String → Bool
  -- the words of cgroup.controllers; none if it cannot be read, or is empty
  pub controllers : Option (List String)
  pub has_overlay : Bool
  -- the first line of a file of /proc, if there is one
  pub first_line : String → Option String

abbrev pub check : String → Mark → Check
check name status = record { name = name; status = status }

abbrev pub is_fail : Mark → Bool
is_fail mark_fail = true
is_fail _ = false

abbrev pub has_line : Option String → Bool
has_line none = false
has_line (some line) = true

abbrev pub is_zero : Option String → Bool
is_zero none = false
is_zero (some line) = str_eq line "0"

module _ (m : Machine) where
  unfoldable pub command_status : String → Check
  command_status command =
      check ("command:" <> command) (if m.has_command command then mark_ok else mark_fail)

  -- A required program of the root file system.
  unfoldable pub program_status : String → String → Check
  program_status rootfs_path rel_path =
      let path = join rootfs_path rel_path in
      check ("rootfs:" <> rel_path) (
        if not (m.exists path)
        then mark_fail
        else if not (m.executable path)
        then mark_fail
        else mark_ok)

  unfoldable pub validate_rootfs : String → List Check
  unfolding program_status
  validate_rootfs rootfs_path =
      let path = m.abspath rootfs_path in
      if not (m.is_dir path)
      then check "rootfs" mark_fail ∷ []
      else check "rootfs" mark_ok
        ∷ program_status path "bin/busybox"
        ∷ program_status path "bin/sh"
        ∷ []

  abbrev pub required_commands : Bool → List String
  required_commands rootless =
      ("mount" ∷ "chroot" ∷ "unshare" ∷ []) ++ (if rootless then [] else "ip" ∷ "iptables" ∷ [])

  unfoldable pub cgroup_checks : Bool → List Check
  cgroup_checks rootless = elim m.controllers [
    | some found ↦
        check "cgroups" mark_ok
        ∷ map
            (λ controller.
              check ("cgroup:" <> controller)
                (if contains found controller then mark_ok else mark_warn))
            ("cpu" ∷ "memory" ∷ "pids" ∷ [])
    | none ↦ check "cgroups" (if rootless then mark_warn else mark_fail) ∷ []
  ]

  unfoldable pub userns_checks : Bool → List Check
  userns_checks rootless =
      if rootless && is_zero (m.first_line "/proc/sys/kernel/unprivileged_userns_clone")
      then check "rootless:userns" mark_fail ∷ []
      else if rootless
      then check "rootless:userns" mark_ok ∷ []
      else []

  abbrev pub mode_check : Bool → Check
  mode_check rootless =
      if rootless
      then check "mode" mark_ok
      else if m.is_root
      then check "privileges" mark_ok
      else check "privileges" mark_fail

  -- The list `checks` of `collect_host_report`.
  unfoldable pub collect_checks : Bool → String → List Check
  unfolding command_status cgroup_checks userns_checks validate_rootfs
  collect_checks rootless rootfs_path =
      (check "os" (if m.is_linux then mark_ok else mark_fail) ∷ [])
      ++ ((if m.is_wsl then check "environment" mark_warn ∷ [] else [])
          ++ ((mode_check rootless ∷ [])
              ++ (map command_status (required_commands rootless)
                  ++ (cgroup_checks rootless
                      ++ ((check "overlayfs" (if m.has_overlay then mark_ok else mark_warn)
                            ∷ check "seccomp" (
                                if has_line (m.first_line "/proc/sys/kernel/seccomp/actions_avail")
                                then mark_ok
                                else mark_warn)
                            ∷ [])
                          ++ (userns_checks rootless ++ validate_rootfs rootfs_path))))))

  -- The field `ok` of the report.
  unfoldable pub report_ok : Bool → String → Bool
  unfolding collect_checks
  report_ok rootless rootfs_path =
      not (any (λ c. is_fail c.status) (collect_checks rootless rootfs_path))

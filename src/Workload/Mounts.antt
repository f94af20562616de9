-- ===== src/Workload/Mounts.antt =====
-- mini_docker/filesystem.py: the overlay, the devices, and the change of the root directory.
use mini_docker.Base.{
  ℕ, String, ◌<>◌, true, false, Option, none, some, List, [], ◌∷◌, if◌then◌else◌,
}
use Prim.Native.Nat.{bit_or}
use mini_docker.Errors.{Exec, ◌>>=◌, ◌>>◌, pure, raise, catch, filesystem_error, os_error}
use mini_docker.Filesystem.{get_overlay_paths}
use mini_docker.Workload.Process.{
  Kernel, Process, perform, ask, attempt, join, sys_makedirs, sys_chdir, sys_copytree, sys_mknod,
  sys_symlink, sys_rmdir, sys_mount, sys_umount, sys_chroot, sys_pivot_root,
}

abbrev pub ms_rdonly : ℕ
ms_rdonly = 1

abbrev pub ms_nosuid : ℕ
ms_nosuid = 2

abbrev pub ms_nodev : ℕ
ms_nodev = 4

abbrev pub ms_noexec : ℕ
ms_noexec = 8

abbrev pub ms_bind : ℕ
ms_bind = 4096

abbrev pub ms_rec : ℕ
ms_rec = 16384

abbrev pub mnt_detach : ℕ
mnt_detach = 2

-- MS_NOSUID | MS_NOEXEC | MS_NODEV
abbrev pub sealed : ℕ
sealed = bit_or (bit_or ms_nosuid ms_noexec) ms_nodev

-- The devices and the links of `setup_minimal_dev`.
abbrev pub devices : List (String × ℕ × ℕ × ℕ)
devices =
    ("null", 1, 3, 0x1b6)
    ∷ ("zero", 1, 5, 0x1b6)
    ∷ ("random", 1, 8, 0x1b6)
    ∷ ("urandom", 1, 9, 0x1b6)
    ∷ ("tty", 5, 0, 0x1b6)
    ∷ ("console", 5, 1, 0x190)
    ∷ []

abbrev pub symlinks : List (String × String)
symlinks =
    ("fd", "/proc/self/fd")
    ∷ ("stdin", "/proc/self/fd/0")
    ∷ ("stdout", "/proc/self/fd/1")
    ∷ ("stderr", "/proc/self/fd/2")
    ∷ []

module _ (k : Kernel) where
  unfoldable pub mount : String → String → Option String → ℕ → Option String → Exec Process Unit
  mount source target fstype flags options =
      perform k filesystem_error (sys_mount source target fstype flags options)

  unfoldable pub umount : String → ℕ → Exec Process Unit
  umount target flags = perform k filesystem_error (sys_umount target flags)

  unfoldable pub chroot : String → Exec Process Unit
  chroot path = perform k filesystem_error (sys_chroot path)

  unfoldable pub pivot_root : String → String → Exec Process Unit
  pivot_root new_root put_old = perform k filesystem_error (sys_pivot_root new_root put_old)

  unfoldable pub makedirs : String → Exec Process Unit
  makedirs path = perform k os_error (sys_makedirs path)

  unfoldable pub chdir : String → Exec Process Unit
  chdir path = perform k os_error (sys_chdir path)

  -- proc, sys and dev, each of which may fail to be mounted.
  unfoldable pub mount_proc : String → Exec Process Unit
  unfolding mount
  mount_proc path = attempt (mount "proc" path (some "proc") sealed none)

  unfoldable pub mount_sys : String → Exec Process Unit
  unfolding mount
  mount_sys path = attempt (mount "sysfs" path (some "sysfs") sealed none)

  unfoldable pub mount_dev : String → Exec Process Unit
  unfolding mount
  mount_dev path =
      catch (mount "devtmpfs" path (some "devtmpfs") ms_nosuid none)
        (λ _. attempt (mount "/dev" path none (bit_or ms_bind ms_rec) none))

  unfoldable pub setup_chroot_filesystem : String → Exec Process Unit
  unfolding mount_proc mount_sys mount_dev makedirs chdir chroot
  setup_chroot_filesystem rootfs_path = do
    there ← ask (λ calls. k.is_dir calls rootfs_path)
    if there then pure tt else raise filesystem_error
    makedirs (join rootfs_path "proc")
    mount_proc (join rootfs_path "proc")
    makedirs (join rootfs_path "sys")
    mount_sys (join rootfs_path "sys")
    makedirs (join rootfs_path "dev")
    mount_dev (join rootfs_path "dev")
    let pts_path = join (join rootfs_path "dev") "pts"
    makedirs pts_path
    attempt (mount "devpts" pts_path (some "devpts") (bit_or ms_nosuid ms_noexec) none)
    chroot rootfs_path
    chdir "/"

  -- The lower layer is the root file system, mounted or copied.
  unfoldable pub fill_lower : String → String → Exec Process Unit
  unfolding mount
  fill_lower rootfs_path lower = do
    empty ← ask (λ calls. k.has_no_entry calls lower)
    if empty
        then catch (mount rootfs_path lower none (bit_or ms_bind ms_rdonly) none)
            (λ _. perform k os_error (sys_copytree rootfs_path lower))
        else pure tt

  unfoldable pub setup_overlay_filesystem :
      String → String → String → Exec Process (String × String × String × String)
  unfolding get_overlay_paths makedirs fill_lower
  setup_overlay_filesystem storage rootfs_path container_id = do
    let (lower, upper, work, merged) = get_overlay_paths storage container_id
    makedirs lower
    makedirs upper
    makedirs work
    makedirs merged
    fill_lower rootfs_path lower
    mount "overlay" merged (some "overlay") 0
        (some ("lowerdir=" <> lower <> ",upperdir=" <> upper <> ",workdir=" <> work))
    pure (lower, upper, work, merged)

  -- Away from the old root, and unmounting it.
  unfoldable pub leave_old_root : Exec Process Unit
  unfolding chdir umount
  leave_old_root = do
    chdir "/"
    attempt (do umount "/.pivot_old" mnt_detach; perform k os_error (sys_rmdir "/.pivot_old"))

  -- The end of `setup_pivot_root`: `pivot_root`, or `chroot` where it fails.
  unfoldable pub switch_root : String → Exec Process Unit
  unfolding pivot_root chroot chdir leave_old_root
  switch_root merged_path = do
    pivoted ←
        catch (do pivot_root "." ".pivot_old"; pure true)
          (λ _. do chroot merged_path; chdir "/"; pure false)
    if pivoted then leave_old_root else pure tt

  unfoldable pub setup_pivot_root : String → Exec Process Unit
  unfolding mount_proc mount_sys mount_dev makedirs chdir switch_root
  setup_pivot_root merged_path = do
    makedirs (join merged_path "proc")
    makedirs (join merged_path "sys")
    makedirs (join merged_path "dev")
    mount_proc (join merged_path "proc")
    mount_sys (join merged_path "sys")
    mount_dev (join merged_path "dev")
    attempt (mount merged_path merged_path none (bit_or ms_bind ms_rec) none)
    makedirs (join merged_path ".pivot_old")
    chdir merged_path
    switch_root merged_path

  unfoldable pub make_devices : String → List (String × ℕ × ℕ × ℕ) → Exec Process Unit
  make_devices dev_path [] = pure tt
  make_devices dev_path ((name, major, minor, mode) ∷ rest) = do
    there ← ask (λ calls. k.exists calls (join dev_path name))
    if there
        then pure tt
        else attempt
            (perform k os_error (sys_mknod (join dev_path name) (bit_or mode 0x2000) major minor))
    make_devices dev_path rest

  unfoldable pub make_symlinks : String → List (String × String) → Exec Process Unit
  make_symlinks dev_path [] = pure tt
  make_symlinks dev_path ((name, target) ∷ rest) = do
    there ← ask (λ calls. k.exists calls (join dev_path name))
    if there
        then pure tt
        else attempt (perform k os_error (sys_symlink target (join dev_path name)))
    make_symlinks dev_path rest

  unfoldable pub setup_minimal_dev : String → Exec Process Unit
  unfolding makedirs make_devices make_symlinks
  setup_minimal_dev rootfs_path = do
    makedirs (join rootfs_path "dev")
    make_devices (join rootfs_path "dev") devices
    make_symlinks (join rootfs_path "dev") symlinks

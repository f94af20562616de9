-- ===== src/Workload/Namespaces.antt =====
-- mini_docker/namespaces.py: `unshare` and `setns` for the process of a container.
use mini_docker.Base.{
  ℕ, String, Bool, not, ◌&&◌, none, some, List, [], ◌∷◌, if◌then◌else◌, str_eq, contains, lookup,
  Dict,
}
use Prim.Native.Nat.{bit_or}
use mini_docker.Errors.{Exec, ◌>>=◌, ◌>>◌, pure, raise, catch, namespace_error, os_error}
use mini_docker.Utils.Text.{decimal}
use mini_docker.Base.{◌<>◌}
use mini_docker.Workload.Process.{
  Kernel, Process, perform, ask, sys_unshare, sys_setns, sys_sethostname, sys_open,
}

abbrev pub clone_newns : ℕ
clone_newns = 0x00020000

abbrev pub clone_newuts : ℕ
clone_newuts = 0x04000000

abbrev pub clone_newipc : ℕ
clone_newipc = 0x08000000

abbrev pub clone_newuser : ℕ
clone_newuser = 0x10000000

abbrev pub clone_newpid : ℕ
clone_newpid = 0x20000000

abbrev pub clone_newnet : ℕ
clone_newnet = 0x40000000

abbrev pub clone_newcgroup : ℕ
clone_newcgroup = 0x02000000

-- `NAMESPACE_FLAGS`
unfoldable pub namespace_flags : Dict ℕ
namespace_flags =
    ("mnt", clone_newns)
    ∷ ("uts", clone_newuts)
    ∷ ("ipc", clone_newipc)
    ∷ ("user", clone_newuser)
    ∷ ("pid", clone_newpid)
    ∷ ("net", clone_newnet)
    ∷ ("cgroup", clone_newcgroup)
    ∷ []

-- `NAMESPACE_FLAGS.get(ns, 0)`
unfoldable pub flag_of : String → ℕ
unfolding namespace_flags
flag_of ns = elim (lookup ns namespace_flags) [ none ↦ 0 | some flag ↦ flag ]

-- The loop of `create_namespaces`.
unfoldable pub combine_flags : List String → ℕ → ℕ
unfolding namespace_flags
combine_flags [] flags = flags
combine_flags (ns ∷ rest) flags =
    combine_flags rest
      (elim (lookup ns namespace_flags) [ none ↦ flags | some flag ↦ bit_or flags flag ])

-- The flags that `create_namespaces` passes to `unshare`, and returns.
unfoldable pub namespace_mask : List String → Bool → ℕ
unfolding combine_flags
namespace_mask namespaces rootless =
    combine_flags namespaces (if rootless then bit_or 0 clone_newuser else 0)

module _ (k : Kernel) where
  unfoldable pub unshare : ℕ → Exec Process Unit
  unshare flags = perform k namespace_error (sys_unshare flags)

  unfoldable pub setns : String → ℕ → Exec Process Unit
  setns path flag = perform k namespace_error (sys_setns path flag)

  unfoldable pub sethostname : String → Exec Process Unit
  sethostname name = perform k namespace_error (sys_sethostname name)

  unfoldable pub create_namespaces : List String → String → Bool → Exec Process ℕ
  unfolding namespace_mask unshare sethostname
  create_namespaces namespaces hostname rootless = do
    let flags = namespace_mask namespaces rootless
    unshare flags
    if not (str_eq hostname "") && contains namespaces "uts"
        then catch (sethostname hostname) (λ e. if rootless then pure tt else raise e)
        else pure tt
    pure flags

  -- The process opens the file of the namespace, and enters it.
  unfoldable pub enter_namespace : ℕ → String → Exec Process Unit
  unfolding namespace_flags setns
  enter_namespace pid nstype = elim (lookup nstype namespace_flags) [
    | none ↦ raise namespace_error
    | some flag ↦ do
      let ns_path = "/proc/" <> decimal pid <> "/ns/" <> nstype
      there ← ask (λ calls. k.exists calls ns_path)
      if there
          then (do perform k os_error (sys_open ns_path); setns ns_path flag)
          else raise namespace_error
  ]

  -- Only a `NamespaceError` is passed over; the file that cannot be opened raises `OSError`.
  unfoldable pub enter_all_namespaces : ℕ → List String → Exec Process Unit
  unfolding enter_namespace
  enter_all_namespaces pid [] = pure tt
  enter_all_namespaces pid (nstype ∷ rest) = do
    catch (enter_namespace pid nstype)
        (λ e. elim e [ namespace_error ↦ pure tt | other ↦ raise other ])
    enter_all_namespaces pid rest

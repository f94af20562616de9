-- ===== src/Workload/Process.antt =====
-- The state of a container's own process: the files it shares with the runtime, and its system
-- calls with their success. What the kernel answers is the parameter `Kernel`; it depends on the
-- calls made before. What the process writes to its log is left out.
use mini_docker.Base.{
  ℕ, String, ◌<>◌, Bool, false, ◌||◌, Option, List, ◌∷◌, [], ◌++◌, Dict, ◌==◌, if◌then◌else◌,
  str_eq,
}
use mini_docker.Capabilities.{CapData}
use mini_docker.Errors.{Error, ok, err, Exec, pure, catch}
use mini_docker.Metadata.Config.{ContainerConfig}
use mini_docker.Seccomp.Manager.{Prctl}
use mini_docker.World.{World, ConfigFile}
use Prim.Native.Char.{code}

-- The file descriptors that are named.
pub data Fd : Type 0 where
  log_fd devnull_fd : Fd

pub data Syscall : Type 0 where
  sys_makedirs : String → Syscall
  sys_chdir : String → Syscall
  sys_copytree : String → String → Syscall
  sys_mknod : String → ℕ → ℕ → ℕ → Syscall
  sys_symlink : String → String → Syscall
  sys_rmdir : String → Syscall
  sys_open : String → Syscall
  sys_write : String → String → Syscall
  sys_mount : String → String → Option String → ℕ → Option String → Syscall
  sys_umount : String → ℕ → Syscall
  sys_chroot : String → Syscall
  sys_pivot_root : String → String → Syscall
  sys_unshare : ℕ → Syscall
  sys_setns : String → ℕ → Syscall
  sys_sethostname : String → Syscall
  sys_ip : List String → Syscall
  sys_environ : Dict String → Syscall
  sys_capset : CapData → Syscall
  sys_prctl : Prctl → Syscall
  sys_setgid sys_setuid : ℕ → Syscall
  sys_dup2 : Fd → ℕ → Syscall
  -- "R" to the parent, and "X" from it
  sys_ready sys_proceed : Syscall
  sys_fork : ℕ → Syscall
  sys_waitpid : ℕ → Syscall
  -- the record of the container, through the descriptor that was opened before
  sys_open_config : String → Syscall
  sys_write_config : ContainerConfig → Syscall
  sys_exit : ℕ → Syscall
  -- the program takes the place of the process
  sys_execvp : List String → Syscall

-- A call, and whether it succeeded.
abbrev pub Event : Type 0
Event = Syscall × Bool

pub record Kernel : Type 0 where
  pub does : List Event → Syscall → Bool
  pub is_dir : List Event → String → Bool
  pub exists : List Event → String → Bool
  -- `not os.listdir(path)`
  pub has_no_entry : List Event → String → Bool
  -- the words of cgroup.controllers, if it can be read
  pub controllers : List Event → Option (List String)
  pub getpid : List Event → ℕ
  -- 0 in the new process
  pub fork : List Event → ℕ
  -- the status that the blocking `os.waitpid` gives
  pub wait : List Event → ℕ → ℕ
  pub now : List Event → ℕ
  -- the files of the containers when the parent lets the process go on
  pub files : Dict ConfigFile

pub record Process : Type 0 where
  pub world : World
  pub trace : List Event

module _ (k : Kernel) where
  -- A call that raises where the kernel refuses it.
  unfoldable pub perform : Error → Syscall → Exec Process Unit
  perform e call s =
      let done = k.does s.trace call in
      ((if done then ok tt else err e), record s { trace = s.trace ++ (call, done) ∷ [] })

unfoldable pub ask : {A : Type 0} → (List Event → A) → Exec Process A
ask answer s = (ok (answer s.trace), s)

-- The runtime's own functions, on the files.
unfoldable pub on_world : {A : Type 0} → Exec World A → Exec Process A
on_world m s = let (r, w) = m s.world in (r, record s { world = w })

-- `try: m except: pass`
abbrev pub attempt : Exec Process Unit → Exec Process Unit
attempt m = catch m (λ _. pure tt)

-- `path.endswith("/")`
abbrev pub ends_slash : String → Bool
ends_slash String.[] = false
ends_slash (String.◌∷◌ c String.[]) = code c == b'/'
ends_slash (String.◌∷◌ c (String.◌∷◌ d s)) = ends_slash (String.◌∷◌ d s)

abbrev pub starts_slash : String → Bool
starts_slash String.[] = false
starts_slash (String.◌∷◌ c s) = code c == b'/'

-- `os.path.join`
abbrev pub join : String → String → String
join a b =
    if starts_slash b then b else if str_eq a "" || ends_slash a then a <> b else a <> "/" <> b

-- `path.lstrip("/")`
abbrev pub lstrip_slash : String → String
lstrip_slash String.[] = ""
lstrip_slash (String.◌∷◌ c s) =
    let rest = lstrip_slash s in if code c == b'/' then rest else String.◌∷◌ c s

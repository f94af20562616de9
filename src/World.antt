-- ===== src/World.antt =====
-- The state that the runtime works on: the metadata files of containers and pods, and the calls
-- that it has made to the host. What the host answers is the parameter `Os`; its functions get
-- the calls made before, so an answer may depend on them.
use mini_docker.Base.{ℕ, String, Bool, Option, List, ◌∷◌, [], ◌++◌, Dict}
use mini_docker.Errors.{Exec, ok}
use mini_docker.Metadata.Config.{ContainerConfig}

-- A directory under the containers' path, by its `config.json`.
pub data ConfigFile : Type 0 where
  -- there is none
  absent : ConfigFile
  -- it cannot be read, is no JSON, or an empty object
  unreadable : ConfigFile
  -- an object that is no `ContainerConfig`, with its name and its address
  foreign : Option String → Option String → ConfigFile
  -- the JSON text of a configuration
  written : ContainerConfig → ConfigFile

pub data PodStatus : Type 0 where
  pod_created pod_running pod_stopped : PodStatus

pub record PodConfig : Type 0 where
  pub id : String
  pub name : String
  pub containers : List String
  pub infra_pid : Option ℕ
  pub ip_address : Option String
  pub shared_namespaces : List String
  pub hostname : String
  pub network : Option Bool
  pub status : PodStatus
  pub created_at : ℕ

pub data Signal : Type 0 where
  probe sigterm sigkill : Signal

-- What `os.kill` does: it returns, or raises with ESRCH, EPERM or another error.
pub data Killed : Type 0 where
  delivered no_such_process not_permitted kill_error : Killed

-- What `os.waitpid(pid, WNOHANG)` does: it raises with ECHILD or another error, returns no
-- process, or a process with its status.
pub data Waited : Type 0 where
  no_child wait_error not_yet : Waited
  reaped : ℕ → Waited

pub data Chain : Type 0 where
  prerouting output : Chain

pub data Rule : Type 0 where
  -- DNAT of a TCP port of the host to an address and its port
  dnat : Chain → ℕ → String → ℕ → Rule
  -- MASQUERADE from a subnet, and to a device
  masquerade_from masquerade_to : String → Rule

pub data RuleOp : Type 0 where
  append delete check : RuleOp

-- The commands of `ip` and `iptables`.
pub data Command : Type 0 where
  link_show : String → Command
  link_add_bridge : String → Command
  addr_add : String → String → Command
  link_up : String → Command
  link_down : String → Command
  link_delete_bridge : String → Command
  link_add_veth : String → String → Command
  link_delete : String → Command
  link_master : String → String → Command
  link_netns : String → ℕ → String → Command
  neigh_flush : String → Command
  iptables : RuleOp → Rule → Command

pub data Call : Type 0 where
  kill : ℕ → Signal → Call
  waitpid : ℕ → Call
  sleep : Call
  fork : Call
  run : Command → Call
  rmdir : String → Call
  umount : String → Call
  rmtree : String → Call
  map_users : ℕ → Call
  proceed : ℕ → Call
  sysctl : String → Call

pub record Os : Type 0 where
  -- MINI_DOCKER_ROOT
  pub storage : String
  -- the length of the JSON text of a configuration
  pub json_size : ContainerConfig → ℕ
  pub is_root : Bool
  pub is_dir : String → Bool
  pub abspath : String → String
  pub now : List Call → ℕ
  pub fresh_id : List Call → String
  pub fresh_name : List Call → String
  -- the lines of /proc/<pid>/status
  pub proc_status : List Call → ℕ → Option (List String)
  pub kill : List Call → ℕ → Signal → Killed
  pub waitpid : List Call → ℕ → Waited
  pub fork : List Call → ℕ
  -- what the processes of containers have written to the files when the parent goes on
  pub child_writes : List Call → Dict ConfigFile → Dict ConfigFile
  -- the child has written "R"
  pub ready : List Call → ℕ → Bool
  pub map_users : List Call → ℕ → Bool
  -- the return code, if the program is there
  pub run : List Call → Command → Option ℕ
  pub exists : List Call → String → Bool
  pub cgroup_procs : List Call → String → List ℕ
  pub rmtree : List Call → String → Bool
  -- where the removal of a container's directory failed: its config.json is still there
  pub spares : List Call → String → Bool

pub record World : Type 0 where
  pub containers : Dict ConfigFile
  pub pods : Dict PodConfig
  pub calls : List Call

-- Records a call of the host, after the host's answer to it.
unfoldable pub log : {A : Type 0} → (List Call → A) → Call → Exec World A
log answer call w = (ok (answer w.calls), record w { calls = w.calls ++ call ∷ [] })

unfoldable pub observe : {A : Type 0} → (List Call → A) → Exec World A
observe answer w = (ok (answer w.calls), w)

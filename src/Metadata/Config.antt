-- ===== src/Metadata/Config.antt =====
-- The dataclasses of mini_docker/metadata.py. Times are readings of the clock.
use mini_docker.Base.{
  ℕ, String, Bool, true, false, Option, none, List, [], ◌∷◌, Dict, str_eq, if◌then◌else◌,
}

-- An exit code; -1 is the one negative value that the code writes.
pub data ExitCode : Type 0 where
  code : ℕ → ExitCode
  minus_one : ExitCode

-- The values of the field `status` that the code writes.
pub data Status : Type 0 where
  created running stopped : Status

pub record NetworkConfig : Type 0 where
  pub ip : Option String
  pub mac : Option String
  pub gateway : String
  pub veth_host : Option String
  pub veth_container : Option String
  pub bridge : String
  pub ports : List String

pub record ResourceLimits : Type 0 where
  pub cpu_quota : Option ℕ
  pub cpu_period : ℕ
  pub memory_mb : Option ℕ
  pub max_pids : Option ℕ

pub record ContainerConfig : Type 0 where
  pub id : String
  pub name : String
  pub rootfs : String
  pub command : List String
  pub overlay_lower : String
  pub overlay_upper : String
  pub overlay_work : String
  pub overlay_merged : String
  pub use_overlay : Bool
  pub resources : ResourceLimits
  pub network : NetworkConfig
  pub namespaces : List String
  pub hostname : String
  pub env : Dict String
  pub workdir : String
  pub user : String
  pub uid : Option ℕ
  pub gid : Option ℕ
  pub rootless : Bool
  pub pod_id : Option String
  pub network_enabled : Bool
  pub volumes : List (Dict String)
  pub auto_remove : Bool
  pub detach : Bool
  pub interactive : Bool
  pub tty : Bool
  pub capabilities : List String
  pub seccomp_enabled : Bool
  pub status : Status
  pub pid : Option ℕ
  pub supervisor_pid : Option ℕ
  pub created_at : ℕ
  pub started_at : Option ℕ
  pub finished_at : Option ℕ
  pub exit_code : Option ExitCode

abbrev pub default_network : NetworkConfig
default_network = record {
  ip = none;
  mac = none;
  gateway = "10.0.0.1";
  veth_host = none;
  veth_container = none;
  bridge = "mini-docker0";
  ports = [];
}

abbrev pub default_resources : ResourceLimits
default_resources = record {
  cpu_quota = none;
  cpu_period = 100000;
  memory_mb = none;
  max_pids = none;
}

-- The field defaults, at the time of the call.
abbrev pub default_config : ℕ → ContainerConfig
default_config now = record {
  id = "";
  name = "";
  rootfs = "";
  command = [];
  overlay_lower = "";
  overlay_upper = "";
  overlay_work = "";
  overlay_merged = "";
  use_overlay = true;
  resources = default_resources;
  network = default_network;
  namespaces = "pid" ∷ "uts" ∷ "mnt" ∷ "ipc" ∷ [];
  hostname = "";
  env = [];
  workdir = "/";
  user = "root";
  uid = none;
  gid = none;
  rootless = false;
  pod_id = none;
  network_enabled = false;
  volumes = [];
  auto_remove = false;
  detach = false;
  interactive = false;
  tty = false;
  capabilities = [];
  seccomp_enabled = true;
  status = created;
  pid = none;
  supervisor_pid = none;
  created_at = now;
  started_at = none;
  finished_at = none;
  exit_code = none;
}

-- `x or y` on strings.
abbrev pub or_default : String → String → String
or_default x y = if str_eq x "" then y else x

-- `__post_init__`, with the identifier and the name that the generators would return.
unfoldable pub post_init : String → String → ContainerConfig → ContainerConfig
post_init fresh_id fresh_name config =
    let name = or_default config.name fresh_name in
    record config {
      id = or_default config.id fresh_id;
      name = name;
      hostname = or_default config.hostname name;
    }

-- ===== src/Tests.antt =====
-- A host and some containers, on which the examples below run.
pub mod Filter
pub mod Records
pub mod Runs
pub mod Texts
pub mod Workloads
use mini_docker.Base.{
  ℕ, String, Bool, true, false, Option, none, some, List, [], ◌∷◌, ◌==◌, if◌then◌else◌, Dict,
}
use mini_docker.Metadata.Config.{
  ContainerConfig, ResourceLimits, NetworkConfig, default_config, default_network, running, stopped,
  created,
}
use mini_docker.World.{
  Os, World, PodConfig, pod_running, ConfigFile, written, foreign, Call, Killed, delivered,
  no_such_process, Waited, reaped, not_yet,
}

-- The process 9 is gone; another one takes two signals and ends by SIGTERM.
abbrev signalled : List Call → ℕ → Killed
signalled calls pid =
    if pid == 9
    then no_such_process
    else (elim calls [ [] ↦ delivered | _ ∷ [] ↦ delivered | _ ↦ no_such_process ])

abbrev host : Os
host = record {
  storage = "/s";
  json_size = λ c. 100;
  is_root = true;
  is_dir = λ path. true;
  abspath = λ path. path;
  now = λ calls. 50;
  fresh_id = λ calls. "c9";
  fresh_name = λ calls. "calm_cat";
  proc_status = λ calls pid. none;
  kill = λ calls pid signal. signalled calls pid;
  waitpid = λ calls pid. reaped 15;
  fork = λ calls. 77;
  child_writes = λ calls files. files;
  ready = λ calls pid. true;
  map_users = λ calls pid. true;
  run = λ calls command. some 0;
  exists = λ calls path. false;
  cgroup_procs = λ calls path. [];
  rmtree = λ calls path. true;
  spares = λ calls path. true;
}

-- A container with the process 7, with its own network.
abbrev web : ContainerConfig
web = record (default_config 10) {
  id = "c1";
  name = "web";
  hostname = "web";
  command = "/bin/sh" ∷ [];
  namespaces = "pid" ∷ "uts" ∷ "mnt" ∷ "ipc" ∷ "net" ∷ [];
  network_enabled = true;
  network = record default_network { ip = some "10.0.0.2"; veth_host = some "vethc1" };
  status = running;
  pid = some 7;
  supervisor_pid = some 7;
}

-- A container whose process is gone.
abbrev lost : ContainerConfig
lost = record (default_config 20) {
  id = "c2";
  name = "lost";
  hostname = "lost";
  status = running;
  pid = some 9;
  supervisor_pid = some 9;
}

-- A container that was created in a pod.
abbrev member : ContainerConfig
member = record (default_config 30) {
  id = "c3";
  name = "member";
  hostname = "member";
  namespaces = "pid" ∷ "uts" ∷ "mnt" ∷ "ipc" ∷ "net" ∷ [];
  network_enabled = true;
  pod_id = some "p1";
}

abbrev pod : PodConfig
pod = record {
  id = "p1";
  name = "pod";
  containers = "c3" ∷ [];
  infra_pid = some 7;
  ip_address = none;
  shared_namespaces = "net" ∷ "ipc" ∷ [];
  hostname = "pod";
  network = some true;
  status = pod_running;
  created_at = 5;
}

abbrev world : World
world = record {
  containers =
      ("c1", written web)
      ∷ ("c2", written lost)
      ∷ ("c3", written member)
      ∷ ("d1", foreign (some "old") (some "10.0.0.3"))
      ∷ [];
  pods = ("p1", pod) ∷ [];
  calls = [];
}

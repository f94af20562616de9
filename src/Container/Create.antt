-- ===== src/Container/Create.antt =====
-- `create`. A file is taken to be writable.
use mini_docker.Base.{
  ℕ, String, Bool, true, false, not, ◌&&◌, ◌||◌, Option, none, some, List, [], ◌∷◌, ◌++◌,
  if◌then◌else◌, contains, Dict,
}
use mini_docker.Errors.{
  container_not_found, container_invalid_request, Exec, ◌>>=◌, ◌>>◌, pure, raise, modify,
}
use mini_docker.Metadata.Config.{ContainerConfig, default_config, post_init}
use mini_docker.Metadata.Store.{save_container_config}
use mini_docker.World.{Os, World, PodConfig, observe}
use mini_docker.Network.Ports.{parse_port_mapping}
use mini_docker.Pod.{load_pod_config}
use mini_docker.Filesystem.{get_overlay_paths}
use mini_docker.Container.Cleanup.{is_set, text_of, is_empty}

-- The arguments of `create`; a missing list, dictionary or name is an empty one.
pub record CreateArgs : Type 0 where
  pub rootfs : String
  pub command : List String
  pub name : String
  pub hostname : String
  pub use_overlay : Bool
  pub cpu_quota : Option ℕ
  pub memory_mb : Option ℕ
  pub max_pids : Option ℕ
  pub env : Dict String
  pub workdir : String
  pub pod_id : Option String
  pub rootless : Bool
  pub network : Bool
  pub volumes : List (Dict String)
  pub uid : Option ℕ
  pub gid : Option ℕ
  pub auto_remove : Bool
  pub interactive : Bool
  pub tty : Bool
  pub detach : Bool
  pub ports : List String

abbrev pub shares_net : Option PodConfig → Bool
shares_net none = false
shares_net (some pod) = contains pod.shared_namespaces "net"

-- `bool(network or ports) and not pod_id`
abbrev pub wants_network : CreateArgs → Bool
wants_network args = (args.network || not (is_empty args.ports)) && not (is_set args.pod_id)

abbrev base_namespaces : List String
base_namespaces = "pid" ∷ "uts" ∷ "mnt" ∷ "ipc" ∷ []

abbrev pub chosen_namespaces : CreateArgs → Option PodConfig → List String
chosen_namespaces args pod =
    if shares_net pod || wants_network args then base_namespaces ++ "net" ∷ [] else base_namespaces

-- The loop over the ports.
unfoldable pub all_parse : List String → Bool
all_parse [] = true
all_parse (mapping ∷ mappings) = elim (parse_port_mapping mapping) [
  | none ↦ false
  | some _ ↦ all_parse mappings
]

unfoldable pub with_overlay : String → ContainerConfig → ContainerConfig
unfolding get_overlay_paths
with_overlay root config =
    if config.use_overlay
    then (let (lower, upper, work, merged) = get_overlay_paths root config.id in
        record config {
          overlay_lower = lower;
          overlay_upper = upper;
          overlay_work = work;
          overlay_merged = merged;
        })
    else config

-- The fields that the caller gives.
unfoldable pub requested : ℕ → String → CreateArgs → Option PodConfig → ContainerConfig
requested now rootfs args pod = record (default_config now) {
  name = args.name;
  hostname = args.hostname;
  rootfs = rootfs;
  command = args.command;
  use_overlay = args.use_overlay;
  resources = record {
    cpu_quota = args.cpu_quota;
    cpu_period = 100000;
    memory_mb = args.memory_mb;
    max_pids = args.max_pids;
  };
  env = args.env;
  workdir = args.workdir;
  volumes = args.volumes;
  uid = args.uid;
  gid = args.gid;
  pod_id = args.pod_id;
  rootless = args.rootless;
  auto_remove = args.auto_remove;
  detach = args.detach;
  interactive = args.interactive;
  tty = args.tty;
  network_enabled = wants_network args || shares_net pod;
  namespaces = chosen_namespaces args pod;
}

unfoldable pub with_ports : List String → ContainerConfig → ContainerConfig
with_ports ports config = record config { network = record config.network { ports = ports } }

module _ (os : Os) where
  -- What follows the look-up of the pod.
  unfoldable pub build : String → CreateArgs → Option PodConfig → Exec World ContainerConfig
  unfolding requested post_init with_ports with_overlay all_parse
  build rootfs args pod = do
    now ← observe os.now
    fresh_id ← observe os.fresh_id
    fresh_name ← observe os.fresh_name
    let config = post_init fresh_id fresh_name (requested now rootfs args pod)
    if all_parse args.ports
        then (do
          let config' = with_overlay os.storage (with_ports args.ports config)
          modify (save_container_config config')
          pure config')
        else raise container_invalid_request

  unfoldable pub create : CreateArgs → Exec World ContainerConfig
  unfolding build
  create args =
      if os.is_dir (os.abspath args.rootfs)
      then (if is_set args.pod_id
          then (do
            found ← load_pod_config os (text_of args.pod_id)
            elim found [
              | none ↦ raise (container_not_found (text_of args.pod_id))
              | some pod ↦ build (os.abspath args.rootfs) args (some pod)
            ])
          else build (os.abspath args.rootfs) args none)
      else raise container_invalid_request

-- ===== src/Container/Cleanup.antt =====
-- `_cleanup_runtime_resources`, `_clear_network_runtime_metadata` and
-- `_finalize_stopped_container`.
use mini_docker.Base.{
  String, ◌<>◌, Bool, true, false, not, ◌&&◌, ◌||◌, Option, none, some, List, [], ◌∷◌, ◌++◌,
  if◌then◌else◌, str_eq, any,
}
use mini_docker.Errors.{
  container_internal_error, network_error, Exec, ◌>>=◌, ◌>>◌, pure, raise, modify, catch,
}
use mini_docker.Metadata.Config.{ContainerConfig, stopped, ExitCode}
use mini_docker.Metadata.Store.{
  load_container_config, save_container_config, update_container_status,
}
use mini_docker.World.{Os, World, observe}
use mini_docker.Network.{remove_port_forwarding, network_cleanup}
use mini_docker.Network.Ports.{parse_port_mapping}
use mini_docker.Cgroups.{delete_cgroup, mini_docker_cgroup}

-- The kinds of the messages that the cleanup collects.
pub data CleanupError : Type 0 where
  port_forwarding network cgroup cgroup_exists overlay pod : CleanupError

-- A string that is there and not empty.
abbrev pub is_set : Option String → Bool
is_set none = false
is_set (some s) = not (str_eq s "")

abbrev pub text_of : Option String → String
text_of none = ""
text_of (some s) = s

abbrev pub is_empty : List String → Bool
is_empty [] = true
is_empty (_ ∷ _) = false

-- `try: m except Exception as e: errors.append(...)`
abbrev pub collect : CleanupError → Exec World Unit → Exec World (List CleanupError)
collect kind m = catch (do m; pure []) (λ e. pure (kind ∷ []))

module _ (os : Os) where
  -- The loop over the ports; a mapping that does not parse raises.
  unfoldable pub remove_ports : String → List String → Exec World Unit
  remove_ports ip [] = pure tt
  remove_ports ip (mapping ∷ mappings) = elim (parse_port_mapping mapping) [
    | none ↦ raise network_error
    | some (host_port, container_port) ↦ do
      remove_port_forwarding os host_port container_port ip
      remove_ports ip mappings
  ]

  unfoldable pub cleanup_cgroup : String → Exec World (List CleanupError)
  cleanup_cgroup path = do
    delete_cgroup os path
    there ← observe (λ calls. os.exists calls path)
    pure (if there then cgroup_exists ∷ [] else [])

  unfoldable pub cleanup_runtime_resources : ContainerConfig → Exec World (List CleanupError)
  unfolding remove_ports cleanup_cgroup
  cleanup_runtime_resources config = do
    ports ←
        if not (is_empty config.network.ports) && is_set config.network.ip
        then collect port_forwarding (remove_ports (text_of config.network.ip) config.network.ports)
        else pure []
    links ←
        if config.network_enabled || is_set config.network.veth_host || is_set config.network.ip
        then collect network (network_cleanup os config.id config.network.veth_host)
        else pure []
    groups ←
        if config.rootless then pure [] else cleanup_cgroup (mini_docker_cgroup <> "/" <> config.id)
    pure (ports ++ links ++ groups)

-- `_clear_network_runtime_metadata`
unfoldable pub clear_network_runtime_metadata : ContainerConfig → ContainerConfig
clear_network_runtime_metadata config = record config {
  network = record config.network { ip = none; veth_host = none; veth_container = none };
}

-- The message begins with "Port forwarding cleanup" or "Network cleanup".
abbrev pub concerns_network : CleanupError → Bool
concerns_network e = elim e [ port_forwarding ↦ true | network ↦ true | _ ↦ false ]

abbrev pub has_errors : List CleanupError → Bool
has_errors [] = false
has_errors (_ ∷ _) = true

module _ (os : Os) where
  -- Loads the configuration, clears what is valid for one start, and saves it.
  unfoldable pub clear_network : String → Exec World Unit
  unfolding clear_network_runtime_metadata
  clear_network container_id = do
    refreshed ← load_container_config os container_id
    elim refreshed [
      | none ↦ pure tt
      | some config ↦ modify (save_container_config (clear_network_runtime_metadata config))
    ]

  -- `_finalize_stopped_container`
  unfoldable pub finalize_stopped_container :
      String → ContainerConfig → Option ExitCode → Exec World Bool
  unfolding clear_network
  finalize_stopped_container container_id config exit_code = do
    update_container_status os container_id stopped none exit_code
    errors ← cleanup_runtime_resources os config
    if any concerns_network errors then pure tt else clear_network container_id
    if has_errors errors then raise container_internal_error else pure true

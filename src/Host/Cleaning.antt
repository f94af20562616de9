-- ===== src/Host/Cleaning.antt =====
-- `cleanup_runtime_resources` of mini_docker/host.py. Reading an address and resolving a path are
-- the library's and parameters; the texts of the details are left out.
use mini_docker.Base.{
  ℕ, ◌+◌, ◌/◌, String, ◌<>◌, Bool, true, false, not, ◌&&◌, ◌||◌, Option, none, some, List, [], ◌∷◌,
  ◌++◌, ◌==◌, leb, if◌then◌else◌, str_eq, contains, codes, length, all, any, filter, map, Dict,
}
use mini_docker.Cgroups.{mini_docker_cgroup}
use mini_docker.Container.Cleanup.{is_set, text_of, is_empty}
use mini_docker.Errors.{Exec, ◌>>=◌, ◌>>◌, pure, gets, catch}
use mini_docker.Metadata.Config.{ContainerConfig}
use mini_docker.Metadata.Files.{insert_id, list_container_ids, file_of, hydrate}
use mini_docker.Metadata.Store.{is_running}
use mini_docker.Network.{
  bridge_name, bridge_subnet, veth_host_name, veth_alternate_name, delete_veth,
  remove_port_forwarding, remove_nat, delete_bridge,
}
use mini_docker.Network.Ports.{parse_port_mapping}
use mini_docker.Utils.Text.{decimal}
use mini_docker.World.{Os, World, Call, ConfigFile, rmdir, log, observe}
use mini_docker.Workload.Process.{join}

-- What a host answers beside `Os`.
pub record Host : Type 0 where
  -- `ipaddress.ip_address`, for the addresses of version 4
  pub ip_address : String → Option ℕ
  -- `os.path.realpath`, by the names between its slashes
  pub realpath : String → List String
  -- the directories of the control groups of Mini-Docker
  pub cgroup_names : List Call → List String
  -- whether `os.rmdir` removes it
  pub rmdir : List Call → String → Bool

pub data Action : Type 0 where
  skip_container skip_cgroup skip_network_base : Action
  cleanup_port cleanup_veth cleanup_cgroup cleanup_nat cleanup_bridge : Action

-- The values of the field `status`; `mark_warn` is not written.
pub data Status : Type 0 where
  done planned failed skipped : Status

pub record Operation : Type 0 where
  pub action : Action
  pub target : String
  pub status : Status

abbrev pub operation : Action → String → Status → Operation
operation action target status = record { action = action; target = target; status = status }

-- `[0-9a-f]`
abbrev pub is_hex_digit : ℕ → Bool
is_hex_digit c = leb b'0' c && leb c b'9' || leb b'a' c && leb c b'f'

-- `_is_mini_docker_container_id`
unfoldable pub is_container_id : String → Bool
is_container_id id = let text = codes id in length text == 12 && all is_hex_digit text

-- `_is_owned_veth_name`
unfoldable pub is_owned_veth_name : String → String → Bool
is_owned_veth_name veth_name id =
    str_eq veth_name (veth_host_name id) || str_eq veth_name (veth_alternate_name id)

-- 10.0.0.0 as a number; the network has 256 addresses.
abbrev pub network_address : ℕ
network_address = 0x0a000000

abbrev pub is_failed : Operation → Bool
is_failed op = elim op.status [ failed ↦ true | _ ↦ false ]

-- The containers whose identifier is one of Mini-Docker's, and the operations for the others.
unfoldable pub partition : List ContainerConfig → List ContainerConfig × List Operation
partition [] = ([], [])
partition (c ∷ cs) =
    let (safe, operations) = partition cs in
    if is_container_id c.id
    then (c ∷ safe, operations)
    else (safe, operation skip_container c.id failed ∷ operations)

-- `_load_existing_containers`: files are read whole here, and nothing is refreshed.
unfoldable pub load_existing : Dict ConfigFile → List String → List ContainerConfig
load_existing files [] = []
load_existing files (id ∷ ids) =
    let rest = load_existing files ids in
    elim (hydrate (file_of files id)) [ none ↦ rest | some config ↦ config ∷ rest ]

abbrev pub ids_of : List ContainerConfig → List String
ids_of containers = map (λ c. c.id) containers

-- `sorted(...)`
unfoldable pub sort_names : List String → List String
sort_names [] = []
sort_names (name ∷ names) = insert_id name (sort_names names)

-- `read_file` of cgroup.procs is empty.
abbrev pub no_process : List ℕ → Bool
no_process [] = true
no_process (pid ∷ pids) = false

-- `os.path.commonpath([base, target]) == base`, by the names of the paths.
abbrev pub is_below : List String → List String → Bool
is_below [] target = true
is_below (name ∷ base) [] = false
is_below (name ∷ base) (part ∷ target) = str_eq name part && is_below base target

-- `target == base`
abbrev pub same_path : List String → List String → Bool
same_path [] [] = true
same_path (name ∷ base) (part ∷ target) = str_eq name part && same_path base target
same_path _ _ = false

-- `os.path.basename`
abbrev pub basename : List String → String
basename [] = ""
basename (name ∷ []) = name
basename (name ∷ next ∷ rest) = basename (next ∷ rest)

module _ (os : Os) (host : Host) where
  -- `_is_bridge_container_ip`
  unfoldable pub is_bridge_container_ip : String → Bool
  is_bridge_container_ip text = elim (host.ip_address text) [
    | none ↦ false
    | some address ↦
        address / 256 == network_address / 256
        && not (address == network_address)
        && not (address == network_address + 255)
        && not (address == network_address + 1)
  ]

  -- `_validate_cgroup_cleanup_path`, as a test.
  unfoldable pub is_safe_cgroup : String → Bool
  unfolding is_container_id
  is_safe_cgroup cgroup_path =
      let base = host.realpath mini_docker_cgroup in
      let target = host.realpath cgroup_path in
      is_below base target && not (same_path base target) && is_container_id (basename target)

  -- A cleanup that may fail.
  unfoldable pub tried : Action → String → Exec World Unit → Exec World Operation
  tried action target m =
      catch (do m; pure (operation action target done)) (λ e. pure (operation action target failed))

  unfoldable pub cleanup_empty_cgroup : String → Bool → Exec World Operation
  unfolding is_safe_cgroup
  cleanup_empty_cgroup cgroup_path dry_run =
      let result : Status → Operation = λ status. operation cleanup_cgroup cgroup_path status in
      if not (is_safe_cgroup cgroup_path) then pure (result failed) else (do
        there ← observe (λ calls. os.exists calls cgroup_path)
        procs ← observe (λ calls. os.cgroup_procs calls cgroup_path)
        if not there
            then pure (result skipped)
            else if not (no_process procs)
            then pure (result skipped)
            else if dry_run
            then pure (result planned)
            else (do
              removed ← log (λ calls. host.rmdir calls cgroup_path) (rmdir cgroup_path)
              pure (result (if removed then done else failed))))

  unfoldable pub cleanup_veth_pair : String → Bool → Exec World Operation
  unfolding tried
  cleanup_veth_pair veth_name dry_run =
      if dry_run
      then pure (operation cleanup_veth veth_name planned)
      else tried cleanup_veth veth_name (delete_veth os veth_name)

  -- The loop over the ports of a container.
  unfoldable pub cleanup_ports : String → List String → Bool → Exec World (List Operation)
  unfolding tried
  cleanup_ports ip [] dry_run = pure []
  cleanup_ports ip (mapping ∷ mappings) dry_run = do
    op ← elim (parse_port_mapping mapping) [
      | none ↦ pure (operation cleanup_port mapping failed)
      | some (host_port, container_port) ↦
          let target = decimal host_port <> "->" <> ip <> ":" <> decimal container_port in
          if dry_run
          then pure (operation cleanup_port target planned)
          else tried cleanup_port target (remove_port_forwarding os host_port container_port ip)
    ]
    rest ← cleanup_ports ip mappings dry_run
    pure (op ∷ rest)

  abbrev pub is_text : Option String → Bool
  is_text text = is_set text && not (str_eq (text_of text) "")

  unfoldable pub cleanup_container_ports : ContainerConfig → Bool → Exec World (List Operation)
  unfolding cleanup_ports is_bridge_container_ip
  cleanup_container_ports container dry_run =
      let ip = text_of container.network.ip in
      if not (is_empty container.network.ports) && is_text container.network.ip
      then (if is_bridge_container_ip ip
          then cleanup_ports ip container.network.ports dry_run
          else pure (operation cleanup_port ip failed ∷ []))
      else pure []

  unfoldable pub cleanup_container_veth : ContainerConfig → Bool → Exec World (List Operation)
  unfolding cleanup_veth_pair is_owned_veth_name
  cleanup_container_veth container dry_run =
      let veth = text_of container.network.veth_host in
      if is_text container.network.veth_host
      then (if is_owned_veth_name veth container.id
          then (do op ← cleanup_veth_pair veth dry_run; pure (op ∷ []))
          else pure (operation cleanup_veth veth failed ∷ []))
      else pure []

  unfoldable pub cleanup_container_runtime : ContainerConfig → Bool → Exec World (List Operation)
  unfolding cleanup_container_ports cleanup_container_veth cleanup_empty_cgroup
  cleanup_container_runtime container dry_run = do
    ports ← cleanup_container_ports container dry_run
    veth ← cleanup_container_veth container dry_run
    cgroup ← cleanup_empty_cgroup (join mini_docker_cgroup container.id) dry_run
    pure (ports ++ (veth ++ cgroup ∷ []))

  -- The loop over the containers with a valid identifier.
  unfoldable pub cleanup_containers : List ContainerConfig → Bool → Exec World (List Operation)
  unfolding cleanup_container_runtime
  cleanup_containers [] dry_run = pure []
  cleanup_containers (c ∷ cs) dry_run = do
    operations ←
        (if is_running c
          then pure (operation skip_container c.id skipped ∷ [])
          else cleanup_container_runtime c dry_run)
    rest ← cleanup_containers cs dry_run
    pure (operations ++ rest)

  unfoldable pub cleanup_orphans : List String → List String → Bool → Exec World (List Operation)
  unfolding is_container_id cleanup_empty_cgroup
  cleanup_orphans known_ids [] dry_run = pure []
  cleanup_orphans known_ids (name ∷ names) dry_run = do
    operations ←
        (if contains known_ids name
          then pure []
          else if is_container_id name
          then (do op ← cleanup_empty_cgroup (join mini_docker_cgroup name) dry_run; pure (op ∷ []))
          else pure (operation skip_cgroup (join mini_docker_cgroup name) skipped ∷ []))
    rest ← cleanup_orphans known_ids names dry_run
    pure (operations ++ rest)

  unfoldable pub cleanup_network_base : Bool → Exec World (List Operation)
  unfolding tried
  cleanup_network_base dry_run =
      if dry_run
      then pure (
          operation cleanup_nat bridge_subnet planned
          ∷ operation cleanup_bridge bridge_name planned
          ∷ [])
      else (do
        nat ← tried cleanup_nat bridge_subnet (remove_nat os bridge_subnet)
        bridge ← tried cleanup_bridge bridge_name (delete_bridge os bridge_name)
        pure (nat ∷ bridge ∷ []))

  -- The last part: the bridge and the address translation are only touched where no container
  -- runs and nothing has failed. An invalid identifier is a failed operation too.
  unfoldable pub finish : Bool → List Operation → Bool → Exec World (List Operation)
  unfolding cleanup_network_base
  finish any_running operations dry_run =
      if any_running
      then pure (operations ++ operation skip_network_base bridge_name skipped ∷ [])
      else if any is_failed operations
      then pure (operations ++ operation skip_network_base bridge_name skipped ∷ [])
      else (do base ← cleanup_network_base dry_run; pure (operations ++ base))

  -- `cleanup_runtime_resources`: the operations of its report. The identifiers of the running
  -- containers are among the known ones.
  unfoldable pub cleanup_runtime_resources : Bool → Exec World (List Operation)
  unfolding load_existing partition cleanup_containers cleanup_orphans finish sort_names
  cleanup_runtime_resources dry_run = do
    containers ← gets (λ w. load_existing w.containers (list_container_ids w.containers))
    let (safe, invalid) = partition containers
    cleaned ← cleanup_containers safe dry_run
    names ← observe host.cgroup_names
    orphans ← cleanup_orphans (ids_of safe) (sort_names names) dry_run
    finish (any is_running safe) (invalid ++ (cleaned ++ orphans)) dry_run

-- The fields of the report.
abbrev pub count : (Operation → Bool) → List Operation → ℕ
count p operations = length (filter p operations)

unfoldable pub report_is_ok : List Operation → Bool
report_is_ok operations = not (any is_failed operations)

-- removed, planned, failed, skipped
unfoldable pub summary : List Operation → ℕ × ℕ × ℕ × ℕ
summary operations = (
  count (λ op. elim op.status [ done ↦ true | _ ↦ false ]) operations,
  count (λ op. elim op.status [ planned ↦ true | _ ↦ false ]) operations,
  count is_failed operations,
  count (λ op. elim op.status [ skipped ↦ true | _ ↦ false ]) operations,
)

-- ===== src/Host/Guards.antt =====
-- The calls of the host that `cleanup_runtime_resources` of mini_docker/host.py makes.
use mini_docker.Base.{
  ℕ, String, ◌<>◌, ◌≡◌, refl, Bool, true, false, not, ◌&&◌, Option, none, some, List, [], ◌∷◌, ◌++◌,
  arith, if◌then◌else◌, contains, any, any-append, In, inl, inr,
}
use mini_docker.Cgroups.{mini_docker_cgroup}
use mini_docker.Container.Cleanup.{text_of, is_empty}
use mini_docker.Errors.{ok, Exec, ◌>>=◌, pure}
use mini_docker.Host.Cleaning.{
  Host, Operation, Action, operation, is_container_id, is_owned_veth_name, is_failed, partition,
  load_existing, no_process, ids_of, sort_names, is_bridge_container_ip, is_safe_cgroup, tried,
  cleanup_empty_cgroup, cleanup_veth_pair, cleanup_ports, cleanup_container_ports,
  cleanup_container_veth, cleanup_container_runtime, cleanup_containers, cleanup_orphans,
  cleanup_network_base, finish, cleanup_runtime_resources, is_text, cleanup_port, failed, planned,
}
use mini_docker.Host.Makes.{
  Effects, Makes, Sure, Sure-pure, Sure-observe, Sure-log, Sure-if, Sure-bind, Sure-tried,
}
use mini_docker.Metadata.Config.{ContainerConfig}
use mini_docker.Metadata.Files.{list_container_ids}
use mini_docker.Metadata.Store.{is_running}
use mini_docker.Network.{remove_port_forwarding}
use mini_docker.Network.Ports.{parse_port_mapping}
use mini_docker.Utils.Text.{decimal}
use mini_docker.World.{Os, World, Call, rmdir, observe}
use mini_docker.Workload.Process.{join}
use mini_docker.Host.Allowed.{
  Idle, IsId, InBridge, Allowed, own_cgroup, orphan_cgroup, Justified, port-Makes, veth-Makes,
  nat-Makes, bridge-Makes, is_container_id-IsId, is_safe_cgroup-Below,
  is_bridge_container_ip-InBridge, is_owned_veth_name-eq, partition-In, partition-idle,
  partition-unknown,
}

module _ (os : Os) (host : Host) (containers : List ContainerConfig) (dry_run : Bool) where
  -- The containers with an identifier, and the operations for the others.
  abbrev safe : List ContainerConfig
  safe = (partition containers).0

  abbrev invalid : List Operation
  invalid = (partition containers).1

  abbrev P : Call → Type 0
  P call = Justified os host containers dry_run call

  tried-Sure :
      (action : Action) (target : String) (m : Exec World Unit)
      → Makes P m
      → Sure P (tried os host action target m)
  unfolding tried
  tried-Sure action target m km = Sure-tried P m _ _ km

  cgroup-Sure :
      (path : String)
      → (is_safe_cgroup os host path ≡ true → Allowed host containers (rmdir path))
      → Sure P (cleanup_empty_cgroup os host path dry_run)
  unfolding cleanup_empty_cgroup
  cgroup-Sure path allowed =
      Sure-if P (not (is_safe_cgroup os host path)) _ _ (λ h. Sure-pure P _)
        (λ h. Sure-bind P _ _ (Sure-observe P _) (λ there.
          Sure-bind P _ _ (Sure-observe P _) (λ procs.
            Sure-if P (not there) _ _ (λ _. Sure-pure P _)
              (λ _.
                Sure-if P (not (no_process procs)) _ _ (λ _. Sure-pure P _)
                  (λ _.
                    Sure-if P dry_run _ _ (λ _. Sure-pure P _)
                      (λ live.
                        Sure-bind P _ _ (Sure-log P _ _ (live, allowed (ground (arith, h))))
                          (λ removed. Sure-pure P _)))))))

  ports-Sure :
      (c : ContainerConfig) (mappings : List String)
      → Idle containers c
      → InBridge host (text_of c.network.ip)
      → Sure P (cleanup_ports os host (text_of c.network.ip) mappings dry_run)
  unfolding cleanup_ports
  ports-Sure c [] idle b = Sure-pure P []
  ports-Sure c (mapping ∷ mappings) idle b =
      Sure-bind P _ _ (one (parse_port_mapping mapping))
        (λ op. Sure-bind P _ _ (ports-Sure c mappings idle b) (λ rest. Sure-pure P _))
    where
      one :
          (parsed : Option (ℕ × ℕ))
          → Sure P (elim parsed [
            | none ↦ pure (operation cleanup_port mapping failed)
            | some (host_port, container_port) ↦
                let target =
                  decimal host_port
                  <> "->"
                  <> text_of c.network.ip
                  <> ":"
                  <> decimal container_port in
                if dry_run
                then pure (operation cleanup_port target planned)
                else tried os host cleanup_port target
                    (remove_port_forwarding os host_port container_port (text_of c.network.ip))
          ])
      one none = Sure-pure P _
      one (some (hp, cp)) =
          Sure-if P dry_run _ _ (λ _. Sure-pure P _)
            (λ live. tried-Sure _ _ _ (port-Makes os host containers dry_run c hp cp live idle b))

  container-Sure :
      (c : ContainerConfig)
      → Idle containers c
      → Sure P (cleanup_container_runtime os host c dry_run)
  unfolding cleanup_container_runtime cleanup_container_ports cleanup_container_veth
      cleanup_veth_pair
  container-Sure c idle =
      Sure-bind P _ _
        (Sure-if P (not (is_empty c.network.ports) && is_text os host c.network.ip) _ _
          (λ _.
            Sure-if P (is_bridge_container_ip os host (text_of c.network.ip)) _ _
              (λ b. ports-Sure c c.network.ports idle (is_bridge_container_ip-InBridge os host _ b))
              (λ _. Sure-pure P _))
          (λ _. Sure-pure P _))
        (λ ports.
          Sure-bind P _ _
            (Sure-if P (is_text os host c.network.veth_host) _ _
              (λ _.
                Sure-if P (is_owned_veth_name (text_of c.network.veth_host) c.id) _ _
                  (λ o.
                    Sure-bind P _ _
                      (Sure-if P dry_run _ _ (λ _. Sure-pure P _)
                        (λ live. tried-Sure _ _ _ (
                          veth-Makes os host containers dry_run c _ live idle
                            (is_owned_veth_name-eq _ _ o))))
                      (λ op. Sure-pure P _))
                  (λ _. Sure-pure P _))
              (λ _. Sure-pure P _))
            (λ veth.
              Sure-bind P _ _
                (cgroup-Sure (join mini_docker_cgroup c.id)
                  (λ h. own_cgroup c idle (is_safe_cgroup-Below os host _ h)))
                (λ cgroup. Sure-pure P _)))

  containers-Sure :
      (cs : List ContainerConfig)
      → ((c : ContainerConfig) → In c cs → In c containers × IsId c.id)
      → Sure P (cleanup_containers os host cs dry_run)
  unfolding cleanup_containers
  containers-Sure [] inside = Sure-pure P []
  containers-Sure (c ∷ cs) inside =
      Sure-bind P _ _
        (Sure-if P (is_running c) _ _ (λ _. Sure-pure P _)
          (λ idle. let (i, id) = inside c (inl refl) in container-Sure c (i, id, idle)))
        (λ operations.
          Sure-bind P _ _ (containers-Sure cs (λ d i. inside d (inr i))) (λ rest. Sure-pure P _))

  orphans-Sure :
      (names : List String) → Sure P (cleanup_orphans os host (ids_of safe) names dry_run)
  unfolding cleanup_orphans
  orphans-Sure [] = Sure-pure P []
  orphans-Sure (name ∷ names) =
      Sure-bind P _ _
        (Sure-if P (contains (ids_of safe) name) _ _ (λ _. Sure-pure P _)
          (λ unknown.
            Sure-if P (is_container_id name) _ _
              (λ valid.
                Sure-bind P _ _
                  (cgroup-Sure (join mini_docker_cgroup name) (λ h.
                    orphan_cgroup name (partition-unknown name containers valid unknown)
                      (is_container_id-IsId name valid) (is_safe_cgroup-Below os host _ h)))
                  (λ op. Sure-pure P _))
              (λ _. Sure-pure P _)))
        (λ operations. Sure-bind P _ _ (orphans-Sure names) (λ rest. Sure-pure P _))

  finish-Sure :
      (operations : List Operation)
      → (any is_running safe ≡ false
          → any is_failed operations ≡ false
          → any is_running containers ≡ false)
      → Sure P (finish os host (any is_running safe) operations dry_run)
  unfolding finish cleanup_network_base
  finish-Sure operations quiet =
      Sure-if P (any is_running safe) _ _ (λ _. Sure-pure P _)
        (λ idle.
          Sure-if P (any is_failed operations) _ _ (λ _. Sure-pure P _)
            (λ sound.
              Sure-bind P _ _
                (Sure-if P dry_run _ _ (λ _. Sure-pure P _)
                  (λ live.
                    Sure-bind P _ _
                      (tried-Sure _ _ _
                        (nat-Makes os host containers dry_run live (quiet idle sound)))
                      (λ nat.
                        Sure-bind P _ _
                          (tried-Sure _ _ _
                            (bridge-Makes os host containers dry_run live (quiet idle sound)))
                          (λ bridge. Sure-pure P _))))
                (λ base. Sure-pure P _)))

  -- The part after the containers are loaded.
  cleaned-Sure : Sure P (do
    cleaned ← cleanup_containers os host safe dry_run
    names ← observe host.cgroup_names
    orphans ← cleanup_orphans os host (ids_of safe) (sort_names names) dry_run
    finish os host (any is_running safe) (invalid ++ (cleaned ++ orphans)) dry_run)
  cleaned-Sure =
      Sure-bind P _ _ (containers-Sure safe (λ c i. partition-In c containers i)) (λ cleaned.
        Sure-bind P _ _ (Sure-observe P _) (λ names.
          Sure-bind P _ _ (orphans-Sure (sort_names names)) (λ orphans. finish-Sure _ (λ idle sound.
            partition-idle containers idle
              (ground (arith, sound, any-append is_failed invalid (cleaned ++ orphans)))))))

-- The containers whose files can be read.
abbrev pub containers_of : World → List ContainerConfig
containers_of w = load_existing w.containers (list_container_ids w.containers)

module _ (os : Os) (host : Host) (dry_run : Bool) (w : World) where
  -- It returns; the files stay, and each new call is one that is allowed.
  abbrev pub Cleaned : Type 0
  Cleaned =
      let (result, after) = cleanup_runtime_resources os host dry_run w in
      ((operations : List Operation) × (result ≡ ok operations))
      × Effects (Justified os host (containers_of w) dry_run) w after

  -- For records whose fields have the types of their dataclass, and whatever the host answers: the
  -- cleanup returns a report, leaves the files of the containers and pods alone, and every call
  -- that it makes is one of these, none of them in a dry run. For a container that is not marked as
  -- running and whose identifier has twelve hexadecimal digits: the removal of its control group,
  -- the deletion of the interface with one of its two names, and the removal of a port forwarding
  -- to its address, which is from 10.0.0.2 to 10.0.0.254. The removal of a control group that is
  -- named by such an identifier of no container. For control groups, the resolved path is below the
  -- resolved root and ends with such an identifier. And, only where no container at all is marked
  -- as running, the removal of the address translation and of the bridge.
  pub cleanup_lem : Cleaned
  unfolding cleanup_runtime_resources ◌>>=◌
  cleanup_lem =
      let sure = cleaned-Sure os host (containers_of w) dry_run in (sure.returns w, sure.effects w)

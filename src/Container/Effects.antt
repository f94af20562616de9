-- ===== src/Container/Effects.antt =====
-- The cleanup of mini_docker/container.py calls the host and leaves the files alone.
use mini_docker.Base.{ℕ, String, Option, none, some, List, [], ◌∷◌}
use mini_docker.Errors.{network_error, Exec, ◌>>◌, raise}
use mini_docker.Quiet.{
  Quiet, Quiet-if, Quiet-pure, Quiet-raise, Quiet-bind, Quiet-log, Quiet-catch, quiet_rules,
}
use mini_docker.World.{Os, World, Command}
use mini_docker.Metadata.Config.{ContainerConfig}
use mini_docker.Network.{
  run_unchecked, run_tolerant, delete_veth, remove_port_forwarding, cleanup_container_networking,
  network_cleanup,
}
use mini_docker.Network.Ports.{parse_port_mapping}
use mini_docker.Cgroups.{kill_all, delete_cgroup}
use mini_docker.Container.Cleanup.{
  remove_ports, cleanup_cgroup, cleanup_runtime_resources, collect, CleanupError,
}

module _ (os : Os) where
  Quiet-run_unchecked : (command : Command) → Quiet (run_unchecked os command)
  unfolding run_unchecked
  Quiet-run_unchecked command =
      Quiet-bind _ _ (Quiet-log _ _) (elim [ none ↦ Quiet-raise _ | some code ↦ Quiet-pure code ])

  Quiet-delete_veth : (name : String) → Quiet (delete_veth os name)
  unfolding delete_veth
  Quiet-delete_veth name = search (quiet_rules, Quiet-run_unchecked)

  Quiet-remove_port_forwarding : (h c : ℕ) (ip : String) → Quiet (remove_port_forwarding os h c ip)
  unfolding remove_port_forwarding run_tolerant
  Quiet-remove_port_forwarding h c ip = search (quiet_rules, Quiet-run_unchecked)

  Quiet-cleanup_container_networking : (id : String) → Quiet (cleanup_container_networking os id)
  unfolding cleanup_container_networking
  Quiet-cleanup_container_networking id =
      search (quiet_rules, Quiet-delete_veth, Quiet-run_unchecked)

  pub Quiet-network_cleanup :
      (id : String) (veth : Option String) → Quiet (network_cleanup os id veth)
  unfolding network_cleanup
  Quiet-network_cleanup id none = search (quiet_rules, Quiet-cleanup_container_networking)
  Quiet-network_cleanup id (some name) =
      search (quiet_rules, Quiet-delete_veth, Quiet-cleanup_container_networking)

  pub Quiet-remove_ports :
      (ip : String) (mappings : List String) → Quiet (remove_ports os ip mappings)
  unfolding remove_ports
  Quiet-remove_ports ip [] = search quiet_rules
  Quiet-remove_ports ip (mapping ∷ mappings) =
      elim (parse_port_mapping mapping)
        as (λ p. Quiet (elim p as (λ _. Exec World Unit) [
          | none ↦ raise network_error
          | some (host_port, container_port) ↦ do
            remove_port_forwarding os host_port container_port ip
            remove_ports os ip mappings
        ])) [
          | none ↦ Quiet-raise _
          | some (host_port, container_port) ↦
              Quiet-bind _ _ (Quiet-remove_port_forwarding host_port container_port ip)
                (λ _. Quiet-remove_ports ip mappings)
        ]

  Quiet-kill_all : (pids : List ℕ) → Quiet (kill_all os pids)
  unfolding kill_all
  Quiet-kill_all [] = search quiet_rules
  Quiet-kill_all (pid ∷ pids) = Quiet-bind _ _ (Quiet-log _ _) (λ _. Quiet-kill_all pids)

  Quiet-cleanup_cgroup : (path : String) → Quiet (cleanup_cgroup os path)
  unfolding cleanup_cgroup delete_cgroup
  Quiet-cleanup_cgroup path = search (quiet_rules, Quiet-kill_all) depth 9

  Quiet-collect : (kind : CleanupError) (m : Exec World Unit) → Quiet m → Quiet (collect kind m)
  Quiet-collect kind m km =
      Quiet-catch _ _ (Quiet-bind _ _ km (λ _. Quiet-pure _)) (λ e. Quiet-pure _)

  pub Quiet-cleanup : (config : ContainerConfig) → Quiet (cleanup_runtime_resources os config)
  unfolding cleanup_runtime_resources
  Quiet-cleanup config =
      Quiet-bind _ _ (Quiet-if _ _ _ (Quiet-collect _ _ (Quiet-remove_ports _ _)) (Quiet-pure _))
        (λ ports.
          Quiet-bind _ _
            (Quiet-if _ _ _ (Quiet-collect _ _ (Quiet-network_cleanup _ _)) (Quiet-pure _))
            (λ links.
              Quiet-bind _ _ (Quiet-if _ _ _ (Quiet-pure _) (Quiet-cleanup_cgroup _))
                (λ groups. Quiet-pure _)))

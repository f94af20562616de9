-- ===== src/Network.antt =====
-- mini_docker/network.py: bridge, veth pair, NAT and port forwarding, as the commands that are run.
pub mod Ports
pub mod Ranges
use Prim.Native.String
use mini_docker.Base.{
  ℕ, zero, suc, str_eq, String, ◌<>◌, Bool, true, false, Option, none, some, List, [], ◌∷◌, ◌==◌,
  if◌then◌else◌,
}
use mini_docker.Errors.{
  Result, ok, err, Error, network_error, os_error, Exec, ◌>>=◌, ◌>>◌, pure, raise, lift, modify,
  catch,
}
use mini_docker.World.{
  Os, World, Call, run, sysctl, Command, link_show, link_add_bridge, addr_add, link_up, link_down,
  link_delete_bridge, link_add_veth, link_delete, link_master, link_netns, neigh_flush, iptables,
  Rule, dnat, masquerade_from, masquerade_to, RuleOp, append, delete, check, Chain, prerouting,
  output, log,
}
use mini_docker.Utils.{get_available_ip}

abbrev pub bridge_name : String
bridge_name = "mini-docker0"

abbrev pub bridge_ip : String
bridge_ip = "10.0.0.1"

abbrev pub bridge_subnet : String
bridge_subnet = "10.0.0.0/24"

-- `s[:n]`, by characters.
abbrev pub cut : ℕ → String → String
cut n String.[] = ""
cut zero s = ""
cut (suc n) (String.◌∷◌ c s) = String.◌∷◌ c (cut n s)

unfoldable pub veth_host_name : String → String
veth_host_name container_id = cut 15 ("veth" <> cut 8 container_id)

unfoldable pub veth_container_name : String → String
veth_container_name container_id = cut 15 ("ceth" <> cut 8 container_id)

unfoldable pub veth_alternate_name : String → String
veth_alternate_name container_id = cut 15 ("veth-" <> cut 8 container_id)

module _ (os : Os) where
  -- `subprocess.run(..., check=False)`: the return code; a missing program is an error of its own.
  unfoldable pub run_unchecked : Command → Exec World ℕ
  run_unchecked command = do
    answer ← log (λ calls. os.run calls command) (run command)
    elim answer [ none ↦ raise os_error | some code ↦ pure code ]

  -- `subprocess.run(..., check=True)` whose `CalledProcessError` is turned into a `NetworkError`.
  unfoldable pub run_checked : Command → Exec World Unit
  unfolding run_unchecked
  run_checked command = do
    code ← run_unchecked command
    if code == 0 then pure tt else raise network_error

  -- `subprocess.run(..., check=True)` whose `CalledProcessError` is passed over.
  unfoldable pub run_tolerant : Command → Exec World Unit
  unfolding run_unchecked
  run_tolerant command = do run_unchecked command; pure tt

  unfoldable pub create_bridge : String → String → Exec World Unit
  unfolding run_checked
  create_bridge name ip = do
    code ← run_unchecked (link_show name)
    if code == 0 then pure tt else do
      run_checked (link_add_bridge name)
      run_checked (addr_add (ip <> "/24") name)
      run_checked (link_up name)

  -- The `except` ends the deletion at the first command that fails.
  unfoldable pub delete_bridge : String → Exec World Unit
  unfolding run_unchecked
  delete_bridge name = do
    code ← run_unchecked (link_show name)
    if code == 0
        then (do
          down ← run_unchecked (link_down name)
          if down == 0 then (do run_unchecked (link_delete_bridge name); pure tt) else pure tt)
        else pure tt

  unfoldable pub create_veth_pair : String → String → Exec World Unit
  unfolding run_checked
  create_veth_pair veth_host veth_container = run_checked (link_add_veth veth_host veth_container)

  unfoldable pub delete_veth : String → Exec World Unit
  unfolding run_unchecked
  delete_veth veth_name = do run_unchecked (link_delete veth_name); pure tt

  unfoldable pub move_veth_to_netns : String → ℕ → String → Exec World Unit
  unfolding run_checked
  move_veth_to_netns veth_name pid target_name = run_checked (link_netns veth_name pid target_name)

  unfoldable pub attach_to_bridge : String → String → Exec World Unit
  unfolding run_checked
  attach_to_bridge veth_name bridge = do
    run_checked (link_master veth_name bridge)
    run_checked (link_up veth_name)

  unfoldable pub setup_port_forwarding : ℕ → ℕ → String → Exec World Unit
  unfolding run_checked
  setup_port_forwarding host_port container_port container_ip = do
    run_checked (iptables append (dnat prerouting host_port container_ip container_port))
    run_checked (iptables append (dnat output host_port container_ip container_port))

  unfoldable pub remove_port_forwarding : ℕ → ℕ → String → Exec World Unit
  unfolding run_tolerant
  remove_port_forwarding host_port container_port container_ip = do
    run_tolerant (iptables delete (dnat prerouting host_port container_ip container_port))
    run_tolerant (iptables delete (dnat output host_port container_ip container_port))

  -- A rule is appended where it is not there.
  unfoldable pub ensure_rule : Rule → Exec World Unit
  unfolding run_checked
  ensure_rule rule = do
    code ← run_unchecked (iptables check rule)
    if code == 0 then pure tt else run_checked (iptables append rule)

  -- A setting of the kernel is tried to be written; its failure is passed over.
  abbrev pub write_sysctl : String → Exec World Unit
  write_sysctl path = log (λ calls. tt) (sysctl path)

  unfoldable pub setup_nat : String → Exec World Unit
  unfolding ensure_rule
  setup_nat subnet = do
    write_sysctl "/proc/sys/net/ipv4/ip_forward"
    write_sysctl "/proc/sys/net/ipv4/conf/all/route_localnet"
    write_sysctl "/proc/sys/net/ipv4/conf/mini-docker0/route_localnet"
    ensure_rule (masquerade_from subnet)
    ensure_rule (masquerade_to bridge_name)

  unfoldable pub remove_nat : String → Exec World Unit
  unfolding run_unchecked
  remove_nat subnet = do
    run_unchecked (iptables delete (masquerade_from subnet))
    run_unchecked (iptables delete (masquerade_to bridge_name))
    pure tt

  -- The address, for the names follow from the identifier: `veth_host_name` and "eth0".
  unfoldable pub setup_container_networking : String → ℕ → Option String → Exec World String
  unfolding create_bridge create_veth_pair attach_to_bridge move_veth_to_netns setup_nat
      veth_host_name veth_container_name
  setup_container_networking container_id container_pid ip_address = do
    create_bridge bridge_name bridge_ip
    ip ← (elim ip_address [ none ↦ λ w. (get_available_ip w.containers, w) | some ip ↦ pure ip ])
    create_veth_pair (veth_host_name container_id) (veth_container_name container_id)
    attach_to_bridge (veth_host_name container_id) bridge_name
    move_veth_to_netns (veth_container_name container_id) container_pid "eth0"
    setup_nat bridge_subnet
    run_unchecked (neigh_flush bridge_name)
    pure ip

  unfoldable pub cleanup_container_networking : String → Exec World Unit
  unfolding delete_veth veth_host_name veth_alternate_name
  cleanup_container_networking container_id = do
    delete_veth (veth_host_name container_id)
    delete_veth (veth_alternate_name container_id)
    run_unchecked (neigh_flush bridge_name)
    pure tt

  -- `Network.cleanup`, for a manager with this `veth_host`; an empty name counts as none.
  unfoldable pub network_cleanup : String → Option String → Exec World Unit
  unfolding cleanup_container_networking
  network_cleanup container_id veth_host = do
    elim veth_host [
      | none ↦ pure tt
      | some name ↦ if str_eq name "" then pure tt else delete_veth name
    ]
    cleanup_container_networking container_id

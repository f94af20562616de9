-- ===== src/Container/Start.antt =====
-- `start`, in the parent process.
use mini_docker.Base.{
  ℕ, String, Bool, not, ◌&&◌, ◌||◌, Option, none, some, List, [], ◌∷◌, ◌++◌, if◌then◌else◌,
  contains,
}
use mini_docker.Errors.{
  ok, err, Error, container_error, container_not_found, container_invalid_state,
  container_invalid_request, container_internal_error, network_error, attribute_error, Exec, ◌>>=◌,
  ◌>>◌, pure, raise, modify, catch,
}
use mini_docker.Metadata.Config.{ContainerConfig, running, stopped, code}
use mini_docker.Metadata.Store.{
  load_container_config, save_container_config, update_container_status, is_running, has_exited,
  exit_status,
}
use mini_docker.World.{
  Os, World, kill, waitpid, fork, map_users, proceed, sigterm, sigkill, Waited, reaped, log,
  observe,
}
use mini_docker.Network.{
  setup_container_networking, setup_port_forwarding, remove_port_forwarding, network_cleanup,
  veth_host_name,
}
use mini_docker.Network.Ports.{parse_port_mapping}
use mini_docker.Pod.{add_container_to_pod}
use mini_docker.Container.Cleanup.{is_set, text_of, is_empty}

-- `config.network_enabled or bool(config.network.ports)`
abbrev pub network_required : ContainerConfig → Bool
network_required config = config.network_enabled || not (is_empty config.network.ports)

abbrev pub can_setup_network : ContainerConfig → Bool
can_setup_network config =
    contains config.namespaces "net" && not config.rootless && not (is_set config.pod_id)

-- The addresses that the set-up assigned.
unfoldable pub with_network : String → ContainerConfig → ContainerConfig
with_network ip config = record config {
  network = record config.network {
    ip = some ip;
    veth_host = some (veth_host_name config.id);
    veth_container = some "eth0";
  };
}

-- The variables of `start` after the `try` block: `config`, whether `network` was made, the
-- port forwards that were configured, and the exception.
pub record Attempt : Type 0 where
  pub config : Option ContainerConfig
  pub network : Option (Option String)
  pub forwards : List (ℕ × ℕ × String)
  pub failure : Option Error

abbrev pub failed : ContainerConfig → Option (Option String) → Error → Attempt
failed config network e = record {
  config = some config;
  network = network;
  forwards = [];
  failure = some e;
}

module _ (os : Os) where
  -- The loop over the ports, with the forwards that are configured and the exception.
  unfoldable pub forward_ports :
      String
      → List String
      → List (ℕ × ℕ × String)
      → Exec World (List (ℕ × ℕ × String) × Option Error)
  forward_ports ip [] forwards = pure (forwards, none)
  forward_ports ip (mapping ∷ mappings) forwards = elim (parse_port_mapping mapping) [
    | none ↦ pure (forwards, some network_error)
    | some (host_port, container_port) ↦ do
      failure ←
          catch (do setup_port_forwarding os host_port container_port ip; pure none)
            (λ e. pure (some e))
      elim failure [
        | none ↦ forward_ports ip mappings (forwards ++ (host_port, container_port, ip) ∷ [])
        | some e ↦ pure (forwards, some e)
      ]
  ]

  -- The part of the `try` block that follows `network.setup`.
  unfoldable pub publish : String → String → Option String → Exec World Attempt
  unfolding with_network forward_ports
  publish container_id ip veth_host = do
    loaded ← load_container_config os container_id
    elim loaded [
      | none ↦
          pure (record { config = none; network = some veth_host; forwards = []; failure = none })
      | some config ↦ do
        let config' = with_network ip config
        modify (save_container_config config')
        outcome ← forward_ports ip config'.network.ports []
        pure (record {
          config = some config';
          network = some veth_host;
          forwards = outcome.0;
          failure = outcome.1;
        })
    ]

  -- The `try` block. An exception leaves the variables as they are when it is raised;
  -- `Network.setup` assigns its fields last, so they are unset where it fails.
  unfoldable pub setup_network : String → ContainerConfig → ℕ → Exec World Attempt
  unfolding publish
  setup_network container_id config pid =
      if network_required config && not (can_setup_network config)
      then pure (failed config none container_error)
      else if can_setup_network config
      then (λ w.
          let (set_up, w') = setup_container_networking os config.id pid none w in
          elim set_up [
            | err e ↦ (ok (failed config (some none) e), w')
            | ok ip ↦
                catch (publish container_id ip (some (veth_host_name config.id)))
                  (λ e. pure (failed config (some (some (veth_host_name config.id))) e)) w'
          ])
      else pure (record { config = some config; network = none; forwards = []; failure = none })

  unfoldable pub remove_forwards : List (ℕ × ℕ × String) → Exec World Unit
  remove_forwards [] = pure tt
  remove_forwards ((host_port, container_port, ip) ∷ forwards) = do
    remove_port_forwarding os host_port container_port ip
    remove_forwards forwards

  abbrev pub wait_code : Waited → ℕ
  wait_code (reaped status) = if has_exited status then exit_status status else 1
  wait_code _ = 1

  -- The handler where networking is required.
  unfoldable pub roll_back : String → ContainerConfig → ℕ → Attempt → Exec World ℕ
  unfolding remove_forwards
  roll_back container_id config pid attempt = do
    remove_forwards attempt.forwards
    elim attempt.network [
      | none ↦ pure tt
      | some veth_host ↦ network_cleanup os config.id veth_host
    ]
    log (λ calls. os.kill calls pid sigkill) (kill pid sigkill)
    waited ← log (λ calls. os.waitpid calls pid) (waitpid pid)
    update_container_status os container_id stopped none (some (code (wait_code waited)))
    raise container_error

  -- What follows the set-up: the child goes on and may write the files before the parent does.
  unfoldable pub release : String → ℕ → Option ContainerConfig → Exec World ℕ
  release container_id pid config = do
    log (λ calls. tt) (proceed pid)
    λ w. (ok tt, record w { containers = os.child_writes w.calls w.containers })
    update_container_status os container_id running (some pid) none
    elim config [
      | none ↦ raise attribute_error
      | some c ↦
          if is_set c.pod_id
          then (do add_container_to_pod os (text_of c.pod_id) c.id; pure pid)
          else pure pid
    ]

  -- The user mapping of a rootless container failed.
  unfoldable pub abandon : String → ℕ → Exec World ℕ
  abandon container_id pid = do
    log (λ calls. os.kill calls pid sigterm) (kill pid sigterm)
    log (λ calls. os.waitpid calls pid) (waitpid pid)
    update_container_status os container_id stopped none (some (code 1))
    raise container_error

  -- The network of a child that is ready, and its release.
  unfoldable pub connect : String → ContainerConfig → ℕ → Exec World ℕ
  unfolding setup_network roll_back release
  connect container_id config pid = do
    attempt ← setup_network container_id config pid
    elim attempt.failure [
      | none ↦ release container_id pid attempt.config
      | some e ↦
          if network_required config
          then roll_back container_id config pid attempt
          else release container_id pid attempt.config
    ]

  -- What follows the look-up: the checks, the fork, and what is done when the child is ready.
  unfoldable pub launch : String → ContainerConfig → Exec World ℕ
  unfolding connect abandon
  launch container_id config =
      if is_running config
      then raise (container_invalid_state container_id)
      else if not config.rootless && not os.is_root
      then raise container_invalid_request
      else (do
        pid ← log os.fork fork
        ready ← observe (λ calls. os.ready calls pid)
        if ready
            then (if config.rootless
                then (do
                  mapped ← log (λ calls. os.map_users calls pid) (map_users pid)
                  if mapped then connect container_id config pid else abandon container_id pid)
                else connect container_id config pid)
            else (do
              log (λ calls. os.waitpid calls pid) (waitpid pid)
              raise container_internal_error))

  unfoldable pub start : String → Exec World ℕ
  unfolding launch
  start container_id = do
    loaded ← load_container_config os container_id
    elim loaded [
      | none ↦ raise (container_not_found container_id)
      | some config ↦ launch container_id config
    ]

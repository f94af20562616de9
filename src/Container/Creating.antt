-- ===== src/Container/Creating.antt =====
-- What `create` of mini_docker/container.py returns and writes.
use mini_docker.Base.{
  String, ◌≡◌, refl, ap, ◌∙◌, Bool, true, false, Option, none, some, arith, if◌then◌else◌, str_eq,
  lookup, Bool-cases, inl, inr, contains,
}
use mini_docker.Errors.{Result, ok, err, ◌>>=◌, continue, raise, container_not_found}
use mini_docker.Metadata.Config.{ContainerConfig, created, post_init}
use mini_docker.Metadata.Store.{save_container_config}
use mini_docker.Metadata.Refresh.{lookup-saved, lookup-other}
use mini_docker.World.{Os, World, PodConfig, written, observe}
use mini_docker.Container.Cleanup.{is_set, text_of}
use mini_docker.Container.Create.{
  CreateArgs, all_parse, with_overlay, requested, with_ports, build, create,
}
use mini_docker.Pod.{load_pod_config}
use mini_docker.Pod.Apart.{load_pod_config-containers}

-- A new container's record, in its file.
pub record Made (args : CreateArgs) (before : World) (config : ContainerConfig) (after : World)
    : Type 0 where
  pub has_file : lookup config.id after.containers ≡ some (written config)
  pub others :
      (other : String)
      → str_eq config.id other ≡ false
      → lookup other after.containers ≡ lookup other before.containers
  pub is_created : config.status ≡ created
  pub no_pid : config.pid ≡ none
  pub has_command : config.command ≡ args.command
  pub has_pod : config.pod_id ≡ args.pod_id
  -- every port mapping parses
  pub has_ports : config.network.ports ≡ args.ports
  pub ports_parse : all_parse config.network.ports ≡ true
  -- the flag and the namespace agree
  pub network_agrees : config.network_enabled ≡ contains config.namespaces "net"

-- An error leaves the files of the containers alone.
abbrev pub CreateOutcome : CreateArgs → World → Result ContainerConfig × World → Type 0
CreateOutcome args before (ok config, after) = Made args before config after
CreateOutcome args before (err e, after) = after.containers ≡ before.containers

-- A record with the fields that `create` gives it, saved.
module _ (args : CreateArgs) (w : World) (root : String) (config : ContainerConfig)
    (st : config.status ≡ created) (p : config.pid ≡ none) (cm : config.command ≡ args.command)
    (pd : config.pod_id ≡ args.pod_id) (po : config.network.ports ≡ args.ports)
    (pp : all_parse config.network.ports ≡ true)
    (ne : config.network_enabled ≡ contains config.namespaces "net") where
  Made-overlay :
      Made args w (with_overlay root config) (save_container_config (with_overlay root config) w)
  unfolding with_overlay
  Made-overlay = record {
    has_file = lookup-saved (with_overlay root config) w;
    others = λ other e. lookup-other (with_overlay root config) w other e;
    is_created = ground arith;
    no_pid = ground arith;
    has_command = ground arith;
    has_pod = ground arith;
    has_ports = ground arith;
    ports_parse = ground arith;
    network_agrees = ground arith;
  }

module _ (os : Os) where
  build-outcome :
      (rootfs : String) (args : CreateArgs) (pod : Option PodConfig) (w : World)
      → CreateOutcome args w (build os rootfs args pod w)
  unfolding build ◌>>=◌ observe requested post_init with_ports
  build-outcome rootfs args pod w = elim (Bool-cases (all_parse args.ports)) [
    | inl p ↦ rw p (
        Made-overlay args w os.storage
          (with_ports args.ports (
            post_init (os.fresh_id w.calls) (os.fresh_name w.calls)
              (requested (os.now w.calls) rootfs args pod)))
          refl refl refl refl refl p (ground arith))
    | inr p ↦ rw p refl
  ]

  outcome-same :
      (args : CreateArgs) (w v : World) (r : Result ContainerConfig × World)
      → v.containers ≡ w.containers
      → CreateOutcome args v r
      → CreateOutcome args w r
  outcome-same args w v (ok config, after) e m = record {
    has_file = m.has_file;
    others = λ other h. m.others other h ∙ ap (lookup other) e;
    is_created = m.is_created;
    no_pid = m.no_pid;
    has_command = m.has_command;
    has_pod = m.has_pod;
    has_ports = m.has_ports;
    ports_parse = m.ports_parse;
    network_agrees = m.network_agrees;
  }
  outcome-same args w v (err x, after) e m = m ∙ e

  -- If `create` returns a configuration, the file of its identifier holds it and the files of the
  -- other containers are as before; it is marked as created, without a process, with the caller's
  -- command, pod and port mappings, which all parse, and its network is enabled exactly if its
  -- namespaces have "net". If `create` raises, no container's file is changed.
  pub create_lem : (args : CreateArgs) (w : World) → CreateOutcome args w (create os args w)
  unfolding create ◌>>=◌
  create_lem args w = elim (Bool-cases (os.is_dir (os.abspath args.rootfs))) [
    | inr d ↦ rw (d, create) refl
    | inl d ↦ rw (d, create) (chosen (is_set args.pod_id))
  ]
    where
      in_pod :
          (found : Result (Option PodConfig) × World)
          → found.1.containers ≡ w.containers
          → CreateOutcome args w (
              continue found.0
                (elim [
                  | none ↦ raise (container_not_found (text_of args.pod_id))
                  | some pod ↦ build os (os.abspath args.rootfs) args (some pod)
                ])
                found.1)
      in_pod (err x, v) e = e
      in_pod (ok none, v) e = e
      in_pod (ok (some pod), v) e =
          outcome-same args w v _ e (build-outcome (os.abspath args.rootfs) args (some pod) v)

      chosen :
          (with_pod : Bool)
          → CreateOutcome args w (
              (if with_pod
                  then (do
                    found ← load_pod_config os (text_of args.pod_id)
                    elim found [
                      | none ↦ raise (container_not_found (text_of args.pod_id))
                      | some pod ↦ build os (os.abspath args.rootfs) args (some pod)
                    ])
                  else build os (os.abspath args.rootfs) args none)
                w)
      chosen false = build-outcome (os.abspath args.rootfs) args none w
      chosen true =
          in_pod (load_pod_config os (text_of args.pod_id) w)
            (load_pod_config-containers os (text_of args.pod_id) w)

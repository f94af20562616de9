-- ===== src/Container/Stopping.antt =====
-- What `stop` of mini_docker/container.py leaves in the file of the container.
use mini_docker.Base.{
  ℕ, String, ◌≡◌, inl, inr, refl, sym, ap, ◌∙◌, Bool, true, false, not, ◌&&◌, Option, none, some,
  List, arith, leb, ◌==◌, if◌then◌else◌, str_eq, any, lookup, Bool-cases,
}
use mini_docker.Errors.{
  Result, ok, err, Exec, ◌>>=◌, ◌>>◌, continue, pure, raise, catch, container_internal_error,
}
use mini_docker.Metadata.Config.{ContainerConfig, ExitCode, code, stopped}
use mini_docker.Metadata.Store.{is_running, has_process, save_container_config, with_status}
use mini_docker.Metadata.Keeping.{Stored, update-Stored, load-current, load-too_long}
use mini_docker.Metadata.Refresh.{lookup-saved}
use mini_docker.World.{Os, World, written}
use mini_docker.Container.Cleanup.{
  CleanupError, clear_network, clear_network_runtime_metadata, concerns_network, has_errors,
  cleanup_runtime_resources, finalize_stopped_container,
}
use mini_docker.Container.Effects.{Quiet-cleanup}
use mini_docker.Container.Stop.{terminate, as_internal, stop}

-- The container's file is that of a stopped container without processes, with this exit code.
pub record Ended (id : String) (exit_code : Option ExitCode) (w : World) : Type 0 where
  pub config : ContainerConfig
  pub has_file : lookup id w.containers ≡ some (written config)
  pub is_stopped : config.status ≡ stopped
  pub no_pid : config.pid ≡ none
  pub no_supervisor : config.supervisor_pid ≡ none
  pub has_code : config.exit_code ≡ exit_code

not_running : (config : ContainerConfig) → config.status ≡ stopped → is_running config ≡ false
not_running config st = rw st refl

-- The last statement of `_finalize_stopped_container` leaves the state alone.
report-same :
    (m : Exec World Unit) (b : Bool) (w : World)
    → ((m >> (if b then raise container_internal_error else pure true)) w).1 ≡ (m w).1
unfolding ◌>>=◌
report-same m b w = let (r, w') = m w in same r w' b
  where
    same :
        (r : Result Unit) (w : World) (b : Bool)
        → (continue r (λ _. if b then raise container_internal_error else pure true) w).1 ≡ w
    same (ok _) w true = refl
    same (ok _) w false = refl
    same (err e) w b = refl

module _ (os : Os) (config : ContainerConfig) (exit_code : Option ExitCode) (w : World)
    (has_id : str_eq config.id "" ≡ false)
    (has_file : lookup config.id w.containers ≡ some (written config))
    (st : config.status ≡ stopped) (p : config.pid ≡ none) (sp : config.supervisor_pid ≡ none)
    (c : config.exit_code ≡ exit_code) where
  -- The network's values are cleared in a file that can be read, and the rest is kept.
  clear_network-fits :
      leb (os.json_size config) 65536 ≡ true
      → Ended config.id exit_code (clear_network os config.id w).1
  unfolding clear_network ◌>>=◌ save_container_config clear_network_runtime_metadata
  clear_network-fits f =
      rw
        (
          load-current os config w (record { has_id = has_id; has_file = has_file; fits = f })
              (ap (λ b. b && not (has_process os config w.calls)) (not_running config st)),
          clear_network,
        )
        (record {
          config = clear_network_runtime_metadata config;
          has_file = lookup-saved (clear_network_runtime_metadata config) w;
          is_stopped = st;
          no_pid = p;
          no_supervisor = sp;
          has_code = c;
        })

  -- A file that is too long stays as it is.
  clear_network-too_long :
      leb (os.json_size config) 65536 ≡ false
      → Ended config.id exit_code (clear_network os config.id w).1
  unfolding clear_network ◌>>=◌
  clear_network-too_long f =
      rw (load-too_long os config w has_id has_file f, clear_network)
        (record {
          config = config;
          has_file = has_file;
          is_stopped = st;
          no_pid = p;
          no_supervisor = sp;
          has_code = c;
        })

  clear_network-Ended : Ended config.id exit_code (clear_network os config.id w).1
  clear_network-Ended = elim (Bool-cases (leb (os.json_size config) 65536)) [
    | inl f ↦ clear_network-fits f
    | inr f ↦ clear_network-too_long f
  ]

  -- What follows the cleanup, however it ends.
  after_cleanup-Ended :
      (r : Result (List CleanupError))
      → Ended config.id exit_code
          (continue r
            (λ errors. do
              if any concerns_network errors then pure tt else clear_network os config.id
              if has_errors errors then raise container_internal_error else pure true)
            w).1
  unfolding pure
  after_cleanup-Ended (err e) = record {
    config = config;
    has_file = has_file;
    is_stopped = st;
    no_pid = p;
    no_supervisor = sp;
    has_code = c;
  }
  after_cleanup-Ended (ok errors) =
      rw
        (report-same (if any concerns_network errors then pure tt else clear_network os config.id)
          (has_errors errors) w)
        (elim (any concerns_network errors)
          as (λ b.
            Ended config.id exit_code ((if b then pure tt else clear_network os config.id) w).1) [
              | true ↦ record {
                config = config;
                has_file = has_file;
                is_stopped = st;
                no_pid = p;
                no_supervisor = sp;
                has_code = c;
              }
              | false ↦ clear_network-Ended
            ])

module _ (os : Os) (config current : ContainerConfig) (w : World)
    (stored : Stored os current w) where
  -- What `finalize_stopped_container` leaves, for an exit code that is given, with the record that
  -- is current; the cleanup goes by another one.
  finalize-Ended :
      (c : ExitCode)
      → Ended current.id (some c) (finalize_stopped_container os current.id config (some c) w).1
  unfolding finalize_stopped_container ◌>>=◌ with_status save_container_config
  finalize-Ended c =
      let done = with_status stopped none (some c) (os.now w.calls) current in
      let saved = save_container_config done w in
      rw (update-Stored os current w stored stopped none (some c), finalize_stopped_container)
        (after_cleanup-Ended os done (some c) (cleanup_runtime_resources os config saved).1
          stored.has_id
          (ap (lookup current.id) ((Quiet-cleanup os config).containers saved)
            ∙ lookup-saved done w)
          refl refl refl refl (cleanup_runtime_resources os config saved).0)

-- What `stop` does, by what ending the process returns or raises, and the world it leaves.
abbrev pub StopOutcome : String → Result ℕ × World → Result Bool × World → Type 0
StopOutcome id (ok c, waited) (result, after) = Ended id (some (code c)) after
StopOutcome id (err e, waited) (result, after) =
    (result ≡ err container_internal_error) × (after.containers ≡ waited.containers)

module _ (os : Os) (config : ContainerConfig) (w : World) where
  stop_tail-outcome :
      (m : Exec World ℕ) (current : ContainerConfig)
      → Stored os current (m w).1
      → current.id ≡ config.id
      → StopOutcome config.id (m w) (
          (do
            exit_code ← catch m as_internal
            finalize_stopped_container os config.id config (some (code exit_code)))
            w)
  unfolding ◌>>=◌
  stop_tail-outcome m current stored same = let (r, w') = m w in ended r w' stored
    where
      moved :
          (id found : String) (w' : World) (c : ExitCode)
          → found ≡ id
          → Ended found (some c) (finalize_stopped_container os found config (some c) w').1
          → Ended id (some c) (finalize_stopped_container os id config (some c) w').1
      moved id found w' c e ended = rw (sym e) ended

      ended :
          (r : Result ℕ) (w' : World)
          → Stored os current w'
          → StopOutcome config.id
              (r, w')
              ((do
                exit_code ← catch (λ _. (r, w')) as_internal
                finalize_stopped_container os config.id config (some (code exit_code)))
                w')
      ended (ok c) w' stored =
          moved config.id current.id w' (code c) same
            (finalize-Ended os config current w' stored (code c))
      ended (err x) w' stored = (refl, refl)

  -- A container's file is found and can be read, it is marked as running, one of its processes is
  -- alive, and its process identifier is not 0. Then `stop` ends that process first, and at
  -- each signal and pause of this wait, though not after it, the container's processes may write
  -- its file; the record that the wait leaves can be read and has the same identifier. If ending the process returns an exit code, the
  -- file is that of a stopped container with this exit code, without process identifiers, whatever
  -- fails in the cleanup; if it raises, `stop` raises `ContainerInternalError` and the files are
  -- those that the wait left.
  pub stop_lem :
      (current : ContainerConfig) (timeout pid : ℕ)
      → Stored os config w
      → is_running config ≡ true
      → has_process os config w.calls ≡ true
      → config.pid ≡ some pid
      → (pid == 0) ≡ false
      → Stored os current (terminate os timeout pid w).1
      → current.id ≡ config.id
      → StopOutcome config.id (terminate os timeout pid w) (stop os config.id timeout w)
  unfolding stop ◌>>=◌
  stop_lem current timeout pid stored run alive p z waited same =
      rw (load-current os config w stored (ground arith), run, p, z, stop)
        (stop_tail-outcome (terminate os timeout pid) current waited same)

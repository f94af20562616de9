-- ===== src/Metadata/Keeping.antt =====
-- What loading, refreshing and updating leave in the files.
use mini_docker.Base.{
  ap, ℕ, String, ◌≡◌, refl, ◌∙◌, Bool, true, false, not, ◌&&◌, Option, none, some, arith, leb,
  if◌then◌else◌, str_eq, lookup, Dict,
}
use mini_docker.Errors.{ok, ◌>>=◌, pure}
use mini_docker.Metadata.Config.{ContainerConfig, ExitCode, Status}
use mini_docker.Metadata.Files.{
  file_of, container_exists, read_container_data, hydrate, find_container_id,
}
use mini_docker.Metadata.Store.{
  is_running, has_process, refresh_container_state, load_by_id, load_container_config,
  save_container_config, update_container_status, with_status,
}
use mini_docker.World.{observe, Os, World, ConfigFile, written}

-- The file of a container that the look-up finds by its identifier, and that can be read.
pub record Stored (os : Os) (config : ContainerConfig) (w : World) : Type 0 where
  pub has_id : str_eq config.id "" ≡ false
  pub has_file : lookup config.id w.containers ≡ some (written config)
  pub fits : leb (os.json_size config) 65536 ≡ true

-- A file that is kept is the same for a later reader.
pub Stored-same :
    (os : Os) (config : ContainerConfig) (w v : World)
    → Stored os config w
    → v.containers ≡ w.containers
    → Stored os config v
Stored-same os config w v s e = record {
  has_id = s.has_id;
  has_file = ap (lookup config.id) e ∙ s.has_file;
  fits = s.fits;
}

container_exists-written :
    (files : Dict ConfigFile) (id : String) {c : ContainerConfig}
    → lookup id files ≡ some (written c)
    → container_exists files id ≡ true
unfolding container_exists
container_exists-written files id h = ground arith

read-written :
    (os : Os) (files : Dict ConfigFile) (id : String) (c : ContainerConfig)
    → lookup id files ≡ some (written c)
    → leb (os.json_size c) 65536 ≡ true
    → hydrate (read_container_data os (file_of files id)) ≡ some c
unfolding read_container_data
read-written os files id c h f = rw (h, file_of) (ground arith)

read-too_long :
    (os : Os) (files : Dict ConfigFile) (id : String) (c : ContainerConfig)
    → lookup id files ≡ some (written c)
    → leb (os.json_size c) 65536 ≡ false
    → hydrate (read_container_data os (file_of files id)) ≡ none
unfolding read_container_data
read-too_long os files id c h f = rw (h, file_of) (ground arith)

load_by_id-too_long :
    (os : Os) (id : String) (w : World)
    → hydrate (read_container_data os (file_of w.containers id)) ≡ none
    → load_by_id os id true w ≡ (ok none, w)
unfolding load_by_id ◌>>=◌
load_by_id-too_long os id w e = rw (e, load_by_id) refl

-- A file that is too long is found, and not loaded.
pub load-too_long :
    (os : Os) (config : ContainerConfig) (w : World)
    → str_eq config.id "" ≡ false
    → lookup config.id w.containers ≡ some (written config)
    → leb (os.json_size config) 65536 ≡ false
    → load_container_config os config.id w ≡ (ok none, w)
unfolding load_container_config find_container_id ◌>>=◌
load-too_long os config w i h f =
    rw (i, container_exists-written w.containers config.id h, load_container_config)
      (load_by_id-too_long os config.id w (read-too_long os w.containers config.id config h f))

module _ (os : Os) (config : ContainerConfig) (w : World) (stored : Stored os config w) where
  pub find-Stored : find_container_id os w.containers config.id ≡ ok (some config.id)
  unfolding find_container_id
  find-Stored = rw (stored.has_id, container_exists-written w.containers config.id stored.has_file)

  pub load_by_id-Stored :
      (refresh_state : Bool)
      → load_by_id os config.id refresh_state w ≡ (
          if refresh_state
          then (do config' ← refresh_container_state os config; pure (some config')) w
          else (ok (some config), w))
  unfolding load_by_id ◌>>=◌
  load_by_id-Stored refresh_state =
      rw (read-written os w.containers config.id config stored.has_file stored.fits, load_by_id)

  pub load-Stored :
      load_container_config os config.id w
      ≡ (do config' ← refresh_container_state os config; pure (some config')) w
  unfolding load_container_config ◌>>=◌
  load-Stored = rw (find-Stored, load_container_config) (load_by_id-Stored true)

  -- The record of a container that is not running, or has a process, is loaded as it is.
  pub load-current :
      is_running config && not (has_process os config w.calls) ≡ false
      → load_container_config os config.id w ≡ (ok (some config), w)
  load-current h = load-Stored ∙ (unfold refresh_container_state ◌>>=◌ in rw h)

  pub update-Stored :
      (status : Status) (pid : Option ℕ) (exit_code : Option ExitCode)
      → update_container_status os config.id status pid exit_code w ≡ (
        ok true,
        save_container_config (with_status status pid exit_code (os.now w.calls) config) w,
      )
  unfolding update_container_status ◌>>=◌ observe
  update-Stored status pid exit_code =
      rw (find-Stored, load_by_id-Stored false, update_container_status)

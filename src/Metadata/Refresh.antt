-- ===== src/Metadata/Refresh.antt =====
-- What loading the record of a container does where its processes are gone.
use mini_docker.Base.{
  String, Bool, ◌⊎◌, ◌≡◌, inl, inr, refl, ap, ◌∙◌, true, false, Option, none, some, [], ◌∷◌, ◌++◌,
  leb, ◌==◌, str_eq, lookup, eq_refl, Bool-cases, Option-cases, lookup-insert, lookup-erase,
}
use mini_docker.Errors.{ok, ◌>>=◌}
use mini_docker.Metadata.Config.{ContainerConfig, ExitCode, stopped}
use mini_docker.Metadata.Store.{
  is_running, has_process, mark_stopped, reap, refreshed_code, refresh_container_state,
  load_container_config, save_container_config, delete_container_config, remove_directory,
}
use mini_docker.Metadata.Keeping.{Stored, load-Stored, load-current, find-Stored}
use mini_docker.World.{Os, World, ConfigFile, written, absent, waitpid, rmtree, log, observe}

-- What is saved is found, and the other files stay.
pub lookup-saved :
    (config : ContainerConfig) (w : World)
    → lookup config.id (save_container_config config w).containers ≡ some (written config)
unfolding save_container_config
lookup-saved config w =
    lookup-insert config.id config.id (written config) w.containers ∙ (rw (eq_refl config.id) refl)

pub lookup-other :
    (config : ContainerConfig) (w : World) (other : String)
    → str_eq config.id other ≡ false
    → lookup other (save_container_config config w).containers ≡ lookup other w.containers
unfolding save_container_config
lookup-other config w other e =
    lookup-insert config.id other (written config) w.containers ∙ (rw e refl)

-- A record of a container that has stopped, which the file of the container holds after a load
-- that returns it, and what the load leaves.
pub record Reconciled (os : Os) (config : ContainerConfig) (w : World) : Type 0 where
  pub done : ContainerConfig
  pub after : World
  pub loaded : load_container_config os config.id w ≡ (ok (some done), after)
  pub same_id : done.id ≡ config.id
  pub is_stopped : done.status ≡ stopped
  pub no_pid : done.pid ≡ none
  pub has_file : lookup config.id after.containers ≡ some (written done)
  -- the other files stay
  pub others :
      (other : String)
      → str_eq config.id other ≡ false
      → lookup other after.containers ≡ lookup other w.containers
  -- a code that is there is kept
  pub keeps_code : (code : ExitCode) → config.exit_code ≡ some code → done.exit_code ≡ some code
  -- loading once more changes nothing, if the text is not too long
  pub again :
      leb (os.json_size done) 65536 ≡ true
      → load_container_config os config.id after ≡ (ok (some done), after)

-- Reaping calls the host at most, and keeps a code that is there.
pub record Reaped (os : Os) (config : ContainerConfig) (w : World) : Type 0 where
  pub exit_code : Option ExitCode
  pub after : World
  pub reaps : reap os config w ≡ (ok exit_code, after)
  pub same : after.containers ≡ w.containers
  pub keeps : (code : ExitCode) → config.exit_code ≡ some code → exit_code ≡ some code

module _ (os : Os) (config : ContainerConfig) (w : World) where
  -- Nothing is reaped.
  keep-Reaped : reap os config w ≡ (ok config.exit_code, w) → Reaped os config w
  keep-Reaped e = record {
    exit_code = config.exit_code;
    after = w;
    reaps = e;
    same = refl;
    keeps = λ c h. h;
  }

  pub reap_lem : Reaped os config w
  unfolding ◌>>=◌ log
  reap_lem = elim (Option-cases config.pid) [
    | inl e ↦ keep-Reaped (rw e refl)
    | inr (p, e) ↦ elim (Bool-cases (p == 0)) [
      | inl z ↦ keep-Reaped (rw (e, z) refl)
      | inr z ↦ elim (Option-cases config.exit_code) [
        | inl x ↦ record {
          exit_code = refreshed_code config.exit_code (os.waitpid w.calls p);
          after = record w { calls = w.calls ++ waitpid p ∷ [] };
          reaps = rw (e, z, x) refl;
          same = refl;
          keeps = λ c h. cc;
        }
        | inr (c, x) ↦ keep-Reaped (rw (e, z, x) refl)
      ]
    ]
  ]

module _ (os : Os) (config : ContainerConfig) (w : World) where
  -- A container's file is found and can be read, it is marked as running, and its processes are
  -- gone. Then loading it returns the record of a stopped container, which the file then holds.
  pub load-gone :
      Stored os config w
      → is_running config ≡ true
      → has_process os config w.calls ≡ false
      → Reconciled os config w
  unfolding refresh_container_state ◌>>=◌ mark_stopped
  load-gone stored run gone =
      let r = reap_lem os config w in
      let done = mark_stopped os config w.calls r.exit_code in
      record {
        done = done;
        after = save_container_config done r.after;
        loaded =
            load-Stored os config w stored
            ∙ (rw (run, gone, r.reaps, refresh_container_state) refl);
        same_id = refl;
        is_stopped = refl;
        no_pid = refl;
        has_file = lookup-saved done r.after;
        others = λ other e. lookup-other done r.after other e ∙ ap (lookup other) r.same;
        keeps_code = r.keeps;
        again = λ f.
            load-current os done (save_container_config done r.after)
              (record { has_id = stored.has_id; has_file = lookup-saved done r.after; fits = f })
              refl;
      }

-- What a removal of a container's directory leaves of its file: nothing if it succeeds; if it
-- fails the directory is there, with its record or without.
abbrev pub Leaves : ContainerConfig → Bool → Option ConfigFile → Type 0
Leaves config true file = file ≡ none
Leaves config false file = (file ≡ some (written config)) ⊎ (file ≡ some absent)

module _ (os : Os) (config : ContainerConfig) (w : World) where
  -- What a deletion returns, and what it leaves of this file and of the others.
  abbrev pub Deleted : Type 0
  Deleted =
      let (result, after) = delete_container_config os config.id w in
      let removed = os.rmtree w.calls config.id in
      (result ≡ ok removed)
      × Leaves config removed (lookup config.id after.containers)
      × ((other : String)
          → str_eq config.id other ≡ false
          → lookup other after.containers ≡ lookup other w.containers)

  -- A container's file is found and can be read. `delete_container_config` returns whether the
  -- directory could be removed; if it could, the file is gone, and otherwise the directory stays,
  -- with its record or without. The other files stay in both cases.
  pub delete_container_config_lem : Stored os config w → Deleted
  unfolding delete_container_config remove_directory ◌>>=◌ log observe
  delete_container_config_lem stored =
      rw (find-Stored os config w stored, delete_container_config)
        (elim (Bool-cases (os.rmtree w.calls config.id)) [
          | inl b ↦ rw b (
            refl,
            lookup-erase config.id config.id w.containers ∙ (rw (eq_refl config.id) refl),
            λ other e. lookup-erase config.id other w.containers ∙ (rw e refl),
          )
          | inr b ↦ elim (Bool-cases (os.spares (w.calls ++ rmtree config.id ∷ []) config.id)) [
            | inl k ↦ rw (b, k) (refl, inl stored.has_file, λ other e. refl)
            | inr k ↦
                rw (b, k)
                  (
                    refl,
                    inr (
                        lookup-insert config.id config.id absent w.containers
                        ∙ (rw (eq_refl config.id) refl)),
                    λ other e. lookup-insert config.id other absent w.containers ∙ (rw e refl),
                  )
          ]
        ])

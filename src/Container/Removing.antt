-- ===== src/Container/Removing.antt =====
-- What `remove` of mini_docker/container.py returns and leaves.
use mini_docker.Base.{
  String, ◌≡◌, refl, ap, ◌∙◌, Bool, true, false, not, ◌&&◌, if◌then◌else◌, str_eq, lookup,
}
use mini_docker.Errors.{Result, ok, err, ◌>>=◌, raise, container_invalid_state}
use mini_docker.Metadata.Config.{ContainerConfig}
use mini_docker.Metadata.Keeping.{Stored, Stored-same, load-current}
use mini_docker.Metadata.Refresh.{Leaves, delete_container_config_lem}
use mini_docker.Metadata.Store.{is_running, has_process}
use mini_docker.World.{Os, World}
use mini_docker.Container.Remove.{release_resources, dispose, remove}
use mini_docker.Container.Calm.{Calm-release_resources}

-- The record is gone if the directory could be removed; otherwise the directory stays, with its
-- record or without. The others stay.
pub record Removed (config : ContainerConfig) (before : World) (run : Result Bool × World)
    : Type 0 where
  pub removed : Bool
  pub result : run.0 ≡ ok removed
  pub file : Leaves config removed (lookup config.id run.1.containers)
  pub others :
      (other : String)
      → str_eq config.id other ≡ false
      → lookup other run.1.containers ≡ lookup other before.containers

-- What `remove` does without force.
abbrev pub RemoveOutcome : ContainerConfig → World → Result Bool × World → Type 0
RemoveOutcome config before run =
    if is_running config
    then run ≡ (err (container_invalid_state config.id), before)
    else Removed config before run

module _ (os : Os) (config : ContainerConfig) (w : World) (stored : Stored os config w) where
  dispose-Removed : Removed config w (dispose os config.id config w)
  unfolding dispose ◌>>=◌
  dispose-Removed =
      let calm = Calm-release_resources os config in
      let (errors, e) = calm.returns w in
      let w' = (release_resources os config w).1 in
      let same = calm.same w in
      let deleted =
        delete_container_config_lem os config w' (Stored-same os config w w' stored same) in
      rw e (record {
        removed = os.rmtree w'.calls config.id;
        result = deleted.0;
        file = deleted.1;
        others = λ other h. deleted.2 other h ∙ ap (lookup other) same;
      })

  -- A container's file is found and can be read, and if it is marked as running, one of its
  -- processes is alive. Without force, `remove` of a container that is marked as running raises
  -- `ContainerInvalidStateError` and changes nothing. For any other it returns whether the
  -- directory could be removed, whatever fails in the cleanup; if it could, the file is gone, and
  -- otherwise the directory stays, with its record or without. The files of the other containers
  -- stay.
  pub remove_lem :
      (is_running config && not (has_process os config w.calls)) ≡ false
      → RemoveOutcome config w (remove os config.id false w)
  unfolding remove ◌>>=◌
  remove_lem current =
      rw (load-current os config w stored current, remove)
        (elim (is_running config)
          as (λ b.
            (if b
              then ((if b
                      then raise (container_invalid_state config.id)
                      else dispose os config.id config)
                    w
                  ≡ (err (container_invalid_state config.id), w))
              else Removed config w (
                  (if b
                      then raise (container_invalid_state config.id)
                      else dispose os config.id config)
                    w))) [ true ↦ refl | false ↦ dispose-Removed ])

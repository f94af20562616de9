-- ===== src/Pod/Apart.antt =====
-- The operations on pods leave the files of the containers alone.
use mini_docker.Base.{◌≡◌, refl, String, Bool, true, arith, Option-cases, inl, inr}
use mini_docker.Errors.{◌>>=◌}
use mini_docker.World.{Os, World}
use mini_docker.Pod.{
  load_pod_config, load_pod_by_id, refresh_pod_state, save_pod_config, find_pod_id,
  add_container_to_pod, remove_container_from_pod,
}

module _ (os : Os) where
  load_pod_by_id-containers :
      (id : String) (refresh_state : Bool) (w : World)
      → (load_pod_by_id os id refresh_state w).1.containers ≡ w.containers
  unfolding load_pod_by_id ◌>>=◌ refresh_pod_state save_pod_config
  load_pod_by_id-containers id refresh_state w = ground arith

  pub load_pod_config-containers :
      (id : String) (w : World) → (load_pod_config os id w).1.containers ≡ w.containers
  unfolding load_pod_config
  load_pod_config-containers id w = elim (Option-cases (find_pod_id w.pods id)) [
    | inl e ↦ rw (e, load_pod_config) refl
    | inr (j, e) ↦ rw (e, load_pod_config) (load_pod_by_id-containers j true w)
  ]

  pub add_container_to_pod-containers :
      (pod_id container_id : String) (w : World)
      → (add_container_to_pod os pod_id container_id w).1.containers ≡ w.containers
  unfolding add_container_to_pod load_pod_by_id ◌>>=◌ save_pod_config
  add_container_to_pod-containers pod_id container_id w = ground arith

  pub remove_container_from_pod-containers :
      (pod_id container_id : String) (w : World)
      → (remove_container_from_pod os pod_id container_id w).1.containers ≡ w.containers
  unfolding remove_container_from_pod load_pod_by_id ◌>>=◌ save_pod_config
  remove_container_from_pod-containers pod_id container_id w = ground arith

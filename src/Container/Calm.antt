-- ===== src/Container/Calm.antt =====
-- The cleanup of `remove` in mini_docker/container.py returns, and leaves the containers' files.
use mini_docker.Base.{ℕ, String, ◌≡◌, refl, ◌∙◌, Bool, true, false, List, [], ◌∷◌, if◌then◌else◌}
use mini_docker.Errors.{Result, ok, err, Exec, ◌>>=◌, ◌>>◌, pure, continue, catch}
use mini_docker.Quiet.{Quiet, Quiet-if, Quiet-pure, Quiet-bind, Quiet-log, Quiet-observe}
use mini_docker.Metadata.Config.{ContainerConfig}
use mini_docker.World.{Os, World, Call, log, observe}
use mini_docker.Filesystem.{cleanup_overlay, unmount_all}
use mini_docker.Cgroups.{kill_all, delete_cgroup}
use mini_docker.Pod.{remove_container_from_pod}
use mini_docker.Pod.Apart.{remove_container_from_pod-containers}
use mini_docker.Container.Cleanup.{CleanupError, collect, cleanup_runtime_resources, cleanup_cgroup}
use mini_docker.Container.Effects.{Quiet-remove_ports, Quiet-network_cleanup}
use mini_docker.Container.Remove.{release_resources}

-- It returns, and the containers' files are those from before.
pub record Calm {A : Type 0} (m : Exec World A) : Type 0 where
  pub returns : (w : World) → (a : A) × ((m w).0 ≡ ok a)
  pub same : (w : World) → (m w).1.containers ≡ w.containers

module _ {A : Type 0} where
  Calm-pure : (a : A) → Calm (pure a)
  unfolding pure
  Calm-pure a = record { returns = λ w. (a, refl); same = λ w. refl }

  Calm-log : (answer : List Call → A) (call : Call) → Calm (log answer call)
  unfolding log
  Calm-log answer call = record { returns = λ w. (answer w.calls, refl); same = λ w. refl }

  Calm-observe : (answer : List Call → A) → Calm (observe answer)
  unfolding observe
  Calm-observe answer = record { returns = λ w. (answer w.calls, refl); same = λ w. refl }

  Calm-if : (b : Bool) (m n : Exec World A) → Calm m → Calm n → Calm (if b then m else n)
  Calm-if true m n km kn = km
  Calm-if false m n km kn = kn

module _ {A B : Type 0} where
  Calm-bind :
      (m : Exec World A) (f : A → Exec World B) → Calm m → ((a : A) → Calm (f a)) → Calm (m >>= f)
  unfolding ◌>>=◌
  Calm-bind m f km kf = record {
    returns =
        λ w. let (a, e) = km.returns w in let (b, e') = (kf a).returns (m w).1 in (b, rw e e');
    same = λ w. let (a, e) = km.returns w in rw e ((kf a).same (m w).1 ∙ km.same w);
  }

-- What is collected is never raised.
Calm-collect :
    (kind : CleanupError) (m : Exec World Unit)
    → ((w : World) → (m w).1.containers ≡ w.containers)
    → Calm (collect kind m)
unfolding catch ◌>>=◌
Calm-collect kind m km = record {
  returns = λ w. let (r, w') = m w in value r w';
  same = λ w. let (r, w') = m w in kept r w' ∙ km w;
}
  where
    value :
        (r : Result Unit) (w : World)
        → (errors : List CleanupError) × ((collect kind (λ _. (r, w)) w).0 ≡ ok errors)
    value (ok _) w = ([], refl)
    value (err e) w = (kind ∷ [], refl)

    kept :
        (r : Result Unit) (w : World) → (collect kind (λ _. (r, w)) w).1.containers ≡ w.containers
    kept (ok _) w = refl
    kept (err e) w = refl

module _ (os : Os) where
  Calm-kill_all : (pids : List ℕ) → Calm (kill_all os pids)
  unfolding kill_all
  Calm-kill_all [] = Calm-pure _
  Calm-kill_all (pid ∷ pids) = Calm-bind _ _ (Calm-log _ _) (λ _. Calm-kill_all pids)

  Calm-cleanup_cgroup : (path : String) → Calm (cleanup_cgroup os path)
  unfolding cleanup_cgroup delete_cgroup
  Calm-cleanup_cgroup path =
      search (Calm-bind, Calm-log, Calm-observe, Calm-pure, Calm-kill_all) depth 9

  Calm-cleanup : (config : ContainerConfig) → Calm (cleanup_runtime_resources os config)
  unfolding cleanup_runtime_resources
  Calm-cleanup config =
      Calm-bind _ _
        (Calm-if _ _ _ (Calm-collect _ _ (Quiet-remove_ports os _ _).containers) (Calm-pure _))
        (λ ports.
          Calm-bind _ _
            (Calm-if _ _ _ (Calm-collect _ _ (Quiet-network_cleanup os _ _).containers)
              (Calm-pure _))
            (λ links.
              Calm-bind _ _ (Calm-if _ _ _ (Calm-pure _) (Calm-cleanup_cgroup _))
                (λ groups. Calm-pure _)))

  Quiet-unmount_all : (paths : List String) → Quiet (unmount_all os paths)
  unfolding unmount_all
  Quiet-unmount_all [] = Quiet-pure _
  Quiet-unmount_all (path ∷ paths) = Quiet-bind _ _ (Quiet-observe _) (λ there.
      Quiet-bind _ _ (Quiet-if _ _ _ (Quiet-log _ _) (Quiet-pure _)) (λ _. Quiet-unmount_all paths))

  Quiet-cleanup_overlay : (id : String) → Quiet (cleanup_overlay os id)
  unfolding cleanup_overlay
  Quiet-cleanup_overlay id = search (Quiet-bind, Quiet-log, Quiet-unmount_all)

  leave_pod-containers :
      (pod_id id : String) (w : World)
      → ((do remove_container_from_pod os pod_id id; pure tt) w).1.containers ≡ w.containers
  unfolding ◌>>=◌
  leave_pod-containers pod_id id w =
      let (r, w') = remove_container_from_pod os pod_id id w in
      left r w' ∙ remove_container_from_pod-containers os pod_id id w
    where
      left :
          (r : Result Bool) (w' : World)
          → (continue r (λ _. pure tt) w').1.containers ≡ w'.containers
      left (ok b) w' = refl
      left (err e) w' = refl

  pub Calm-release_resources : (config : ContainerConfig) → Calm (release_resources os config)
  unfolding release_resources
  Calm-release_resources config =
      Calm-bind _ _
        (Calm-if _ _ _ (Calm-collect _ _ (Quiet-cleanup_overlay _).containers) (Calm-pure _))
        (λ _.
          Calm-bind _ _ (Calm-cleanup config)
            (λ _. Calm-if _ _ _ (Calm-collect _ _ (leave_pod-containers _ _)) (Calm-pure _)))

-- ===== src/Host/DryRun.antt =====
-- A dry run of `cleanup_runtime_resources` of mini_docker/host.py.
use mini_docker.Base.{◌≡◌, refl, ap, ◌∙◌, true, List, [], ◌∷◌, ◌++◌, append-nil, All}
use mini_docker.Errors.{Result, ok}
use mini_docker.Host.Cleaning.{Host, Operation, cleanup_runtime_resources}
use mini_docker.Host.Allowed.{Justified}
use mini_docker.Host.Guards.{cleanup_lem, containers_of}
use mini_docker.Metadata.Config.{ContainerConfig}
use mini_docker.World.{Os, World, Call}

module _ (os : Os) (host : Host) where
  no_call :
      (safe : List ContainerConfig) (calls : List Call)
      → All (Justified os host safe true) calls
      → calls ≡ []
  no_call safe [] a = refl
  no_call safe (call ∷ calls) ((live, allowed), a) = absurd cc

  World-eq :
      (v w : World) → w.containers ≡ v.containers → w.pods ≡ v.pods → w.calls ≡ v.calls → w ≡ v
  World-eq v w c p l = cc

  -- A dry run of the cleanup returns a report, and changes nothing: no file, and not a single
  -- call of the host is made.
  pub dry_run_lem :
      (w : World)
      → (operations : List Operation) × (cleanup_runtime_resources os host true w
          ≡ (ok operations, w))
  dry_run_lem w =
      let ((operations, e), effects) = cleanup_lem os host true w in
      let after = (cleanup_runtime_resources os host true w).1 in
      let none = no_call (containers_of w) effects.new_calls effects.allowed in
      (
        operations,
        pair _ _ e (
            World-eq w after effects.containers effects.pods
              (effects.grows ∙ ap (λ t. w.calls ++ t) none ∙ append-nil w.calls)),
      )
    where
      pair :
          (p : Result (List Operation) × World) (w : World) {r : Result (List Operation)}
          → p.0 ≡ r
          → p.1 ≡ w
          → p ≡ (r, w)
      pair p w e f = cc

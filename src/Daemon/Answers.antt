-- ===== src/Daemon/Answers.antt =====
-- The answers of mini_docker/daemon.py.
use mini_docker.Base.{
  ℕ, String, ◌≡◌, refl, ap, Bool, true, false, ◌&&◌, none, some, List, [], ◌∷◌, ◌==◌, any,
  if◌then◌else◌, str_eq,
}
use mini_docker.Container.Create.{CreateArgs, create}
use mini_docker.Container.Remove.{restart, remove}
use mini_docker.Container.Removing.{remove_lem}
use mini_docker.Container.Start.{start}
use mini_docker.Container.Stop.{stop}
use mini_docker.Daemon.{
  Response, status, error_status, container_of, is_pair, last_is, answered, do_create,
  post_container, delete_container, do_post, do_delete,
}
use mini_docker.Errors.{
  Error, Result, ok, err, Exec, ◌>>=◌, pure, catch, container_error, container_not_found,
  container_invalid_state, container_invalid_request, container_internal_error,
  container_lookup_ambiguity, network_error, pod_error, filesystem_error, namespace_error,
  cgroup_error, capability_error, image_error, build_error, runtime_error, os_error,
  attribute_error,
}
use mini_docker.Metadata.Config.{ContainerConfig}
use mini_docker.Metadata.Keeping.{Stored}
use mini_docker.Metadata.Store.{is_running, has_process}
use mini_docker.World.{Os, World}

-- The statuses of the answers to requests that change something.
abbrev pub is_status : ℕ → Bool
is_status n = any (λ m. m == n) (201 ∷ 204 ∷ 400 ∷ 404 ∷ 409 ∷ 500 ∷ [])

error_status-known : (e : Error) → is_status (error_status e) ≡ true
unfolding error_status
error_status-known container_error = refl
error_status-known (container_not_found id) = refl
error_status-known (container_invalid_state id) = refl
error_status-known container_invalid_request = refl
error_status-known container_internal_error = refl
error_status-known (container_lookup_ambiguity id ids) = refl
error_status-known network_error = refl
error_status-known pod_error = refl
error_status-known filesystem_error = refl
error_status-known namespace_error = refl
error_status-known cgroup_error = refl
error_status-known capability_error = refl
error_status-known image_error = refl
error_status-known build_error = refl
error_status-known runtime_error = refl
error_status-known os_error = refl
error_status-known attribute_error = refl

-- It returns, and a status is sent.
pub record Answers (m : Exec World Response) : Type 0 where
  pub run : (w : World) → (n : ℕ) × ((m w).0 ≡ ok (status n)) × (is_status n ≡ true)

-- What a status says of the result of an operation.
abbrev pub Meaning : {A : Type 0} → ℕ → (A → Bool) → Result A → ℕ → Type 0
Meaning code good (ok a) n = n ≡ (if good a then code else 500)
Meaning code good (err (container_not_found id)) n = n ≡ 404
Meaning code good (err container_invalid_request) n = n ≡ 400
Meaning code good (err (container_invalid_state id)) n = n ≡ 409
Meaning code good (err _) n = n ≡ 500

-- A request makes the operation, and the status that is sent tells its result.
abbrev pub Tells : {A : Type 0} → ℕ → (A → Bool) → Exec World A → Exec World Response → Type 0
Tells code good m handler =
    (w : World) → (n : ℕ) × (handler w ≡ (ok (status n), (m w).1)) × Meaning code good (m w).0 n

error_status-Meaning :
    {A : Type 0} (code : ℕ) (good : A → Bool) (e : Error)
    → Meaning code good (err e) (error_status e)
unfolding error_status
error_status-Meaning code good container_error = refl
error_status-Meaning code good (container_not_found id) = refl
error_status-Meaning code good (container_invalid_state id) = refl
error_status-Meaning code good container_invalid_request = refl
error_status-Meaning code good container_internal_error = refl
error_status-Meaning code good (container_lookup_ambiguity id ids) = refl
error_status-Meaning code good network_error = refl
error_status-Meaning code good pod_error = refl
error_status-Meaning code good filesystem_error = refl
error_status-Meaning code good namespace_error = refl
error_status-Meaning code good cgroup_error = refl
error_status-Meaning code good capability_error = refl
error_status-Meaning code good image_error = refl
error_status-Meaning code good build_error = refl
error_status-Meaning code good runtime_error = refl
error_status-Meaning code good os_error = refl
error_status-Meaning code good attribute_error = refl

answered-Tells :
    {A : Type 0} (code : ℕ) (good : A → Bool) (m : Exec World A) (f : A → Response)
    → ((a : A) → f a ≡ status (if good a then code else 500))
    → Tells code good m (answered m f)
unfolding catch ◌>>=◌ pure
answered-Tells {A = A} code good m f known w = let (r, w') = m w in told r w'
  where
    told :
        (r : Result A) (w : World)
        → (n : ℕ) × (answered (λ _. (r, w)) f w ≡ (ok (status n), w)) × Meaning code good r n
    told (ok a) w =
        ((if good a then code else 500), ap (λ response. (ok response, w)) (known a), refl)
    told (err e) w = (error_status e, refl, error_status-Meaning code good e)

answered-Answers :
    {A : Type 0} (m : Exec World A) (f : A → Response)
    → ((a : A) → (n : ℕ) × (f a ≡ status n) × (is_status n ≡ true))
    → Answers (answered m f)
unfolding catch ◌>>=◌
answered-Answers {A = A} m f known = record { run = λ w. let (r, w') = m w in sent r w' }
  where
    sent :
        (r : Result A) (w : World)
        → (n : ℕ) × ((answered (λ _. (r, w)) f w).0 ≡ ok (status n)) × (is_status n ≡ true)
    sent (ok a) w = let (n, e, k) = known a in (n, ap ok e, k)
    sent (err x) w = (error_status x, refl, error_status-known x)

Answers-pure : (n : ℕ) → is_status n ≡ true → Answers (pure (status n))
unfolding pure
Answers-pure n k = record { run = λ w. (n, refl, k) }

Answers-if :
    (b : Bool) (m n : Exec World Response) → Answers m → Answers n → Answers (if b then m else n)
Answers-if true m n am an = am
Answers-if false m n am an = an

taken : {X : Type 0} (Y : Type 0) (b : Bool) → b ≡ true → (if b then X else Y) → X
taken Y true e x = x
taken Y false e y = absurd cc

module _ (os : Os) where
  created-Answers : (args : CreateArgs) → Answers (do_create os args)
  unfolding do_create
  created-Answers args = answered-Answers _ _ (λ config. (201, refl, refl))

  post_container-Answers :
      (args : CreateArgs) (path : List String) (id : String)
      → Answers (post_container os args path id)
  unfolding post_container
  post_container-Answers args path id =
      Answers-if (str_eq id "create" && is_pair path) _ _ (created-Answers args) (
        Answers-if (last_is "start" path) _ _
          (answered-Answers (start os id) _ (λ pid. (204, refl, refl)))
          (Answers-if (last_is "restart" path) _ _
            (answered-Answers (restart os id 10) _ (λ pid. (204, refl, refl)))
            (Answers-if (last_is "stop" path) _ _
              (answered-Answers (stop os id 10) _ (λ code. (204, refl, refl)))
              (Answers-pure 404 refl))))

  delete_container-Answers : (force : Bool) (id : String) → Answers (delete_container os force id)
  unfolding delete_container
  delete_container-Answers force id = answered-Answers _ _ success
    where
      success :
          (b : Bool)
          → (n : ℕ) × ((if b then status 204 else status 500) ≡ status n) × (is_status n ≡ true)
      success true = (204, refl, refl)
      success false = (500, refl, refl)

  post-Answers : (args : CreateArgs) (path : List String) → Answers (do_post os args path)
  unfolding do_post
  post-Answers args path =
      elim (container_of path)
        as (λ o.
          Answers
            (elim o [ some id ↦ post_container os args path id | none ↦ pure (status 404) ])) [
              | some id ↦ post_container-Answers args path id
              | none ↦ Answers-pure 404 refl
            ]

  delete-Answers : (force : Bool) (path : List String) → Answers (do_delete os force path)
  unfolding do_delete
  delete-Answers force path =
      elim (container_of path)
        as (λ o.
          Answers (elim o [ some id ↦ delete_container os force id | none ↦ pure (status 404) ])) [
            | some id ↦ delete_container-Answers force id
            | none ↦ Answers-pure 404 refl
          ]

  -- Every DELETE request, and every POST request whose body gives arguments, whatever its path and
  -- whatever the operation returns or raises, is answered with one of the statuses 201, 204, 400,
  -- 404, 409 and 500. For the paths of create, start, restart, stop and of the removal, the
  -- operation of that name is what changes the state, and its result decides the status: 201 or 204
  -- for a success, 404 for a container that is not found, 409 for a state that does not allow it,
  -- 400 for an invalid request, and 500 for any other error and a removal that did not succeed.
  pub requests-Answers :
      (args : CreateArgs) (force : Bool) (path : List String) (id : String)
      → Answers (do_post os args path)
        × Answers (do_delete os force path)
        × Tells 201
            (λ config. true)
            (create os args)
            (do_post os args ("containers" ∷ "create" ∷ []))
        × Tells 204 (λ pid. true) (start os id) (do_post os args ("containers" ∷ id ∷ "start" ∷ []))
        × Tells 204
            (λ pid. true)
            (restart os id 10)
            (do_post os args ("containers" ∷ id ∷ "restart" ∷ []))
        × Tells 204
            (λ code. true)
            (stop os id 10)
            (do_post os args ("containers" ∷ id ∷ "stop" ∷ []))
        × Tells 204
            (λ success. success)
            (remove os id force)
            (do_delete os force ("containers" ∷ id ∷ []))
  unfolding do_post do_delete post_container do_create delete_container
  requests-Answers args force path id = (
    post-Answers args path,
    delete-Answers force path,
    answered-Tells 201 (λ config. true) (create os args) _ (λ config. refl),
    routed (λ pid. true) (start os id) id _ _
        (answered-Tells 204 (λ pid. true) (start os id) _ (λ pid. refl)),
    routed (λ pid. true) (restart os id 10) id _ _
        (answered-Tells 204 (λ pid. true) (restart os id 10) _ (λ pid. refl)),
    routed (λ code. true) (stop os id 10) id _ _
        (answered-Tells 204 (λ code. true) (stop os id 10) _ (λ code. refl)),
    answered-Tells 204 (λ success. success) (remove os id force) _
        (elim [ true ↦ refl | false ↦ refl ]),
  )
    where
      routed :
          {A : Type 0} (good : A → Bool) (op : Exec World A) (id : String)
          (m n : Exec World Response)
          → Tells 204 good op n
          → Tells 204 good op (if str_eq id "create" && false then m else n)
      routed good op id m n t =
          elim (str_eq id "create") as (λ b. Tells 204 good op (if b && false then m else n)) [
            | true ↦ t
            | false ↦ t
          ]

  -- For a readable record that is marked as running with a live process: a DELETE request without
  -- force is answered with 409, and changes nothing.
  pub delete-running :
      (config : ContainerConfig) (w : World)
      → Stored os config w
      → is_running config ≡ true
      → has_process os config w.calls ≡ true
      → do_delete os false ("containers" ∷ config.id ∷ []) w ≡ (ok (status 409), w)
  unfolding do_delete delete_container catch ◌>>=◌ error_status
  delete-running config w stored run live =
      let e : remove os config.id false w ≡ (err (container_invalid_state config.id), w) =
        taken _ (is_running config) run (remove_lem os config w stored (rw (run, live) refl)) in
      ap (λ p. answered (λ _. p) (λ success. if success then status 204 else status 500) w) e

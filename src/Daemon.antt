-- ===== src/Daemon.antt =====
-- mini_docker/daemon.py: the requests of the API and their answers. A path is given by its
-- components, the texts between its slashes; the bodies of the answers are left out.
pub mod Answers
use mini_docker.Base.{
  ℕ, String, Bool, true, false, ◌&&◌, Option, none, some, List, [], ◌∷◌, if◌then◌else◌, str_eq,
}
use mini_docker.Container.Create.{CreateArgs, create}
use mini_docker.Container.Remove.{restart, remove}
use mini_docker.Container.Start.{start}
use mini_docker.Container.Stop.{stop}
use mini_docker.Errors.{
  Error, Result, ok, err, container_error, container_not_found, container_invalid_state,
  container_invalid_request, container_internal_error, container_lookup_ambiguity, Exec, ◌>>=◌,
  ◌>>◌, pure, catch,
}
use mini_docker.Metadata.Store.{load_container_config, list_containers}
use mini_docker.World.{Os, World}

-- A status is sent, or the handler returns without an answer, or ends by an exception.
pub data Response : Type 0 where
  status : ℕ → Response
  no_answer : Response
  dropped : Response

-- `map_container_error`, and 500 for what is no `ContainerError`.
unfoldable pub error_status : Error → ℕ
error_status (container_not_found id) = 404
error_status container_invalid_request = 400
error_status (container_invalid_state id) = 409
error_status _ = 500

abbrev pub last_is : String → List String → Bool
last_is name [] = false
last_is name (part ∷ []) = str_eq part name
last_is name (part ∷ next ∷ rest) = last_is name (next ∷ rest)

-- `path.startswith("/containers/")`, with `path.split("/")[2]`.
abbrev pub container_of : List String → Option String
container_of (root ∷ id ∷ rest) = if str_eq root "containers" then some id else none
container_of _ = none

-- The path is "/containers/<id>".
abbrev pub is_pair : List String → Bool
is_pair (root ∷ id ∷ []) = true
is_pair _ = false

abbrev pub is_info : List String → Bool
is_info (part ∷ []) = str_eq part "info"
is_info _ = false

-- An operation whose errors are answered.
abbrev pub answered : {A : Type 0} → Exec World A → (A → Response) → Exec World Response
answered m f = catch (do a ← m; pure (f a)) (λ e. pure (status (error_status e)))

-- `except ContainerLookupAmbiguityError` only.
unfoldable pub inspect_error : Error → Response
inspect_error (container_lookup_ambiguity id ids) = status 400
inspect_error _ = dropped

module _ (os : Os) where
  unfoldable pub do_inspect : String → Exec World Response
  unfolding inspect_error
  do_inspect id =
      catch
        (do
          loaded ← load_container_config os id
          pure (elim loaded [ none ↦ status 404 | some config ↦ status 200 ]))
        (λ e. pure (inspect_error e))

  -- The log of a container is an answer like its record; other errors are answered too.
  unfoldable pub do_logs : String → Exec World Response
  do_logs id =
      catch
        (do
          loaded ← load_container_config os id
          pure (elim loaded [ none ↦ status 404 | some config ↦ status 200 ]))
        (λ e. pure (elim e [ container_lookup_ambiguity id ids ↦ status 400 | _ ↦ status 500 ]))

  unfoldable pub do_get : List String → Exec World Response
  unfolding do_inspect do_logs
  do_get path = elim (container_of path) [
    | some id ↦
        if str_eq id "json" && is_pair path
        then (do list_containers os true; pure (status 200))
        else if last_is "json" path
        then do_inspect id
        else if last_is "logs" path
        then do_logs id
        else pure no_answer
    | none ↦ if is_info path then pure (status 200) else pure no_answer
  ]

  -- The arguments of `create` are those that the body gives.
  unfoldable pub do_create : CreateArgs → Exec World Response
  unfolding error_status
  do_create args = answered (create os args) (λ config. status 201)

  -- A request on the container of the path.
  unfoldable pub post_container : CreateArgs → List String → String → Exec World Response
  unfolding do_create error_status
  post_container args path id =
      if str_eq id "create" && is_pair path
      then do_create args
      else if last_is "start" path
      then answered (start os id) (λ pid. status 204)
      else if last_is "restart" path
      then answered (restart os id 10) (λ pid. status 204)
      else if last_is "stop" path
      then answered (stop os id 10) (λ code. status 204)
      else pure (status 404)

  unfoldable pub do_post : CreateArgs → List String → Exec World Response
  unfolding post_container
  do_post args path = elim (container_of path) [
    | some id ↦ post_container args path id
    | none ↦ pure (status 404)
  ]

  unfoldable pub delete_container : Bool → String → Exec World Response
  unfolding error_status
  delete_container force id =
      answered (remove os id force) (λ success. if success then status 204 else status 500)

  unfoldable pub do_delete : Bool → List String → Exec World Response
  unfolding delete_container
  do_delete force path = elim (container_of path) [
    | some id ↦ delete_container force id
    | none ↦ pure (status 404)
  ]

-- ===== src/Pod.antt =====
-- mini_docker/pod.py. A pod's file is taken to be readable; identifiers hold no path separator.
pub mod Apart
pub mod Sharing
pub mod Members
use mini_docker.Base.{
  ℕ, String, ◌<>◌, Bool, true, false, not, ◌&&◌, Option, none, some, List, [], ◌∷◌, ◌++◌, ◌==◌,
  if◌then◌else◌, str_eq, starts_with, contains, lookup, insert, erase, Dict, filter,
}
use mini_docker.Errors.{
  Result, ok, err, Error, pod_error, Exec, ◌>>=◌, ◌>>◌, pure, raise, gets, modify,
}
use mini_docker.Metadata.Config.{or_default}
use mini_docker.World.{
  Os, World, Call, kill, sleep, fork, rmtree, sigterm, sigkill, Killed, delivered, PodConfig,
  pod_created, pod_running, pod_stopped, log, observe,
}
use mini_docker.Metadata.Files.{insert_id}
use mini_docker.Utils.{is_process_alive}
use mini_docker.Utils.Text.{decimal}

-- The list without "net".
unfoldable pub without_net : List String → List String
without_net [] = []
without_net (ns ∷ rest) = let kept = without_net rest in if str_eq ns "net" then kept else ns ∷ kept

-- The field `network` and the shared namespaces are made to agree.
unfoldable pub agree : Option Bool → List String → Bool × List String
unfolding without_net
agree none namespaces = (contains namespaces "net", namespaces)
agree (some true) namespaces =
    (true, (if contains namespaces "net" then namespaces else "net" ∷ namespaces))
agree (some false) namespaces = (false, without_net namespaces)

-- `PodConfig.__post_init__`
unfoldable pub pod_post_init : String → String → PodConfig → PodConfig
unfolding agree
pod_post_init fresh_id fresh_name config =
    let name = or_default config.name fresh_name in
    let (network, namespaces) = agree config.network config.shared_namespaces in
    record config {
      id = or_default config.id fresh_id;
      name = name;
      hostname = or_default config.hostname name;
      network = some network;
      shared_namespaces = namespaces;
    }

unfoldable pub list_pod_ids : Dict PodConfig → List String
list_pod_ids [] = []
list_pod_ids ((id, config) ∷ pods) = insert_id id (list_pod_ids pods)

unfoldable pub first_with_prefix : String → List String → Option String
first_with_prefix prefix [] = none
first_with_prefix prefix (id ∷ ids) =
    let rest = first_with_prefix prefix ids in if starts_with id prefix then some id else rest

unfoldable pub first_with_name : Dict PodConfig → String → List String → Option String
first_with_name pods name [] = none
first_with_name pods name (id ∷ ids) =
    let rest = first_with_name pods name ids in
    elim (lookup id pods) [
      | none ↦ rest
      | some config ↦ if str_eq config.name name then some id else rest
    ]

unfoldable pub find_pod_id : Dict PodConfig → String → Option String
unfolding list_pod_ids first_with_prefix first_with_name
find_pod_id pods prefix = if str_eq prefix "" then none else (elim (lookup prefix pods) [
  | some config ↦ some prefix
  | none ↦ elim (first_with_prefix prefix (list_pod_ids pods)) [
    | some id ↦ some id
    | none ↦ first_with_name pods prefix (list_pod_ids pods)
  ]
])

unfoldable pub save_pod_config : PodConfig → World → World
save_pod_config config w = record w { pods = insert config.id config w.pods }

-- Loading goes through the constructor, and so through `__post_init__`.
unfoldable pub reload_pod : PodConfig → PodConfig
unfolding pod_post_init
reload_pod config = pod_post_init "" "" config

-- `list.remove`: the first one.
abbrev pub remove_first : String → List String → List String
remove_first x [] = []
remove_first x (y ∷ ys) = if str_eq y x then ys else y ∷ remove_first x ys

module _ (os : Os) where
  unfoldable pub refresh_pod_state : PodConfig → Exec World PodConfig
  unfolding save_pod_config
  refresh_pod_state config w = elim config.infra_pid [
    | none ↦ (ok config, w)
    | some pid ↦
        if not (pid == 0) && not (is_process_alive os w.calls (some pid))
        then (let config' = record config { infra_pid = none; status = pod_stopped } in
            (ok config', save_pod_config config' w))
        else (ok config, w)
  ]

  unfoldable pub load_pod_by_id : String → Bool → Exec World (Option PodConfig)
  unfolding refresh_pod_state reload_pod
  load_pod_by_id id refresh_state w = elim (lookup id w.pods) [
    | none ↦ (ok none, w)
    | some config ↦
        if refresh_state
        then (do config' ← refresh_pod_state (reload_pod config); pure (some config')) w
        else (ok (some (reload_pod config)), w)
  ]

  unfoldable pub load_pod_config : String → Exec World (Option PodConfig)
  unfolding load_pod_by_id
  load_pod_config id w = elim (find_pod_id w.pods id) [
    | none ↦ (ok none, w)
    | some full_id ↦ load_pod_by_id full_id true w
  ]

  unfoldable pub add_container_to_pod : String → String → Exec World Bool
  unfolding load_pod_by_id
  add_container_to_pod pod_id container_id w = elim (find_pod_id w.pods pod_id) [
    | none ↦ (ok false, w)
    | some full_id ↦
        (load_pod_by_id full_id false >>= λ loaded. elim loaded [
          | none ↦ pure false
          | some config ↦ if contains config.containers container_id then pure true else (do
            modify (
                save_pod_config
                  (record config { containers = config.containers ++ container_id ∷ [] }))
            pure true)
        ])
          w
  ]

  unfoldable pub remove_container_from_pod : String → String → Exec World Bool
  unfolding load_pod_by_id
  remove_container_from_pod pod_id container_id w = elim (find_pod_id w.pods pod_id) [
    | none ↦ (ok false, w)
    | some full_id ↦
        (load_pod_by_id full_id false >>= λ loaded. elim loaded [
          | none ↦ pure false
          | some config ↦
              if contains config.containers container_id
              then (do
                modify (
                    save_pod_config
                      (record config { containers = remove_first container_id config.containers }))
                pure true)
              else pure true
        ])
          w
  ]

  -- SIGTERM, and after half a second SIGKILL; a failure of the first leaves the second out.
  unfoldable pub kill_infra : Option ℕ → Exec World Unit
  kill_infra none = pure tt
  kill_infra (some pid) = if pid == 0 then pure tt else (do
    answer ← log (λ calls. os.kill calls pid sigterm) (kill pid sigterm)
    elim answer [
      | delivered ↦ do log (λ calls. tt) sleep; log (λ calls. tt) (kill pid sigkill)
      | _ ↦ pure tt
    ])

  unfoldable pub delete_pod_config : String → Exec World Bool
  unfolding kill_infra load_pod_by_id
  delete_pod_config pod_id w = elim (find_pod_id w.pods pod_id) [
    | none ↦ (ok false, w)
    | some full_id ↦
        (do
          loaded ← load_pod_by_id full_id false
          elim loaded [ none ↦ pure tt | some config ↦ kill_infra config.infra_pid ]
          removed ← log (λ calls. os.rmtree calls full_id) (rmtree full_id)
          if removed
              then (do modify (λ w. record w { pods = erase full_id w.pods }); pure true)
              else pure false)
          w
  ]

  -- `PodManager.delete`
  unfoldable pub delete : String → Bool → Exec World Bool
  unfolding delete_pod_config load_pod_config
  delete pod_id force = do
    loaded ← load_pod_config pod_id
    elim loaded [
      | none ↦ pure false
      | some config ↦ elim config.containers [
        | [] ↦ delete_pod_config pod_id
        | _ ∷ _ ↦ if force then delete_pod_config pod_id else raise pod_error
      ]
    ]

  -- `PodManager.create` of the fields that the caller gives: the file is written, the infra
  -- process is forked, and its process identifier is written.
  unfoldable pub create : PodConfig → Exec World PodConfig
  unfolding pod_post_init save_pod_config
  create fields = do
    fresh_id ← observe os.fresh_id
    fresh_name ← observe os.fresh_name
    let config = pod_post_init fresh_id fresh_name fields
    modify (save_pod_config config)
    pid ← log os.fork fork
    let config' = record config { infra_pid = some pid; status = pod_running }
    modify (save_pod_config config')
    pure config'

  unfoldable pub set_infra_pid : String → ℕ → Exec World Bool
  unfolding load_pod_config save_pod_config
  set_infra_pid pod_id pid = do
    loaded ← load_pod_config pod_id
    elim loaded [
      | none ↦ pure false
      | some config ↦ do
        modify (save_pod_config (record config { infra_pid = some pid }))
        pure true
    ]

  abbrev pub ns_path : ℕ → String → String
  ns_path pid ns = "/proc/" <> decimal pid <> "/ns/" <> ns

  -- The loop of `get_shared_ns_paths`.
  unfoldable pub shared_paths : List Call → ℕ → List String → Dict String → Dict String
  shared_paths calls pid [] paths = paths
  shared_paths calls pid (ns ∷ rest) paths =
      shared_paths calls pid rest
        (if os.exists calls (ns_path pid ns) then insert ns (ns_path pid ns) paths else paths)

  unfoldable pub get_shared_ns_paths : String → Exec World (Dict String)
  unfolding shared_paths load_pod_config
  get_shared_ns_paths pod_id = do
    loaded ← load_pod_config pod_id
    elim loaded [
      | none ↦ pure []
      | some config ↦ elim config.infra_pid [
        | none ↦ pure []
        | some pid ↦
            if pid == 0
            then pure []
            else observe (λ calls. shared_paths calls pid config.shared_namespaces [])
      ]
    ]

-- ===== src/Metadata/Files.antt =====
-- The files of mini_docker/metadata.py: the listing, reading one, finding a container.
-- Identifiers hold no path separator, and are not "." or "..".
use Prim.Native.Nat.{Ordering}
use Prim.Native.String
use mini_docker.Base.{
  String, Bool, true, false, Option, none, some, List, [], ◌∷◌, leb, if◌then◌else◌, str_eq,
  starts_with, lookup, Dict, filter,
}
use mini_docker.Errors.{Result, ok, err, container_lookup_ambiguity}
use mini_docker.Metadata.Config.{ContainerConfig}
use mini_docker.World.{Os, ConfigFile, absent, unreadable, foreign, written}

abbrev before : String → String → Bool
before s t = elim (String.compare s t) [ Ordering.lt ↦ true | _ ↦ false ]

abbrev pub insert_id : String → List String → List String
insert_id id [] = id ∷ []
insert_id id (j ∷ ids) = if before j id then j ∷ insert_id id ids else id ∷ j ∷ ids

-- `sorted(os.listdir(CONTAINERS_PATH))`
unfoldable pub list_container_ids : Dict ConfigFile → List String
list_container_ids [] = []
list_container_ids ((id, file) ∷ files) = insert_id id (list_container_ids files)

abbrev pub file_of : Dict ConfigFile → String → ConfigFile
file_of files id = elim (lookup id files) [ none ↦ absent | some file ↦ file ]

-- `container_exists`
unfoldable pub container_exists : Dict ConfigFile → String → Bool
container_exists files id = elim (file_of files id) [ absent ↦ false | _ ↦ true ]

-- `_read_container_data`: at most 65536 bytes are read, and a text that is cut off is no JSON.
unfoldable pub read_container_data : Os → ConfigFile → ConfigFile
read_container_data os (written config) =
    if leb (os.json_size config) 65536 then written config else unreadable
read_container_data os file = file

-- `data.get("name")`, where there is data.
abbrev pub name_of : ConfigFile → Option String
name_of (foreign name ip) = name
name_of (written config) = some config.name
name_of _ = none

-- `_hydrate_container_config`
abbrev pub hydrate : ConfigFile → Option ContainerConfig
hydrate (written config) = some config
hydrate _ = none

abbrev pub has_name : Option String → String → Bool
has_name none prefix = false
has_name (some name) prefix = str_eq name prefix

module _ (os : Os) (files : Dict ConfigFile) where
  unfoldable pub is_named : String → String → Bool
  is_named prefix id = has_name (name_of (read_container_data os (file_of files id))) prefix

  -- The first loop of `find_container_id`.
  unfoldable pub find_name : String → List String → Option String
  find_name prefix [] = none
  find_name prefix (id ∷ ids) =
      let rest = find_name prefix ids in if is_named prefix id then some id else rest

-- Its second loop.
abbrev pub prefix_matches : String → List String → List String
prefix_matches prefix ids = filter (λ id. starts_with id prefix) ids

unfoldable pub decide_matches : String → List String → Result (Option String)
decide_matches prefix [] = ok none
decide_matches prefix (id ∷ []) = ok (some id)
decide_matches prefix (id ∷ j ∷ ids) = err (container_lookup_ambiguity prefix (id ∷ j ∷ ids))

unfoldable pub find_container_id : Os → Dict ConfigFile → String → Result (Option String)
unfolding list_container_ids container_exists is_named find_name decide_matches
find_container_id os files prefix =
    if str_eq prefix ""
    then ok none
    else if container_exists files prefix
    then ok (some prefix)
    else (elim (find_name os files prefix (list_container_ids files)) [
      | some id ↦ ok (some id)
      | none ↦ decide_matches prefix (prefix_matches prefix (list_container_ids files))
    ])

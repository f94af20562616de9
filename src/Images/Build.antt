-- ===== src/Images/Build.antt =====
-- The class `ImageBuilder` of mini_docker/image_builder.py, and the list of the images. The host
-- copies, makes directories and runs commands; `json.loads` is the library's.
use mini_docker.Base.{
  ℕ, String, Bool, false, not, ◌&&◌, Option, none, some, List, [], ◌∷◌, ◌++◌, ◌==◌, if◌then◌else◌,
  str_eq, starts_with, codes,
}
use mini_docker.Errors.{
  Result, ok, err, Exec, ◌>>=◌, ◌>>◌, pure, raise, gets, modify, image_error, build_error, os_error,
}
use mini_docker.Capabilities.{same_text}
use mini_docker.Utils.Text.{words, strip}
use mini_docker.Images.Parse.{Instruction, split_once, built_name, sought_name, parse_image_file}

pub record Layer : Type 0 where
  pub id : String
  pub instruction : List ℕ
  pub command : List ℕ

-- Environments in the order of their first assignment.
abbrev pub Env : Type 0
Env = List (List ℕ × List ℕ)

pub record Builder : Type 0 where
  pub current_layer : Option String
  pub layers : List Layer
  pub env : Env
  pub workdir : List ℕ
  pub cmd : List (List ℕ)
  pub entrypoint : List (List ℕ)

pub record Image : Type 0 where
  pub id : String
  pub name : List ℕ
  pub tag : List ℕ
  pub layers : List Layer
  pub env : Env
  pub workdir : List ℕ
  pub cmd : List (List ℕ)
  pub entrypoint : List (List ℕ)

-- What the host answers, by the layers made so far.
pub record Maker : Type 0 where
  pub fresh_id : List Layer → String
  -- whether the path, relative to the context, is a directory
  pub is_dir : List ℕ → Bool
  -- the copy of the base, of a layer to the next one, and of the sources
  pub copies : List Layer → List (List ℕ) → Bool
  pub is_root : Bool
  pub has_chroot : Bool
  -- the return code of the command in the layer, with the working directory and the environment
  pub runs : List Layer → List ℕ → List ℕ → Env → ℕ
  pub json : List ℕ → Option (List (List ℕ))

abbrev pub empty_builder : Builder
empty_builder = record {
  current_layer = none;
  layers = [];
  env = [];
  workdir = b'/' ∷ [];
  cmd = [];
  entrypoint = [];
}

abbrev pub assign : List ℕ → List ℕ → Env → Env
assign key value [] = (key, value) ∷ []
assign key value ((k, v) ∷ env) =
    let rest = assign key value env in if same_text k key then (k, value) ∷ env else (k, v) ∷ rest

-- `args.split("=", 1)`, where there is one.
abbrev pub cut_equals : List ℕ → Option (List ℕ × List ℕ)
cut_equals [] = none
cut_equals (c ∷ cs) =
    let rest = cut_equals cs in
    if c == b'='
    then some ([], cs)
    else (elim rest [ none ↦ none | some (key, value) ↦ some (c ∷ key, value) ])

abbrev pub handle_env_text : List ℕ → Env → Env
handle_env_text args env = elim (cut_equals args) [
  | some (key, value) ↦ assign (strip key) (strip value) env
  | none ↦ elim (split_once args) [
    | none ↦ env
    | some (key, []) ↦ env
    | some (key, c ∷ cs) ↦ assign key (c ∷ cs) env
  ]
]

-- `["/bin/sh", "-c", args]`
abbrev pub shell : List ℕ → List (List ℕ)
shell args = codes "/bin/sh" ∷ codes "-c" ∷ args ∷ []

abbrev pub starts_bracket : List ℕ → Bool
starts_bracket [] = false
starts_bracket (c ∷ cs) = c == b'['

-- The configuration of an image, from the builder.
abbrev pub image_of : String → List ℕ → Builder → Image
image_of image_id name b =
    let (image_name, image_tag) = built_name name in
    record {
      id = image_id;
      name = image_name;
      tag = image_tag;
      layers = b.layers;
      env = b.env;
      workdir = b.workdir;
      cmd = b.cmd;
      entrypoint = b.entrypoint;
    }

module _ (maker : Maker) where
  -- `json.loads` is only tried where the text begins like a list.
  unfoldable pub command_of : List ℕ → List (List ℕ)
  command_of args =
      let text = strip args in
      if starts_bracket text
      then (elim (maker.json text) [ none ↦ shell text | some command ↦ command ])
      else shell text

  unfoldable pub create_layer : List ℕ → List ℕ → Exec Builder Unit
  create_layer instruction command = do
    layers ← gets (λ b. b.layers)
    let id = maker.fresh_id layers
    modify (λ b. record b {
      layers = b.layers ++ record { id = id; instruction = instruction; command = command } ∷ [];
      current_layer = some id;
    })

  unfoldable pub copy : List (List ℕ) → Exec Builder Unit
  copy sources = do
    layers ← gets (λ b. b.layers)
    if maker.copies layers sources then pure tt else raise os_error

  unfoldable pub handle_from : List ℕ → Exec Builder Unit
  unfolding create_layer copy
  handle_from args =
      if maker.is_dir (strip args)
      then (do create_layer (codes "FROM") args; copy (strip args ∷ []))
      else raise build_error

  -- Whether there is a layer to build on: an identifier that is not empty.
  abbrev pub has_layer : Builder → Bool
  has_layer b = elim b.current_layer [ none ↦ false | some id ↦ not (str_eq id "") ]

  unfoldable pub handle_run : List ℕ → Exec Builder Unit
  unfolding create_layer copy
  handle_run args = do
    ready ← gets has_layer
    if not ready then raise build_error else (do
      create_layer (codes "RUN") args
      copy []
      if not maker.is_root then raise build_error else pure tt
      if not maker.has_chroot then raise build_error else pure tt
      code ← gets (λ b. maker.runs b.layers args b.workdir b.env)
      if code == 0 then pure tt else raise build_error)

  -- The sources, without the destination.
  abbrev pub sources_of : List (List ℕ) → List (List ℕ)
  sources_of [] = []
  sources_of (dest ∷ []) = []
  sources_of (source ∷ next ∷ rest) = source ∷ sources_of (next ∷ rest)

  -- The words of the arguments: the sources and the destination.
  unfoldable pub copy_parts : List ℕ → List (List ℕ) → Exec Builder Unit
  unfolding create_layer copy
  copy_parts args [] = raise build_error
  copy_parts args (dest ∷ []) = raise build_error
  copy_parts args (source ∷ next ∷ rest) = do
    create_layer (codes "COPY") args
    copy []
    copy (sources_of (source ∷ next ∷ rest))

  unfoldable pub handle_copy : List ℕ → Exec Builder Unit
  unfolding copy_parts
  handle_copy args = do
    ready ← gets has_layer
    if not ready then raise build_error else copy_parts args (words args)

  -- `_process_instruction`; an instruction that is not known is passed over with a warning.
  unfoldable pub process_instruction : Instruction → Exec Builder Unit
  unfolding command_of handle_from handle_run handle_copy
  process_instruction (name, args) =
      if same_text name (codes "FROM")
      then handle_from args
      else if same_text name (codes "RUN")
      then handle_run args
      else if same_text name (codes "COPY")
      then handle_copy args
      else if same_text name (codes "ENV")
      then modify (λ b. record b { env = handle_env_text args b.env })
      else if same_text name (codes "WORKDIR")
      then modify (λ b. record b { workdir = strip args })
      else if same_text name (codes "CMD")
      then modify (λ b. record b { cmd = command_of args })
      else if same_text name (codes "ENTRYPOINT")
      then modify (λ b. record b { entrypoint = command_of args })
      else pure tt

  unfoldable pub process_all : List Instruction → Exec Builder Unit
  process_all [] = pure tt
  process_all (i ∷ is) = do process_instruction i; process_all is

  -- The part of `build` that follows the parsing.
  unfoldable pub build_all : String → List ℕ → List Instruction → Exec Builder Image
  unfolding process_all
  build_all image_id name [] = raise build_error
  build_all image_id name (i ∷ is) = do
    process_all (i ∷ is)
    b ← gets (λ b. b)
    pure (image_of image_id name b)

  -- `build`, by the content of the build file: the configuration that is saved.
  unfoldable pub build : String → List ℕ → List ℕ → Exec Builder Image
  unfolding build_all
  build image_id name content = build_all image_id name (parse_image_file content)

abbrev pub last_layer : List Layer → Option Layer
last_layer [] = none
last_layer (l ∷ []) = some l
last_layer (l ∷ m ∷ ls) = last_layer (m ∷ ls)

-- `get_rootfs`, by the identifiers of the image and of its last layer.
unfoldable pub get_rootfs : Image → Result (String × String)
get_rootfs image = elim (last_layer image.layers) [
  | none ↦ err build_error
  | some layer ↦ ok (image.id, layer.id)
]

unfoldable pub find_by_id : String → List Image → Option Image
find_by_id prefix [] = none
find_by_id prefix (image ∷ images) =
    let rest = find_by_id prefix images in if starts_with image.id prefix then some image else rest

unfoldable pub find_by_name : List ℕ × List ℕ → List Image → Option Image
find_by_name target [] = none
find_by_name target (image ∷ images) =
    let rest = find_by_name target images in
    if same_text image.name target.0 && same_text image.tag target.1 then some image else rest

-- The image that `resolve_image_path` and `remove_image` find, in the order of `list_images`.
unfoldable pub find_image : String → List Image → Option Image
unfolding find_by_id find_by_name
find_image name_or_id images = elim (find_by_id name_or_id images) [
  | some image ↦ some image
  | none ↦ find_by_name (sought_name (codes name_or_id)) images
]

unfoldable pub resolve_image_path : String → List Image → Result (Option (String × String))
unfolding find_image get_rootfs
resolve_image_path name_or_id images = elim (find_image name_or_id images) [
  | none ↦ ok none
  | some image ↦ elim (get_rootfs image) [ ok path ↦ ok (some path) | err e ↦ err e ]
]

-- `remove_image`, by the identifier whose directory is removed.
unfoldable pub image_to_remove : String → List Image → Result String
unfolding find_image
image_to_remove name_or_id images = elim (find_image name_or_id images) [
  | none ↦ err image_error
  | some image ↦ ok image.id
]

-- ===== src/Tests/Texts.antt =====
-- Examples for mini_docker/image_builder.py, mini_docker/oci.py, mini_docker/utils.py and
-- mini_docker/cli.py.
use mini_docker.Base.{
  ℕ, String, ◌≡◌, ◌≢◌, refl, true, none, some, List, [], ◌∷◌, ◌++◌, All, In, inl, inr, codes,
}
use mini_docker.Cli.{parse_cpu_limit_percent, parse_volume}
use mini_docker.Cli.Options.{Quota, parse_cpu_limit_percent_lem, parse_volume_lem}
use mini_docker.Errors.{ok}
use mini_docker.Images.Build.{Builder, Image, Maker, Layer, build, empty_builder, find_image}
use mini_docker.Images.Layers.{made, all_layers, build_lem}
use mini_docker.Images.Lookup.{Sought, find_image_lem}
use mini_docker.Images.Parse.{Instruction, built_name, parse_image_file, sought_name}
use mini_docker.Images.Printing.{Plain, print, parse-print, sought-built}
use mini_docker.Metadata.Config.{ContainerConfig}
use mini_docker.Oci.Trip.{Portable, Returned, oci-trip}
use mini_docker.Tests.{web}
use mini_docker.Utils.Names.{generate_container_name, Joined, generate_container_name_lem}
use mini_docker.Utils.Text.{pos}
use mini_docker.Utils.Words.{adjectives, animals}

-- A build file.
abbrev recipe : List Instruction
recipe =
    (codes "FROM", codes "./rootfs")
    ∷ (codes "RUN", codes "echo  one")
    ∷ (codes "CMD", codes "[\"sh\"]")
    ∷ []

recipe-Plain : All Plain recipe
unfolding mini_docker.Utils.Text.strip
recipe-Plain = (
  record {
    has_name = λ e. absurd cc;
    is_word = refl;
    is_capital = refl;
    args_trimmed = refl;
    trimmed = refl;
    one_line = refl;
    no_backslash = refl;
    no_comment = refl;
  },
  (
    record {
      has_name = λ e. absurd cc;
      is_word = refl;
      is_capital = refl;
      args_trimmed = refl;
      trimmed = refl;
      one_line = refl;
      no_backslash = refl;
      no_comment = refl;
    },
    (
      record {
        has_name = λ e. absurd cc;
        is_word = refl;
        is_capital = refl;
        args_trimmed = refl;
        trimmed = refl;
        one_line = refl;
        no_backslash = refl;
        no_comment = refl;
      },
      tt,
    ),
  ),
)

parse-print_example : parse_image_file (print recipe) ≡ recipe
parse-print_example = parse-print recipe recipe-Plain

sought-built_example :
    (sought_name (codes "app" ++ b':' ∷ codes "2") ≡ (codes "app", codes "2"))
    × (built_name (codes "app" ++ b':' ∷ codes "2") ≡ (codes "app", codes "2"))
    × (sought_name (codes "app") ≡ (codes "app", codes "latest"))
    × (built_name (codes "app") ≡ (codes "app", codes "latest"))
sought-built_example = sought-built b'a' (codes "pp") (codes "2") refl refl

-- Every copy and every command succeeds.
abbrev maker : Maker
maker = record {
  fresh_id = λ layers. "l";
  is_dir = λ path. true;
  copies = λ layers sources. true;
  is_root = true;
  has_chroot = true;
  runs = λ layers args workdir env. 0;
  json = λ text. some (codes "sh" ∷ []);
}

abbrev layer : List ℕ → List ℕ → Layer
layer instruction command = record { id = "l"; instruction = instruction; command = command }

abbrev app : Image
app = record {
  id = "i1";
  name = codes "app";
  tag = codes "latest";
  layers = layer (codes "FROM") (codes "./rootfs") ∷ layer (codes "RUN") (codes "echo  one") ∷ [];
  env = [];
  workdir = codes "/";
  cmd = codes "sh" ∷ [];
  entrypoint = [];
}

built : (build maker "i1" (codes "app") (print recipe) empty_builder).0 ≡ ok app
unfolding mini_docker.Images.Build.build mini_docker.Images.Build.build_all
    mini_docker.Images.Build.process_all mini_docker.Errors.◌>>=◌ parse_image_file
    mini_docker.Utils.Text.split mini_docker.Utils.Text.strip
    mini_docker.Images.Build.process_instruction built_name
built = refl

build_lem_example :
    (made app.layers ≡ all_layers (parse_image_file (print recipe)))
    × (parse_image_file (print recipe) ≢ [])
    × (app.id ≡ "i1")
    × ((app.name, app.tag) ≡ built_name (codes "app"))
build_lem_example = build_lem maker "i1" (codes "app") (print recipe) app built

abbrev service : ContainerConfig
service = record web {
  env = ("MODE", "x=1") ∷ ("LANG", "C") ∷ [];
  resources = record {
    memory_mb = some 64;
    cpu_quota = some 50000;
    cpu_period = 100000;
    max_pids = none;
  };
}

service-Portable : Portable service
service-Portable = record {
  has_hostname = refl;
  has_keys = (refl, refl, (refl, refl, tt));
  has_namespaces = (
    inl refl,
    (
      inr (inr (inr (inr (inl refl)))),
      (inr (inr (inl refl)), (inr (inr (inr (inl refl))), (inr (inl refl), tt))),
    ),
  );
  has_limits = record {
    has_memory = refl;
    has_quota = refl;
    has_pids = refl;
    has_period = λ e. refl;
  };
}

oci-trip_example : Returned (λ path. path) 50 "c9" "calm_cat" "/b" service
oci-trip_example = oci-trip (λ path. path) 50 "c9" "calm_cat" "/b" service service-Portable

-- A choice that takes the first element.
abbrev first : List String → String
first [] = ""
first (word ∷ words) = word

first-In : (words : List String) → words ≢ [] → In (first words) words
first-In [] h = absurd (h refl)
first-In (word ∷ words) h = inl refl

generate_container_name_lem_example : Joined adjectives animals (generate_container_name first)
generate_container_name_lem_example = generate_container_name_lem first first-In

parse_cpu_limit_percent_lem_example :
    Quota (pos 50) 100000 (parse_cpu_limit_percent (some (pos 50)) 100000)
parse_cpu_limit_percent_lem_example = parse_cpu_limit_percent_lem (pos 50) 100000

parse_volume_lem_example :
    (parse_volume (codes "/a" ++ b':' ∷ (codes "/b" ++ b':' ∷ codes "ro"))
      ≡ some (codes "/a", codes "/b", codes "ro"))
    × (parse_volume (codes "/a" ++ b':' ∷ codes "/b") ≡ some (codes "/a", codes "/b", codes "rw"))
parse_volume_lem_example = parse_volume_lem (codes "/a") (codes "/b") (codes "ro") refl refl refl

find_image_lem_example : Sought "app" (app ∷ []) (find_image "app" (app ∷ []))
find_image_lem_example = find_image_lem "app" (app ∷ [])

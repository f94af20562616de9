-- ===== src/Oci/Convert.antt =====
-- `oci_to_container_config` and `generate_oci_config` of mini_docker/oci.py, and the checks of
-- `validate_bundle`.
use mini_docker.Base.{
  ℕ, ◌*◌, ◌/◌, String, ◌<>◌, Bool, true, false, not, Option, none, some, List, [], ◌∷◌, ◌++◌, ◌==◌,
  if◌then◌else◌, contains, lookup, insert, map, Dict,
}
use Prim.Native.Char.{code}
use mini_docker.Metadata.Config.{ContainerConfig, ResourceLimits, default_config, post_init}
use mini_docker.Oci.Documents.{
  Document, MountDoc, CapabilitiesDoc, ResourcesDoc, CpuDoc, OciConfig, OciNamespace, get,
  default_env, parse_oci_config,
}
use mini_docker.Workload.Process.{join, starts_slash}

-- `e.split("=", 1)`, where there is one.
unfoldable pub split_equals : String → Option (String × String)
split_equals String.[] = none
split_equals (String.◌∷◌ c s) =
    let rest = split_equals s in
    if code c == b'='
    then some ("", s)
    else (elim rest [ none ↦ none | some (key, value) ↦ some (String.◌∷◌ c key, value) ])

abbrev pub add_env : Option (String × String) → Dict String → Dict String
add_env none env = env
add_env (some (key, value)) env = insert key value env

-- The loop over the environment.
unfoldable pub parse_env : List String → Dict String → Dict String
parse_env [] env = env
parse_env (e ∷ rest) env = parse_env rest (add_env (split_equals e) env)

abbrev pub mebibyte : ℕ
mebibyte = 1024 * 1024

abbrev pub map_limit : (ℕ → ℕ) → Option ℕ → Option ℕ
map_limit f none = none
map_limit f (some n) = some (f n)

abbrev pub convert_resources : ResourcesDoc → ResourceLimits
convert_resources res = record {
  cpu_quota = res.cpu.quota;
  cpu_period = get res.cpu.period 100000;
  memory_mb = map_limit (λ limit. limit / mebibyte) res.memory_limit;
  max_pids = res.pids_limit;
}

-- `ns_type_map`
abbrev pub ns_type_map : Dict String
ns_type_map =
    ("pid", "pid")
    ∷ ("network", "net")
    ∷ ("mount", "mnt")
    ∷ ("ipc", "ipc")
    ∷ ("uts", "uts")
    ∷ ("user", "user")
    ∷ ("cgroup", "cgroup")
    ∷ []

abbrev pub add_name : Option String → List String → List String
add_name none names = names
add_name (some name) names = name ∷ names

unfoldable pub convert_namespaces : List OciNamespace → List String
convert_namespaces [] = []
convert_namespaces (ns ∷ rest) = add_name (lookup ns.kind ns_type_map) (convert_namespaces rest)

-- The bounding set, or where it is missing or empty, the permitted one.
abbrev pub chosen_caps : CapabilitiesDoc → List String
chosen_caps caps = elim (get caps.bounding []) [ c ∷ cs ↦ c ∷ cs | [] ↦ get caps.permitted [] ]

-- `oci_to_container_config`, with `os.path.abspath`, the time, and what the generators would
-- return for the identifier and the name.
unfoldable pub oci_to_container_config :
    (String → String) → ℕ → String → String → OciConfig → String → ContainerConfig
unfolding parse_env convert_namespaces post_init
oci_to_container_config abspath now fresh_id fresh_name oci bundle_path =
    let rootfs = join bundle_path oci.root.path in
    let namespaces = convert_namespaces oci.linux.namespaces in
    post_init fresh_id fresh_name (record (default_config now) {
      rootfs = if starts_slash rootfs then rootfs else abspath rootfs;
      command = oci.process.args;
      hostname = oci.hostname;
      env = parse_env oci.process.env [];
      workdir = oci.process.cwd;
      resources = convert_resources oci.linux.resources;
      namespaces = namespaces;
      network_enabled = contains namespaces "net";
      capabilities = chosen_caps oci.process.capabilities;
      seccomp_enabled = oci.linux.has_seccomp;
    })

-- `ns_map.get(ns, ns)`
unfoldable pub namespace_type : String → String
namespace_type ns =
    get
      (lookup ns (
        ("pid", "pid")
        ∷ ("net", "network")
        ∷ ("mnt", "mount")
        ∷ ("ipc", "ipc")
        ∷ ("uts", "uts")
        ∷ ("user", "user")
        ∷ []))
      ns

abbrev pub env_list : Dict String → List String
env_list [] = default_env
env_list ((key, value) ∷ env) = map (λ (k, v). k <> "=" <> v) ((key, value) ∷ env)

-- `if n:`, for a number that may be none.
abbrev pub truthy : Option ℕ → Option ℕ
truthy none = none
truthy (some n) = if n == 0 then none else some n

abbrev pub cpu_doc : Option ℕ → ℕ → CpuDoc
cpu_doc none period = record { quota = none; period = none }
cpu_doc (some quota) period = record { quota = some quota; period = some period }

abbrev pub generate_resources : ResourceLimits → ResourcesDoc
generate_resources limits = record {
  memory_limit = map_limit (λ mb. mb * mebibyte) (truthy limits.memory_mb);
  cpu = cpu_doc (truthy limits.cpu_quota) limits.cpu_period;
  pids_limit = truthy limits.max_pids;
}

abbrev pub mount_doc : String → String → Option (List String) → MountDoc
mount_doc destination name options = record {
  destination = some destination;
  fstype = some name;
  source = some name;
  options = options;
}

unfoldable pub generate_oci_config : ContainerConfig → Document
unfolding namespace_type
generate_oci_config config = record {
  oci_version = some "1.0.0";
  hostname = some config.hostname;
  process = some (record {
    terminal = some true;
    args = some config.command;
    env = some (env_list config.env);
    cwd = some config.workdir;
    capabilities = some (record {
      bounding = some config.capabilities;
      effective = some config.capabilities;
      inheritable = some config.capabilities;
      permitted = some config.capabilities;
    });
    no_new_privileges = some true;
  });
  root = some (record { path = some "rootfs"; readonly = some false });
  mounts = some (
      mount_doc "/proc" "proc" none
      ∷ mount_doc "/dev" "tmpfs" (some ("nosuid" ∷ "strictatime" ∷ "mode=755" ∷ "size=65536k" ∷ []))
      ∷ mount_doc "/sys" "sysfs" (some ("nosuid" ∷ "noexec" ∷ "nodev" ∷ "ro" ∷ []))
      ∷ []);
  linux = some (record {
    namespaces =
        some
          (map (λ ns. record { kind = some (namespace_type ns); path = none }) config.namespaces);
    resources = some (generate_resources config.resources);
    has_seccomp = false;
    masked_paths = none;
    readonly_paths = none;
  });
}

-- The errors of `validate_bundle`.
pub data BundleError : Type 0 where
  no_directory no_config invalid_json no_rootfs no_args : BundleError

-- By whether the bundle is a directory, its document (missing, or no JSON), and the directories.
unfoldable pub validate_bundle :
    Bool → Option (Option Document) → (String → Bool) → String → List BundleError
unfolding parse_oci_config
validate_bundle there doc is_dir bundle_path = if not there then no_directory ∷ [] else (elim doc [
  | none ↦ no_config ∷ []
  | some none ↦ invalid_json ∷ []
  | some (some d) ↦
      let oci = parse_oci_config d in
      (if is_dir (join bundle_path oci.root.path) then [] else no_rootfs ∷ [])
      ++ (elim oci.process.args [ [] ↦ no_args ∷ [] | a ∷ args ↦ [] ])
])

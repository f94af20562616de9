-- ===== src/Oci/Documents.antt =====
-- The documents, and `parse_oci_config` of mini_docker/oci.py.
use mini_docker.Base.{ℕ, String, Bool, true, false, Option, none, some, List, [], ◌∷◌, map}

pub record CapabilitiesDoc : Type 0 where
  pub bounding : Option (List String)
  pub effective : Option (List String)
  pub inheritable : Option (List String)
  pub permitted : Option (List String)

pub record ProcessDoc : Type 0 where
  pub terminal : Option Bool
  pub args : Option (List String)
  pub env : Option (List String)
  pub cwd : Option String
  pub capabilities : Option CapabilitiesDoc
  pub no_new_privileges : Option Bool

pub record RootDoc : Type 0 where
  pub path : Option String
  pub readonly : Option Bool

pub record MountDoc : Type 0 where
  pub destination : Option String
  pub fstype : Option String
  pub source : Option String
  pub options : Option (List String)

pub record NamespaceDoc : Type 0 where
  pub kind : Option String
  pub path : Option String

-- The dictionaries `memory`, `cpu` and `pids`; an empty one counts as none.
pub record CpuDoc : Type 0 where
  pub quota : Option ℕ
  pub period : Option ℕ

pub record ResourcesDoc : Type 0 where
  pub memory_limit : Option ℕ
  pub cpu : CpuDoc
  pub pids_limit : Option ℕ

pub record LinuxDoc : Type 0 where
  pub namespaces : Option (List NamespaceDoc)
  pub resources : Option ResourcesDoc
  -- whether there is a profile that is not empty
  pub has_seccomp : Bool
  pub masked_paths : Option (List String)
  pub readonly_paths : Option (List String)

pub record Document : Type 0 where
  pub oci_version : Option String
  pub hostname : Option String
  pub process : Option ProcessDoc
  pub root : Option RootDoc
  pub mounts : Option (List MountDoc)
  pub linux : Option LinuxDoc

-- The dataclasses.
pub record OciProcess : Type 0 where
  pub terminal : Bool
  pub args : List String
  pub env : List String
  pub cwd : String
  pub capabilities : CapabilitiesDoc
  pub no_new_privileges : Bool

pub record OciRoot : Type 0 where
  pub path : String
  pub readonly : Bool

pub record OciMount : Type 0 where
  pub destination : String
  pub fstype : String
  pub source : String
  pub options : List String

pub record OciNamespace : Type 0 where
  pub kind : String
  pub path : Option String

pub record OciLinux : Type 0 where
  pub namespaces : List OciNamespace
  pub resources : ResourcesDoc
  pub has_seccomp : Bool
  pub masked_paths : List String
  pub readonly_paths : List String

pub record OciConfig : Type 0 where
  pub oci_version : String
  pub process : OciProcess
  pub root : OciRoot
  pub hostname : String
  pub mounts : List OciMount
  pub linux : OciLinux

-- `data.get(key, default)`
abbrev pub get {ℓ} : {A : Type ℓ} → Option A → A → A
get none default = default
get (some a) default = a

abbrev pub no_capabilities : CapabilitiesDoc
no_capabilities = record { bounding = none; effective = none; inheritable = none; permitted = none }

abbrev pub no_resources : ResourcesDoc
no_resources = record {
  memory_limit = none;
  cpu = record { quota = none; period = none };
  pids_limit = none;
}

abbrev pub default_env : List String
default_env = "PATH=/usr/local/sbin:/usr/local/bin:/usr/sbin:/usr/bin:/sbin:/bin" ∷ []

abbrev pub parse_process : Option ProcessDoc → OciProcess
parse_process none = record {
  terminal = false;
  args = [];
  env = default_env;
  cwd = "/";
  capabilities = no_capabilities;
  no_new_privileges = true;
}
parse_process (some proc) = record {
  terminal = get proc.terminal false;
  args = get proc.args [];
  env = get proc.env [];
  cwd = get proc.cwd "/";
  capabilities = get proc.capabilities no_capabilities;
  no_new_privileges = get proc.no_new_privileges true;
}

abbrev pub parse_root : Option RootDoc → OciRoot
parse_root none = record { path = "rootfs"; readonly = false }
parse_root (some root) = record {
  path = get root.path "rootfs";
  readonly = get root.readonly false;
}

abbrev pub parse_mount : MountDoc → OciMount
parse_mount m = record {
  destination = get m.destination "";
  fstype = get m.fstype "";
  source = get m.source "";
  options = get m.options [];
}

abbrev pub parse_namespace : NamespaceDoc → OciNamespace
parse_namespace ns = record { kind = get ns.kind ""; path = ns.path }

abbrev pub parse_linux : Option LinuxDoc → OciLinux
parse_linux none = record {
  namespaces = [];
  resources = no_resources;
  has_seccomp = false;
  masked_paths = [];
  readonly_paths = [];
}
parse_linux (some linux) = record {
  namespaces = map parse_namespace (get linux.namespaces []);
  resources = get linux.resources no_resources;
  has_seccomp = linux.has_seccomp;
  masked_paths = get linux.masked_paths [];
  readonly_paths = get linux.readonly_paths [];
}

unfoldable pub parse_oci_config : Document → OciConfig
parse_oci_config doc = record {
  oci_version = get doc.oci_version "1.0.0";
  process = parse_process doc.process;
  root = parse_root doc.root;
  hostname = get doc.hostname "";
  mounts = map parse_mount (get doc.mounts []);
  linux = parse_linux doc.linux;
}

-- ===== src/Oci/Trip.antt =====
-- From a configuration to the document of a bundle and back, by mini_docker/oci.py.
use mini_docker.Base.{
  ℕ, ◌*◌, ◌/◌, String, ◌<>◌, ◌≡◌, refl, sym, ap, ◌∙◌, Bool, true, false, not, ◌&&◌, Option, none,
  some, List, [], ◌∷◌, ◌++◌, ◌==◌, arith, str_eq, contains, lookup, insert, map, Dict, All, In, inl,
  inr, Bool-cases, append-nil, append_assoc,
}
use Prim.Native.Char.{Char, code}
use Prim.Native.String.append.{nil, cons}
use mini_docker.Metadata.Config.{ContainerConfig, ResourceLimits, post_init}
use mini_docker.Oci.Documents.{parse_oci_config, parse_namespace, get}
use mini_docker.Oci.Convert.{
  split_equals, parse_env, convert_resources, convert_namespaces, oci_to_container_config,
  namespace_type, env_list, truthy, generate_resources, generate_oci_config, mebibyte, chosen_caps,
  ns_type_map, cpu_doc, map_limit,
}

abbrev no_equals : String → Bool
no_equals String.[] = true
no_equals (String.◌∷◌ c s) = not (code c == b'=') && no_equals s

split_equals-pair :
    (key value : String)
    → no_equals key ≡ true
    → split_equals (key <> "=" <> value) ≡ some (key, value)
unfolding split_equals
split_equals-pair String.[] value h =
    rw (nil ("=" <> value), cons (Char.char 61 tt) "" value, nil value) refl
split_equals-pair (String.◌∷◌ c s) value h = elim (Bool-cases (code c == b'=')) [
  | inl e ↦ absurd (ground (arith, e, h))
  | inr e ↦
      rw (cons c s ("=" <> value)) (rw (e, split_equals-pair s value (ground (arith, e, h))) refl)
]

insert-fresh :
    (key value : String) (env : Dict String)
    → lookup key env ≡ none
    → insert key value env ≡ env ++ (key, value) ∷ []
insert-fresh key value [] h = refl
insert-fresh key value ((k, v) ∷ env) h = elim (Bool-cases (str_eq k key)) [
  | inl e ↦ absurd (ground (arith, e, h))
  | inr e ↦ rw e (ap (λ t. (k, v) ∷ t) (insert-fresh key value env (ground (arith, e, h))))
]

-- The keys are not those before, are distinct, and hold no "=".
abbrev pub Fresh : Dict String → Dict String → Type 0
Fresh seen [] = Unit
Fresh seen ((key, value) ∷ env) =
    (lookup key seen ≡ none) × (no_equals key ≡ true) × Fresh (seen ++ (key, value) ∷ []) env

parse_env-list :
    (env seen : Dict String)
    → Fresh seen env
    → parse_env (map (λ (k, v). k <> "=" <> v) env) seen ≡ seen ++ env
unfolding parse_env
parse_env-list [] seen f = sym (append-nil seen)
parse_env-list ((key, value) ∷ env) seen (n, q, f) =
    rw (split_equals-pair key value q, insert-fresh key value seen n, parse_env)
      (parse_env-list env (seen ++ (key, value) ∷ []) f ∙ append_assoc seen _ env)

-- An environment that is empty comes back with a PATH.
abbrev pub returned_env : Dict String → Dict String
returned_env [] = ("PATH", "/usr/local/sbin:/usr/local/bin:/usr/sbin:/usr/bin:/sbin:/bin") ∷ []
returned_env (entry ∷ env) = entry ∷ env

env-trip : (env : Dict String) → Fresh [] env → parse_env (env_list env) [] ≡ returned_env env
unfolding parse_env split_equals
env-trip [] f = refl
env-trip (entry ∷ env) f = parse_env-list (entry ∷ env) [] f

abbrev pub known_namespaces : List String
known_namespaces = "pid" ∷ "net" ∷ "mnt" ∷ "ipc" ∷ "uts" ∷ "user" ∷ "cgroup" ∷ []

namespace-trip :
    (ns : String) → In ns known_namespaces → lookup (namespace_type ns) ns_type_map ≡ some ns
unfolding namespace_type
namespace-trip ns (inl e) = rw e refl
namespace-trip ns (inr (inl e)) = rw e refl
namespace-trip ns (inr (inr (inl e))) = rw e refl
namespace-trip ns (inr (inr (inr (inl e)))) = rw e refl
namespace-trip ns (inr (inr (inr (inr (inl e))))) = rw e refl
namespace-trip ns (inr (inr (inr (inr (inr (inl e)))))) = rw e refl
namespace-trip ns (inr (inr (inr (inr (inr (inr (inl e))))))) = rw e refl
namespace-trip ns (inr (inr (inr (inr (inr (inr (inr e))))))) = absurd e

namespaces-trip :
    (names : List String)
    → All (λ ns. In ns known_namespaces) names
    → convert_namespaces (
        map parse_namespace
          (map (λ ns. record { kind = some (namespace_type ns); path = none }) names))
      ≡ names
unfolding convert_namespaces
namespaces-trip [] a = refl
namespaces-trip (ns ∷ names) (i, a) =
    rw (namespace-trip ns i, convert_namespaces) (ap (λ t. ns ∷ t) (namespaces-trip names a))

-- No limit is 0, and without a quota the period is the default one.
pub record Plain (limits : ResourceLimits) : Type 0 where
  pub has_memory : truthy limits.memory_mb ≡ limits.memory_mb
  pub has_quota : truthy limits.cpu_quota ≡ limits.cpu_quota
  pub has_pids : truthy limits.max_pids ≡ limits.max_pids
  pub has_period : limits.cpu_quota ≡ none → limits.cpu_period ≡ 100000

mebibytes : (mb : ℕ) → mb * 1048576 / 1048576 ≡ mb
mebibytes mb = omega arith

memory-trip :
    (m : Option ℕ)
    → truthy m ≡ m
    → map_limit (λ n. n / mebibyte) (map_limit (λ n. n * mebibyte) (truthy m)) ≡ m
memory-trip none h = refl
memory-trip (some mb) h =
    ap (λ m. map_limit (λ n. n / mebibyte) (map_limit (λ n. n * mebibyte) m)) h
    ∙ ap some (mebibytes mb)

quota-trip :
    (q : Option ℕ) (period : ℕ)
    → truthy q ≡ q
    → (q ≡ none → period ≡ 100000)
    → (cpu_doc (truthy q) period).quota ≡ q
quota-trip none period h p = refl
quota-trip (some q) period h p = ap (λ t. (cpu_doc t period).quota) h

period-trip :
    (q : Option ℕ) (period : ℕ)
    → truthy q ≡ q
    → (q ≡ none → period ≡ 100000)
    → get (cpu_doc (truthy q) period).period 100000 ≡ period
period-trip none period h p = sym (p refl)
period-trip (some q) period h p = ap (λ t. get (cpu_doc t period).period 100000) h

resources-trip :
    (limits : ResourceLimits)
    → Plain limits
    → convert_resources (generate_resources limits) ≡ limits
resources-trip limits p =
    let m = memory-trip limits.memory_mb p.has_memory in
    let q = quota-trip limits.cpu_quota limits.cpu_period p.has_quota p.has_period in
    let t = period-trip limits.cpu_quota limits.cpu_period p.has_quota p.has_period in
    let n = p.has_pids in cc

-- A configuration whose document gives it back: it has a host name, the keys of its environment
-- are distinct and hold no "=", its namespaces are known, and its limits are plain.
pub record Portable (config : ContainerConfig) : Type 0 where
  pub has_hostname : str_eq config.hostname "" ≡ false
  pub has_keys : Fresh [] config.env
  pub has_namespaces : All (λ ns. In ns known_namespaces) config.namespaces
  pub has_limits : Plain config.resources

module _ (abspath : String → String) (now : ℕ) (fresh_id fresh_name bundle_path : String)
    (config : ContainerConfig) where
  abbrev pub returned : ContainerConfig
  returned =
      oci_to_container_config abspath now fresh_id fresh_name
        (parse_oci_config (generate_oci_config config)) bundle_path

  -- What comes back of a configuration.
  abbrev pub Returned : Type 0
  Returned =
      (returned.command ≡ config.command)
      × (returned.hostname ≡ config.hostname)
      × (returned.env ≡ returned_env config.env)
      × (returned.workdir ≡ config.workdir)
      × (returned.namespaces ≡ config.namespaces)
      × (returned.resources ≡ config.resources)
      × (returned.capabilities ≡ config.capabilities)
      × (returned.network_enabled ≡ contains config.namespaces "net")
      × (returned.seccomp_enabled ≡ false)

  caps_back :
      (caps : List String)
      → chosen_caps (record {
        bounding = some caps;
        effective = some caps;
        inheritable = some caps;
        permitted = some caps;
      })
        ≡ caps
  caps_back [] = refl
  caps_back (c ∷ cs) = refl

  -- Writing the document of a portable configuration and reading it gives a configuration with
  -- the same command, host name, directory, namespaces, limits and capabilities, and the same
  -- environment, or a PATH where it was empty; its network is enabled exactly if the namespaces
  -- have net, and seccomp is disabled, whether or not it was enabled.
  pub oci-trip : Portable config → Returned
  unfolding oci_to_container_config generate_oci_config parse_oci_config post_init
  oci-trip p = (
    refl,
    rw (p.has_hostname) refl,
    env-trip config.env p.has_keys,
    refl,
    namespaces-trip config.namespaces p.has_namespaces,
    resources-trip config.resources p.has_limits,
    caps_back config.capabilities,
    ap (λ names. contains names "net") (namespaces-trip config.namespaces p.has_namespaces),
    refl,
  )

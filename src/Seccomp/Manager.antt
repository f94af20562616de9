-- ===== src/Seccomp/Manager.antt =====
-- `set_no_new_privs`, `install_seccomp_filter`, `apply_seccomp_filter` and the class `Seccomp`.
-- `prctl` is the kernel's: it gets the calls that were made before and the new one, and answers
-- with its return value.
use mini_docker.Base.{
  ℕ, ◌/◌, ◌%◌, ◌^◌, String, Bool, true, false, Option, none, some, List, [], ◌∷◌, ◌++◌, ◌==◌,
  if◌then◌else◌, length, contains, str_eq, lookup,
}
use mini_docker.Seccomp.Bpf.{Insn}
use mini_docker.Seccomp.Encoding.{encode}
use mini_docker.Seccomp.Filter.{build_whitelist_filter}
use mini_docker.Seccomp.Syscalls.{syscalls}
use mini_docker.Seccomp.Whitelist.{allowed_syscalls_whitelist, absolutely_forbidden_syscalls}

-- The two calls of `prctl`; a `sock_fprog` is its length, an unsigned short, and its bytes.
pub data Prctl : Type 0 where
  set_no_new_privs : Prctl
  set_seccomp : ℕ → List ℕ → Prctl

pub data Outcome : Type 0 where
  applied : Outcome
  seccomp_error : Prctl → Outcome
  struct_error : Outcome

-- The whitelist without the forbidden names.
unfoldable pub remove_forbidden : List String → List String
remove_forbidden [] = []
remove_forbidden (name ∷ names) =
    let rest = remove_forbidden names in
    if contains absolutely_forbidden_syscalls name then rest else name ∷ rest

unfoldable pub chosen : Option (List String) → List String
unfolding remove_forbidden
chosen none = remove_forbidden allowed_syscalls_whitelist
chosen (some whitelist) = remove_forbidden whitelist

-- The call that installs a program.
unfoldable pub install_call : List Insn → Prctl
install_call prog = let bytes = encode prog in set_seccomp (length bytes / 8 % 2 ^ 16) bytes

module _ (prctl : List Prctl → Prctl → ℕ) where
  unfoldable pub install_seccomp_filter : List Prctl → List Insn → Outcome × List Prctl
  unfolding install_call
  install_seccomp_filter before prog =
      let call = install_call prog in
      ((if prctl before call == 0 then applied else seccomp_error call), before ++ call ∷ [])

  -- The outcome, and the calls that were made.
  unfoldable pub apply_seccomp_filter : Option (List String) → Outcome × List Prctl
  unfolding chosen install_seccomp_filter
  apply_seccomp_filter whitelist =
      if prctl [] set_no_new_privs == 0
      then (elim (build_whitelist_filter (chosen whitelist)) [
        | none ↦ (struct_error, set_no_new_privs ∷ [])
        | some prog ↦ install_seccomp_filter (set_no_new_privs ∷ []) prog
      ])
      else (seccomp_error set_no_new_privs, set_no_new_privs ∷ [])

pub record Seccomp : Type 0 where
  pub allowed : List String

unfoldable pub init : Bool → Seccomp
init use_default = record { allowed = if use_default then allowed_syscalls_whitelist else [] }

abbrev known : String → Bool
known name = elim (lookup name syscalls) [ none ↦ false | some _ ↦ true ]

unfoldable pub add_allowed : Seccomp → String → Seccomp × Bool
add_allowed s name =
    if contains absolutely_forbidden_syscalls name
    then (s, false)
    else if known name
    then (
      record { allowed = if contains s.allowed name then s.allowed else name ∷ s.allowed },
      true,
    )
    else (s, false)

abbrev pub discard : String → List String → List String
discard name [] = []
discard name (x ∷ xs) = let rest = discard name xs in if str_eq x name then rest else x ∷ rest

unfoldable pub remove_allowed : Seccomp → String → Seccomp
remove_allowed s name = record { allowed = discard name s.allowed }

-- `get_filter_info`, its counts.
unfoldable pub filter_counts : Seccomp → ℕ × ℕ
filter_counts s = (length (remove_forbidden s.allowed), length absolutely_forbidden_syscalls)

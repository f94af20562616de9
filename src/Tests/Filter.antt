-- ===== src/Tests/Filter.antt =====
-- Examples for mini_docker/seccomp.py and mini_docker/capabilities.py.
use mini_docker.Seccomp.Filter.{member}
use mini_docker.Seccomp.Syscalls.{syscalls}
use mini_docker.Seccomp.Whitelist.{absolutely_forbidden_syscalls}
use mini_docker.Base.{
  true, false, none, lookup, filter, length, inl, inr, In, ◌==◌, ℕ, String, ◌≡◌, refl, some, List,
  [], ◌∷◌,
}
use mini_docker.Seccomp.Bpf.{
  SeccompData, audit_arch_x86_64, seccomp_ret_allow, seccomp_ret_kill_process, ret_k,
}
use mini_docker.Seccomp.Filter.{build_whitelist_filter, ◌>>=◌}
use mini_docker.Seccomp.Machine.{machine}
use mini_docker.Seccomp.Verdict.{filter_verdict}
use mini_docker.Seccomp.Forbidden.{forbidden_killed}
use mini_docker.Seccomp.Encoding.{encode, decode, decode-encode}
use mini_docker.Seccomp.Manager.{Seccomp, Prctl}
use mini_docker.Seccomp.Policy.{InstallsFilter, AddsOnly, apply_lem, add_allowed_lem}
use mini_docker.Base.{◌||◌, ◌&&◌, not}
use mini_docker.Capabilities.{capabilities, contains_cap, add_cap, remove_cap}
use mini_docker.Capabilities.Kept.{KeepsOnly, drop_capabilities_except_lem, contains_cap_lem}

-- The number of a system call, from the architecture that the filter checks.
abbrev call_number : ℕ → SeccompData
call_number nr = record { nr = nr; arch = audit_arch_x86_64 }

abbrev asked : List String
asked = "read" ∷ "mount" ∷ "write" ∷ []

filter_verdict_example :
    (do prog ← build_whitelist_filter asked; machine.run prog 0 (call_number 1))
    ≡ some seccomp_ret_allow
unfolding mini_docker.Seccomp.Whitelist.absolutely_forbidden_syscalls
    mini_docker.Seccomp.Syscalls.syscalls
filter_verdict_example = filter_verdict machine asked 0 (call_number 1)

forbidden_killed_example :
    (do prog ← build_whitelist_filter asked; machine.run prog 0 (call_number 165))
    ≡ some seccomp_ret_kill_process
unfolding mini_docker.Seccomp.Whitelist.absolutely_forbidden_syscalls
    mini_docker.Seccomp.Syscalls.syscalls
forbidden_killed_example =
    forbidden_killed machine asked 0 (call_number 165) (inl ("mount", refl, refl))

-- The names that cannot be called and have no entry in the table of the system calls.
unlisted-count :
    length (
      filter
        (λ name. elim (lookup name syscalls) [ none ↦ true | some n ↦ false ])
        absolutely_forbidden_syscalls)
    ≡ 14
unfolding absolutely_forbidden_syscalls syscalls
unlisted-count = refl

decode-encode_example :
    decode (encode (record { code = ret_k; jt = 0; jf = 0; k = seccomp_ret_allow } ∷ []))
    ≡ record { code = ret_k; jt = 0; jf = 0; k = seccomp_ret_allow } ∷ []
decode-encode_example =
    decode-encode (record { code = ret_k; jt = 0; jf = 0; k = seccomp_ret_allow } ∷ [])

abbrev manager : Seccomp
manager = record { allowed = "read" ∷ [] }

add_allowed_lem_example : AddsOnly manager "write"
add_allowed_lem_example = add_allowed_lem manager "write"

-- The second call fails.
abbrev refuses : List Prctl → Prctl → ℕ
refuses [] call = 0
refuses (_ ∷ _) call = 1

apply_lem_example : InstallsFilter refuses (some asked)
apply_lem_example = apply_lem refuses (some asked)

-- CAP_CHOWN, CAP_CHECKPOINT_RESTORE, and a number that no capability has.
drop_capabilities_except_lem_example : KeepsOnly (0 ∷ 40 ∷ 60 ∷ []) 40
drop_capabilities_except_lem_example = drop_capabilities_except_lem (0 ∷ 40 ∷ 60 ∷ []) 40

abbrev some_caps : List ℕ
some_caps = 0 ∷ 5 ∷ []

net_admin-In : In ("CAP_NET_ADMIN", 12) capabilities
unfolding capabilities
net_admin-In = inr (inr (inr (inr (inr (inr (inr (inr (inr (inr (inr (inr (inl refl))))))))))))

contains_cap_lem_example :
    (contains_cap some_caps "CAP_NET_ADMIN" ≡ member some_caps 12)
    × (contains_cap (add_cap some_caps "net_admin") "CAP_NET_ADMIN"
        ≡ (member some_caps 12 || 12 == 12))
    × (contains_cap (remove_cap some_caps "net_admin") "CAP_NET_ADMIN"
        ≡ (member some_caps 12 && not (12 == 12)))
contains_cap_lem_example =
    contains_cap_lem some_caps "net_admin" "CAP_NET_ADMIN" "CAP_NET_ADMIN" "CAP_NET_ADMIN" 12 12
      net_admin-In (inr refl) net_admin-In (inl refl)

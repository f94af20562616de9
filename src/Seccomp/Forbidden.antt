-- ===== src/Seccomp/Forbidden.antt =====
-- The forbidden system calls stay forbidden, whatever whitelist is asked for.
use mini_docker.Base.{
  ℕ, String, ◌≡◌, refl, ◌∙◌, Bool, true, false, not, ◌&&◌, ◌||◌, some, List, [], ◌∷◌, arith,
  if◌then◌else◌, Dict, lookup, contains, eq_iff, Option-cases, Bool-cases, inl, inr, ap, ==_iff,
  ◌==◌, ◌≢◌, ◌⊎◌,
}
use mini_docker.Seccomp.Bpf.{SeccompData, Kernel, seccomp_ret_kill_process}
use mini_docker.Seccomp.Filter.{member, build_whitelist_filter, ◌>>=◌}
use mini_docker.Seccomp.Numbers.{permitted}
use mini_docker.Seccomp.Syscalls.{syscalls}
use mini_docker.Seccomp.Whitelist.{absolutely_forbidden_syscalls}
use mini_docker.Seccomp.Verdict.{filter_verdict}

-- The numbers of the forbidden names.
abbrev forbidden_numbers : Dict ℕ → List ℕ
forbidden_numbers [] = []
forbidden_numbers ((name, n) ∷ table) =
    let rest = forbidden_numbers table in
    if contains absolutely_forbidden_syscalls name then n ∷ rest else rest

member-forbidden_numbers :
    (table : Dict ℕ) (name : String) (n : ℕ)
    → lookup name table ≡ some n
    → contains absolutely_forbidden_syscalls name ≡ true
    → member (forbidden_numbers table) n ≡ true
member-forbidden_numbers [] name n h k = cc
member-forbidden_numbers ((j, m) ∷ table) name n h k =
    ground (arith, member-forbidden_numbers table name n, eq_iff j name)

-- Each entry of the table is forbidden, or its number is none of `numbers`.
abbrev is_apart : List ℕ → Dict ℕ → Bool
is_apart numbers [] = true
is_apart numbers ((name, n) ∷ table) =
    (contains absolutely_forbidden_syscalls name || not (member numbers n))
    && is_apart numbers table

is_apart-lookup :
    (numbers : List ℕ) (table : Dict ℕ) (name : String) (n : ℕ)
    → is_apart numbers table ≡ true
    → lookup name table ≡ some n
    → contains absolutely_forbidden_syscalls name ≡ false
    → member numbers n ≡ false
is_apart-lookup numbers [] name n h e k = cc
is_apart-lookup numbers ((j, m) ∷ table) name n h e k =
    ground (arith, is_apart-lookup numbers table name n, eq_iff j name)

syscalls-is_apart : is_apart (forbidden_numbers syscalls) syscalls ≡ true
unfolding syscalls absolutely_forbidden_syscalls
syscalls-is_apart = refl

permitted-apart :
    (names : List String) (n : ℕ)
    → permitted names n ≡ true
    → member (forbidden_numbers syscalls) n ≡ false
permitted-apart [] n h = cc
permitted-apart (name ∷ names) n h = elim (Option-cases (lookup name syscalls)) [
  | inl e ↦ ground (arith, permitted-apart names n)
  | inr (m, e) ↦ ground (
    arith,
    permitted-apart names n,
    is_apart-lookup (forbidden_numbers syscalls) syscalls name n syscalls-is_apart,
  )
]

permitted-forbidden :
    (names : List String) (name : String) (n : ℕ)
    → contains absolutely_forbidden_syscalls name ≡ true
    → lookup name syscalls ≡ some n
    → permitted names n ≡ false
permitted-forbidden names name n h e = elim (Bool-cases (permitted names n)) [
  | inl k ↦ cc (permitted-apart names n k, member-forbidden_numbers syscalls name n e h)
  | inr k ↦ k
]

-- A number that only forbidden names have in the table: it is that of a forbidden name, or no
-- name of the table has it, as for the forbidden names that have no entry.
abbrev pub Barred : ℕ → Type 0
Barred nr =
    ((name : String) × (contains absolutely_forbidden_syscalls name ≡ true)
      × (lookup name syscalls ≡ some nr))
    ⊎ ((name : String) → lookup name syscalls ≢ some nr)

permitted-unknown :
    (names : List String) (n : ℕ)
    → ((name : String) → lookup name syscalls ≢ some n)
    → permitted names n ≡ false
permitted-unknown [] n h = refl
permitted-unknown (name ∷ names) n h = elim (Option-cases (lookup name syscalls)) [
  | inl e ↦ ground (arith, permitted-unknown names n h)
  | inr (m, e) ↦ elim (Bool-cases (m == n)) [
    | inl f ↦ absurd (h name (e ∙ ap some ((==_iff m n).0 f)))
    | inr f ↦ ground (arith, e, f, permitted-unknown names n h)
  ]
]

permitted-Barred : (names : List String) (n : ℕ) → Barred n → permitted names n ≡ false
permitted-Barred names n (inl (name, h, e)) = permitted-forbidden names name n h e
permitted-Barred names n (inr h) = permitted-unknown names n h

-- A system call kills the process if its number is that of a forbidden name in the table of the
-- system calls, or of no name in the table, whatever whitelist the filter was built from, on every
-- kernel and from every architecture. For a forbidden name that the table lacks, only the second
-- case can hold.
pub forbidden_killed :
    (K : Kernel) (names : List String) (acc : ℕ) (d : SeccompData)
    → Barred d.nr
    → (do prog ← build_whitelist_filter names; K.run prog acc d) ≡ some seccomp_ret_kill_process
forbidden_killed K names acc d h =
    filter_verdict K names acc d ∙ rw (permitted-Barred names d.nr h) (ground arith)

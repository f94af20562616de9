-- ===== src/Seccomp/Filter.antt =====
-- `build_whitelist_filter` and what it calls. `none` is the `struct.error` of a jump too far.
use mini_docker.Base.{
  ℕ, ◌+◌, String, Bool, false, ◌||◌, Option, none, some, List, [], ◌∷◌, ◌++◌, ltb, ◌==◌,
  if◌then◌else◌, length, contains, lookup,
}
use mini_docker.Seccomp.Bpf.{
  Insn, bpf_stmt, bpf_jump, ld_abs, jmp_eq, ret_k, seccomp_ret_kill_process, seccomp_ret_allow,
  audit_arch_x86_64, seccomp_data_nr_offset, seccomp_data_arch_offset,
}
use mini_docker.Seccomp.Syscalls.{syscalls}
use mini_docker.Seccomp.Whitelist.{absolutely_forbidden_syscalls}

abbrev pub member : List ℕ → ℕ → Bool
member [] n = false
member (m ∷ ms) n = m == n || member ms n

-- `set.add`.
unfoldable pub add : ℕ → List ℕ → List ℕ
add n s = if member s n then s else n ∷ s

-- One round of the loop that turns names into numbers.
unfoldable pub add_name : String → List ℕ → List ℕ
add_name name acc =
    if contains absolutely_forbidden_syscalls name
    then acc
    else elim (lookup name syscalls) [ none ↦ acc | some n ↦ add n acc ]

unfoldable pub allowed_numbers : List String → List ℕ → List ℕ
allowed_numbers [] acc = acc
allowed_numbers (name ∷ names) acc = allowed_numbers names (add_name name acc)

-- `sorted`.
abbrev pub insert_sorted : ℕ → List ℕ → List ℕ
insert_sorted n [] = n ∷ []
insert_sorted n (m ∷ ms) = if ltb m n then m ∷ insert_sorted n ms else n ∷ m ∷ ms

unfoldable pub sorted : List ℕ → List ℕ
sorted [] = []
sorted (n ∷ ns) = insert_sorted n (sorted ns)

infixl 10 ◌>>=◌
abbrev pub ◌>>=◌ {ℓ κ} : {A : Type ℓ} {B : Type κ} → Option A → (A → Option B) → Option B
none >>= f = none
some a >>= f = f a

-- `enumerate(sorted_numbers)` with the number of system calls that are left.
unfoldable pub jumps : List ℕ → Option (List Insn)
jumps [] = some []
jumps (nr ∷ rest) = do i ← bpf_jump jmp_eq nr (length rest + 1) 0; is ← jumps rest; some (i ∷ is)

unfoldable pub assemble : List ℕ → Option (List Insn)
assemble numbers = do
  load_arch ← bpf_stmt ld_abs seccomp_data_arch_offset
  check_arch ← bpf_jump jmp_eq audit_arch_x86_64 1 0
  wrong_arch ← bpf_stmt ret_k seccomp_ret_kill_process
  load_nr ← bpf_stmt ld_abs seccomp_data_nr_offset
  tests ← jumps numbers
  kill ← bpf_stmt ret_k seccomp_ret_kill_process
  allow ← bpf_stmt ret_k seccomp_ret_allow
  some (load_arch ∷ check_arch ∷ wrong_arch ∷ load_nr ∷ (tests ++ kill ∷ allow ∷ []))

unfoldable pub build_whitelist_filter : List String → Option (List Insn)
build_whitelist_filter allowed = assemble (sorted (allowed_numbers allowed []))

-- ===== src/Seccomp/Verdict.antt =====
-- What the filter decides, on every kernel that runs classic BPF.
use native.Mathlib.Numerals.{add-one}
use mini_docker.Base.{
  ℕ, suc, ◌+◌, ◌≤◌, ◌<◌, String, ◌≡◌, refl, ap, ◌∙◌, Bool, true, ◌&&◌, some, List, [], ◌∷◌, ◌++◌,
  arith, ◌==◌, if◌then◌else◌, length, drop, Bool-cases, inl, inr, ==_iff,
}
use mini_docker.Seccomp.Bpf.{
  Insn, SeccompData, Kernel, bpf_stmt, bpf_jump, ld_abs, jmp_eq, ret_k, seccomp_ret_kill_process,
  seccomp_ret_allow, audit_arch_x86_64,
}
use mini_docker.Seccomp.Filter.{member, jumps, assemble, build_whitelist_filter, ◌>>=◌}
use mini_docker.Seccomp.Numbers.{permitted}
use mini_docker.Seccomp.Total.{tested, member-tested, length-tested, tested-lt}

-- The instructions that `jumps` returns.
unfoldable pub jump_insns : List ℕ → List Insn
jump_insns [] = []
jump_insns (nr ∷ rest) =
    record { code = jmp_eq; jt = length rest + 1; jf = 0; k = nr } ∷ jump_insns rest

pub length-jump_insns : (ns : List ℕ) → length (jump_insns ns) ≡ length ns
unfolding jump_insns
length-jump_insns [] = refl
length-jump_insns (n ∷ ns) = ap suc (length-jump_insns ns)

abbrev pub tail_insns : List Insn
tail_insns =
    record { code = ret_k; jt = 0; jf = 0; k = seccomp_ret_kill_process }
    ∷ record { code = ret_k; jt = 0; jf = 0; k = seccomp_ret_allow }
    ∷ []

abbrev pub filter_insns : List ℕ → List Insn
filter_insns ns =
    record { code = ld_abs; jt = 0; jf = 0; k = 4 }
    ∷ record { code = jmp_eq; jt = 1; jf = 0; k = audit_arch_x86_64 }
    ∷ record { code = ret_k; jt = 0; jf = 0; k = seccomp_ret_kill_process }
    ∷ record { code = ld_abs; jt = 0; jf = 0; k = 0 }
    ∷ (jump_insns ns ++ tail_insns)

abbrev InRange : List ℕ → Type 0
InRange ns = (n : ℕ) → member ns n ≡ true → n < 4294967296

jumps-eq_some : (ns : List ℕ) → length ns ≤ 255 → InRange ns → jumps ns ≡ some (jump_insns ns)
unfolding jumps jump_insns bpf_jump
jumps-eq_some [] h r = refl
jumps-eq_some (n ∷ ns) h r =
    ground (arith, r n, jumps-eq_some ns (omega arith) (λ m k. r m (ground arith)))

assemble-eq_some :
    (ns : List ℕ) → length ns ≤ 255 → InRange ns → assemble ns ≡ some (filter_insns ns)
unfolding assemble bpf_stmt bpf_jump
assemble-eq_some ns h r = rw (jumps-eq_some ns h r)

pub build-eq_some :
    (names : List String) → build_whitelist_filter names ≡ some (filter_insns (tested names))
unfolding build_whitelist_filter
build-eq_some names =
    assemble-eq_some (tested names) (omega (arith, length-tested names)) (tested-lt names)

drop-jumps :
    (ns : List ℕ) → drop (suc (length ns)) (jump_insns ns ++ tail_insns) ≡ drop 1 tail_insns
unfolding jump_insns
drop-jumps [] = refl
drop-jumps (n ∷ ns) = drop-jumps ns

-- What the default action and a match lead to.
abbrev pub verdict : Bool → ℕ
verdict allowed = if allowed then seccomp_ret_allow else seccomp_ret_kill_process

module _ (K : Kernel) where
  run-allow :
      (ns : List ℕ) (acc : ℕ) (d : SeccompData)
      → K.run (drop (length ns + 1) (jump_insns ns ++ tail_insns)) acc d ≡ some seccomp_ret_allow
  run-allow ns acc d = rw (add-one, drop-jumps ns) (K.return seccomp_ret_allow [] acc d)

  run-jumps :
      (ns : List ℕ) (acc : ℕ) (d : SeccompData)
      → K.run (jump_insns ns ++ tail_insns) acc d ≡ some (verdict (member ns acc))
  unfolding jump_insns
  run-jumps [] acc d = K.return seccomp_ret_kill_process _ acc d
  run-jumps (n ∷ ns) acc d =
      K.jump n (length ns + 1) 0 (jump_insns ns ++ tail_insns) acc d
      ∙ elim (Bool-cases (acc == n)) [
        | inl e ↦ rw e (run-allow ns acc d ∙ ground (arith, ==_iff acc n))
        | inr e ↦ rw e (run-jumps ns acc d ∙ ground (arith, ==_iff acc n))
      ]

  -- Whatever whitelist is asked for, the filter is built, and of each system call it decides:
  -- kill on another architecture, allow a number that some listed name has which is not
  -- forbidden, and kill the process for every other number.
  pub filter_verdict :
      (names : List String) (acc : ℕ) (d : SeccompData)
      → (do prog ← build_whitelist_filter names; K.run prog acc d)
        ≡ some (verdict (d.arch == audit_arch_x86_64 && permitted names d.nr))
  filter_verdict names acc d = rw (build-eq_some names) (
      K.load_arch _ acc d
      ∙ K.jump audit_arch_x86_64 1 0 _ d.arch d
      ∙ elim (Bool-cases (d.arch == audit_arch_x86_64)) [
        | inl e ↦
            rw e (
              K.load_nr _ d.arch d
              ∙ run-jumps (tested names) d.nr d
              ∙ rw (member-tested names d.nr))
        | inr e ↦ rw e (K.return seccomp_ret_kill_process _ d.arch d)
      ])

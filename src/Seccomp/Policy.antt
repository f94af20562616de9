-- ===== src/Seccomp/Policy.antt =====
-- What applying a filter does, and what the class `Seccomp` promises.
use mini_docker.Base.{
  ℕ, ◌*◌, ◌/◌, ◌%◌, ◌≤◌, String, ◌≡◌, ◌≢◌, refl, sym, ap, ◌∙◌, true, false, not, ◌&&◌, ◌||◌, Option,
  none, some, List, [], ◌∷◌, arith, ◌==◌, if◌then◌else◌, length, length-append, contains, str_eq,
  eq_iff, lookup, Option-cases, inl, inr, ◌↔◌,
}
use mini_docker.Seccomp.Bpf.{Insn, Kernel, SeccompData, audit_arch_x86_64}
use mini_docker.Seccomp.Encoding.{encode, length-encode, decode, decode-encode}
use mini_docker.Seccomp.Filter.{◌>>=◌}
use mini_docker.Seccomp.Syscalls.{syscalls}
use mini_docker.Seccomp.Whitelist.{allowed_syscalls_whitelist, absolutely_forbidden_syscalls}
use mini_docker.Seccomp.Numbers.{permitted}
use mini_docker.Seccomp.Verdict.{
  verdict, filter_verdict, filter_insns, build-eq_some, jump_insns, tail_insns, length-jump_insns,
}
use mini_docker.Seccomp.Total.{tested, length-tested}
use mini_docker.Seccomp.Manager.{
  Prctl, set_no_new_privs, set_seccomp, applied, seccomp_error, remove_forbidden, chosen,
  install_call, apply_seccomp_filter, Seccomp, add_allowed,
}

contains-remove_forbidden :
    (names : List String) (x : String)
    → contains (remove_forbidden names) x
      ≡ (contains names x && not (contains absolutely_forbidden_syscalls x))
unfolding remove_forbidden
contains-remove_forbidden [] x = refl
contains-remove_forbidden (name ∷ names) x =
    ground (arith, contains-remove_forbidden names x, eq_iff name x)

-- Removing the forbidden names beforehand changes nothing of what a filter permits.
pub permitted-remove_forbidden :
    (names : List String) (n : ℕ) → permitted (remove_forbidden names) n ≡ permitted names n
unfolding remove_forbidden
permitted-remove_forbidden [] n = refl
permitted-remove_forbidden (name ∷ names) n = ground (arith, permitted-remove_forbidden names n)

-- The program that a whitelist stands for.
abbrev program : Option (List String) → List Insn
program whitelist = filter_insns (tested (chosen whitelist))

length-program : (w : Option (List String)) → length (program w) ≤ 256
length-program w = omega (
  arith,
  length-append (jump_insns (tested (chosen w))) tail_insns,
  length-jump_insns (tested (chosen w)),
  length-tested (chosen w),
)

-- The length field holds the number of instructions.
length_field : (n : ℕ) → n ≤ 256 → 8 * n / 8 % 65536 ≡ n
length_field n h = omega arith

install_call-eq :
    (is : List Insn) → length is ≤ 256 → install_call is ≡ set_seccomp (length is) (encode is)
unfolding install_call
install_call-eq is h = rw (length-encode is, length_field (length is) h)

-- The names that are asked for, the default ones where there is no whitelist.
abbrev pub asked : Option (List String) → List String
asked none = allowed_syscalls_whitelist
asked (some names) = names

permitted-chosen :
    (whitelist : Option (List String)) (n : ℕ)
    → permitted (chosen whitelist) n ≡ permitted (asked whitelist) n
unfolding chosen
permitted-chosen none n = permitted-remove_forbidden allowed_syscalls_whitelist n
permitted-chosen (some names) n = permitted-remove_forbidden names n

-- A kernel that runs the program allows, on x86-64, the calls with the number of a name that is
-- asked for and not forbidden, and kills the process for all others.
abbrev pub Decides : List String → List Insn → Type 0
Decides names prog =
    (K : Kernel) (acc : ℕ) (d : SeccompData)
    → K.run prog acc d ≡ some (verdict (d.arch == audit_arch_x86_64 && permitted names d.nr))

program-Decides : (whitelist : Option (List String)) → Decides (asked whitelist) (program whitelist)
program-Decides whitelist K acc d =
    let verdicts = filter_verdict K (chosen whitelist) acc d in
    sym (ap (λ built. do prog ← built; K.run prog acc d) (build-eq_some (chosen whitelist)))
    ∙ verdicts
    ∙ ap (λ b. some (verdict (d.arch == audit_arch_x86_64 && b))) (permitted-chosen whitelist d.nr)

module _ (prctl : List Prctl → Prctl → ℕ) (whitelist : Option (List String)) where
  -- The calls of `prctl` for the program of the whitelist, and the outcome.
  abbrev pub InstallsFilter : Type 0
  InstallsFilter =
      (prog : List Insn) × Decides (asked whitelist) prog
      × (decode (encode prog) ≡ prog)
      × (let call = set_seccomp (length prog) (encode prog) in
          apply_seccomp_filter prctl whitelist ≡ (
            if prctl [] set_no_new_privs == 0
            then (
              (if prctl (set_no_new_privs ∷ []) call == 0 then applied else seccomp_error call),
              set_no_new_privs ∷ call ∷ [],
            )
            else (seccomp_error set_no_new_privs, set_no_new_privs ∷ [])))

  -- Applying a filter sets NO_NEW_PRIVS before it installs anything. If that fails nothing else
  -- is tried; otherwise the one call that follows carries the number of instructions and the bytes
  -- of a program that allows, on x86-64, exactly the numbers of the names of the whitelist, or of
  -- the default one, that are not forbidden, and kills the process for all others, and its return
  -- value decides. The program is always built.
  pub apply_lem : InstallsFilter
  unfolding apply_seccomp_filter
  apply_lem = (
    program whitelist,
    program-Decides whitelist,
    decode-encode _,
    rw (build-eq_some (chosen whitelist), install_call-eq _ (length-program whitelist))
        (ground arith),
  )

contains-eq :
    (names : List String) (x y : String) → x ≡ y → contains names x ≡ true → contains names y ≡ true
contains-eq names x y e h = cc

-- When `add_allowed` succeeds, and what the whitelist has then.
abbrev pub AddsOnly : Seccomp → String → Type 0
AddsOnly s name =
    ((add_allowed s name).1 ≡ true
      ↔ ((contains absolutely_forbidden_syscalls name ≡ false) × (lookup name syscalls ≢ none)))
    × ((x : String)
        → contains (add_allowed s name).0.allowed x
          ≡ (contains s.allowed x || (add_allowed s name).1 && str_eq name x))

-- `add_allowed` succeeds exactly for a known name that is not forbidden, and then adds that name
-- and nothing else; otherwise the whitelist is unchanged.
pub add_allowed_lem : (s : Seccomp) (name : String) → AddsOnly s name
unfolding add_allowed
add_allowed_lem s name = elim (Option-cases (lookup name syscalls)) [
  | inl e ↦ (ground arith, λ x. ground arith)
  | inr (n, e) ↦ (ground arith, λ x. ground (arith, contains-eq s.allowed name x, eq_iff name x))
]

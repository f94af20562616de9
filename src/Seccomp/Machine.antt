-- ===== src/Seccomp/Machine.antt =====
-- A run of classic BPF that meets what the filter relies on.
use mini_docker.Base.{
  ℕ, zero, suc, ◌≡◌, refl, Option, none, some, List, [], ◌∷◌, ◌==◌, if◌then◌else◌, drop,
}
use mini_docker.Seccomp.Bpf.{Insn, SeccompData, Kernel, ld_abs, jmp_eq}

word : ℕ → SeccompData → ℕ
word k d = if k == 0 then d.nr else d.arch

-- The first argument counts the instructions that are still to be skipped.
go : ℕ → List Insn → ℕ → SeccompData → Option ℕ
go skip [] acc d = none
go (suc skip) (i ∷ rest) acc d = go skip rest acc d
go zero (i ∷ rest) acc d =
    let loaded = go zero rest (word i.k d) d in
    let jumped = go (if acc == i.k then i.jt else i.jf) rest acc d in
    if i.code == ld_abs then loaded else if i.code == jmp_eq then jumped else some i.k

go-drop :
    (n : ℕ) (rest : List Insn) (acc : ℕ) (d : SeccompData)
    → go n rest acc d ≡ go zero (drop n rest) acc d
unfolding go
go-drop zero rest acc d = refl
go-drop (suc n) [] acc d = refl
go-drop (suc n) (i ∷ rest) acc d = go-drop n rest acc d

pub machine : Kernel
unfolding go word
machine = record {
  run = go zero;
  load_nr = λ rest acc d. refl;
  load_arch = λ rest acc d. refl;
  jump = λ k jt jf rest acc d. go-drop (if acc == k then jt else jf) rest acc d;
  return = λ k rest acc d. refl;
}

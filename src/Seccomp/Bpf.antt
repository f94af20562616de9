-- ===== src/Seccomp/Bpf.antt =====
-- The BPF instructions that mini_docker/seccomp.py writes, and what it relies on of the kernel.
use Prim.Native.Nat.{bit_or}
use mini_docker.Base.{
  ℕ, ◌/◌, ◌%◌, ◌^◌, ◌≡◌, Bool, ◌&&◌, Option, none, some, List, [], ◌∷◌, ◌++◌, ltb, ◌==◌,
  if◌then◌else◌, drop,
}

abbrev pub bpf_ld : ℕ
bpf_ld = 0x00

abbrev pub bpf_jmp : ℕ
bpf_jmp = 0x05

abbrev pub bpf_ret : ℕ
bpf_ret = 0x06

abbrev pub bpf_w : ℕ
bpf_w = 0x00

abbrev pub bpf_abs : ℕ
bpf_abs = 0x20

abbrev pub bpf_jeq : ℕ
bpf_jeq = 0x10

abbrev pub bpf_k : ℕ
bpf_k = 0x00

-- BPF_LD | BPF_W | BPF_ABS, BPF_JMP | BPF_JEQ | BPF_K and BPF_RET | BPF_K
abbrev pub ld_abs : ℕ
ld_abs = bit_or (bit_or bpf_ld bpf_w) bpf_abs

abbrev pub jmp_eq : ℕ
jmp_eq = bit_or (bit_or bpf_jmp bpf_jeq) bpf_k

abbrev pub ret_k : ℕ
ret_k = bit_or bpf_ret bpf_k

abbrev pub seccomp_ret_kill_process : ℕ
seccomp_ret_kill_process = 0x80000000

abbrev pub seccomp_ret_allow : ℕ
seccomp_ret_allow = 0x7FFF0000

abbrev pub audit_arch_x86_64 : ℕ
audit_arch_x86_64 = 0xC000003E

abbrev pub seccomp_data_nr_offset : ℕ
seccomp_data_nr_offset = 0

abbrev pub seccomp_data_arch_offset : ℕ
seccomp_data_arch_offset = 4

-- `struct sock_filter`.
pub record Insn : Type 0 where
  pub code : ℕ
  pub jt : ℕ
  pub jf : ℕ
  pub k : ℕ

-- The 16 bits and the 32 bits of the format "HBBI", low byte first.
abbrev u16_bytes : ℕ → List ℕ
u16_bytes n = n % 256 ∷ n / 256 ∷ []

abbrev u32_bytes : ℕ → List ℕ
u32_bytes n = n % 256 ∷ n / 256 % 256 ∷ n / 65536 % 256 ∷ n / 16777216 ∷ []

-- The values that `struct.pack("HBBI", ...)` takes; it raises `struct.error` for others.
abbrev pub fits : Insn → Bool
fits i = ltb i.code (2 ^ 16) && ltb i.jt 256 && ltb i.jf 256 && ltb i.k (2 ^ 32)

-- The eight bytes of an instruction.
unfoldable pub pack : Insn → List ℕ
pack i = u16_bytes i.code ++ i.jt ∷ i.jf ∷ u32_bytes i.k

abbrev pub checked : Insn → Option Insn
checked i = if fits i then some i else none

unfoldable pub bpf_stmt : ℕ → ℕ → Option Insn
bpf_stmt code k = checked (record { code = code; jt = 0; jf = 0; k = k })

unfoldable pub bpf_jump : ℕ → ℕ → ℕ → ℕ → Option Insn
bpf_jump code k jt jf = checked (record { code = code; jt = jt; jf = jf; k = k })

-- `struct seccomp_data`, as far as the filter reads it.
pub record SeccompData : Type 0 where
  pub nr : ℕ
  pub arch : ℕ

-- What the filter relies on of the kernel's classic BPF: `run` executes the instructions that
-- are left with the accumulator; jumps are relative and go forward.
pub record Kernel : Type 0 where
  pub run : List Insn → ℕ → SeccompData → Option ℕ
  pub load_nr :
      (rest : List Insn) (acc : ℕ) (d : SeccompData)
      → run (record { code = ld_abs; jt = 0; jf = 0; k = seccomp_data_nr_offset } ∷ rest) acc d
        ≡ run rest d.nr d
  pub load_arch :
      (rest : List Insn) (acc : ℕ) (d : SeccompData)
      → run (record { code = ld_abs; jt = 0; jf = 0; k = seccomp_data_arch_offset } ∷ rest) acc d
        ≡ run rest d.arch d
  pub jump :
      (k jt jf : ℕ) (rest : List Insn) (acc : ℕ) (d : SeccompData)
      → run (record { code = jmp_eq; jt = jt; jf = jf; k = k } ∷ rest) acc d
        ≡ run (drop (if acc == k then jt else jf) rest) acc d
  pub return :
      (k : ℕ) (rest : List Insn) (acc : ℕ) (d : SeccompData)
      → run (record { code = ret_k; jt = 0; jf = 0; k = k } ∷ rest) acc d ≡ some k

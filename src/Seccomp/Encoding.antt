-- ===== src/Seccomp/Encoding.antt =====
-- The bytes of a program, as `struct.pack` writes them and `struct sock_filter` is read.
use mini_docker.Base.{ℕ, ◌+◌, ◌*◌, ◌/◌, ◌%◌, ◌≡◌, refl, List, [], ◌∷◌, ◌++◌, arith, length}
use mini_docker.Seccomp.Bpf.{Insn, pack}

-- `b"".join(filter_parts)`.
unfoldable pub encode : List Insn → List ℕ
encode [] = []
encode (i ∷ is) = pack i ++ encode is

-- Eight bytes to an instruction.
pub decode : List ℕ → List Insn
decode (a ∷ b ∷ jt ∷ jf ∷ c ∷ d ∷ e ∷ f ∷ rest) =
    record { code = a + b * 256; jt = jt; jf = jf; k = c + d * 256 + e * 65536 + f * 16777216 }
    ∷ decode rest
decode _ = []

pack-value :
    (k : ℕ) → k % 256 + k / 256 % 256 * 256 + k / 65536 % 256 * 65536 + k / 16777216 * 16777216 ≡ k
pack-value k = omega arith

-- A program is read back from its bytes.
pub decode-encode : (is : List Insn) → decode (encode is) ≡ is
unfolding decode encode pack
decode-encode [] = refl
decode-encode (i ∷ is) = ground (arith, pack-value i.k, decode-encode is)

pub length-encode : (is : List Insn) → length (encode is) ≡ 8 * length is
unfolding encode pack
length-encode [] = refl
length-encode (i ∷ is) = omega (arith, length-encode is)

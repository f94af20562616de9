-- ===== src/Pod/Sharing.antt =====
-- The shared namespaces of a pod, and the list of its containers.
use mini_docker.Base.{
  String, ◌≡◌, refl, ap, ◌∙◌, Bool, true, false, not, ◌&&◌, Option, none, some, List, [], ◌∷◌,
  arith, str_eq, contains, eq_iff, Bool-cases, inl, inr,
}
use mini_docker.Pod.{without_net, agree}

contains-without_net :
    (ns : List String) (x : String)
    → contains (without_net ns) x ≡ (not (str_eq "net" x) && contains ns x)
unfolding without_net
contains-without_net [] x = ground arith
contains-without_net (n ∷ ns) x =
    ground (arith, contains-without_net ns x, eq_iff n x, eq_iff "net" x, eq_iff n "net")

without_net-idempotent : (ns : List String) → without_net (without_net ns) ≡ without_net ns
unfolding without_net
without_net-idempotent [] = refl
without_net-idempotent (n ∷ ns) = ground (arith, without_net-idempotent ns)

without_net-absent : (ns : List String) → contains ns "net" ≡ false → without_net ns ≡ ns
unfolding without_net
without_net-absent [] h = refl
without_net-absent (n ∷ ns) h = ground (arith, without_net-absent ns)

agree-twice : (ns : List String) → agree (some (contains ns "net")) ns ≡ (contains ns "net", ns)
unfolding agree
agree-twice ns = elim (Bool-cases (contains ns "net")) [
  | inl e ↦ rw (e, e, agree) refl
  | inr e ↦ rw (e, agree) (ap (λ m. (false, m)) (without_net-absent ns e))
]

-- The flag and the namespaces that `agree` gives, by what it is given.
abbrev pub Agrees : Option Bool → List String → Type 0
Agrees network namespaces =
    let (flag, chosen) = agree network namespaces in
    (contains chosen "net" ≡ flag)
    × ((x : String) → str_eq "net" x ≡ false → contains chosen x ≡ contains namespaces x)
    × (agree (some flag) chosen ≡ (flag, chosen))

-- The flag that `agree` gives says whether "net" is among the namespaces that it gives; "net"
-- aside, these are the namespaces it is given; and what it gives is left as it is by `agree`.
pub agree_lem : (network : Option Bool) (namespaces : List String) → Agrees network namespaces
unfolding agree
agree_lem none namespaces = (refl, λ x h. refl, agree-twice namespaces)
agree_lem (some true) namespaces = (ground arith, λ x h. ground arith, ground arith)
agree_lem (some false) namespaces = (
  rw (contains-without_net namespaces "net") refl,
  λ x h. contains-without_net namespaces x ∙ (rw h refl),
  ap (λ ns. (false, ns)) (without_net-idempotent namespaces),
)

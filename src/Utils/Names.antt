-- ===== src/Utils/Names.antt =====
-- `generate_container_name` of mini_docker/utils.py; `random.choice` is a parameter.
use mini_docker.Base.{
  ℕ, ◌≤◌, String, ◌<>◌, ◌≡◌, ◌≢◌, refl, ap, ◌∙◌, Bool, true, false, ◌&&◌, List, [], ◌∷◌, ◌++◌,
  arith, leb, leb→le, all, In, inl, inr, codes, length, length-append,
}
use Prim.Native.Char.{code}
use Prim.Native.String.append.{nil, cons}
use mini_docker.Utils.Words.{adjectives, animals}

unfoldable pub generate_container_name : (List String → String) → String
generate_container_name choice = choice adjectives <> "-" <> choice animals

abbrev pub is_lower : ℕ → Bool
is_lower c = leb b'a' c && leb c b'z'

-- A word of lower-case letters, with at most so many.
abbrev is_word : ℕ → String → Bool
is_word most word = all is_lower (codes word) && leb (length (codes word)) most

all-In : {A : Type 0} (p : A → Bool) (xs : List A) (x : A) → all p xs ≡ true → In x xs → p x ≡ true
all-In p [] x h i = absurd i
all-In p (y ∷ ys) x h (inl e) = rw e (ground (arith, h))
all-In p (y ∷ ys) x h (inr i) = all-In p ys x (ground (arith, h)) i

codes-append : (s t : String) → codes (s <> t) ≡ codes s ++ codes t
codes-append String.[] t = ap codes (nil t)
codes-append (String.◌∷◌ c s) t = ap codes (cons c s t) ∙ ap (λ r. code c ∷ r) (codes-append s t)

adjectives-words : all (is_word 13) adjectives ≡ true
adjectives-words = refl

animals-words : all (is_word 11) animals ≡ true
animals-words = refl

both : (a b : Bool) → (a && b) ≡ true → (a ≡ true) × (b ≡ true)
both true true h = (refl, refl)
both true false h = absurd cc
both false b h = absurd cc

-- A name is a word of the one list, a hyphen, and a word of the other.
abbrev pub Joined : List String → List String → String → Type 0
Joined firsts seconds name =
    (left : String) × (right : String) × In left firsts
    × In right seconds
    × (name ≡ left <> "-" <> right)
    × (all is_lower (codes left) ≡ true)
    × (all is_lower (codes right) ≡ true)
    × (length (codes name) ≤ 25)

-- Whatever elements of its two lists the random choice gives, the name is one of the adjectives
-- and one of the animals with a hyphen between them, both words have lower-case letters only, and
-- the name has at most 25 characters.
pub generate_container_name_lem :
    (choice : List String → String)
    → ((words : List String) → words ≢ [] → In (choice words) words)
    → Joined adjectives animals (generate_container_name choice)
unfolding generate_container_name
generate_container_name_lem choice picks =
    let left = choice adjectives in
    let right = choice animals in
    let i = picks adjectives (λ e. absurd cc) in
    let j = picks animals (λ e. absurd cc) in
    let (l, m) = both _ _ (all-In (is_word 13) adjectives left adjectives-words i) in
    let (r, n) = both _ _ (all-In (is_word 11) animals right animals-words j) in
    let text =
      codes-append left ("-" <> right) ∙ ap (λ t. codes left ++ t) (codes-append "-" right) in
    (
      left,
      right,
      i,
      j,
      refl,
      l,
      r,
      omega (
        arith,
        ap length text,
        length-append (codes left) (b'-' ∷ codes right),
        leb→le (length (codes left)) 13 m,
        leb→le (length (codes right)) 11 n,
      ),
    )

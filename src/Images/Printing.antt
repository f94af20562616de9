-- ===== src/Images/Printing.antt =====
-- Build files of mini_docker/image_builder.py, written one instruction to a line, and the names
-- of the images.
use mini_docker.Base.{
  ℕ, ◌≡◌, ◌≢◌, refl, ap, true, false, not, none, some, List, [], ◌∷◌, ◌++◌, arith, ◌==◌, codes, all,
  All, Bool-cases, inl, inr,
}
use mini_docker.Capabilities.{upper}
use mini_docker.Utils.Text.{is_space, split, prepend, strip, lstrip}
use mini_docker.Images.Parse.{
  Instruction, take_word, split_once, is_skipped, ends_backslash, parse_lines, parse_image_file,
  cut_first, cut_last, built_name, sought_name,
}

-- The line of an instruction.
abbrev pub line_of : Instruction → List ℕ
line_of (name, args) = name ++ b' ' ∷ args

abbrev pub print : List Instruction → List ℕ
print [] = []
print (i ∷ is) = line_of i ++ 10 ∷ print is

-- An instruction that is on one line: its name is a word in capitals, its arguments begin with no
-- white space, and the line has none at its ends, no line break, no backslash at its end, and is
-- no comment.
pub record Plain (i : Instruction) : Type 0 where
  pub has_name : i.0 ≢ []
  pub is_word : all (λ c. not (is_space c)) i.0 ≡ true
  pub is_capital : upper i.0 ≡ i.0
  pub args_trimmed : lstrip i.1 ≡ i.1
  pub trimmed : strip (line_of i) ≡ line_of i
  pub one_line : all (λ c. not (c == 10)) (line_of i) ≡ true
  pub no_backslash : ends_backslash (line_of i) ≡ false
  pub no_comment : is_skipped (line_of i) ≡ false

split-line :
    (line rest : List ℕ)
    → all (λ c. not (c == 10)) line ≡ true
    → split 10 (line ++ 10 ∷ rest) ≡ line ∷ split 10 rest
unfolding split
split-line [] rest h = refl
split-line (c ∷ cs) rest h = elim (Bool-cases (c == 10)) [
  | inl e ↦ absurd (ground (arith, e, h))
  | inr e ↦ rw e (ap (prepend c) (split-line cs rest (ground (arith, e, h))))
]

take_word-word :
    (word rest : List ℕ)
    → all (λ c. not (is_space c)) word ≡ true
    → take_word (word ++ b' ' ∷ rest) ≡ (word, b' ' ∷ rest)
unfolding take_word
take_word-word [] rest h = refl
take_word-word (c ∷ cs) rest h = elim (Bool-cases (is_space c)) [
  | inl e ↦ absurd (ground (arith, e, h))
  | inr e ↦ rw (e, take_word-word cs rest (ground (arith, e, h))) refl
]

-- Splitting the line gives the name and the arguments.
split_once-Plain : (i : Instruction) → Plain i → split_once (line_of i) ≡ some i
unfolding split_once
split_once-Plain ([], args) p = absurd (p.has_name refl)
split_once-Plain (c ∷ cs, args) p = elim (Bool-cases (is_space c)) [
  | inl e ↦ absurd (first_word c cs p.is_word e)
  | inr e ↦
      rw (e, split_once)
        (rw (e, take_word-word cs args (ground (arith, e, p.is_word))) (rw p.args_trimmed refl))
]
  where
    first_word :
        (c : ℕ) (cs : List ℕ) → all (λ c. not (is_space c)) (c ∷ cs) ≡ true → is_space c ≡ true → ⊥
    first_word c cs h e = ground (arith, e, h)

-- Printing plain instructions, one to a line, and parsing the text gives the instructions.
pub parse-print : (is : List Instruction) → All Plain is → parse_image_file (print is) ≡ is
unfolding parse_image_file parse_lines split strip
parse-print [] ps = refl
parse-print (i ∷ is) (p, ps) = rw (split-line (line_of i) (print is) p.one_line) (
    rw (p.trimmed, p.no_comment, p.no_backslash, split_once-Plain i p, p.is_capital)
      (ap (λ rest. i ∷ rest) (parse-print is ps)))

-- Names of images, with a colon before the tag.
cut_first-tag :
    (name tag : List ℕ)
    → all (λ c. not (c == b':')) name ≡ true
    → cut_first (name ++ b':' ∷ tag) ≡ some (name, tag)
unfolding cut_first
cut_first-tag [] tag h = refl
cut_first-tag (c ∷ cs) tag h = elim (Bool-cases (c == b':')) [
  | inl e ↦ absurd (ground (arith, e, h))
  | inr e ↦ rw (e, cut_first-tag cs tag (ground (arith, e, h))) refl
]

cut_first-none : (name : List ℕ) → all (λ c. not (c == b':')) name ≡ true → cut_first name ≡ none
unfolding cut_first
cut_first-none [] h = refl
cut_first-none (c ∷ cs) h = elim (Bool-cases (c == b':')) [
  | inl e ↦ absurd (ground (arith, e, h))
  | inr e ↦ rw (e, cut_first-none cs (ground (arith, e, h))) refl
]

cut_last-none : (tag : List ℕ) → all (λ c. not (c == b':')) tag ≡ true → cut_last tag ≡ none
unfolding cut_last
cut_last-none [] h = refl
cut_last-none (c ∷ cs) h = elim (Bool-cases (c == b':')) [
  | inl e ↦ absurd (ground (arith, e, h))
  | inr e ↦ rw (cut_last-none cs (ground (arith, e, h)), cut_last) (rw e refl)
]

cut_last-tag :
    (name tag : List ℕ)
    → all (λ c. not (c == b':')) tag ≡ true
    → cut_last (name ++ b':' ∷ tag) ≡ some (name, tag)
unfolding cut_last
cut_last-tag [] tag h = rw (cut_last-none tag h, cut_last) refl
cut_last-tag (c ∷ cs) tag h = rw (cut_last-tag cs tag h, cut_last) refl

-- For a name that is not empty and a tag, neither with a colon, the name and the tag that `build`
-- gives an image called name:tag are those that are looked for under name:tag, and the same holds
-- for the name alone, which stands for the tag "latest".
pub sought-built :
    (c : ℕ) (cs tag : List ℕ)
    → all (λ c. not (c == b':')) (c ∷ cs) ≡ true
    → all (λ c. not (c == b':')) tag ≡ true
    → (sought_name (c ∷ cs ++ b':' ∷ tag) ≡ (c ∷ cs, tag))
      × (built_name (c ∷ cs ++ b':' ∷ tag) ≡ (c ∷ cs, tag))
      × (sought_name (c ∷ cs) ≡ (c ∷ cs, codes "latest"))
      × (built_name (c ∷ cs) ≡ (c ∷ cs, codes "latest"))
unfolding sought_name built_name
sought-built c cs tag h t = (
  rw (cut_first-tag (c ∷ cs) tag h, sought_name) refl,
  rw (cut_last-tag (c ∷ cs) tag t, built_name) refl,
  rw (cut_first-none (c ∷ cs) h, sought_name) refl,
  rw (cut_last-none (c ∷ cs) h, built_name) refl,
)

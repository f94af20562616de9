-- ===== src/Images/Parse.antt =====
-- `parse_image_file` of mini_docker/image_builder.py, and the names of images.
use mini_docker.Base.{
  ℕ, Bool, true, false, Option, none, some, List, [], ◌∷◌, ◌++◌, ◌==◌, if◌then◌else◌, codes,
}
use mini_docker.Capabilities.{upper}
use mini_docker.Utils.Text.{is_space, split, strip, lstrip, rstrip}

-- An instruction in capitals, and its arguments.
abbrev pub Instruction : Type 0
Instruction = List ℕ × List ℕ

-- The first word of a text, and what follows it.
unfoldable pub take_word : List ℕ → List ℕ × List ℕ
take_word [] = ([], [])
take_word (c ∷ cs) =
    let (word, rest) = take_word cs in if is_space c then ([], c ∷ cs) else (c ∷ word, rest)

-- `s.split(None, 1)`: nothing, or the first word and the rest without its leading white space.
unfoldable pub split_once : List ℕ → Option (List ℕ × List ℕ)
unfolding take_word
split_once s = elim (lstrip s) [
  | [] ↦ none
  | c ∷ cs ↦ let (word, rest) = take_word (c ∷ cs) in some (word, lstrip rest)
]

-- `not stripped or stripped.startswith("#")`
abbrev pub is_skipped : List ℕ → Bool
is_skipped [] = true
is_skipped (c ∷ cs) = c == b'#'

-- `stripped.endswith("\\")`
abbrev pub ends_backslash : List ℕ → Bool
ends_backslash [] = false
ends_backslash (c ∷ []) = c == 92
ends_backslash (c ∷ d ∷ cs) = ends_backslash (d ∷ cs)

-- `stripped[:-1]`
abbrev pub without_last : List ℕ → List ℕ
without_last [] = []
without_last (c ∷ []) = []
without_last (c ∷ d ∷ cs) = c ∷ without_last (d ∷ cs)

abbrev pub add_instruction : Option (List ℕ × List ℕ) → List Instruction → List Instruction
add_instruction none rest = rest
add_instruction (some (word, args)) rest = (upper word, args) ∷ rest

-- The loop over the lines, with `current_line`. What is left of it at the end is dropped.
unfoldable pub parse_lines : List (List ℕ) → List ℕ → List Instruction
unfolding split_once
parse_lines [] current = []
parse_lines (line ∷ lines) current =
    let stripped = strip line in
    let skipped = parse_lines lines current in
    let continued = parse_lines lines (current ++ (rstrip (without_last stripped) ++ b' ' ∷ [])) in
    let rest = parse_lines lines [] in
    if is_skipped stripped
    then skipped
    else if ends_backslash stripped
    then continued
    else add_instruction (split_once (current ++ stripped)) rest

-- `parse_image_file`
unfoldable pub parse_image_file : List ℕ → List Instruction
unfolding parse_lines
parse_image_file content = parse_lines (split 10 content) []

-- `s.split(":", 1)` of `resolve_image_path`, where there is a colon, with the default tag.
unfoldable pub cut_first : List ℕ → Option (List ℕ × List ℕ)
cut_first [] = none
cut_first (c ∷ cs) =
    let rest = cut_first cs in
    if c == b':'
    then some ([], cs)
    else (elim rest [ none ↦ none | some (name, tag) ↦ some (c ∷ name, tag) ])

-- `s.rsplit(":", 1)` of `build`.
unfoldable pub cut_last : List ℕ → Option (List ℕ × List ℕ)
cut_last [] = none
cut_last (c ∷ cs) = elim (cut_last cs) [
  | some (name, tag) ↦ some (c ∷ name, tag)
  | none ↦ if c == b':' then some ([], cs) else none
]

abbrev pub with_latest : List ℕ → Option (List ℕ × List ℕ) → List ℕ × List ℕ
with_latest name none = (name, codes "latest")
with_latest name (some parts) = parts

-- The name and the tag that `build` gives an image.
unfoldable pub built_name : List ℕ → List ℕ × List ℕ
unfolding cut_last
built_name name = let chosen = or_image name in with_latest chosen (cut_last chosen)
  where
    or_image : List ℕ → List ℕ
    or_image [] = codes "image"
    or_image (c ∷ cs) = c ∷ cs

-- Those that `resolve_image_path` and `remove_image` look for.
unfoldable pub sought_name : List ℕ → List ℕ × List ℕ
unfolding cut_first
sought_name name = with_latest name (cut_first name)

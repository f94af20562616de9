-- ===== src/Images/Lookup.antt =====
-- The look-up of images in `resolve_image_path` and `remove_image` of mini_docker/image_builder.py.
use mini_docker.Base.{
  ℕ, String, ◌≡◌, refl, Bool, true, false, not, ◌&&◌, ◌⊎◌, Option, none, some, List, [], ◌∷◌, arith,
  starts_with, codes, all, In, Bool-cases, inl, inr,
}
use mini_docker.Capabilities.{same_text}
use mini_docker.Images.Build.{Image, find_by_id, find_by_name, find_image}
use mini_docker.Images.Parse.{sought_name}

abbrev pub has_prefix : String → Image → Bool
has_prefix prefix image = starts_with image.id prefix

abbrev pub is_called : List ℕ × List ℕ → Image → Bool
is_called target image = same_text image.name target.0 && same_text image.tag target.1

-- An image of the list that passes the test, or none does.
abbrev pub Passes : (Image → Bool) → List Image → Option Image → Type 0
Passes p images none = all (λ image. not (p image)) images ≡ true
Passes p images (some image) = In image images × (p image ≡ true)

Passes-later :
    (p : Image → Bool) (image : Image) (images : List Image) (found : Option Image)
    → p image ≡ false
    → Passes p images found
    → Passes p (image ∷ images) found
Passes-later p image images none e f = ground (arith, e, f)
Passes-later p image images (some found) e (i, f) = (inr i, f)

by_id-Passes :
    (prefix : String) (images : List Image)
    → Passes (has_prefix prefix) images (find_by_id prefix images)
unfolding find_by_id
by_id-Passes prefix [] = refl
by_id-Passes prefix (image ∷ images) = elim (Bool-cases (has_prefix prefix image)) [
  | inl e ↦ rw (e, find_by_id) (inl refl, e)
  | inr e ↦
      rw (e, find_by_id)
        (Passes-later (has_prefix prefix) image images _ e (by_id-Passes prefix images))
]

by_name-Passes :
    (target : List ℕ × List ℕ) (images : List Image)
    → Passes (is_called target) images (find_by_name target images)
unfolding find_by_name
by_name-Passes target [] = refl
by_name-Passes target (image ∷ images) = elim (Bool-cases (is_called target image)) [
  | inl e ↦ rw (e, find_by_name) (inl refl, e)
  | inr e ↦
      rw (e, find_by_name)
        (Passes-later (is_called target) image images _ e (by_name-Passes target images))
]

-- What a look-up may return.
abbrev pub Sought : String → List Image → Option Image → Type 0
Sought key images found =
    let target = sought_name (codes key) in
    ((image : Image) × (found ≡ some image) × In image images × (has_prefix key image ≡ true))
    ⊎ ((all (λ image. not (has_prefix key image)) images ≡ true)
        × Passes (is_called target) images found)

-- A look-up returns an image of the list whose identifier begins with the key, or, where there is
-- none, an image of the list that has the name and the tag that the key stands for; and it
-- returns nothing only where no image has that name and tag either.
pub find_image_lem :
    (key : String) (images : List Image) → Sought key images (find_image key images)
unfolding find_image
find_image_lem key images = chosen (find_by_id key images) (by_id-Passes key images)
  where
    chosen :
        (found : Option Image)
        → Passes (has_prefix key) images found
        → Sought key images (elim found [
          | some image ↦ some image
          | none ↦ find_by_name (sought_name (codes key)) images
        ])
    chosen (some image) (i, e) = inl (image, refl, i, e)
    chosen none e = inr (e, by_name-Passes (sought_name (codes key)) images)

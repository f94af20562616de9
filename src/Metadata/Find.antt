-- ===== src/Metadata/Find.antt =====
-- What `find_container_id` returns.
use mini_docker.Base.{
  String, ◌≡◌, ◌⊎◌, inl, inr, refl, ap, Bool, true, false, ◌&&◌, ◌||◌, Option, none, some, List, [],
  ◌∷◌, arith, str_eq, starts_with, lookup, Dict, length, contains, eq_iff, eq_refl, Bool-cases,
  Option-cases, ◌≤◌,
}
use mini_docker.Errors.{Result, ok, err, container_lookup_ambiguity}
use mini_docker.Metadata.Files.{
  container_exists, is_named, find_name, prefix_matches, decide_matches, find_container_id,
  list_container_ids, insert_id,
}
use mini_docker.World.{Os, ConfigFile}

contains-insert_id :
    (id x : String) (ids : List String)
    → contains (insert_id id ids) x ≡ (str_eq id x || contains ids x)
contains-insert_id id x [] = refl
contains-insert_id id x (j ∷ ids) = ground (arith, contains-insert_id id x ids)

-- The listing has the directories, and nothing else.
pub contains-list_container_ids :
    (files : Dict ConfigFile) (x : String)
    → contains (list_container_ids files) x
      ≡ (elim (lookup x files) [ none ↦ false | some _ ↦ true ])
unfolding list_container_ids
contains-list_container_ids [] x = refl
contains-list_container_ids ((id, file) ∷ files) x =
    ground (
      arith,
      contains-insert_id id x (list_container_ids files),
      contains-list_container_ids files x,
    )

starts_with-eq :
    (s t prefix : String) → str_eq s t ≡ true → starts_with s prefix ≡ starts_with t prefix
starts_with-eq s t prefix e = ap (λ u. starts_with u prefix) ((eq_iff s t).0 e)

contains-prefix_matches :
    (prefix x : String) (ids : List String)
    → contains (prefix_matches prefix ids) x ≡ (contains ids x && starts_with x prefix)
contains-prefix_matches prefix x [] = refl
contains-prefix_matches prefix x (id ∷ ids) =
    ground (arith, contains-prefix_matches prefix x ids, starts_with-eq id x prefix)

module _ (os : Os) (files : Dict ConfigFile) (prefix : String) where
  is_named-eq :
      (i j : String) (b : Bool)
      → str_eq i j ≡ true
      → is_named os files prefix i ≡ b
      → is_named os files prefix j ≡ b
  is_named-eq i j b e h = cc ((eq_iff i j).0 e)

  -- A name that is found stands in the listing, and its file has the name.
  find_name_sound :
      (ids : List String) (id : String)
      → find_name os files prefix ids ≡ some id
      → (contains ids id ≡ true) × (is_named os files prefix id ≡ true)
  unfolding find_name
  find_name_sound [] id h = cc
  find_name_sound (j ∷ ids) id h =
      ground (arith, find_name_sound ids id, is_named-eq j id true, eq_iff j id)

  find_name_complete :
      (ids : List String) (id : String)
      → find_name os files prefix ids ≡ none
      → contains ids id ≡ true
      → is_named os files prefix id ≡ false
  unfolding find_name
  find_name_complete [] id h k = cc
  find_name_complete (j ∷ ids) id h k =
      ground (arith, find_name_complete ids id, is_named-eq j id false)

  -- The directory is listed.
  abbrev pub listed : String → Bool
  listed id = contains (list_container_ids files) id

  -- The reasons for a result: an identifier is returned for the file of that very name, or the
  -- name that a listed file has, or the only listed identifier with the prefix; nothing is
  -- returned where there is no reason for any; two or more with the prefix are an error.
  abbrev pub Resolved : Result (Option String) → Type 0
  Resolved (ok (some id)) =
      ((id ≡ prefix) × (container_exists files prefix ≡ true))
      ⊎ ((container_exists files prefix ≡ false)
          × (listed id ≡ true)
          × (is_named os files prefix id ≡ true))
      ⊎ ((container_exists files prefix ≡ false)
          × (listed id && starts_with id prefix ≡ true)
          × ((j : String)
              → listed j ≡ true
              → (is_named os files prefix j ≡ false) × (starts_with j prefix ≡ true → j ≡ id)))
  Resolved (ok none) =
      (prefix ≡ "")
      ⊎ ((container_exists files prefix ≡ false)
          × ((j : String)
              → listed j ≡ true
              → (is_named os files prefix j ≡ false) × (starts_with j prefix ≡ false)))
  Resolved (err e) =
      (matches : List String) × (e ≡ container_lookup_ambiguity prefix matches)
      × (2 ≤ length matches)
      × (container_exists files prefix ≡ false)
      × ((j : String)
          → (contains matches j ≡ (listed j && starts_with j prefix))
            × (listed j ≡ true → is_named os files prefix j ≡ false))

  decide_matches-Resolved :
      (matches : List String)
      → container_exists files prefix ≡ false
      → find_name os files prefix (list_container_ids files) ≡ none
      → ((j : String) → contains matches j ≡ (listed j && starts_with j prefix))
      → Resolved (decide_matches prefix matches)
  unfolding decide_matches
  decide_matches-Resolved [] e n h =
      inr (e, λ j l. (find_name_complete (list_container_ids files) j n l, ground (arith, h j)))
  decide_matches-Resolved (id ∷ []) e n h = inr (
      inr (
        e,
        ground (arith, h id, eq_refl id),
        λ j l. (
          find_name_complete (list_container_ids files) j n l,
          λ s. ground (arith, h j, eq_iff id j),
        ),
      ))
  decide_matches-Resolved (id ∷ j ∷ ids) e n h =
      (_, refl, omega arith, e, λ k. (h k, find_name_complete (list_container_ids files) k n))

  search-Resolved :
      container_exists files prefix ≡ false
      → Resolved (elim (find_name os files prefix (list_container_ids files)) [
        | some id ↦ ok (some id)
        | none ↦ decide_matches prefix (prefix_matches prefix (list_container_ids files))
      ])
  search-Resolved e = elim (Option-cases (find_name os files prefix (list_container_ids files))) [
    | inl n ↦ rw n (
        decide_matches-Resolved (prefix_matches prefix (list_container_ids files)) e n
          (λ j. contains-prefix_matches prefix j (list_container_ids files)))
    | inr (id, n) ↦
        let s = find_name_sound (list_container_ids files) id n in rw n (inr (inl (e, s.0, s.1)))
  ]

  -- An identifier is returned only for the directory of that very name, a listed file with that
  -- name, or the only listed identifier with that prefix. Nothing is returned only for the empty
  -- text, or where no directory, name or prefix fits. The error is raised only with all the listed
  -- identifiers that have the prefix, at least two, where no directory and no file has the name.
  pub find_container_id_lem : Resolved (find_container_id os files prefix)
  unfolding find_container_id
  find_container_id_lem = elim (Bool-cases (str_eq prefix "")) [
    | inl e ↦ rw e (inl ((eq_iff prefix "").0 e))
    | inr e ↦ rw e (elim (Bool-cases (container_exists files prefix)) [
      | inl x ↦ rw x (inl (refl, x))
      | inr x ↦ rw x (search-Resolved x)
    ])
  ]

-- ===== src/Errors.antt =====
-- The exceptions of the runtime, and the computations that may raise them.
use mini_docker.Base.{String, List}

pub data Error : Type 0 where
  -- container.py
  container_error : Error
  container_not_found : String → Error
  container_invalid_state : String → Error
  container_invalid_request : Error
  container_internal_error : Error
  -- metadata.py: the identifier and what it matches
  container_lookup_ambiguity : String → List String → Error
  -- network.py and pod.py
  network_error : Error
  pod_error : Error
  -- filesystem.py, namespaces.py, cgroups.py and capabilities.py
  filesystem_error : Error
  namespace_error : Error
  cgroup_error : Error
  capability_error : Error
  -- image_builder.py
  image_error build_error : Error
  -- Python's own
  runtime_error : Error
  os_error : Error
  attribute_error : Error

pub data Result {ℓ} (A : Type ℓ) : Type ℓ where
  ok : A → Result A
  err : Error → Result A

-- What was written before an exception stays written, so the state comes back beside it.
abbrev pub Exec {ℓ} : Type ℓ → Type ℓ → Type ℓ
Exec S A = S → Result A × S

abbrev pub continue {ℓ} : {S A B : Type ℓ} → Result A → (A → Exec S B) → Exec S B
continue (ok a) f s = f a s
continue (err e) f s = (err e, s)

unfoldable pub pure {ℓ} : {S A : Type ℓ} → A → Exec S A
pure a s = (ok a, s)

unfoldable pub raise {ℓ} : {S A : Type ℓ} → Error → Exec S A
raise e s = (err e, s)

unfoldable pub lift {ℓ} : {S A : Type ℓ} → Result A → Exec S A
lift r s = (r, s)

unfoldable pub gets {ℓ} : {S A : Type ℓ} → (S → A) → Exec S A
gets f s = (ok (f s), s)

unfoldable pub modify : {S : Type 0} → (S → S) → Exec S Unit
modify f s = (ok tt, f s)

-- `try: m except: handler`, where the handler sees what was raised.
unfoldable pub catch {ℓ} : {S A : Type ℓ} → Exec S A → (Error → Exec S A) → Exec S A
catch m handler s = let (r, s') = m s in elim r [ ok a ↦ (ok a, s') | err e ↦ handler e s' ]

infixl 10 ◌>>=◌ ◌>>◌
-- To unfold this is to unfold the ways above too.
unfoldable pub ◌>>=◌ {ℓ} : {S A B : Type ℓ} → Exec S A → (A → Exec S B) → Exec S B
unfolding pure raise lift gets modify catch
◌>>=◌ m f s = let (r, s') = m s in continue r f s'

abbrev pub ◌>>◌ {ℓ} : {S A B : Type ℓ} → Exec S A → Exec S B → Exec S B
m >> n = m >>= λ _. n

-- ===== src/Images/Layers.antt =====
-- The layers that `build` of mini_docker/image_builder.py makes.
use mini_docker.Base.{
  ℕ, String, ◌≢◌, ◌==◌, ◌≡◌, refl, sym, ap, ◌∙◌, Bool, true, false, not, List, [], ◌∷◌, ◌++◌,
  append-nil, append_assoc, if◌then◌else◌, map, codes,
}
use mini_docker.Errors.{Error, Result, ok, err, Exec, continue, ◌>>=◌, pure, raise, gets, modify}
use mini_docker.Capabilities.{same_text}
use mini_docker.Utils.Text.{words}
use mini_docker.Images.Parse.{Instruction, parse_image_file, built_name}
use mini_docker.Images.Build.{
  Builder, Layer, Maker, Image, create_layer, copy, handle_from, handle_run, handle_copy,
  process_instruction, process_all, build, build_all, empty_builder, image_of, copy_parts,
}

-- A layer as the instruction that made it.
abbrev pub key : Layer → Instruction
key layer = (layer.instruction, layer.command)

abbrev pub made : List Layer → List Instruction
made layers = map key layers

-- What an instruction makes: a layer for FROM, RUN and COPY.
abbrev pub layers_of : Instruction → List Instruction
layers_of (name, args) =
    if same_text name (codes "FROM")
    then (codes "FROM", args) ∷ []
    else if same_text name (codes "RUN")
    then (codes "RUN", args) ∷ []
    else if same_text name (codes "COPY")
    then (codes "COPY", args) ∷ []
    else []

abbrev pub all_layers : List Instruction → List Instruction
all_layers [] = []
all_layers (i ∷ is) = layers_of i ++ all_layers is

made-append : (xs ys : List Layer) → made (xs ++ ys) ≡ made xs ++ made ys
made-append [] ys = refl
made-append (x ∷ xs) ys = ap (λ t. key x ∷ t) (made-append xs ys)

-- Where it returns, these layers were added.
record Adds {A : Type 0} (es : List Instruction) (m : Exec Builder A) : Type 0 where
  run : (b : Builder) (a : A) → (m b).0 ≡ ok a → made (m b).1.layers ≡ made b.layers ++ es

module _ {A : Type 0} where
  Adds-pure : (a : A) → Adds [] (pure a)
  unfolding pure
  Adds-pure a = record { run = λ b c h. sym (append-nil _) }

  Adds-raise : (es : List Instruction) (e : Error) → Adds es (raise {A = A} e)
  unfolding raise
  Adds-raise es e = record { run = λ b c h. absurd cc }

  Adds-gets : (f : Builder → A) → Adds [] (gets f)
  unfolding gets
  Adds-gets f = record { run = λ b c h. sym (append-nil _) }

  Adds-if :
      (b : Bool) (m n : Exec Builder A) (es fs : List Instruction)
      → Adds es m
      → Adds fs n
      → Adds (if b then es else fs) (if b then m else n)
  Adds-if true m n es fs am an = am
  Adds-if false m n es fs am an = an

  Adds-same :
      (b : Bool) (m n : Exec Builder A) (es : List Instruction)
      → Adds es m
      → Adds es n
      → Adds es (if b then m else n)
  Adds-same true m n es am an = am
  Adds-same false m n es am an = an

Adds-modify :
    (f : Builder → Builder) → ((b : Builder) → (f b).layers ≡ b.layers) → Adds [] (modify f)
unfolding modify
Adds-modify f e = record { run = λ b c h. ap made (e b) ∙ sym (append-nil _) }

module _ {A B : Type 0} where
  after :
      (r : Result A) (f : A → Exec Builder B) (b : Builder) (before : List Instruction)
      (es fs : List Instruction) (c : B)
      → ((a : A) → r ≡ ok a → made b.layers ≡ before ++ es)
      → ((a : A) → Adds fs (f a))
      → (continue r f b).0 ≡ ok c
      → made (continue r f b).1.layers ≡ before ++ (es ++ fs)
  after (ok a) f b before es fs c m af h =
      (af a).run b c h ∙ ap (λ t. t ++ fs) (m a refl) ∙ append_assoc before es fs
  after (err e) f b before es fs c m af h = absurd cc

  Adds-bind :
      (m : Exec Builder A) (f : A → Exec Builder B) (es fs : List Instruction)
      → Adds es m
      → ((a : A) → Adds fs (f a))
      → Adds (es ++ fs) (m >>= f)
  unfolding ◌>>=◌
  Adds-bind m f es fs am af = record {
    run = λ b c h.
        let (r, b') = m b in after r f b' (made b.layers) es fs c (λ a e. am.run b a e) af h;
  }

module _ (maker : Maker) where
  create-Adds : (name args : List ℕ) → Adds ((name, args) ∷ []) (create_layer maker name args)
  unfolding create_layer ◌>>=◌
  create-Adds name args = record { run = λ b c h. made-append b.layers _ }

  copy-Adds : (sources : List (List ℕ)) → Adds [] (copy maker sources)
  unfolding copy
  copy-Adds sources =
      Adds-bind _ _ [] [] (Adds-gets _)
        (λ layers. Adds-same (maker.copies layers sources) _ _ [] (Adds-pure tt) (Adds-raise [] _))

  from-Adds : (args : List ℕ) → Adds ((codes "FROM", args) ∷ []) (handle_from maker args)
  unfolding handle_from
  from-Adds args =
      Adds-same _ _ _ ((codes "FROM", args) ∷ [])
        (Adds-bind _ _ ((codes "FROM", args) ∷ []) [] (create-Adds _ _) (λ _. copy-Adds _))
        (Adds-raise _ _)

  check-Adds : (b : Bool) (e : Error) → Adds [] (if b then raise e else pure tt)
  check-Adds b e = Adds-same b _ _ [] (Adds-raise [] e) (Adds-pure tt)

  run-Adds : (args : List ℕ) → Adds ((codes "RUN", args) ∷ []) (handle_run maker args)
  unfolding handle_run
  run-Adds args = Adds-bind _ _ [] ((codes "RUN", args) ∷ []) (Adds-gets _) (λ ready.
      Adds-same (not ready) _ _ ((codes "RUN", args) ∷ []) (Adds-raise _ _) (
        Adds-bind _ _ ((codes "RUN", args) ∷ []) [] (create-Adds _ _) (λ _.
          Adds-bind _ _ [] [] (copy-Adds _) (λ _.
            Adds-bind _ _ [] [] (check-Adds (not maker.is_root) _) (λ _.
              Adds-bind _ _ [] [] (check-Adds (not maker.has_chroot) _) (λ _.
                Adds-bind _ _ [] [] (Adds-gets _)
                  (λ code. Adds-same (code == 0) _ _ [] (Adds-pure tt) (Adds-raise [] _))))))))

  copy_sources-Adds :
      (args : List ℕ) (parts : List (List ℕ))
      → Adds ((codes "COPY", args) ∷ []) (copy_parts maker args parts)
  unfolding copy_parts
  copy_sources-Adds args [] = Adds-raise _ _
  copy_sources-Adds args (dest ∷ []) = Adds-raise _ _
  copy_sources-Adds args (source ∷ next ∷ rest) =
      Adds-bind _ _ ((codes "COPY", args) ∷ []) [] (create-Adds _ _)
        (λ _. Adds-bind _ _ [] [] (copy-Adds _) (λ _. copy-Adds _))

  copy_instruction-Adds :
      (args : List ℕ) → Adds ((codes "COPY", args) ∷ []) (handle_copy maker args)
  unfolding handle_copy
  copy_instruction-Adds args = Adds-bind _ _ [] ((codes "COPY", args) ∷ []) (Adds-gets _) (λ ready.
      Adds-same (not ready) _ _ ((codes "COPY", args) ∷ []) (Adds-raise _ _)
        (copy_sources-Adds args (words args)))

  process-Adds : (i : Instruction) → Adds (layers_of i) (process_instruction maker i)
  unfolding process_instruction
  process-Adds (name, args) = Adds-if (same_text name (codes "FROM")) _ _ _ _ (from-Adds args) (
      Adds-if (same_text name (codes "RUN")) _ _ _ _ (run-Adds args) (
        Adds-if (same_text name (codes "COPY")) _ _ _ _ (copy_instruction-Adds args) (
          Adds-same (same_text name (codes "ENV")) _ _ [] (Adds-modify _ (λ b. refl)) (
            Adds-same (same_text name (codes "WORKDIR")) _ _ [] (Adds-modify _ (λ b. refl)) (
              Adds-same (same_text name (codes "CMD")) _ _ [] (Adds-modify _ (λ b. refl)) (
                Adds-same (same_text name (codes "ENTRYPOINT")) _ _ [] (Adds-modify _ (λ b. refl))
                  (Adds-pure tt)))))))

  process_all-Adds : (is : List Instruction) → Adds (all_layers is) (process_all maker is)
  unfolding process_all
  process_all-Adds [] = Adds-pure tt
  process_all-Adds (i ∷ is) =
      Adds-bind _ _ (layers_of i) (all_layers is) (process-Adds i) (λ _. process_all-Adds is)

  -- If a build returns an image, then the build file has an instruction, the layers of the image
  -- are those of its FROM, RUN and COPY instructions, in their order and with their arguments, and
  -- the image has the given identifier, and the name and the tag that the given name stands for.
  pub build_lem :
      (id : String) (name content : List ℕ) (image : Image)
      → (build maker id name content empty_builder).0 ≡ ok image
      → (made image.layers ≡ all_layers (parse_image_file content))
        × (parse_image_file content ≢ [])
        × (image.id ≡ id)
        × ((image.name, image.tag) ≡ built_name name)
  unfolding build build_all ◌>>=◌
  build_lem id name content image h = built (parse_image_file content) h
    where
      -- What is known of the builder at the end.
      finished :
          (is : List Instruction) (r : Result Unit) (b : Builder)
          → (r ≡ ok tt → made b.layers ≡ all_layers is)
          → (continue r (λ _ b. (ok (image_of id name b), b)) b).0 ≡ ok image
          → (made image.layers ≡ all_layers is)
            × (image.id ≡ id)
            × ((image.name, image.tag) ≡ built_name name)
      finished is (ok _) b m h =
          let e : image ≡ image_of id name b = cc in rw e (m refl, refl, refl)
      finished is (err e) b m h = absurd cc

      built :
          (is : List Instruction)
          → (build_all maker id name is empty_builder).0 ≡ ok image
          → (made image.layers ≡ all_layers is)
            × (is ≢ [])
            × (image.id ≡ id)
            × ((image.name, image.tag) ≡ built_name name)
      built [] h = absurd cc
      built (i ∷ is) h =
          let (r, b) = process_all maker (i ∷ is) empty_builder in
          let (m, e, n) =
            finished (i ∷ is) r b (λ e. (process_all-Adds (i ∷ is)).run empty_builder tt e) h in
          (m, λ e. absurd cc, e, n)

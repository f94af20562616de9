-- ===== src/Workload/Steps.antt =====
-- Computations of a container's process that start no program, and the events they add to its
-- trace: one rule for each way to build one.
use mini_docker.Base.{
  ap, ◌≡◌, refl, sym, ◌∙◌, Bool, true, false, List, [], ◌∷◌, ◌++◌, append-nil, append_assoc,
  if◌then◌else◌, any, any-append, arith,
}
use mini_docker.Errors.{Error, Result, ok, err, Exec, continue, ◌>>=◌, pure, raise, catch}
use mini_docker.World.{World}
use mini_docker.Workload.Process.{
  Kernel, Process, Event, Syscall, sys_execvp, perform, ask, on_world,
}

-- The program took the place of the process.
abbrev pub started : Event → Bool
started (sys_execvp command, done) = done
started (call, done) = false

abbrev pub Starts : List Event → Type 0
Starts es = any started es ≡ true

abbrev pub StartsNot : List Event → Type 0
StartsNot es = any started es ≡ false

-- Whatever the outcome, the trace grows by events that start no program; where the computation
-- returns, they are as `P` says.
pub record Steps {A : Type 0} (P : List Event → Type 0) (m : Exec Process A) : Type 0 where
  pub run :
      (s : Process)
      → (es : List Event) × ((m s).1.trace ≡ s.trace ++ es)
        × StartsNot es
        × ((a : A) → (m s).0 ≡ ok a → P es)

-- What is known of the value that a computation returns.
pub record Returns {A : Type 0} (V : A → Type 0) (m : Exec Process A) : Type 0 where
  pub value : (s : Process) (a : A) → (m s).0 ≡ ok a → V a

module _ {A B : Type 0} (U : A → Type 0) (V : B → Type 0) where
  returned :
      (r : Result A) (f : A → Exec Process B) (s : Process)
      → ((a : A) → r ≡ ok a → U a)
      → ((a : A) → U a → Returns V (f a))
      → (b : B) → (continue r f s).0 ≡ ok b
      → V b
  returned (ok a) f s u vf b h = (vf a (u a refl)).value s b h
  returned (err x) f s u vf b h = absurd cc

  pub Returns-bind_value :
      (m : Exec Process A) (f : A → Exec Process B)
      → Returns U m
      → ((a : A) → U a → Returns V (f a))
      → Returns V (m >>= f)
  unfolding ◌>>=◌
  Returns-bind_value m f um vf = record {
    value = λ s b h. let (r, s') = m s in returned r f s' (um.value s) vf b h;
  }

module _ {A B : Type 0} (V : B → Type 0) where
  pub Returns-bind :
      (m : Exec Process A) (f : A → Exec Process B)
      → ((a : A) → Returns V (f a))
      → Returns V (m >>= f)
  Returns-bind m f vf =
      Returns-bind_value (λ _. Unit) V m f (record { value = λ s a h. tt }) (λ a _. vf a)

module _ {A : Type 0} (V : A → Type 0) where
  pub Returns-pure : (a : A) → V a → Returns V (pure a)
  unfolding pure
  Returns-pure a v = record { value = λ s b h. let e : b ≡ a = cc in rw e v }

-- Nothing is said of the events; they are these; one of them passes a test.
abbrev pub Any : List Event → Type 0
Any es = Unit

abbrev pub Only : List Event → List Event → Type 0
Only events es = es ≡ events

abbrev pub Has : (Event → Bool) → List Event → Type 0
Has p es = any p es ≡ true

pub StartsNot-append : (xs ys : List Event) → StartsNot xs → StartsNot ys → StartsNot (xs ++ ys)
StartsNot-append xs ys hx hy = any-append started xs ys ∙ (rw (hx, hy) refl)

module _ {A : Type 0} where
  pub Steps-weaken :
      (P Q : List Event → Type 0) (m : Exec Process A)
      → ((es : List Event) → P es → Q es)
      → Steps P m
      → Steps Q m
  Steps-weaken P Q m f sm = record {
    run = λ s. let (es, grows, quiet, h) = sm.run s in (es, grows, quiet, λ a e. f es (h a e));
  }

  pub Steps-Any : (P : List Event → Type 0) (m : Exec Process A) → Steps P m → Steps Any m
  Steps-Any P m sm = Steps-weaken P Any m (λ es h. tt) sm

  pub Steps-pure : (a : A) → Steps (Only []) (pure a)
  unfolding pure
  Steps-pure a = record { run = λ s. ([], sym (append-nil _), refl, λ b e. refl) }

  pub Steps-raise : (P : List Event → Type 0) (e : Error) → Steps P (raise {A = A} e)
  unfolding raise
  Steps-raise P e = record { run = λ s. ([], sym (append-nil _), refl, λ b h. absurd cc) }

  pub Steps-ask : (answer : List Event → A) → Steps (Only []) (ask answer)
  unfolding ask
  Steps-ask answer = record { run = λ s. ([], sym (append-nil _), refl, λ b e. refl) }

  pub Steps-on_world : (m : Exec World A) → Steps (Only []) (on_world m)
  unfolding on_world
  Steps-on_world m = record { run = λ s. ([], sym (append-nil _), refl, λ b e. refl) }

  pub Steps-if :
      (P : List Event → Type 0) (b : Bool) (m n : Exec Process A)
      → Steps P m
      → Steps P n
      → Steps P (if b then m else n)
  Steps-if P true m n sm sn = sm
  Steps-if P false m n sm sn = sn

  pub Only-if :
      (b : Bool) (m n : Exec Process A) (es fs : List Event)
      → Steps (Only es) m
      → Steps (Only fs) n
      → Steps (Only (if b then es else fs)) (if b then m else n)
  Only-if true m n es fs sm sn = sm
  Only-if false m n es fs sm sn = sn

-- The events of two computations, one after the other.
abbrev pub Both : (List Event → Type 0) → (List Event → Type 0) → List Event → Type 0
Both P Q es = (xs : List Event) × (ys : List Event) × (es ≡ xs ++ ys) × P xs × Q ys

module _ {A B : Type 0} (P Q : List Event → Type 0) (V : A → Type 0) where
  Steps-continue :
      (r : Result A) (f : A → Exec Process B) (before xs : List Event) (s : Process)
      → s.trace ≡ before ++ xs
      → StartsNot xs
      → ((a : A) → r ≡ ok a → P xs)
      → ((a : A) → r ≡ ok a → V a)
      → ((a : A) → V a → Steps Q (f a))
      → (es : List Event) × ((continue r f s).1.trace ≡ before ++ es)
        × StartsNot es
        × ((b : B) → (continue r f s).0 ≡ ok b → Both P Q es)
  Steps-continue (ok a) f before xs s e q p v sf =
      let (ys, grows, quiet, h) = (sf a (v a refl)).run s in
      (
        xs ++ ys,
        grows ∙ ap (λ t. t ++ ys) e ∙ append_assoc before xs ys,
        StartsNot-append xs ys q quiet,
        λ b r. (xs, ys, refl, p a refl, h b r),
      )
  Steps-continue (err x) f before xs s e q p v sf = (xs, e, q, λ b h. absurd cc)

  -- `V` is known of what the first part returns.
  pub Steps-bind_value :
      (m : Exec Process A) (f : A → Exec Process B)
      → Steps P m
      → Returns V m
      → ((a : A) → V a → Steps Q (f a))
      → Steps (Both P Q) (m >>= f)
  unfolding ◌>>=◌
  Steps-bind_value m f sm vm sf = record {
    run = λ s.
        let (xs, grows, quiet, p) = sm.run s in
        let (r, s') = m s in Steps-continue r f s.trace xs s' grows quiet p (vm.value s) sf;
  }

module _ {A B : Type 0} (P Q : List Event → Type 0) where
  pub Steps-bind :
      (m : Exec Process A) (f : A → Exec Process B)
      → Steps P m
      → ((a : A) → Steps Q (f a))
      → Steps (Both P Q) (m >>= f)
  Steps-bind m f sm sf =
      Steps-bind_value P Q (λ _. Unit) m f sm (record { value = λ s a h. tt }) (λ a _. sf a)

module _ {A : Type 0} (P : List Event → Type 0) where
  -- What is known of the handler's events must stay true after those of the failure.
  pub Steps-catch :
      (m : Exec Process A) (h : Error → Exec Process A)
      → ((xs ys : List Event) → P ys → P (xs ++ ys))
      → Steps P m
      → ((e : Error) → Steps P (h e))
      → Steps P (catch m h)
  unfolding catch
  Steps-catch m h closed sm sh = record {
    run = λ s.
        let (xs, grows, quiet, p) = sm.run s in
        let (r, s') = m s in handled r s.trace xs s' grows quiet p;
  }
    where
      handled :
          (r : Result A) (before xs : List Event) (s : Process)
          → s.trace ≡ before ++ xs
          → StartsNot xs
          → ((a : A) → r ≡ ok a → P xs)
          → (es : List Event) × ((elim r as (λ _. Result A × Process) [
            | ok a ↦ (ok a, s)
            | err e ↦ h e s
          ]).1.trace
              ≡ before ++ es)
            × StartsNot es
            × ((b : A)
                → (elim r as (λ _. Result A × Process) [ ok a ↦ (ok a, s) | err e ↦ h e s ]).0
                  ≡ ok b
                → P es)
      handled (ok a) before xs s e q p = (xs, e, q, λ b r. p a refl)
      handled (err x) before xs s e q p =
          let (ys, grows, quiet, k) = (sh x).run s in
          (
            xs ++ ys,
            grows ∙ ap (λ t. t ++ ys) e ∙ append_assoc before xs ys,
            StartsNot-append xs ys q quiet,
            λ b r. closed xs ys (k b r),
          )

module _ {A B : Type 0} (m : Exec Process A) (f : A → Exec Process B) where
  pub Any-bind : Steps Any m → ((a : A) → Steps Any (f a)) → Steps Any (m >>= f)
  Any-bind sm sf = Steps-Any (Both Any Any) (m >>= f) (Steps-bind Any Any m f sm sf)

  pub Only-bind :
      (es fs : List Event)
      → Steps (Only es) m
      → ((a : A) → Steps (Only fs) (f a))
      → Steps (Only (es ++ fs)) (m >>= f)
  Only-bind es fs sm sf =
      Steps-weaken (Both (Only es) (Only fs)) (Only (es ++ fs)) (m >>= f)
        (λ all (xs, ys, e, p, q). cc) (Steps-bind (Only es) (Only fs) m f sm sf)

  -- The event is among those of the first part, or of the second.
  pub Has-first :
      (p : Event → Bool) → Steps (Has p) m → ((a : A) → Steps Any (f a)) → Steps (Has p) (m >>= f)
  Has-first p sm sf =
      Steps-weaken (Both (Has p) Any) (Has p) (m >>= f)
        (λ all (xs, ys, e, h, _). ap (any p) e ∙ any-append p xs ys ∙ (rw h refl))
        (Steps-bind (Has p) Any m f sm sf)

  pub Has-second :
      (p : Event → Bool) → Steps Any m → ((a : A) → Steps (Has p) (f a)) → Steps (Has p) (m >>= f)
  Has-second p sm sf =
      Steps-weaken (Both Any (Has p)) (Has p) (m >>= f)
        (λ all (xs, ys, e, _, h). ap (any p) e ∙ any-append p xs ys ∙ (ground (arith, h)))
        (Steps-bind Any (Has p) m f sm sf)

module _ {A : Type 0} (m : Exec Process A) (h : Error → Exec Process A) where
  pub Any-catch : Steps Any m → ((e : Error) → Steps Any (h e)) → Steps Any (catch m h)
  Any-catch sm sh = Steps-catch Any m h (λ xs ys _. tt) sm sh

  pub Has-catch :
      (p : Event → Bool)
      → Steps (Has p) m
      → ((e : Error) → Steps (Has p) (h e))
      → Steps (Has p) (catch m h)
  Has-catch p sm sh =
      Steps-catch (Has p) m h (λ xs ys q. any-append p xs ys ∙ (ground (arith, q))) sm sh

module _ {A : Type 0} (m : Exec Process A) where
  -- A handler that raises says nothing of the events.
  pub Only-catch :
      (es : List Event) (e : Error) → Steps (Only es) m → Steps (Only es) (catch m (λ _. raise e))
  unfolding catch raise
  Only-catch es e sm = record {
    run = λ s.
        let (xs, grows, quiet, p) = sm.run s in
        let (r, s') = m s in handled r s.trace xs s' grows quiet p;
  }
    where
      handled :
          (r : Result A) (before xs : List Event) (s : Process)
          → s.trace ≡ before ++ xs
          → StartsNot xs
          → ((a : A) → r ≡ ok a → Only es xs)
          → (all : List Event) × ((elim r as (λ _. Result A × Process) [
            | ok a ↦ (ok a, s)
            | err x ↦ (err e, s)
          ]).1.trace
              ≡ before ++ all)
            × StartsNot all
            × ((b : A)
                → (elim r as (λ _. Result A × Process) [ ok a ↦ (ok a, s) | err x ↦ (err e, s) ]).0
                  ≡ ok b
                → Only es all)
      handled (ok a) before xs s g q p = (xs, g, q, λ b r. p a refl)
      handled (err x) before xs s g q p = (xs, g, q, λ b r. absurd cc)

abbrev pub verdict : Error → Bool → Result {0} Unit
verdict e done = if done then ok tt else err e

pub performed : (e : Error) (done : Bool) (a : Unit) → verdict e done ≡ ok a → done ≡ true
performed e true a h = refl
performed e false a h = absurd cc

module _ (k : Kernel) where
  -- A call that is not the start of a program adds itself, as done where it returns.
  pub Steps-perform :
      (e : Error) (call : Syscall)
      → ((done : Bool) → started (call, done) ≡ false)
      → Steps (Only ((call, true) ∷ [])) (perform k e call)
  unfolding perform
  Steps-perform e call quiet = record {
    run = λ s.
        let done = k.does s.trace call in
        (
          (call, done) ∷ [],
          refl,
          rw (quiet done) refl,
          λ a h. ap (λ b. (call, b) ∷ []) (performed e done a h),
        );
  }

-- ===== src/Workload/Guarded.antt =====
-- What a container's process has done to itself when its program starts.
use mini_docker.Base.{
  String, ◌≡◌, refl, sym, ap, ◌∙◌, Bool, true, false, List, [], ◌∷◌, ◌++◌, append_assoc,
  if◌then◌else◌, any, any-append, arith,
}
use mini_docker.Errors.{ok, err, Exec, ◌>>=◌, Result, continue}
use mini_docker.Metadata.Config.{ContainerConfig}
use mini_docker.Workload.Process.{Kernel, Process, Event, perform, sys_execvp}
use mini_docker.Workload.Setup.{exec_workload, prepare_and_exec_workload}
use mini_docker.Workload.Steps.{
  Steps, Returns, Any, Only, Has, Starts, StartsNot, started, StartsNot-append,
}
use mini_docker.Workload.Rooted.{changes_root}
use mini_docker.Workload.Restricted.{restrict_events, restrict-Only, isolate-Rooted}

-- The events of a process whose program starts: first what isolates it, with a change of its
-- root directory, then exactly what restricts it, and the start of the command of the
-- configuration as the last event.
abbrev pub Guarded : ContainerConfig → Bool → List Event → Type 0
Guarded config attach es =
    (isolated : List Event) × (es
      ≡ isolated ++ (restrict_events config attach ++ (sys_execvp config.command, true) ∷ []))
    × StartsNot isolated
    × (any changes_root isolated ≡ true)

-- Whatever the outcome, the trace grows, and a program starts only as `S` says.
pub record Starting (S : List Event → Type 0) (m : Exec Process Unit) : Type 0 where
  pub run : (s : Process) → (es : List Event) × ((m s).1.trace ≡ s.trace ++ es) × (Starts es → S es)

-- A start that is not among the first events is among the others.
Starts-second : (xs ys : List Event) → StartsNot xs → Starts (xs ++ ys) → Starts ys
Starts-second xs ys q h = ground (arith, any-append started xs ys, q, h)

module _ {A : Type 0} (P S T : List Event → Type 0) (V : A → Type 0) where
  -- What comes before the part that may start a program; `V` is known of what it returns.
  pub Starting-after :
      (m : Exec Process A) (f : A → Exec Process Unit)
      → ((xs ys : List Event) → StartsNot xs → P xs → S ys → T (xs ++ ys))
      → Steps P m
      → Returns V m
      → ((a : A) → V a → Starting S (f a))
      → Starting T (m >>= f)
  unfolding ◌>>=◌
  Starting-after m f joins sm vm sf = record {
    run = λ s.
        let (xs, grows, quiet, p) = sm.run s in
        let (r, s') = m s in next r s.trace xs s' grows quiet p (vm.value s);
  }
    where
      next :
          (r : Result A) (before xs : List Event) (s : Process)
          → s.trace ≡ before ++ xs
          → StartsNot xs
          → ((a : A) → r ≡ ok a → P xs)
          → ((a : A) → r ≡ ok a → V a)
          → (es : List Event) × ((continue r f s).1.trace ≡ before ++ es) × (Starts es → T es)
      next (ok a) before xs s e q p v =
          let (ys, grows, h) = (sf a (v a refl)).run s in
          (
            xs ++ ys,
            grows ∙ ap (λ t. t ++ ys) e ∙ append_assoc before xs ys,
            λ started. joins xs ys q (p a refl) (h (Starts-second xs ys q started)),
          )
      next (err x) before xs s e q p v = (xs, e, λ started. absurd cc)

pub Starting-weaken :
    (S T : List Event → Type 0) (m : Exec Process Unit)
    → ((es : List Event) → S es → T es)
    → Starting S m
    → Starting T m
Starting-weaken S T m f sm = record {
  run = λ s. let (es, grows, h) = sm.run s in (es, grows, λ started. f es (h started));
}

-- A computation that starts no program.
pub Starting-never : (P S : List Event → Type 0) (m : Exec Process Unit) → Steps P m → Starting S m
Starting-never P S m sm = record {
  run = λ s. let (es, grows, quiet, _) = sm.run s in (es, grows, λ h. absurd cc);
}

pub Starting-if :
    (S : List Event → Type 0) (b : Bool) (m n : Exec Process Unit)
    → Starting S m
    → Starting S n
    → Starting S (if b then m else n)
Starting-if S true m n sm sn = sm
Starting-if S false m n sm sn = sn

-- Events that start no program may come before.
pub Guarded-later :
    (config : ContainerConfig) (attach : Bool) (xs ys : List Event)
    → StartsNot xs
    → Guarded config attach ys
    → Guarded config attach (xs ++ ys)
Guarded-later config attach xs ys q (isolated, e, quiet, root) = (
  xs ++ isolated,
  ap (λ t. xs ++ t) e ∙ sym (append_assoc xs isolated _),
  StartsNot-append xs isolated q quiet,
  any-append changes_root xs isolated ∙ (ground (arith, root)),
)

pub Guarded-after :
    {A : Type 0} (config : ContainerConfig) (attach : Bool) (m : Exec Process A)
    (f : A → Exec Process Unit)
    → Steps Any m
    → ((a : A) → Starting (Guarded config attach) (f a))
    → Starting (Guarded config attach) (m >>= f)
Guarded-after config attach m f sm sf =
    Starting-after Any (Guarded config attach) (Guarded config attach) (λ _. Unit) m f
      (λ xs ys q _ g. Guarded-later config attach xs ys q g) sm (record { value = λ s a h. tt })
      (λ a _. sf a)

module _ (k : Kernel) (storage : String) (config : ContainerConfig) (attach : Bool) where
  -- The program itself, and what restricts the process before it.
  abbrev Restricting : List Event → Type 0
  Restricting es = es ≡ restrict_events config attach ++ (sys_execvp config.command, true) ∷ []

  exec-Starting : Starting (Only ((sys_execvp config.command, true) ∷ [])) (exec_workload k config)
  unfolding exec_workload perform
  exec-Starting = record {
    run = λ s.
        let done = k.does s.trace (sys_execvp config.command) in
        ((sys_execvp config.command, done) ∷ [], refl, λ h. ground (arith, h));
  }

  pub prepare-Starting :
      Starting (Guarded config attach) (prepare_and_exec_workload k storage config attach)
  unfolding prepare_and_exec_workload
  prepare-Starting =
      Starting-after (Has changes_root) Restricting (Guarded config attach) (λ _. Unit) _ _
        (λ xs ys q root e. (xs, ap (λ t. xs ++ t) e, q, root))
        (isolate-Rooted k storage config attach) (record { value = λ s a h. tt })
        (λ _ _.
          Starting-after (Only (restrict_events config attach))
            (Only ((sys_execvp config.command, true) ∷ [])) Restricting (λ _. Unit) _ _
            (λ xs ys q d e. cc) (restrict-Only k config attach) (record { value = λ s a h. tt })
            (λ _ _. exec-Starting))

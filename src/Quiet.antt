-- ===== src/Quiet.antt =====
-- Computations that call the host and leave the metadata alone, one rule for each way to build one.
use mini_docker.Base.{◌≡◌, refl, ◌∙◌, Bool, true, false, List, if◌then◌else◌}
use mini_docker.Errors.{Error, Result, ok, err, Exec, continue, ◌>>=◌, pure, raise, catch}
use mini_docker.World.{World, Call, log, observe}

-- Whether it returns or raises, the files are those from before.
pub record Quiet {A : Type 0} (m : Exec World A) : Type 0 where
  pub containers : (w : World) → (m w).1.containers ≡ w.containers
  pub pods : (w : World) → (m w).1.pods ≡ w.pods

module _ {A : Type 0} where
  pub Quiet-pure : (a : A) → Quiet (pure a)
  unfolding pure
  Quiet-pure a = record { containers = λ w. refl; pods = λ w. refl }

  pub Quiet-raise : (e : Error) → Quiet (raise {A = A} e)
  unfolding raise
  Quiet-raise e = record { containers = λ w. refl; pods = λ w. refl }

  pub Quiet-log : (answer : List Call → A) (call : Call) → Quiet (log answer call)
  unfolding log
  Quiet-log answer call = record { containers = λ w. refl; pods = λ w. refl }

  pub Quiet-observe : (answer : List Call → A) → Quiet (observe answer)
  unfolding observe
  Quiet-observe answer = record { containers = λ w. refl; pods = λ w. refl }

  pub Quiet-if : (b : Bool) (m n : Exec World A) → Quiet m → Quiet n → Quiet (if b then m else n)
  Quiet-if true m n km kn = km
  Quiet-if false m n km kn = kn

module _ {A B : Type 0} where
  pub Quiet-continue :
      (r : Result A) (f : A → Exec World B) → ((a : A) → Quiet (f a)) → Quiet (continue r f)
  Quiet-continue (ok a) f kf = kf a
  Quiet-continue (err e) f kf = record { containers = λ w. refl; pods = λ w. refl }

  pub Quiet-bind :
      (m : Exec World A) (f : A → Exec World B)
      → Quiet m
      → ((a : A) → Quiet (f a))
      → Quiet (m >>= f)
  unfolding ◌>>=◌
  Quiet-bind m f km kf = record {
    containers = λ w. let (r, w') = m w in (Quiet-continue r f kf).containers w' ∙ km.containers w;
    pods = λ w. let (r, w') = m w in (Quiet-continue r f kf).pods w' ∙ km.pods w;
  }

module _ {A : Type 0} where
  pub Quiet-catch :
      (m : Exec World A) (h : Error → Exec World A)
      → Quiet m
      → ((e : Error) → Quiet (h e))
      → Quiet (catch m h)
  unfolding catch
  Quiet-catch m h km kh = record {
    containers = λ w. let (r, w') = m w in handled r w' ∙ km.containers w;
    pods = λ w. let (r, w') = m w in handled_pods r w' ∙ km.pods w;
  }
    where
      handled :
          (r : Result A) (w : World)
          → (elim r as (λ _. Result A × World) [ ok a ↦ (ok a, w) | err e ↦ h e w ]).1.containers
            ≡ w.containers
      handled (ok a) w = refl
      handled (err e) w = (kh e).containers w

      handled_pods :
          (r : Result A) (w : World)
          → (elim r as (λ _. Result A × World) [ ok a ↦ (ok a, w) | err e ↦ h e w ]).1.pods ≡ w.pods
      handled_pods (ok a) w = refl
      handled_pods (err e) w = (kh e).pods w

pub ruleset quiet_rules =
    (Quiet-pure, Quiet-raise, Quiet-log, Quiet-observe, Quiet-if, Quiet-bind, Quiet-catch)

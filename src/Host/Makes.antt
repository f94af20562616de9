-- ===== src/Host/Makes.antt =====
-- Computations that call the host only in ways that a predicate allows, and leave the files alone:
-- one rule for each way to build one.
use mini_docker.Base.{
  ap, ◌≡◌, refl, sym, ◌∙◌, Bool, true, false, List, [], ◌∷◌, ◌++◌, append-nil, append_assoc,
  if◌then◌else◌, All,
}
use mini_docker.Errors.{Error, Result, ok, err, Exec, continue, ◌>>=◌, ◌>>◌, pure, raise, catch}
use mini_docker.World.{World, Call, log, observe}

module _ (P : Call → Type 0) where
  pub All-append : (xs ys : List Call) → All P xs → All P ys → All P (xs ++ ys)
  All-append [] ys ax ay = ay
  All-append (x ∷ xs) ys (p, ax) ay = (p, All-append xs ys ax ay)

  -- From one world to another: the new calls, and the files.
  pub record Effects (v w : World) : Type 0 where
    pub new_calls : List Call
    pub grows : w.calls ≡ v.calls ++ new_calls
    pub allowed : All P new_calls
    pub containers : w.containers ≡ v.containers
    pub pods : w.pods ≡ v.pods

  Effects-none : (w : World) → Effects w w
  Effects-none w = record {
    new_calls = [];
    grows = sym (append-nil w.calls);
    allowed = tt;
    containers = refl;
    pods = refl;
  }

  Effects-then : (u v w : World) → Effects u v → Effects v w → Effects u w
  Effects-then u v w f g = record {
    new_calls = f.new_calls ++ g.new_calls;
    grows =
        g.grows ∙ ap (λ t. t ++ g.new_calls) f.grows ∙ append_assoc u.calls f.new_calls g.new_calls;
    allowed = All-append f.new_calls g.new_calls f.allowed g.allowed;
    containers = g.containers ∙ f.containers;
    pods = g.pods ∙ f.pods;
  }

  -- Whatever it returns or raises.
  pub record Makes {A : Type 0} (m : Exec World A) : Type 0 where
    pub effects : (w : World) → Effects w (m w).1

  -- It returns, too.
  pub record Sure {A : Type 0} (m : Exec World A) : Type 0 where
    pub returns : (w : World) → (a : A) × ((m w).0 ≡ ok a)
    pub effects : (w : World) → Effects w (m w).1

  module _ {A : Type 0} where
    pub Makes-pure : (a : A) → Makes (pure a)
    unfolding pure
    Makes-pure a = record { effects = λ w. Effects-none w }

    pub Makes-raise : (e : Error) → Makes (raise {A = A} e)
    unfolding raise
    Makes-raise e = record { effects = λ w. Effects-none w }

    pub Makes-log : (answer : List Call → A) (call : Call) → P call → Makes (log answer call)
    unfolding log
    Makes-log answer call p = record {
      effects = λ w. record {
        new_calls = call ∷ [];
        grows = refl;
        allowed = (p, tt);
        containers = refl;
        pods = refl;
      };
    }

    pub Makes-if : (b : Bool) (m n : Exec World A) → Makes m → Makes n → Makes (if b then m else n)
    Makes-if true m n km kn = km
    Makes-if false m n km kn = kn

    pub Sure-pure : (a : A) → Sure (pure a)
    unfolding pure
    Sure-pure a = record { returns = λ w. (a, refl); effects = λ w. Effects-none w }

    pub Sure-observe : (answer : List Call → A) → Sure (observe answer)
    unfolding observe
    Sure-observe answer = record {
      returns = λ w. (answer w.calls, refl);
      effects = λ w. Effects-none w;
    }

    pub Sure-log : (answer : List Call → A) (call : Call) → P call → Sure (log answer call)
    unfolding log
    Sure-log answer call p = record {
      returns = λ w. (answer w.calls, refl);
      effects = (Makes-log answer call p).effects;
    }

    pub Sure-if :
        (b : Bool) (m n : Exec World A)
        → (b ≡ true → Sure m)
        → (b ≡ false → Sure n)
        → Sure (if b then m else n)
    Sure-if true m n km kn = km refl
    Sure-if false m n km kn = kn refl

  module _ {A B : Type 0} where
    after :
        (r : Result A) (f : A → Exec World B) (v w : World)
        → Effects v w
        → ((a : A) → Makes (f a))
        → Effects v (continue r f w).1
    after (ok a) f v w e kf = Effects-then v w _ e ((kf a).effects w)
    after (err x) f v w e kf = e

    pub Makes-bind :
        (m : Exec World A) (f : A → Exec World B)
        → Makes m
        → ((a : A) → Makes (f a))
        → Makes (m >>= f)
    unfolding ◌>>=◌
    Makes-bind m f km kf = record {
      effects = λ w. let (r, w') = m w in after r f w w' (km.effects w) kf;
    }

    pub Sure-bind :
        (m : Exec World A) (f : A → Exec World B) → Sure m → ((a : A) → Sure (f a)) → Sure (m >>= f)
    unfolding ◌>>=◌
    Sure-bind m f km kf = record {
      returns =
          λ w. let (a, e) = km.returns w in let (b, e') = (kf a).returns (m w).1 in (b, rw e e');
      effects = λ w.
          let (a, e) = km.returns w in
          rw e (Effects-then w (m w).1 _ (km.effects w) ((kf a).effects (m w).1));
    }

  -- What is tried returns one of two values.
  pub Sure-tried :
      {A : Type 0} (m : Exec World Unit) (good bad : A)
      → Makes m
      → Sure (catch (do m; pure good) (λ e. pure bad))
  unfolding catch ◌>>=◌
  Sure-tried {A} m good bad km = record {
    returns = λ w. let (r, w') = m w in value r w';
    effects = λ w. let (r, w') = m w in kept r w w' (km.effects w);
  }
    where
      value :
          (r : Result Unit) (w : World)
          → (a : A) × ((catch (do (λ _. (r, w)); pure good) (λ e. pure bad) w).0 ≡ ok a)
      value (ok _) w = (good, refl)
      value (err e) w = (bad, refl)

      kept :
          (r : Result Unit) (v w : World)
          → Effects v w
          → Effects v (catch (do (λ _. (r, w)); pure good) (λ e. pure bad) w).1
      kept (ok _) v w e = e
      kept (err x) v w e = e

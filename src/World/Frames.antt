-- ===== src/World/Frames.antt =====
-- Actions that leave the instances directory alone, one rule for each way to build an action.
use linuxmuster_radius.Prelude.{
  ◌≡◌, refl, ◌∙◌, Bool, true, false, Option, none, some, if◌then◌else◌,
}
use linuxmuster_radius.Exec.{
  Exec, Result, ok, err, Error, pure, raise, raise_if, or_raise, catch, gets, when, ◌>>=◌,
}
use linuxmuster_radius.Host.{Host}
use linuxmuster_radius.World.{World, call, ask}

pub record KeepsInstances {H : Host} {A : Type 0} (m : Exec (World H) A) : Type 0 where
  pub at : (w : World H) → (m w).1.instances ≡ w.instances

module _ {H : Host} {A : Type 0} where
  pub KeepsInstances-pure : (a : A) → KeepsInstances {H = H} (pure a)
  KeepsInstances-pure a = record { at = λ w. refl }

  pub KeepsInstances-raise : (e : Error) → KeepsInstances {H = H} {A = A} (raise e)
  KeepsInstances-raise e = record { at = λ w. refl }

  pub KeepsInstances-gets : (f : World H → A) → KeepsInstances (gets f)
  KeepsInstances-gets f = record { at = λ w. refl }

  pub KeepsInstances-or_raise : (o : Option A) (e : Error) → KeepsInstances {H = H} (or_raise o e)
  KeepsInstances-or_raise none e = record { at = λ w. refl }
  KeepsInstances-or_raise (some a) e = record { at = λ w. refl }

  pub KeepsInstances-call : (m : Exec H.State A) → KeepsInstances (call {H = H} m)
  KeepsInstances-call m = record { at = λ w. refl }

  pub KeepsInstances-ask : (m : H.State → A × H.State) → KeepsInstances (ask {H = H} m)
  KeepsInstances-ask m = record { at = λ w. refl }

  pub KeepsInstances-if :
      (b : Bool) (m n : Exec (World H) A)
      → KeepsInstances m
      → KeepsInstances n
      → KeepsInstances (if b then m else n)
  KeepsInstances-if true m n km kn = km
  KeepsInstances-if false m n km kn = kn

  catch_result :
      (r : Result A) (handler : Error → Exec (World H) A) (w : World H)
      → ((e : Error) → KeepsInstances (handler e))
      → (catch (λ s. (r, s)) handler w).1.instances ≡ w.instances
  catch_result (ok a) handler w k = refl
  catch_result (err e) handler w k = (k e).at w

  pub KeepsInstances-catch :
      (m : Exec (World H) A) (handler : Error → Exec (World H) A)
      → KeepsInstances m
      → ((e : Error) → KeepsInstances (handler e))
      → KeepsInstances (catch m handler)
  KeepsInstances-catch m handler km kh = record {
    at = λ w. let (r, w') = m w in catch_result r handler w' kh ∙ km.at w;
  }

module _ {H : Host} where
  pub KeepsInstances-raise_if : (b : Bool) (e : Error) → KeepsInstances {H = H} (raise_if b e)
  KeepsInstances-raise_if b e = record { at = λ w. refl }

  pub KeepsInstances-when :
      (b : Bool) (m : Exec (World H) (Unit {0})) → KeepsInstances m → KeepsInstances (when b m)
  KeepsInstances-when true m k = record { at = k.at }
  KeepsInstances-when false m k = record { at = λ w. refl }

module _ {H : Host} {A B : Type 0} where
  bind_result :
      (r : Result A) (f : A → Exec (World H) B) (w : World H)
      → ((a : A) → KeepsInstances (f a))
      → (((λ s. (r, s)) >>= f) w).1.instances ≡ w.instances
  bind_result (ok a) f w k = (k a).at w
  bind_result (err e) f w k = refl

  pub KeepsInstances-bind :
      (m : Exec (World H) A) (f : A → Exec (World H) B)
      → KeepsInstances m
      → ((a : A) → KeepsInstances (f a))
      → KeepsInstances (m >>= f)
  KeepsInstances-bind m f km kf = record {
    at = λ w. let (r, w') = m w in bind_result r f w' kf ∙ km.at w;
  }

pub ruleset frame_rules = (
  KeepsInstances-pure, KeepsInstances-raise, KeepsInstances-gets, KeepsInstances-or_raise,
  KeepsInstances-call, KeepsInstances-ask, KeepsInstances-if, KeepsInstances-catch,
  KeepsInstances-raise_if, KeepsInstances-when, KeepsInstances-bind,
)

-- ===== src/Cli/Frames.antt =====
-- Actions of a command that send nothing, with the errors that they may raise: one rule for each way
-- to build an action.
use linuxmuster_radius.Prelude.{
  ◌≡◌, refl, ◌∙◌, Bool, true, false, Option, none, some, if◌then◌else◌, arith,
}
use linuxmuster_radius.Exec.{
  Exec, Result, ok, err, Error, bad_parameter, pure, raise, raise_if, or_raise, when, lift, ◌>>=◌,
}
use linuxmuster_radius.Cli.Terminal.{Outside, Session, Printed, print}

-- All errors but a `BadParameter`, and all errors.
abbrev pub tame : Error → Bool
tame (bad_parameter m) = false
tame e = true

abbrev pub anything : Error → Bool
anything e = true

abbrev pub fine : {A : Type 0} → (Error → Bool) → Result A → Bool
fine allowed (ok a) = true
fine allowed (err e) = allowed e

pub record Silent {O : Outside} {A : Type 0} (allowed : Error → Bool) (m : Exec (Session O) A)
    : Type 0 where
  pub keeps : (s : Session O) → (m s).1.exchanged ≡ s.exchanged
  pub raises : (s : Session O) → fine allowed (m s).0 ≡ true

module _ {O : Outside} {allowed : Error → Bool} where
  pub Silent-print : (p : Printed) → Silent {O = O} allowed (print p)
  Silent-print p = record { keeps = λ s. refl; raises = λ s. refl }

  module _ {A : Type 0} where
    pub Silent-pure : (a : A) → Silent {O = O} allowed (pure a)
    Silent-pure a = record { keeps = λ s. refl; raises = λ s. refl }

    pub Silent-raise : (e : Error) → allowed e ≡ true → Silent {O = O} {A = A} allowed (raise e)
    Silent-raise e h = record { keeps = λ s. refl; raises = λ s. h }

    pub Silent-lift : (r : Result A) → fine allowed r ≡ true → Silent {O = O} allowed (lift r)
    Silent-lift r h = record { keeps = λ s. refl; raises = λ s. h }

    pub Silent-or_raise :
        (o : Option A) (e : Error) → allowed e ≡ true → Silent {O = O} allowed (or_raise o e)
    Silent-or_raise none e h = record { keeps = λ s. refl; raises = λ s. h }
    Silent-or_raise (some a) e h = record { keeps = λ s. refl; raises = λ s. refl }

    pub Silent-if :
        (b : Bool) (m n : Exec (Session O) A)
        → Silent allowed m
        → Silent allowed n
        → Silent allowed (if b then m else n)
    Silent-if true m n km kn = km
    Silent-if false m n km kn = kn

  pub Silent-raise_if :
      (b : Bool) (e : Error) → allowed e ≡ true → Silent {O = O} allowed (raise_if b e)
  Silent-raise_if true e h = record { keeps = λ s. refl; raises = λ s. h }
  Silent-raise_if false e h = record { keeps = λ s. refl; raises = λ s. refl }

  pub Silent-when :
      (b : Bool) (m : Exec (Session O) (Unit {0})) → Silent allowed m → Silent allowed (when b m)
  Silent-when true m k = record { keeps = k.keeps; raises = k.raises }
  Silent-when false m k = record { keeps = λ s. refl; raises = λ s. refl }

  module _ {A B : Type 0} where
    bind_keeps :
        (r : Result A) (f : A → Exec (Session O) B) (s : Session O)
        → ((a : A) → Silent allowed (f a))
        → (((λ t. (r, t)) >>= f) s).1.exchanged ≡ s.exchanged
    bind_keeps (ok a) f s k = (k a).keeps s
    bind_keeps (err e) f s k = refl

    bind_raises :
        (r : Result A) (f : A → Exec (Session O) B) (s : Session O)
        → fine allowed r ≡ true
        → ((a : A) → Silent allowed (f a))
        → fine allowed (((λ t. (r, t)) >>= f) s).0 ≡ true
    bind_raises (ok a) f s h k = (k a).raises s
    bind_raises (err e) f s h k = h

    pub Silent-bind :
        (m : Exec (Session O) A) (f : A → Exec (Session O) B)
        → Silent allowed m
        → ((a : A) → Silent allowed (f a))
        → Silent allowed (m >>= f)
    Silent-bind m f km kf = record {
      keeps = λ s. let (r, s') = m s in bind_keeps r f s' kf ∙ km.keeps s;
      raises = λ s. let (r, s') = m s in bind_raises r f s' (km.raises s) kf;
    }

-- What raises no `BadParameter` may raise anything.
pub Silent-anything :
    {O : Outside} {A : Type 0} (m : Exec (Session O) A) → Silent tame m → Silent anything m
Silent-anything m k = record { keeps = k.keeps; raises = λ s. anything_fine (m s).0 }
  where
    anything_fine : {A : Type 0} (r : Result A) → fine anything r ≡ true
    anything_fine (ok a) = refl
    anything_fine (err e) = refl

pub ruleset silent_rules = (
  Silent-print, Silent-pure, Silent-raise, Silent-raise_if, Silent-lift, Silent-or_raise, Silent-if,
  Silent-when, Silent-bind, refl,
)

-- ===== src/World/Clock.antt =====
-- The monotonic clock, and the actions during which it does not go back.
use linuxmuster_radius.Prelude.{
  ℕ, ◌+◌, ◌≤◌, ◌≡◌, Bool, true, false, Option, Text, if◌then◌else◌, arith,
}
use linuxmuster_radius.Exec.{Exec, Result, ok, err, Error, pure, raise, catch, ◌>>=◌}
use linuxmuster_radius.Host.{Host}
use linuxmuster_radius.World.{World, call}

-- `time.monotonic` reads a clock that no call sets back, and that `time.sleep` moves on by at
-- least the time asked for.
pub record Clock (H : Host) : Type 0 where
  pub time : H.State → ℕ
  pub reading : (s : H.State) → (H.monotonic s).0 ≡ time s
  pub after_reading : (s : H.State) → time s ≤ time (H.monotonic s).1
  pub after_sleep : (t : ℕ) (s : H.State) → time s + t ≤ time (H.sleep t s)
  pub after_get : (n : Text) (s : H.State) → time s ≤ time (H.get_container n s).1
  pub after_inspect : (c : H.Container) (s : H.State) → time s ≤ time (H.inspect c s).1
  pub after_tags : (c : H.Container) (s : H.State) → time s ≤ time (H.image_tags c s).1
  pub after_logs :
      (c : H.Container) (n : ℕ) (a b : Option ℕ) (s : H.State)
      → time s ≤ time (H.container_logs c n a b s).1

module _ {H : Host} (C : Clock H) where
  pub record Advances {A : Type 0} (m : Exec (World H) A) : Type 0 where
    pub at : (w : World H) → C.time w.host ≤ C.time (m w).1.host

  module _ {A : Type 0} where
    pub Advances-pure : (a : A) → Advances (pure a)
    Advances-pure a = record { at = λ w. ground arith }

    pub Advances-raise : (e : Error) → Advances {A = A} (raise e)
    Advances-raise e = record { at = λ w. ground arith }

    pub Advances-if :
        (b : Bool) (m n : Exec (World H) A)
        → Advances m
        → Advances n
        → Advances (if b then m else n)
    Advances-if true m n km kn = km
    Advances-if false m n km kn = kn

    pub Advances-call :
        (m : Exec H.State A)
        → ((s : H.State) → C.time s ≤ C.time (m s).1)
        → Advances (call {H = H} m)
    Advances-call m k = record { at = λ w. k w.host }

    caught :
        (r : Result A) (handler : Error → Exec (World H) A) (w : World H)
        → ((e : Error) → Advances (handler e))
        → C.time w.host ≤ C.time (catch (λ s. (r, s)) handler w).1.host
    caught (ok a) handler w k = ground arith
    caught (err e) handler w k = (k e).at w

    pub Advances-catch :
        (m : Exec (World H) A) (handler : Error → Exec (World H) A)
        → Advances m
        → ((e : Error) → Advances (handler e))
        → Advances (catch m handler)
    Advances-catch m handler km kh = record {
      at =
          λ w. let first = km.at w in let second = caught (m w).0 handler (m w).1 kh in omega arith;
    }

  module _ {A B : Type 0} where
    chained :
        (r : Result A) (f : A → Exec (World H) B) (w : World H)
        → ((a : A) → Advances (f a))
        → C.time w.host ≤ C.time (((λ s. (r, s)) >>= f) w).1.host
    chained (ok a) f w k = (k a).at w
    chained (err e) f w k = ground arith

    pub Advances-bind :
        (m : Exec (World H) A) (f : A → Exec (World H) B)
        → Advances m
        → ((a : A) → Advances (f a))
        → Advances (m >>= f)
    Advances-bind m f km kf = record {
      at = λ w. let first = km.at w in let second = chained (m w).0 f (m w).1 kf in omega arith;
    }

pub ruleset clock_rules =
    (Advances-pure, Advances-raise, Advances-if, Advances-call, Advances-catch, Advances-bind)

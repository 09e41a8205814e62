-- ===== src/Cli/Statuses/Each.antt =====
-- How far `reconcile` looks through the statuses.
use linuxmuster_radius.Prelude.{
  ◌≡◌, refl, sym, Bool, true, false, not, ◌&&◌, Option, none, some, List, [], ◌∷◌, All, Text, codes,
  arith,
}
use linuxmuster_radius.Exec.{ok, err, ◌>>=◌}
use linuxmuster_radius.Exec.Chains.{ok_injective}
use linuxmuster_radius.Cli.Json
use linuxmuster_radius.Cli.Json.{Json, Fields, null, bool, num, str, arr, obj, truthy, is_text}
use linuxmuster_radius.Cli.Terminal.{lit, value, Line, Printed, warned, Outside, Session}
use linuxmuster_radius.Cli.Answers.{status_problem, check_status, report_problem}
use linuxmuster_radius.Cli.Commands.{check_each, if_all}

-- What a status has under a key; `null` where it is missing or where the status is no object.
abbrev pub value_at : Json → Text → Json
value_at st k = elim (Json.get st k null) [ ok x ↦ x | err e ↦ null ]

-- The container exists, runs, is not crash-looping and not unhealthy.
abbrev pub sound : Json → Bool
sound st =
    truthy (value_at st (codes "exists"))
    && truthy (value_at st (codes "running"))
    && not (truthy (value_at st (codes "crash_looping")))
    && not (is_text (codes "unhealthy") (value_at st (codes "health")))

-- The first status that is not sound.
pub data FirstUnsound (x : Json) : List Json → Type 0 where
  here : (sts : List Json) → sound x ≡ false → FirstUnsound x (x ∷ sts)
  later :
      (st : Json) {sts : List Json}
      → sound st ≡ true
      → FirstUnsound x sts
      → FirstUnsound x (st ∷ sts)

-- The name that a status is reported under.
abbrev name_of : Json → Json
name_of st = elim (Json.get st (codes "name") (str (codes "?"))) [ ok x ↦ x | err e ↦ null ]

abbrev pub Judged : {O : Outside} → Bool → List Json → Session O → List Printed → Type 0
Judged true sts s after = All (λ st. sound st ≡ true) sts × (after ≡ s.printed)
Judged false sts s after =
    (x : Json) × FirstUnsound x sts
    × ((l : Line) × (after
          ≡ warned (lit "WARNING: instance '" ∷ value (name_of x) ∷ lit "' is " ∷ l) ∷ s.printed))

abbrev is_none : Option Line → Bool
is_none none = true
is_none (some l) = false

-- `_status_problem` gives no problem exactly for a sound status.
pub problem-sound :
    {S : Type 0} (fs : Fields) (s : S) (p : Option Line)
    → (status_problem (obj fs) s).0 ≡ ok p
    → is_none p ≡ sound (obj fs)
unfolding status_problem Json.get
problem-sound fs s p e = rw (← ok_injective _ p e) (ground arith)

pub no_problem-sound :
    {S : Type 0} (st : Json) (s : S) → (status_problem st s).0 ≡ ok none → sound st ≡ true
unfolding status_problem Json.get
no_problem-sound null s e = ground (arith, e)
no_problem-sound (bool b) s e = ground (arith, e)
no_problem-sound (num n) s e = ground (arith, e)
no_problem-sound (str t) s e = ground (arith, e)
no_problem-sound (arr xs) s e = ground (arith, e)
no_problem-sound (obj fs) s e = sym (problem-sound fs s none e)

module _ {O : Outside} where
  Judged-step :
      (p : Option Line) (fs : Fields) (sts : List Json) (s : Session O) (b : Bool)
      → is_none p ≡ sound (obj fs)
      → ((b' : Bool) → (check_each sts s).0 ≡ ok b' → Judged b' sts s (check_each sts s).1.printed)
      → ((report_problem (value (name_of (obj fs))) p >>= λ r. if_all r (check_each sts)) s).0
        ≡ ok b
      → Judged b
          (obj fs ∷ sts)
          s
          ((report_problem (value (name_of (obj fs))) p >>= λ r. if_all r (check_each sts))
            s).1.printed
  unfolding Json.get
  Judged-step none fs sts s true found ih e = ((sym found, (ih true e).0), (ih true e).1)
  Judged-step none fs sts s false found ih e =
      let (x, first, printed) = ih false e in (x, later (obj fs) (sym found) first, printed)
  Judged-step (some l) fs sts s true found ih e = ground (arith, e)
  Judged-step (some l) fs sts s false found ih e = (obj fs, here sts (sym found), (_, refl))

  judged :
      (sts : List Json) (s : Session O) (b : Bool)
      → (check_each sts s).0 ≡ ok b
      → Judged b sts s (check_each sts s).1.printed
  unfolding check_each check_status status_problem Json.get
  judged [] s true e = (tt, refl)
  judged [] s false e = ground (arith, e)
  judged (null ∷ sts) s b e = ground (arith, e)
  judged (bool x ∷ sts) s b e = ground (arith, e)
  judged (num x ∷ sts) s b e = ground (arith, e)
  judged (str x ∷ sts) s b e = ground (arith, e)
  judged (arr xs ∷ sts) s b e = ground (arith, e)
  judged (obj fs ∷ sts) s b e =
      Judged-step _ fs sts s b (problem-sound fs s _ refl) (judged sts s) e

-- Where the loop of reconcile ends, either every container exists, runs, is not crash-looping and
-- not unhealthy, and nothing was printed, or some is not so, and exactly one warning was printed,
-- with the name of the first of these, however many there are.
pub check_each-Judged :
    {O : Outside} (sts : List Json) (s : Session O) (b : Bool)
    → (check_each sts s).0 ≡ ok b
    → Judged b sts s (check_each sts s).1.printed
check_each-Judged sts s b e = judged sts s b e

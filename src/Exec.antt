-- ===== src/Exec.antt =====
-- Methods that change the state and may raise. What was written before a raise stays written, so
-- the state comes back beside the error too.
pub mod Chains
use Prim.Native.Nat.{ℕ}
use Prim.Native.String.{String}
use linuxmuster_radius.Prelude.{Bool, true, false, Option, none, some, Text, if◌then◌else◌}

-- The exceptions of the program, by class; the message is its fixed part, without the values.
pub data Error : Type 0 where
  value_error : String → Error
  validation_error : Error
  key_error : Text → Error
  file_not_found : String → Error
  file_exists : String → Error
  permission_error : Error
  store_error : String → Error
  -- docker-py: `NotFound`, `ImageNotFound`, `APIError`, `ContainerError`, and the rest.
  not_found image_not_found api_error docker_error : Error
  container_error : Text → Error
  -- `HTTPException`
  http : ℕ → String → Error
  -- Of the command line: `typer.Exit`, `typer.BadParameter` and `httpx.HTTPError`.
  typer_exit : ℕ → Error
  bad_parameter : String → Error
  http_error : Error
  other_error : Error

pub data Result (A : Type 0) : Type 0 where
  ok : A → Result A
  err : Error → Result A

abbrev pub Exec : Type 0 → Type 0 → Type 0
Exec S A = S → Result A × S

module _ {S A : Type 0} where
  abbrev pub pure : A → Exec S A
  pure a s = (ok a, s)

  abbrev pub raise : Error → Exec S A
  raise e s = (err e, s)

  abbrev pub gets : (S → A) → Exec S A
  gets f s = (ok (f s), s)

  -- A computation that only returns or raises.
  abbrev pub lift : Result A → Exec S A
  lift r s = (r, s)

  abbrev pub or_raise : Option A → Error → Exec S A
  or_raise none e s = (err e, s)
  or_raise (some a) e s = (ok a, s)

  -- `try: m except Exception: handler`
  abbrev pub catch : Exec S A → (Error → Exec S A) → Exec S A
  catch m handler s = let (r, s') = m s in elim r [ ok a ↦ (ok a, s') | err e ↦ handler e s' ]

  -- What a computation comes to, raised or returned.
  abbrev pub attempt : Exec S A → Exec S (Result A)
  attempt m s = let (r, s') = m s in (ok r, s')

infixl 5 ◌>>=◌ ◌>>◌
abbrev pub ◌>>=◌ : {S A B : Type 0} → Exec S A → (A → Exec S B) → Exec S B
◌>>=◌ m f s = let (r, s') = m s in elim r [ ok a ↦ f a s' | err e ↦ (err e, s') ]

abbrev pub ◌>>◌ : {S A B : Type 0} → Exec S A → Exec S B → Exec S B
m >> k = m >>= λ _. k

-- `if c: raise e`
abbrev pub raise_if : {S : Type 0} → Bool → Error → Exec S (Unit {0})
raise_if c e s = (if c then err e else ok tt, s)

abbrev pub modify : {S : Type 0} → (S → S) → Exec S (Unit {0})
modify f s = (ok tt, f s)

-- `if c: m`
abbrev pub when : {S : Type 0} → Bool → Exec S (Unit {0}) → Exec S (Unit {0})
when c m s = if c then m s else (ok tt, s)

abbrev pub is_ok : {A : Type 0} → Result A → Bool
is_ok (ok a) = true
is_ok (err e) = false

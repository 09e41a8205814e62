-- ===== src/Exec/Chains.antt =====
-- Chains of actions that may raise.
use linuxmuster_radius.Prelude.{ap, arith, ◌≡◌, refl}
use linuxmuster_radius.Exec.{lift, Exec, Result, ok, err, pure, ◌>>=◌}

abbrev value_or : {A : Type 0} → Result A → A → A
value_or (ok a) d = a
value_or (err e) d = d

returned :
    {S A B : Type 0} (r : Result A) (s : S) (f : A → Exec S B) (b : B)
    → (((λ s'. (r, s')) >>= f) s).0 ≡ ok b
    → (a : A) × (r ≡ ok a) × ((f a s).0 ≡ ok b)
returned (ok a) s f b e = (a, refl, e)
returned (err x) s f b e = ground arith

-- A chain that returns has returned at its first step.
pub bind-ok :
    {S A B : Type 0} (m : Exec S A) (f : A → Exec S B) (b : B) (s : S)
    → ((m >>= f) s).0 ≡ ok b
    → (a : A) × ((m s).0 ≡ ok a) × ((f a (m s).1).0 ≡ ok b)
bind-ok m f b s e = returned (m s).0 (m s).1 f b e

pub ok_injective : {A : Type 0} (a b : A) → (ok a ≡ ok b) → a ≡ b
ok_injective a b e = ap (λ r. value_or r a) e

continued :
    {S A B : Type 0} (r : Result A) (s : S) (f : A → Exec S B) (a : A)
    → r ≡ ok a
    → ((λ s'. (r, s')) >>= f) s ≡ f a s
continued (ok b) s f a e = ap (λ c. f c s) (ap (λ r. value_or r b) e)
continued (err x) s f a e = ground arith

-- Where the first step returns, a chain is what follows.
pub bind_lem :
    {S A B : Type 0} (m : Exec S A) (f : A → Exec S B) (a : A) (s : S)
    → (m s).0 ≡ ok a
    → (m >>= f) s ≡ f a (m s).1
bind_lem m f a s e = continued (m s).0 (m s).1 f a e

-- What a step that leaves the state as it is leads to.
pub lifted :
    {S A B : Type 0} (P : S → Type 0) (r : Result A) (f : A → Exec S B) (s : S)
    → P s
    → ((a : A) → r ≡ ok a → P (f a s).1)
    → P ((lift r >>= f) s).1
lifted P (ok a) f s here later = later a refl
lifted P (err e) f s here later = here

returned_state :
    {S A B : Type 0} (r : Result A) (g : A → B) (s : S)
    → (((λ t. (r, t)) >>= λ a. pure (g a)) s).1 ≡ s
returned_state (ok a) g s = refl
returned_state (err e) g s = refl

-- Only returning something else leaves the state as it is.
pub bind-pure_state :
    {S A B : Type 0} (m : Exec S A) (g : A → B) (s : S) → ((m >>= λ a. pure (g a)) s).1 ≡ (m s).1
bind-pure_state m g s = returned_state (m s).0 g (m s).1

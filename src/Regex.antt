-- ===== src/Regex.antt =====
-- Python's `re`, as far as the program uses it: patterns, and a matcher by derivatives.
-- The patterns have no groups or back references, so a match is decided by the language alone.
pub mod Language
pub mod Words
use linuxmuster_radius.Prelude.{
  ℕ, zero, suc, Bool, true, false, ◌&&◌, ◌||◌, [], ◌∷◌, Text, ◌==◌, if◌then◌else◌,
}

pub data Regex : Type 0 where
  fail eps : Regex
  class : (ℕ → Bool) → Regex
  seq alt both : Regex → Regex → Regex
  upto : ℕ → Regex → Regex
  star : Regex → Regex

pub nullable : Regex → Bool
nullable fail = false
nullable eps = true
nullable (class p) = false
nullable (seq a b) = nullable a && nullable b
nullable (alt a b) = nullable a || nullable b
nullable (both a b) = nullable a && nullable b
nullable (upto n r) = true
nullable (star r) = true

-- `seq` and `alt` that drop what cannot match, so that derivatives stay small.
pub then_re : Regex → Regex → Regex
then_re fail b = fail
then_re eps b = b
then_re a b = seq a b

pub or_re : Regex → Regex → Regex
or_re fail b = b
or_re a b = alt a b

-- What must follow the character `c` for the whole to match.
pub deriv : ℕ → Regex → Regex
deriv c fail = fail
deriv c eps = fail
deriv c (class p) = if p c then eps else fail
deriv c (seq a b) =
    let d = then_re (deriv c a) b in let e = or_re d (deriv c b) in if nullable a then e else d
deriv c (alt a b) = or_re (deriv c a) (deriv c b)
deriv c (both a b) = both (deriv c a) (deriv c b)
deriv c (upto zero r) = fail
deriv c (upto (suc n) r) = then_re (deriv c r) (upto n r)
deriv c (star r) = then_re (deriv c r) (star r)

-- `re.fullmatch`
unfoldable pub fullmatch : Regex → Text → Bool
unfolding nullable deriv then_re or_re
fullmatch r [] = nullable r
fullmatch r (c ∷ s) = fullmatch (deriv c r) s

-- A literal character, and `x?`.
abbrev pub char : ℕ → Regex
char c = class (λ x. x == c)

abbrev pub opt : Regex → Regex
opt r = upto 1 r

-- `re.match` of a pattern `^r$`: in Python `$` also matches before a newline that ends the text.
abbrev pub line : Regex → Regex
line r = seq r (opt (char 10))

abbrev pub re_match : Regex → Text → Bool
re_match r = fullmatch (line r)

-- A literal text.
abbrev pub lit : Text → Regex
lit [] = eps
lit (c ∷ []) = char c
lit (c ∷ s) = seq (char c) (lit s)

-- `r{n}`
unfoldable pub times : ℕ → Regex → Regex
times zero r = eps
times (suc n) r = seq r (times n r)

-- ===== src/Prelude/Strings.antt =====
-- Python's `str` as the list of its code points, with the operations that the program uses.
use Prim.Native.Nat.{ℕ, zero, suc, ◌+◌, ◌/◌, ◌%◌}
use Prim.Native.Char.{code}
use Prim.Native.String.{String}
use mathlib.Core.Path.{◌≡◌, refl}
use mathlib.Core.Logic.{◌↔◌}
use mathlib.Core.Bool.{Bool, true, false, ◌&&◌, ◌||◌}
use mathlib.Core.List.{List, [], ◌∷◌, ◌++◌}
use native.Mathlib.Omega.{arith}
use linuxmuster_radius.Prelude.Tests.{◌==◌, leb, ltb, if◌then◌else◌}
use linuxmuster_radius.Prelude.Lists.{any}

abbrev pub Text : Type 0
Text = List ℕ

-- The code points of a literal.
abbrev pub codes : String → Text
codes String.[] = []
codes (String.◌∷◌ c s) = code c ∷ codes s

-- `s == t`
unfoldable pub text_eq : Text → Text → Bool
text_eq [] [] = true
text_eq (a ∷ s) (b ∷ t) = a == b && text_eq s t
text_eq _ _ = false

pub text_eq_iff : (s t : Text) → (text_eq s t ≡ true) ↔ (s ≡ t)
unfolding text_eq
text_eq_iff [] [] = (λ _. refl, λ _. refl)
text_eq_iff [] (b ∷ t) = (λ h. cc, λ h. cc)
text_eq_iff (a ∷ s) [] = (λ h. cc, λ h. cc)
text_eq_iff (a ∷ s) (b ∷ t) =
    let ih = text_eq_iff s t in (λ h. ground (arith, ih), λ h. ground (arith, ih))

pub text_eq_refl : (s : Text) → text_eq s s ≡ true
text_eq_refl s = (text_eq_iff s s).1 refl

-- `s.startswith(t)`
unfoldable pub starts_with : Text → Text → Bool
starts_with s [] = true
starts_with [] (b ∷ t) = false
starts_with (a ∷ s) (b ∷ t) = a == b && starts_with s t

-- `t in s`, for texts.
unfoldable pub contains : Text → Text → Bool
unfolding starts_with
contains [] t = starts_with [] t
contains (a ∷ s) t = starts_with (a ∷ s) t || contains s t

-- `c in s`, for one character.
abbrev pub has : ℕ → Text → Bool
has c = any (λ x. x == c)

-- `str.isspace` of one character, which `str.strip` takes off.
unfoldable pub is_space : ℕ → Bool
is_space c =
    (leb 9 c && leb c 13)
    || (leb 28 c && leb c 32)
    || c == 0x85
    || c == 0xa0
    || c == 0x1680
    || (leb 0x2000 c && leb c 0x200a)
    || c == 0x2028
    || c == 0x2029
    || c == 0x202f
    || c == 0x205f
    || c == 0x3000

unfoldable pub lstrip : Text → Text
lstrip [] = []
lstrip (c ∷ s) = let rest = lstrip s in if is_space c then rest else c ∷ s

abbrev pub drop_if_last : Bool → ℕ → Text → Text
drop_if_last true c [] = []
drop_if_last true c (d ∷ s) = c ∷ d ∷ s
drop_if_last false c s = c ∷ s

-- Takes off the characters of a class at the end.
unfoldable pub rstrip_of : (ℕ → Bool) → Text → Text
rstrip_of p [] = []
rstrip_of p (c ∷ s) = drop_if_last (p c) c (rstrip_of p s)

-- `s.strip()`
unfoldable pub strip : Text → Text
unfolding lstrip rstrip_of is_space
strip s = rstrip_of is_space (lstrip s)

-- `s <= t`, by code points.
unfoldable pub text_le : Text → Text → Bool
text_le [] t = true
text_le (a ∷ s) [] = false
text_le (a ∷ s) (b ∷ t) = if a == b then text_le s t else leb a b

-- `sep.join(parts)`
unfoldable pub join : Text → List Text → Text
join sep [] = []
join sep (s ∷ []) = s
join sep (s ∷ t ∷ ts) = s ++ (sep ++ join sep (t ∷ ts))

-- `str(n)`, with fuel for the digits: `n + 1` is enough.
unfoldable pub digits : ℕ → ℕ → Text
digits zero n = []
digits (suc f) n =
    let more = digits f (n / 10) ++ (b'0' + n % 10) ∷ [] in
    if ltb n 10 then (b'0' + n) ∷ [] else more

unfoldable pub show_nat : ℕ → Text
unfolding digits
show_nat n = digits (suc n) n

-- `s.partition(c)` and `s.rpartition(c)` for a character that stands in the text: what is before
-- it and what is behind it.
unfoldable pub partition : ℕ → Text → Text × Text
partition c [] = ([], [])
partition c (x ∷ s) =
    let (before, behind) = partition c s in if x == c then ([], s) else (x ∷ before, behind)

unfoldable pub rpartition : ℕ → Text → Text × Text
rpartition c [] = ([], [])
rpartition c (x ∷ s) =
    let (before, behind) = rpartition c s in if has c s then (x ∷ before, behind) else ([], s)

-- `s.split(c)`
abbrev pub push_first : ℕ → List Text → List Text
push_first c [] = (c ∷ []) ∷ []
push_first c (s ∷ ss) = (c ∷ s) ∷ ss

unfoldable pub split : ℕ → Text → List Text
split c [] = [] ∷ []
split c (x ∷ s) = let rest = split c s in if x == c then [] ∷ rest else push_first x rest

-- The characters that end a line for `str.splitlines`; a carriage return with a newline is one end.
unfoldable pub is_line_end : ℕ → Bool
is_line_end c =
    (leb 10 c && leb c 13) || (leb 28 c && leb c 30) || c == 0x85 || c == 0x2028 || c == 0x2029

unfoldable pub splitlines : Text → List Text
unfolding is_line_end
splitlines [] = []
splitlines (c ∷ []) = if is_line_end c then [] ∷ [] else (c ∷ []) ∷ []
splitlines (c ∷ d ∷ s) =
    let rest = splitlines (d ∷ s) in
    if c == 13 && d == 10 then rest else if is_line_end c then [] ∷ rest else push_first c rest

-- The last character, or `d` if there is none.
unfoldable pub last : ℕ → Text → ℕ
last d [] = d
last d (c ∷ s) = last c s

-- `s[:n]` and `s[n:]`
unfoldable pub take : ℕ → Text → Text
take zero s = []
take (suc n) [] = []
take (suc n) (c ∷ s) = c ∷ take n s

unfoldable pub drop : ℕ → Text → Text
drop zero s = s
drop (suc n) [] = []
drop (suc n) (c ∷ s) = drop n s

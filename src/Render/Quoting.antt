-- ===== src/Render/Quoting.antt =====
-- What `_escape_config_string` makes of quotes and backslashes.
use linuxmuster_radius.Prelude.{
  ℕ, ◌≡◌, refl, false, Option, none, some, [], ◌∷◌, ◌++◌, Text, ◌==◌, ==_iff, if◌then◌else◌, inl,
  inr, Bool-cases,
}
use mathlib.Core.Option
use linuxmuster_radius.Render.{replace, escape_config_string}

abbrev pub push : ℕ → Option Text → Option Text
push c = Option.map (λ v. c ∷ v)

-- Takes away the backslash in front of each escaped character; `none` where a quote has none in
-- front of it, or where the last character is a backslash that escapes nothing.
unfoldable pub unescape : Text → Option Text
unescape [] = some []
unescape (c ∷ []) = if c == 34 then none else if c == 92 then none else some (c ∷ [])
unescape (c ∷ d ∷ s) =
    let escaped = push d (unescape s) in
    let plain = push c (unescape (d ∷ s)) in
    if c == 34 then none else if c == 92 then escaped else plain

-- The escaped form of one character.
abbrev escape_char : ℕ → Text
escape_char c = if c == 92 then 92 ∷ 92 ∷ [] else if c == 34 then 92 ∷ 34 ∷ [] else c ∷ []

escape-cons :
    (c : ℕ) (v : Text) → escape_config_string (c ∷ v) ≡ escape_char c ++ escape_config_string v
unfolding escape_config_string
escape-cons c v = elim (Bool-cases (c == 92)) [
  | inl e ↦ rw e
  | inr e ↦ elim (Bool-cases (c == 34)) [ inl q ↦ rw (e, replace, q) | inr q ↦ rw (e, replace, q) ]
]

unescape-plain :
    (c : ℕ) (s : Text)
    → (c == 34) ≡ false
    → (c == 92) ≡ false
    → unescape (c ∷ s) ≡ push c (unescape s)
unfolding unescape
unescape-plain c [] q b = rw (q, b)
unescape-plain c (d ∷ s) q b = rw (q, b)

unescape-char : (c : ℕ) (s : Text) → unescape (escape_char c ++ s) ≡ push c (unescape s)
unescape-char c s = elim (Bool-cases (c == 92)) [
  | inl e ↦ rw (e, (==_iff c 92).0 e) (unfold unescape in refl)
  | inr e ↦ elim (Bool-cases (c == 34)) [
    | inl q ↦ rw (e, q, (==_iff c 34).0 q) (unfold unescape in refl)
    | inr q ↦ rw (e, q) (unescape-plain c s q e)
  ]
]

-- In an escaped value each quote is escaped by a backslash, no backslash is left that escapes
-- nothing, and taking away the backslash of each escaped character gives the value back.
pub unescape-escape : (v : Text) → unescape (escape_config_string v) ≡ some v
unescape-escape [] = unfold escape_config_string unescape in refl
unescape-escape (c ∷ v) = rw (escape-cons, unescape-char, unescape-escape v) refl

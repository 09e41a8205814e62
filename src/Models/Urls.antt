-- ===== src/Models/Urls.antt =====
-- `ldap_url_parts` and `is_ldaps`.
use linuxmuster_radius.Prelude.{
  ◌++◌, ℕ, ◌+◌, ◌*◌, Text, codes, strip, starts_with, text_eq, [], ◌∷◌, Option, none, some, Bool,
  ◌||◌, ◌==◌, map, if◌then◌else◌,
}
use mathlib.Core.Option
use linuxmuster_radius.Models.Patterns.{is_upper}

-- `str.lower` on ASCII. No other character has a lower case that begins with a letter of the
-- schemes, so the tests below are those of the full `str.lower`.
unfoldable pub to_lower : ℕ → ℕ
to_lower c = if is_upper c then c + 32 else c

unfoldable pub lower : Text → Text
unfolding to_lower
lower = map to_lower

unfoldable pub is_ldaps : Text → Bool
unfolding strip lower starts_with
is_ldaps url = starts_with (lower (strip url)) (codes "ldaps://")

-- Under `re.IGNORECASE` an `s` matches `s`, `S` and the long s, U+017F.
abbrev is_s : ℕ → Bool
is_s c = to_lower c == b's' || c == 0x17f

-- What is behind `prefix` in a text, up to case.
unfoldable pub after_nocase : Text → Text → Option Text
unfolding to_lower
after_nocase [] s = some s
after_nocase (p ∷ ps) [] = none
after_nocase (p ∷ ps) (c ∷ s) =
    let rest = after_nocase ps s in if to_lower c == p then rest else none

-- `[^/:]+` takes the longest run: behind it only `:` or the end can follow.
unfoldable pub host_run : Text → Text × Text
host_run [] = ([], [])
host_run (c ∷ s) =
    let (h, rest) = host_run s in if c == b'/' || c == b':' then ([], c ∷ s) else (c ∷ h, rest)

-- `int(digits)` of the digits that `\d+` has taken; `none` where a character is no digit.
unfoldable pub to_int : (ℕ → Option ℕ) → ℕ → Text → Option ℕ
to_int decimal acc [] = some acc
to_int decimal acc (c ∷ s) = elim (decimal c) [
  | none ↦ none
  | some d ↦ to_int decimal (acc * 10 + d) s
]

pub record UrlParts : Type 0 where
  pub scheme : Text
  pub host : Text
  pub port : ℕ

-- `(?::(\d+))?$` and the default port behind it. The address was stripped, so it does not end in
-- a newline that `$` would pass over.
unfoldable pub port_part : (ℕ → Option ℕ) → ℕ → Text → Option ℕ
unfolding to_int
port_part decimal default [] = some default
port_part decimal default (c ∷ []) = none
port_part decimal default (c ∷ d ∷ s) = if c == b':' then to_int decimal 0 (d ∷ s) else none

-- What is behind the scheme: a host that is not empty, and the port.
unfoldable pub with_host : (ℕ → Option ℕ) → Text → Text × Text → Option UrlParts
unfolding port_part
with_host decimal scheme ([], rest) = none
with_host decimal scheme (h ∷ hs, rest) =
    Option.map (λ port. record { scheme = scheme; host = h ∷ hs; port = port })
      (port_part decimal (if text_eq scheme (codes "ldaps") then 636 else 389) rest)

unfoldable pub authority : (ℕ → Option ℕ) → Text → Text → Option UrlParts
unfolding after_nocase host_run with_host text_eq
authority decimal scheme s = elim (after_nocase (codes "://") s) [
  | none ↦ none
  | some t ↦ with_host decimal scheme (host_run t)
]

-- The optional `s` of the scheme, in lower case.
unfoldable pub scheme_part : (ℕ → Option ℕ) → Text → Option UrlParts
unfolding authority to_lower
scheme_part decimal [] = none
scheme_part decimal (c ∷ s) =
    if is_s c
    then authority decimal (codes "ldap" ++ to_lower c ∷ []) s
    else authority decimal (codes "ldap") (c ∷ s)

-- `none` is the `ValueError` of an address that is no `ldap(s)://` URI.
unfoldable pub ldap_url_parts : (ℕ → Option ℕ) → Text → Option UrlParts
unfolding scheme_part strip
ldap_url_parts decimal url = elim (after_nocase (codes "ldap") (strip url)) [
  | none ↦ none
  | some s ↦ scheme_part decimal s
]

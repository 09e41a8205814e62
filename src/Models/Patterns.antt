-- ===== src/Models/Patterns.antt =====
-- The patterns of controlplane/lmnradius/models.py (and of api.py and ca.py, which repeat two).
use linuxmuster_radius.Prelude.{
  ℕ, Bool, ◌&&◌, ◌||◌, not, Text, codes, has, leb, ◌==◌, Option, none, some,
}
use linuxmuster_radius.Regex.{
  Regex, class, seq, alt, both, star, char, lit, opt, line, times, fullmatch,
}
use linuxmuster_radius.Regex.Words.{word}

abbrev pub is_lower : ℕ → Bool
is_lower c = leb b'a' c && leb c b'z'

abbrev pub is_upper : ℕ → Bool
is_upper c = leb b'A' c && leb c b'Z'

abbrev pub is_digit : ℕ → Bool
is_digit c = leb b'0' c && leb c b'9'

-- `[A-Za-z0-9]`
abbrev pub is_alnum : ℕ → Bool
is_alnum c = is_upper c || is_lower c || is_digit c

-- `[A-Z0-9]`
abbrev pub is_upper_alnum : ℕ → Bool
is_upper_alnum c = is_upper c || is_digit c

-- `[a-z0-9]`
abbrev pub is_lower_alnum : ℕ → Bool
is_lower_alnum c = is_lower c || is_digit c

-- The classes with more characters in them: `[A-Za-z0-9-]`, `[A-Za-z0-9._-]`, and so on.
abbrev pub or_in : (ℕ → Bool) → Text → ℕ → Bool
or_in p extra c = p c || has c extra

-- `^[A-Za-z0-9][A-Za-z0-9-]{0,30}$`
abbrev pub name_re : Regex
name_re = word is_alnum (or_in is_alnum (codes "-")) 30

-- `^[A-Z0-9][A-Z0-9.-]{0,254}$`
abbrev pub realm_re : Regex
realm_re = word is_upper_alnum (or_in is_upper_alnum (codes ".-")) 254

-- `^[A-Z0-9][A-Z0-9-]{0,20}$`
abbrev pub workgroup_re : Regex
workgroup_re = word is_upper_alnum (or_in is_upper_alnum (codes "-")) 20

-- `[a-zA-Z0-9]([a-zA-Z0-9-]{0,62})(\.[a-zA-Z0-9]([a-zA-Z0-9-]{0,62}))*`
abbrev pub label : Regex
label = word is_alnum (or_in is_alnum (codes "-")) 62

abbrev pub host_re : Regex
host_re = seq label (star (seq (char b'.') label))

-- `.`, any character but a newline.
abbrev pub not_newline : ℕ → Bool
not_newline c = not (c == 10)

-- `^(?=.{1,253}$)` in front of `host_re`: both must match.
unfoldable pub host_match : Text → Bool
host_match = fullmatch (both (line (word not_newline not_newline 252)) (line host_re))

-- `^[A-Za-z0-9][A-Za-z0-9._ -]{0,63}$`
abbrev pub group_re : Regex
group_re = word is_alnum (or_in is_alnum (codes "._ -")) 63

-- `^[A-Za-z0-9][A-Za-z0-9=,._ /-]{0,254}$`
abbrev pub dn_re : Regex
dn_re = word is_alnum (or_in is_alnum (codes "=,._ /-")) 254

-- `\d` of a text pattern is every decimal digit of Unicode, so `decimal` is a parameter.
-- `^ldaps?://<host>(:\d+)?$`
abbrev pub is_decimal : (ℕ → Option ℕ) → ℕ → Bool
is_decimal decimal c = elim (decimal c) [ none ↦ Bool.false | some d ↦ Bool.true ]

abbrev pub port_re : (ℕ → Option ℕ) → Regex
port_re decimal =
    seq (char b':') (seq (class (is_decimal decimal)) (star (class (is_decimal decimal))))

abbrev pub ldap_uri_re : (ℕ → Option ℕ) → Regex
ldap_uri_re decimal =
    seq (lit (codes "ldap"))
      (seq (opt (char b's')) (seq (lit (codes "://")) (seq host_re (opt (port_re decimal)))))

-- `^[A-Za-z0-9][A-Za-z0-9._-]{0,62}$`
abbrev pub secret_re : Regex
secret_re = word is_alnum (or_in is_alnum (codes "._-")) 62

-- `^[A-Za-z0-9][A-Za-z0-9._ -]{0,31}$`
abbrev pub ssid_re : Regex
ssid_re = word is_alnum (or_in is_alnum (codes "._ -")) 31

-- `:[A-Za-z0-9][A-Za-z0-9._-]{0,127}` and `@sha256:[a-f0-9]{64}`
abbrev pub is_hex : ℕ → Bool
is_hex c = (leb b'a' c && leb c b'f') || is_digit c

abbrev pub image_path : ℕ → Bool
image_path = or_in is_lower_alnum (codes "._/:-")

abbrev pub tag_re : Regex
tag_re = seq (char b':') (word is_alnum (or_in is_alnum (codes "._-")) 127)

abbrev pub digest_re : Regex
digest_re = seq (lit (codes "@sha256:")) (times 64 (class is_hex))

-- `^[a-z0-9][a-z0-9._/:-]*(?:<tag>|<digest>)$`
abbrev pub image_re : Regex
image_re = seq (class is_lower_alnum) (seq (star (class image_path)) (alt tag_re digest_re))

-- `^[A-Za-z0-9][A-Za-z0-9._-]{0,63}$`
abbrev pub test_user_re : Regex
test_user_re = word is_alnum (or_in is_alnum (codes "._-")) 63

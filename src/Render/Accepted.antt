-- ===== src/Render/Accepted.antt =====
-- The escaping is a second guard: the model's patterns admit nothing that it would change.
use linuxmuster_radius.Prelude.{
  ℕ, true, false, ◌==◌, ◌≡◌, refl, [], ◌∷◌, Text, all, and-left, and-right, arith,
}
use linuxmuster_radius.Regex.{re_match}
use linuxmuster_radius.Models.Types.{Ssid}
use linuxmuster_radius.Models.Characters.{group_char, all-ssid_re, all-group_re}
use linuxmuster_radius.Models.Patterns.{ssid_re, group_re}
use linuxmuster_radius.Models.Fields.{v_ssid}
use linuxmuster_radius.Render.{replace, escape_config_string}

-- A character that stands in an accepted value is neither a quote nor a backslash.
group_char-plain : (c : ℕ) → group_char c ≡ true → ((c == 34) ≡ false) × ((c == 92) ≡ false)
group_char-plain c h = (ground (arith, h), ground (arith, h))

escape_plain : (v : Text) → all group_char v ≡ true → escape_config_string v ≡ v
unfolding escape_config_string
escape_plain [] h = refl
escape_plain (c ∷ v) h =
    let (quote, slash) = group_char-plain c (and-left (group_char c) _ h) in
    rw (slash, replace, quote) (rw (escape_plain v (and-right (group_char c) _ h)) refl)

accepted_parts :
    (s : Ssid)
    → v_ssid s ≡ true
    → (re_match ssid_re s.name ≡ true) × (re_match group_re s.allowed_group ≡ true)
unfolding v_ssid
accepted_parts s h = (ground (arith, h), ground (arith, h))

-- Escaping changes nothing of the name or the group of an SSID that the model accepts: neither can
-- have a quote or a backslash.
pub escape-v_ssid :
    (s : Ssid)
    → v_ssid s ≡ true
    → (escape_config_string s.name ≡ s.name)
      × (escape_config_string s.allowed_group ≡ s.allowed_group)
escape-v_ssid s h =
    let (name, group) = accepted_parts s h in
    (
      escape_plain s.name (all-ssid_re s.name name),
      escape_plain s.allowed_group (all-group_re s.allowed_group group),
    )

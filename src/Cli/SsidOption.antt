-- ===== src/Cli/SsidOption.antt =====
-- Every SSID and group that the model accepts can be given as an option of the command line.
use linuxmuster_radius.Prelude.{
  ℤ, true, false, ◌≡◌, refl, ap, ◌∙◌, Option, none, some, ◌∷◌, ◌++◌, Text, has,
}
use linuxmuster_radius.Prelude.StringLaws.{has-eq-false, split_none, split-append}
use linuxmuster_radius.Regex.{re_match}
use linuxmuster_radius.Models.Characters.{group_char, all-ssid_re, all-group_re}
use linuxmuster_radius.Models.Patterns.{ssid_re, group_re}
use linuxmuster_radius.Cli.{ssid_entry, vlan_entry, parse_ssid}

no_colon_ssid : (s : Text) → re_match ssid_re s ≡ true → has b':' s ≡ false
no_colon_ssid s h = has-eq-false group_char b':' s refl (all-ssid_re s h)

no_colon_group : (s : Text) → re_match group_re s ≡ true → has b':' s ≡ false
no_colon_group s h = has-eq-false group_char b':' s refl (all-group_re s h)

-- An SSID name and a group that the model accepts, joined by a colon, parse back as they are,
-- without a VLAN.
pub parse_ssid_lem :
    (to_int : Text → Option ℤ) (name group : Text)
    → re_match ssid_re name ≡ true
    → re_match group_re group ≡ true
    → parse_ssid to_int (name ++ b':' ∷ group)
      ≡ some (record { name = name; allowed_group = group; vlan = none })
unfolding parse_ssid
parse_ssid_lem to_int name group hn hg = ap (ssid_entry to_int) (
    split-append b':' name group (no_colon_ssid name hn)
    ∙ ap (λ ss. name ∷ ss) (split_none b':' group (no_colon_group group hg)))

-- With a third part behind a colon, which has no colon itself and reads as a number, that number
-- is the VLAN.
pub parse_ssid_vlan :
    (to_int : Text → Option ℤ) (name group vlan : Text) (n : ℤ)
    → re_match ssid_re name ≡ true
    → re_match group_re group ≡ true
    → has b':' vlan ≡ false
    → to_int vlan ≡ some n
    → parse_ssid to_int (name ++ b':' ∷ (group ++ b':' ∷ vlan))
      ≡ some (record { name = name; allowed_group = group; vlan = some n })
unfolding parse_ssid
parse_ssid_vlan to_int name group vlan n hn hg hv e =
    ap (ssid_entry to_int) (
      split-append b':' name (group ++ b':' ∷ vlan) (no_colon_ssid name hn)
      ∙ ap (λ ss. name ∷ ss)
          (split-append b':' group vlan (no_colon_group group hg)
            ∙ ap (λ ss. group ∷ ss) (split_none b':' vlan hv)))
    ∙ ap (vlan_entry name group) e

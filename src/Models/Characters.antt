-- ===== src/Models/Characters.antt =====
-- The characters that an accepted SSID name or group can have.
use linuxmuster_radius.Prelude.{ℕ, Bool, true, ◌||◌, ◌==◌, ◌≡◌, refl, Text, codes, all}
use linuxmuster_radius.Regex.{re_match}
use linuxmuster_radius.Regex.Words.{Within, all-re_match}
use linuxmuster_radius.Models.Patterns.{is_alnum, or_in, ssid_re, group_re}

-- What can stand in an accepted SSID or group: `$` lets a last newline through.
abbrev pub group_char : ℕ → Bool
group_char c = or_in is_alnum (codes "._ -") c || c == 10

ssid_re-Within : Within group_char ssid_re
ssid_re-Within = (λ c h. rw h, λ c h. rw h)

group_re-Within : Within group_char group_re
group_re-Within = (λ c h. rw h, λ c h. rw h)

pub all-ssid_re : (s : Text) → re_match ssid_re s ≡ true → all group_char s ≡ true
all-ssid_re s h = all-re_match group_char ssid_re s ssid_re-Within refl h

pub all-group_re : (s : Text) → re_match group_re s ≡ true → all group_char s ≡ true
all-group_re s h = all-re_match group_char group_re s group_re-Within refl h

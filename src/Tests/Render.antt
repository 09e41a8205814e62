-- ===== src/Tests/Render.antt =====
-- The theorems on the rendered files, applied to values of the sample.
use linuxmuster_radius.Prelude.{◌≡◌, refl, true, some, codes}
use linuxmuster_radius.Models.Fields.{v_ssid}
use linuxmuster_radius.Render.{escape_config_string}
use linuxmuster_radius.Render.Quoting.{unescape, unescape-escape}
use linuxmuster_radius.Render.Accepted.{escape-v_ssid}
use linuxmuster_radius.Tests.Sample.{teachers}

unescape-escape_example : unescape (escape_config_string (codes "a\"b\\c")) ≡ some (codes "a\"b\\c")
unescape-escape_example = unescape-escape (codes "a\"b\\c")

teachers-valid : v_ssid teachers ≡ true
unfolding v_ssid linuxmuster_radius.Regex.fullmatch
teachers-valid = refl

escape-v_ssid_example :
    (escape_config_string teachers.name ≡ teachers.name)
    × (escape_config_string teachers.allowed_group ≡ teachers.allowed_group)
escape-v_ssid_example = escape-v_ssid teachers teachers-valid

-- ===== src/Tests/Store.antt =====
-- The theorems on the store, applied to the sample.
use linuxmuster_radius.Prelude.{◌≡◌, refl, true, none, some, Text, codes, text_eq}
use linuxmuster_radius.Exec.{ok}
use linuxmuster_radius.Dict
use linuxmuster_radius.Models.Fields.{v_name}
use linuxmuster_radius.World.{World}
use linuxmuster_radius.Store.{put, delete, get}
use linuxmuster_radius.Store.Files.{safe_name}
use linuxmuster_radius.Store.Effects.{OkOrStoreError, without, delete_effect}
use linuxmuster_radius.Store.Records.{get-put_store, get-delete}
use linuxmuster_radius.Tests.Sample.{sample, sample-valid, sample_host, sample_py, sample_world}

wlan_safe : safe_name (codes "wlan") ≡ true
unfolding safe_name
wlan_safe = refl

-- The state after a `put` of the sample.
abbrev stored : World sample_host
stored = (put sample_host sample sample_world).1

delete_effect_example :
    OkOrStoreError (delete sample_host (codes "wlan") stored).0
    × ((k : Text)
        → Dict.get (delete sample_host (codes "wlan") stored).1.instances k
          ≡ without sample_host (codes "wlan") stored.instances k)
    × ((delete sample_host (codes "wlan") stored).1.files ≡ stored.files)
delete_effect_example = delete_effect sample_host (codes "wlan") stored wlan_safe

get-put_store_example : (get sample_host sample_py (codes "wlan") stored).0 ≡ ok (some sample)
unfolding text_eq
get-put_store_example =
    get-put_store sample_host sample_py sample refl (codes "wlan") sample_world sample-valid
      wlan_safe

get-delete_example :
    (get sample_host sample_py (codes "wlan") (delete sample_host (codes "wlan") stored).1).0
    ≡ ok none
unfolding text_eq
get-delete_example =
    get-delete sample_host sample_py (codes "wlan") (codes "wlan") stored wlan_safe wlan_safe

wlan_2_valid : v_name (codes "wlan-2") ≡ true
unfolding v_name linuxmuster_radius.Regex.fullmatch
wlan_2_valid = refl

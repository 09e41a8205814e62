-- ===== src/Tests/Interleaving.antt =====
-- An update of the sample that waits while the sample is deleted.
use linuxmuster_radius.Prelude.{◌≡◌, refl, true, false, some, none, [], ◌∷◌, codes, text_eq}
use linuxmuster_radius.Exec.{ok}
use linuxmuster_radius.Dict
use linuxmuster_radius.World.{World}
use linuxmuster_radius.Store
use linuxmuster_radius.Store.{put}
use linuxmuster_radius.Store.Files.{safe_name}
use linuxmuster_radius.Store.Records.{put-IsConsistent}
use linuxmuster_radius.Docker.Removal.{Leave}
use linuxmuster_radius.Reconciler
use linuxmuster_radius.Api.{delete_instance}
use linuxmuster_radius.Api.Interleaving.{
  System, Waiting, Reach, here, next, update_begun, deleted, update_ended, first, begun, ended,
}
use linuxmuster_radius.Api.Interleaving.Sound.{IsSound, Reach-IsSound}
use linuxmuster_radius.Api.Interleaving.Restored.{removed-restored}
use linuxmuster_radius.Models.Valid.{is_instance-IsValid}
use linuxmuster_radius.Updater.{with_image}
use linuxmuster_radius.Tests.Api.{require-stored}
use linuxmuster_radius.Tests.Ca.{texts}
use linuxmuster_radius.Tests.Sample.{
  sample, sample-valid, sample_new-valid, sample_host, sample_py, sample_config, sample_world,
  sample-IsConsistent, new_image,
}

abbrev stored : World sample_host
stored = (put sample_host sample sample_world).1

abbrev at_first : System sample_host
at_first = record { world = stored; waiting = [] }

abbrev update : Waiting
update = record { inst = sample; new_image = new_image }

abbrev waits : World sample_host
waits =
    begun sample_host sample_py sample_config 6000 3000 3 texts (codes "wlan") sample new_image
      stored

abbrev without : World sample_host
without = (delete_instance sample_host sample_py sample_config 6000 3000 3 (codes "wlan") waits).1

abbrev at_last : System sample_host
at_last = record {
  world = ended sample_host sample_py sample_config 6000 3000 3 texts update (some false) without;
  waiting = [];
}

reached : Reach sample_host sample_py sample_config 6000 3000 3 texts at_first at_last
reached =
    next
      (next
        (next here (
          update_begun at_first (codes "wlan") sample new_image require-stored
            (is_instance-IsValid sample_py (with_image new_image sample) sample_new-valid).image))
        (deleted (record { world = waits; waiting = update ∷ [] }) (codes "wlan")))
      (update_ended (record { world = without; waiting = update ∷ [] }) update (some false) []
        (first []))

Reach-IsSound_example : IsSound sample_host sample_py sample_config 6000 3000 3 texts at_last
unfolding reached
Reach-IsSound_example =
    Reach-IsSound sample_host sample_py sample_config 6000 3000 3 texts reached (refl, (refl, tt))
      (record {
        consistent =
            put-IsConsistent sample_host sample_py sample refl sample_world sample-valid
              sample-IsConsistent;
        restorable = tt;
      })

abbrev left : Leave
left = record { succeeded = true; attempted = true; detail = [] }

removal-returns :
    (Reconciler.remove sample_host sample_py sample_config 3 (codes "wlan") stored).0 ≡ ok left
unfolding Reconciler.remove safe_name Dict.get put Dict.put text_eq
    linuxmuster_radius.Store.Files.yaml_file linuxmuster_radius.Models.Fields.is_instance
    linuxmuster_radius.Models.Fields.v_name linuxmuster_radius.Regex.fullmatch
    linuxmuster_radius.Models.Patterns.host_match linuxmuster_radius.Models.Fields.v_ldap_server
    linuxmuster_radius.Models.Fields.v_dn linuxmuster_radius.Models.Fields.v_client_subnets
    linuxmuster_radius.Models.Network.covers_loopback linuxmuster_radius.Models.Fields.v_ssids
    linuxmuster_radius.Models.Fields.v_secret linuxmuster_radius.Models.Fields.v_image
    linuxmuster_radius.Models.Fields.v_ldap_ca linuxmuster_radius.Docker.Env.configured_or
    linuxmuster_radius.Models.Urls.ldap_url_parts linuxmuster_radius.Docker.Paths.resolve_under
    linuxmuster_radius.Prelude.contains Dict.remove linuxmuster_radius.Docker.Env.env_for
    linuxmuster_radius.Docker.Mounts.mounts linuxmuster_radius.Store.Files.prev_file
removal-returns = refl

removed-restored_example :
    let removed =
      (Reconciler.remove sample_host sample_py sample_config 3 (codes "wlan") stored).1 in
    ((Store.get sample_host sample_py (codes "wlan") removed).0 ≡ ok none)
    × ((Store.get sample_host sample_py (codes "wlan") (
          ended sample_host sample_py sample_config 6000 3000 3 texts update
            (some false)
            removed)).0
        ≡ ok (some sample))
removed-restored_example =
    removed-restored sample_host sample_py sample_config 6000 3000 3 texts update left stored
      (refl, sample-valid) removal-returns

-- ===== src/Tests/Api.antt =====
-- The theorems on the handlers, applied to the sample.
use linuxmuster_radius.Prelude.{
  subst, ◌∙◌, sym, ap, ◌≡◌, ◌≢◌, ◌↔◌, refl, true, false, Option, none, some, [], ◌∷◌, Text, codes,
}
use linuxmuster_radius.Exec.{Result, ok, err}
use linuxmuster_radius.Models.Types.{Instance, InstancePatch}
use linuxmuster_radius.Host.{dict}
use linuxmuster_radius.World.{World}
use linuxmuster_radius.Store.{put}
use linuxmuster_radius.Store.Records.{IsConsistent, put-IsConsistent}
use linuxmuster_radius.Api.{verify, require, merge, patch_instance}
use linuxmuster_radius.Api.Laws.{
  Required, verify_iff, require-Required, patch_instance-IsConsistent,
}
use linuxmuster_radius.Models.Types.{InstanceCreate}
use linuxmuster_radius.Ca.LdapCa.{describe_one}
use linuxmuster_radius.Api.Authority.{Applied, with_ldap_ca, create_instance}
use linuxmuster_radius.Api.Creating.{IsVerified, create_instance-IsVerified}
use linuxmuster_radius.Docker.View.{View, present}
use linuxmuster_radius.Tests.Ca.{texts}
use linuxmuster_radius.Tests.Sample.{
  sample, sample-valid, sample_host, sample_py, sample_config, sample_world, sample-IsConsistent,
  new_image,
}

verify_iff_example :
    (verify (codes "token") (some (codes "token")) ≡ ok tt)
    ↔ ((some (codes "token") ≡ some (codes "token")) × (codes "token" ≢ []))
verify_iff_example = verify_iff (codes "token") (some (codes "token"))

-- The state after a `put` of the sample.
abbrev stored : World sample_host
stored = (put sample_host sample sample_world).1

stored-IsConsistent : IsConsistent sample_host sample_py stored.instances
stored-IsConsistent =
    put-IsConsistent sample_host sample_py sample refl sample_world sample-valid sample-IsConsistent

require-Required_example :
    Required sample_host sample_py sample_config 6000 3000 3
      (codes "wlan")
      stored.instances
      (require sample_host sample_py sample_config 6000 3000 3 (codes "wlan") stored).0
    × ((require sample_host sample_py sample_config 6000 3000 3 (codes "wlan") stored).1 ≡ stored)
require-Required_example =
    require-Required sample_host sample_py sample_config 6000 3000 3 (codes "wlan") stored
      stored-IsConsistent

abbrev image_patch : InstancePatch
image_patch = record {
  realm = none;
  workgroup = none;
  server_fqdn = none;
  ldap_server = none;
  ldap_base_dn = none;
  ldap_bind_dn = none;
  wifi_group = none;
  client_subnets = none;
  ssids = none;
  join_secret = none;
  ldap_bind_secret = none;
  radius_secret = none;
  image = some (some new_image);
  ldap_ca = none;
}

pub require-stored :
    (require sample_host sample_py sample_config 6000 3000 3 (codes "wlan") stored).0 ≡ ok sample
unfolding require linuxmuster_radius.Store.Files.safe_name linuxmuster_radius.Dict.get
    linuxmuster_radius.Dict.put linuxmuster_radius.Prelude.text_eq
    linuxmuster_radius.Store.Files.yaml_file linuxmuster_radius.Models.Fields.is_instance
    linuxmuster_radius.Models.Fields.v_name linuxmuster_radius.Models.Patterns.host_match
    linuxmuster_radius.Models.Fields.v_ldap_server linuxmuster_radius.Models.Fields.v_dn
    linuxmuster_radius.Models.Fields.v_client_subnets
    linuxmuster_radius.Models.Network.covers_loopback linuxmuster_radius.Models.Fields.v_ssids
    linuxmuster_radius.Models.Fields.v_secret linuxmuster_radius.Models.Fields.v_image
    linuxmuster_radius.Models.Fields.v_cidr linuxmuster_radius.Models.Fields.v_ldap_ca
    linuxmuster_radius.Models.Fields.v_ssid linuxmuster_radius.Models.Fields.v_vlan
    linuxmuster_radius.Models.Network.overlaps linuxmuster_radius.Prelude.contains
    linuxmuster_radius.Prelude.starts_with linuxmuster_radius.Prelude.strip
    linuxmuster_radius.Regex.fullmatch linuxmuster_radius.Store.put
require-stored = refl

abbrev or_else : {A : Type 0} → Result A → A → A
or_else (ok a) b = a
or_else (err e) b = b

loads-merged :
    (i : Instance)
    → (require sample_host sample_py sample_config 6000 3000 3 (codes "wlan") stored).0 ≡ ok i
    → sample_host.safe_load (sample_host.safe_dump (merge i image_patch))
      ≡ dict (some (merge i image_patch))
loads-merged i e =
    let same = ap (λ r. or_else r sample) (sym require-stored ∙ e) in
    subst
      (λ j.
        sample_host.safe_load (sample_host.safe_dump (merge j image_patch))
        ≡ dict (some (merge j image_patch)))
      same (unfold merge in refl)

patch_instance-IsConsistent_example :
    IsConsistent sample_host sample_py
      (patch_instance sample_host sample_py sample_config 6000 3000 3
        (codes "wlan")
        image_patch
        stored).1.instances
patch_instance-IsConsistent_example =
    patch_instance-IsConsistent sample_host sample_py sample_config 6000 3000 3 (codes "wlan")
      image_patch stored loads-merged stored-IsConsistent

-- The sample with a bundle, which is pinned.
abbrev with_bundle : InstanceCreate
with_bundle = record { instance_fields = sample; ldap_ca_pem = some (codes "dc ca") }

abbrev healthy_view : View
healthy_view = record {
  running = true;
  health = some (codes "healthy");
  restart_count = 0;
  crash_looping = false;
  exit_code = none;
}

abbrev created : Applied
created = record {
  instance_now = with_ldap_ca sample (codes "ldap-ca.pem");
  status = some (present (codes "wlan") healthy_view none none);
  ldap_ca = some (record {
    file = codes "ldap-ca.pem";
    certificates = describe_one texts (codes "dc ca") ∷ [];
    trust_anchor = true;
  });
}

creates :
    (create_instance sample_host sample_py sample_config 6000 3000 3 texts with_bundle
      sample_world).0
    ≡ ok created
unfolding create_instance linuxmuster_radius.Docker.Paths.resolve_under linuxmuster_radius.Dict.get
    linuxmuster_radius.Dict.put linuxmuster_radius.Render.render_clients_conf
    linuxmuster_radius.Docker.Env.configured_or linuxmuster_radius.Models.Urls.ldap_url_parts
creates = refl

create_instance-IsVerified_example :
    IsVerified sample_host sample_py sample_config 6000 3000 3 texts with_bundle
      (some (codes "dc ca"))
      created
      sample_world
      (create_instance sample_host sample_py sample_config 6000 3000 3 texts with_bundle
        sample_world).1
unfolding linuxmuster_radius.Models.Urls.is_ldaps
create_instance-IsVerified_example =
    create_instance-IsVerified sample_host sample_py sample_config 6000 3000 3 texts with_bundle
      created sample_world creates refl

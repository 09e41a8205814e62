-- ===== src/Tests/Updater.antt =====
-- The theorems on updates, applied to an update of the sample that turns healthy.
use linuxmuster_radius.Prelude.{
  Option, arith, ◌≡◌, ◌≢◌, refl, true, none, some, [], Text, codes, text_eq, if◌then◌else◌,
}
use linuxmuster_radius.Exec.{api_error, Result, err, ok, is_ok}
use linuxmuster_radius.Dict
use linuxmuster_radius.Store.Files.{safe_name, yaml_file, prev_file}
use linuxmuster_radius.Reconciler.{apply}
use linuxmuster_radius.Updater.{kept, with_image, wait_healthy, update_found, write_prev}
use linuxmuster_radius.Updater.Records.{apply_instances, IsFinal, update_found_leaves}
use linuxmuster_radius.Updater.Waiting.{SeenHealthy, update_found-kept}
use linuxmuster_radius.Updater.Fuel.{wait_healthy-ends}
use linuxmuster_radius.Updater.Consistency.{Stores, update-IsConsistent, update_found-raises}
use linuxmuster_radius.Exec.Chains.{ok_injective}
use linuxmuster_radius.Store
use mathlib.Core.Option.{some-injective}
use linuxmuster_radius.Models.Types.{Instance}
use linuxmuster_radius.Updater.{update}
use linuxmuster_radius.Prelude.{sym, ◌∙◌, subst}
use linuxmuster_radius.Store.Records.{get-put_store, put-IsConsistent}
use linuxmuster_radius.World.{World}
use linuxmuster_radius.Docker.View.{Status}
use linuxmuster_radius.Store.Records.{IsConsistent}
use linuxmuster_radius.Tests.Docker.{sample-Clock}
use linuxmuster_radius.Tests.Sample.{
  failing_host, failing_world, sample-valid, sample_new-valid, sample-IsConsistent, sample,
  sample_host, sample_py, sample_config, sample_world, old_image, new_image,
}

wlan_safe : safe_name (codes "wlan") ≡ true
unfolding safe_name
wlan_safe = refl

-- The state after a `put` of the sample.
abbrev stored : World sample_host
stored = (Store.put sample_host sample sample_world).1

update-kept :
    (update_found sample_host sample_py sample_config 6000 3000 3
      (codes "wlan")
      sample
      new_image
      sample_world).0
    ≡ ok (some (kept (codes "wlan") new_image old_image))
unfolding update_found safe_name linuxmuster_radius.Docker.Paths.resolve_under Dict.get
    linuxmuster_radius.Render.render_clients_conf linuxmuster_radius.Docker.Env.configured_or
    linuxmuster_radius.Models.Urls.ldap_url_parts Dict.put
update-kept = refl

apply_instances_example :
    (apply sample_host sample_py sample_config 3 sample sample_world).1.instances
    ≡ Dict.put [] (yaml_file (codes "wlan")) old_image
apply_instances_example =
    apply_instances sample_host sample_py sample_config 3 sample sample_world wlan_safe

wait_healthy-ends_example :
    (wait_healthy sample_host sample_py sample_config 6000 3000 3 (codes "wlan") sample_world).0
    ≢ ok none
wait_healthy-ends_example =
    wait_healthy-ends sample_host sample-Clock sample_py sample_config 6000 3000 2 (codes "wlan")
      sample_world (ground arith)

update_found-kept_example :
    let applied = apply sample_host sample_py sample_config 3 (with_image new_image sample) (
      write_prev sample_host sample_py sample_config 6000 3000 3
        (codes "wlan")
        old_image
        sample_world) in
    (is_ok applied.0 ≡ true)
    × (new_image ≡ new_image)
    × (old_image ≡ old_image)
    × SeenHealthy sample_host sample_py sample_config 6000 3000 3
        (codes "wlan")
        applied.1
        (update_found sample_host sample_py sample_config 6000 3000 3
          (codes "wlan")
          sample
          new_image
          sample_world).1
update_found-kept_example =
    update_found-kept sample_host sample_py sample_config 6000 3000 3 (codes "wlan") sample
      new_image (codes "wlan") new_image old_image sample_world update-kept

update_found_leaves_example :
    (image : Text) × IsFinal sample_host sample_py sample_config 6000 3000 3 sample new_image
      (update_found sample_host sample_py sample_config 6000 3000 3
        (codes "wlan")
        sample
        new_image
        sample_world).0
      image
    × ((k : Text)
        → Dict.get
            (update_found sample_host sample_py sample_config 6000 3000 3
              (codes "wlan")
              sample
              new_image
              sample_world).1.instances
            k
          ≡ (if text_eq (yaml_file (codes "wlan")) k
              then some image
              else if text_eq (prev_file (codes "wlan")) k
              then some old_image
              else none))
unfolding Dict.get
update_found_leaves_example =
    update_found_leaves sample_host sample_py sample_config 6000 3000 3 (codes "wlan") sample
      new_image sample_world wlan_safe

get-stored : (Store.get sample_host sample_py (codes "wlan") stored).0 ≡ ok (some sample)
unfolding text_eq
get-stored =
    get-put_store sample_host sample_py sample refl (codes "wlan") sample_world sample-valid
      wlan_safe

stored-Stores :
    (i : Instance)
    → (Store.get sample_host sample_py (codes "wlan") stored).0 ≡ ok (some i)
    → Stores sample_host sample_py sample_config 6000 3000 3 i
      × Stores sample_host sample_py sample_config 6000 3000 3 (with_image new_image i)
stored-Stores i e =
    subst
      (λ j.
        Stores sample_host sample_py sample_config 6000 3000 3 j
        × Stores sample_host sample_py sample_config 6000 3000 3 (with_image new_image j))
      (some-injective _ _ (ok_injective _ _ (sym get-stored ∙ e)))
      ((refl, sample-valid), (refl, sample_new-valid))

update-IsConsistent_example :
    IsConsistent sample_host sample_py
      (update sample_host sample_py sample_config 6000 3000 3
        (codes "wlan")
        new_image
        stored).1.instances
update-IsConsistent_example =
    update-IsConsistent sample_host sample_py sample_config 6000 3000 3 (codes "wlan") new_image
      stored stored-Stores
      (put-IsConsistent sample_host sample_py sample refl sample_world sample-valid
        sample-IsConsistent)

-- The state after the new image was applied.
abbrev applied : Result (Option Status) × World failing_host
applied = apply failing_host sample_py sample_config 3 (with_image new_image sample) (
    write_prev failing_host sample_py sample_config 6000 3000 3 (codes "wlan") old_image
      failing_world)

applied-ok : is_ok applied.0 ≡ true
unfolding apply safe_name linuxmuster_radius.Docker.Paths.resolve_under Dict.get
    linuxmuster_radius.Render.render_clients_conf linuxmuster_radius.Docker.Env.configured_or
    linuxmuster_radius.Models.Urls.ldap_url_parts Dict.put
applied-ok = refl

wait-raises :
    (wait_healthy failing_host sample_py sample_config 6000 3000 3 (codes "wlan") applied.1).0
    ≡ err api_error
unfolding apply wait_healthy safe_name linuxmuster_radius.Docker.Paths.resolve_under Dict.get
    linuxmuster_radius.Render.render_clients_conf linuxmuster_radius.Docker.Env.configured_or
    linuxmuster_radius.Models.Urls.ldap_url_parts Dict.put
wait-raises = refl

update_found-raises_example :
    ((update_found failing_host sample_py sample_config 6000 3000 3
        (codes "wlan")
        sample
        new_image
        failing_world).0
      ≡ err api_error)
    × (Dict.get
          (update_found failing_host sample_py sample_config 6000 3000 3
            (codes "wlan")
            sample
            new_image
            failing_world).1.instances
          (yaml_file (codes "wlan"))
        ≡ some new_image)
update_found-raises_example =
    update_found-raises failing_host sample_py sample_config 6000 3000 3 (codes "wlan") sample
      new_image api_error failing_world wlan_safe applied-ok wait-raises

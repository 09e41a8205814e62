-- ===== src/Api/Interleaving/Restored.antt =====
-- A removal that comes while an update waits is undone by the update's rollback.
use linuxmuster_radius.Prelude.{ℕ, ◌≡◌, refl, ap, ◌∙◌, true, false, none, some, Text, text_eq_refl}
use linuxmuster_radius.Exec.{ok}
use linuxmuster_radius.Exec.Chains.{bind-pure_state}
use linuxmuster_radius.Dict
use linuxmuster_radius.Dict.{get-put}
use linuxmuster_radius.Models.Fields.{Stdlib}
use linuxmuster_radius.Host.{Host}
use linuxmuster_radius.World.{World}
use linuxmuster_radius.Store
use linuxmuster_radius.Store.Files.{safe_name, yaml_file}
use linuxmuster_radius.Store.Records.{is_instance-safe_name}
use linuxmuster_radius.Docker.Config.{Config}
use linuxmuster_radius.Docker.Removal.{Leave}
use linuxmuster_radius.Reconciler
use linuxmuster_radius.Updater.{conclude, roll_back}
use linuxmuster_radius.Updater.Consistency.{Stores}
use linuxmuster_radius.Ca.{Crypto}
use linuxmuster_radius.Store.Records.{get_lem, read_record-valid}
use linuxmuster_radius.Reconciler.Leaving.{remove_lem}
use linuxmuster_radius.Updater.Records.{apply_instances}
use linuxmuster_radius.Updater.{roll_back}
use linuxmuster_radius.Api.Interleaving.{Waiting, ended}

module _ (H : Host) (py : Stdlib) (cfg : Config) (timeout interval fuel : ℕ) (C : Crypto) where
  -- After a rollback the record is there, whatever was in the directory.
  get-ended :
      (u : Waiting) (w : World H)
      → Stores H py cfg timeout interval fuel u.inst
      → (Store.get H py u.inst.name (ended H py cfg timeout interval fuel C u (some false) w)).0
        ≡ ok (some u.inst)
  unfolding conclude roll_back
  get-ended u w stores =
      let safe = is_instance-safe_name py u.inst stores.1 in
      let same =
        ap (λ v. v.instances) (bind-pure_state (Reconciler.apply H py cfg fuel u.inst) _ w)
        ∙ apply_instances H py cfg fuel u.inst w safe in
      ap (λ r. r.0)
        (get_lem H py u.inst.name (ended H py cfg timeout interval fuel C u (some false) w) safe)
      ∙ ap (λ d. Store.read_record H py (Dict.get d (yaml_file u.inst.name))) same
      ∙ rw (get-put, text_eq_refl)
          (read_record-valid H py (H.safe_dump u.inst) u.inst stores.0 stores.1)

  get-removed :
      (name : Text) (leave : Leave) (w : World H)
      → safe_name name ≡ true
      → (Reconciler.remove H py cfg fuel name w).0 ≡ ok leave
      → (Store.get H py name (Reconciler.remove H py cfg fuel name w).1).0 ≡ ok none
  unfolding Store.read_record
  get-removed name leave w safe returned =
      ap (λ r. r.0) (get_lem H py name (Reconciler.remove H py cfg fuel name w).1 safe)
      ∙ rw (remove_lem H py cfg fuel name leave w safe returned) refl

  -- Where an instance is removed while an update of it waits, and the update then finds it not
  -- healthy, the record that the removal has dropped is back, with the image before the update.
  pub removed-restored :
      (u : Waiting) (leave : Leave) (w : World H)
      → Stores H py cfg timeout interval fuel u.inst
      → (Reconciler.remove H py cfg fuel u.inst.name w).0 ≡ ok leave
      → let removed = (Reconciler.remove H py cfg fuel u.inst.name w).1 in
        ((Store.get H py u.inst.name removed).0 ≡ ok none)
        × ((Store.get H py u.inst.name
              (ended H py cfg timeout interval fuel C u (some false) removed)).0
            ≡ ok (some u.inst))
  removed-restored u leave w stores returned = (
    get-removed u.inst.name leave w (is_instance-safe_name py u.inst stores.1) returned,
    get-ended u (Reconciler.remove H py cfg fuel u.inst.name w).1 stores,
  )

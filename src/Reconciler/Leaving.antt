-- ===== src/Reconciler/Leaving.antt =====
-- What a removal leaves in the instances directory.
use linuxmuster_radius.Prelude.{◌≡◌, refl, ap, ◌∙◌, ℕ, true, Option, none, Text, text_eq_refl}
use linuxmuster_radius.Exec.{Exec, ok, pure, ◌>>=◌}
use linuxmuster_radius.Exec.Chains.{bind-ok, bind_lem}
use linuxmuster_radius.Dict
use linuxmuster_radius.Models.Types.{Instance}
use linuxmuster_radius.Models.Fields.{Stdlib}
use linuxmuster_radius.Host.{Host}
use linuxmuster_radius.World.{World}
use linuxmuster_radius.Store
use linuxmuster_radius.Store.Files.{safe_name, yaml_file}
use linuxmuster_radius.Store.Effects.{delete_effect}
use linuxmuster_radius.Docker.Config.{Config}
use linuxmuster_radius.Docker.Removal.{Leave}
use linuxmuster_radius.Reconciler.{leave_of, remove}

module _ (H : Host) (py : Stdlib) (cfg : Config) (fuel : ℕ) (name : Text) where
  -- The end of a removal: the record goes, and the result of the leave is returned.
  abbrev dropped : Leave → Exec (World H) Leave
  dropped leave = Store.delete H name >>= λ u. pure leave

  dropped_effect :
      (leave answer : Leave) (w : World H)
      → safe_name name ≡ true
      → (dropped leave w).0 ≡ ok answer
      → Dict.get (dropped leave w).1.instances (yaml_file name) ≡ none
  dropped_effect leave answer w safe e =
      let (u, deleted, e') = bind-ok (Store.delete H name) (λ u. pure leave) answer w e in
      ap (λ r. Dict.get r.1.instances (yaml_file name))
        (bind_lem (Store.delete H name) (λ u. pure leave) u w deleted)
      ∙ ((delete_effect H name w safe).1 (yaml_file name) ∙ rw text_eq_refl refl)

  -- A removal of a safe name that returns has dropped the record, also where leaving the domain
  -- has failed.
  pub remove_lem :
      (leave : Leave) (w : World H)
      → safe_name name ≡ true
      → (remove H py cfg fuel name w).0 ≡ ok leave
      → Dict.get (remove H py cfg fuel name w).1.instances (yaml_file name) ≡ none
  unfolding remove
  remove_lem leave w safe e =
      let rest : Option Instance → Exec (World H) Leave =
        λ inst. leave_of H py cfg fuel inst >>= dropped in
      let (inst, found, e1) = bind-ok (Store.get H py name) rest leave w e in
      let w1 = (Store.get H py name w).1 in
      let (left, leaving, e2) = bind-ok (leave_of H py cfg fuel inst) dropped leave w1 e1 in
      ap (λ r. Dict.get r.1.instances (yaml_file name))
        (bind_lem (Store.get H py name) rest inst w found)
      ∙ (ap (λ r. Dict.get r.1.instances (yaml_file name))
            (bind_lem (leave_of H py cfg fuel inst) dropped left w1 leaving)
          ∙ dropped_effect left leave (leave_of H py cfg fuel inst w1).1 safe e2)

-- ===== src/Reconciler/Keeping.antt =====
-- Applying and removing keep the instances directory consistent.
use linuxmuster_radius.Prelude.{◌≡◌, refl, sym, ap, subst, ◌∙◌, ℕ, true, Option, none, some, Text}
use linuxmuster_radius.Exec.{Result, ok, err, pure, ◌>>=◌}
use linuxmuster_radius.Exec.Chains.{bind-pure_state}
use linuxmuster_radius.Models.Types.{Instance}
use linuxmuster_radius.Models.Fields.{Stdlib, is_instance}
use linuxmuster_radius.Host.{Host, dict}
use linuxmuster_radius.World.{World}
use linuxmuster_radius.Store
use linuxmuster_radius.Store.Files.{safe_name}
use linuxmuster_radius.Store.Effects.{put_effect}
use linuxmuster_radius.Store.Records.{
  IsConsistent, get_state, is_instance-safe_name, put-IsConsistent, delete-IsConsistent,
}
use linuxmuster_radius.Docker.Config.{Config}
use linuxmuster_radius.Docker.Removal.{Leave}
use linuxmuster_radius.Docker.Removal.Leaving.{remove-Keeps}
use linuxmuster_radius.Reconciler.{apply, leave_of, remove}
use linuxmuster_radius.Updater.Records.{apply_instances}

module _ (H : Host) (py : Stdlib) (cfg : Config) (fuel : ℕ) where
  -- Applying a valid record that YAML loads back keeps the directory consistent.
  pub apply-IsConsistent :
      (inst : Instance) (w : World H)
      → H.safe_load (H.safe_dump inst) ≡ dict (some inst)
      → is_instance py inst ≡ true
      → IsConsistent H py w.instances
      → IsConsistent H py (apply H py cfg fuel inst w).1.instances
  apply-IsConsistent inst w loads valid c =
      let safe = is_instance-safe_name py inst valid in
      subst (λ d. IsConsistent H py d)
        (sym (apply_instances H py cfg fuel inst w safe ∙ sym (put_effect H inst w safe).1))
        (put-IsConsistent H py inst loads w valid c)

  leave_of-instances :
      (inst : Option Instance) (w : World H)
      → (leave_of H py cfg fuel inst w).1.instances ≡ w.instances
  leave_of-instances none w = refl
  leave_of-instances (some inst) w = (remove-Keeps H py cfg inst).at w

  left-IsConsistent :
      (name : Text) (r : Result Leave) (w : World H)
      → safe_name name ≡ true
      → IsConsistent H py w.instances
      → IsConsistent H py
          (((λ s. (r, s)) >>= λ leave. Store.delete H name >>= λ u. pure leave) w).1.instances
  left-IsConsistent name (err e) w safe c = c
  left-IsConsistent name (ok leave) w safe c =
      subst (IsConsistent H py)
        (sym (ap (λ v. v.instances) (bind-pure_state (Store.delete H name) (λ u. leave) w)))
        (delete-IsConsistent H py name w safe c)

  found-IsConsistent :
      (name : Text) (r : Result (Option Instance)) (w : World H)
      → safe_name name ≡ true
      → IsConsistent H py w.instances
      → IsConsistent H py
          (((λ s. (r, s)) >>= λ inst.
              leave_of H py cfg fuel inst >>= λ leave. Store.delete H name >>= λ u. pure leave)
            w).1.instances
  found-IsConsistent name (err e) w safe c = c
  found-IsConsistent name (ok inst) w safe c =
      left-IsConsistent name (leave_of H py cfg fuel inst w).0 (leave_of H py cfg fuel inst w).1
        safe (rw (leave_of-instances inst w) c)

  -- Removing an instance with a safe name keeps the directory consistent, also where it raises.
  pub remove-IsConsistent :
      (name : Text) (w : World H)
      → safe_name name ≡ true
      → IsConsistent H py w.instances
      → IsConsistent H py (remove H py cfg fuel name w).1.instances
  unfolding remove
  remove-IsConsistent name w safe c =
      found-IsConsistent name (Store.get H py name w).0 (Store.get H py name w).1 safe
        (rw (get_state H py name w) c)

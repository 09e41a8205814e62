-- ===== src/Api/Interleaving/Sound.antt =====
-- The directory stays consistent, whatever comes between the parts of updates.
use linuxmuster_radius.Prelude.{
  ℕ, ◌≡◌, sym, ap, subst, Bool, true, false, Option, none, some, List, [], ◌∷◌, Text, All, ◌++◌,
  arith,
}
use linuxmuster_radius.Exec.{Result, ok, err, ◌>>=◌}
use linuxmuster_radius.Exec.Chains.{bind-pure_state}
use linuxmuster_radius.Dict.{Dict, get-put}
use linuxmuster_radius.Models.Types.{Instance, InstancePatch}
use linuxmuster_radius.Models.Fields.{Stdlib, is_instance, v_image}
use linuxmuster_radius.Host.{Host}
use linuxmuster_radius.World.{World}
use linuxmuster_radius.Store.Files.{safe_name}
use linuxmuster_radius.Store.Names.{yaml_file-ne-prev_file}
use linuxmuster_radius.Store.Records.{IsConsistent, is_instance-safe_name}
use linuxmuster_radius.Docker.Config.{Config}
use linuxmuster_radius.Reconciler
use linuxmuster_radius.Reconciler.Keeping.{apply-IsConsistent, remove-IsConsistent}
use linuxmuster_radius.Updater.{with_image, write_prev, try_apply, conclude, roll_back}
use linuxmuster_radius.Updater.Consistency.{Stores}
use linuxmuster_radius.Ca.{Crypto}
use linuxmuster_radius.Api.{require, merge, delete_instance}
use linuxmuster_radius.Api.Laws.{Required, require-Required, patch_instance-IsConsistent}
use linuxmuster_radius.Api.Creating.{create_instance-IsConsistent}
use linuxmuster_radius.Api.Interleaving.{
  Waiting, Pick, first, later, System, begun, ended, Step, outside, created, patched, deleted,
  update_begun, update_ended, Reach, here, next, merged, written, all_written, Loads,
}

All-parts : {A : Type 0} (P : A → Type 0) (xs ys : List A) → All P (xs ++ ys) → All P xs × All P ys
All-parts P [] ys h = (tt, h)
All-parts P (x ∷ xs) ys h = let (left, right) = All-parts P xs ys h.1 in ((h.0, left), right)

All-Pick :
    (P : Waiting → Type 0) {u : Waiting} {us rest : List Waiting}
    → Pick u us rest
    → All P us
    → P u × All P rest
All-Pick P (first us) h = (h.0, h.1)
All-Pick P (later v p) h = let (picked, others) = All-Pick P p h.1 in (picked, (h.0, others))

module _ (H : Host) (py : Stdlib) (cfg : Config) (timeout interval fuel : ℕ) (C : Crypto) where
  -- The directory is consistent, and every update that waits can restore its record.
  pub record IsSound (s : System H) : Type 0 where
    pub consistent : IsConsistent H py s.world.instances
    pub restorable : All (λ u. Stores H py cfg timeout interval fuel u.inst) s.waiting

  deleted_found :
      (name : Text) (d : Dict Text) (r : Result Instance) (w : World H)
      → Required H py cfg timeout interval fuel name d r
      → IsConsistent H py w.instances
      → IsConsistent H py
          (((λ s. (r, s)) >>= λ i. Reconciler.remove H py cfg fuel name) w).1.instances
  deleted_found name d (err e) w h c = c
  deleted_found name d (ok i) w h c =
      remove-IsConsistent H py cfg fuel name w
        (subst (λ n. safe_name n ≡ true) h.1 (is_instance-safe_name py i h.2)) c

  delete-IsConsistent :
      (name : Text) (w : World H)
      → IsConsistent H py w.instances
      → IsConsistent H py (delete_instance H py cfg timeout interval fuel name w).1.instances
  unfolding delete_instance
  delete-IsConsistent name w c =
      let (answer, same) = require-Required H py cfg timeout interval fuel name w c in
      deleted_found name w.instances (require H py cfg timeout interval fuel name w).0
        (require H py cfg timeout interval fuel name w).1 answer (rw same c)

  pointer-IsConsistent :
      (name image : Text) (w : World H)
      → IsConsistent H py w.instances
      → IsConsistent H py (write_prev H py cfg timeout interval fuel name image w).instances
  pointer-IsConsistent name image w c = record {
    at_file =
        λ other text e. c.at_file other text (rw (get-put, yaml_file-ne-prev_file name other) at e);
  }

  begun-IsConsistent :
      (name : Text) (inst : Instance) (new : Text) (w : World H)
      → Stores H py cfg timeout interval fuel (with_image new inst)
      → IsConsistent H py w.instances
      → IsConsistent H py (begun H py cfg timeout interval fuel C name inst new w).instances
  unfolding try_apply
  begun-IsConsistent name inst new w stores c =
      apply-IsConsistent H py cfg fuel (with_image new inst)
        (write_prev H py cfg timeout interval fuel name inst.image w) stores.0 stores.1
        (pointer-IsConsistent name inst.image w c)

  ended-IsConsistent :
      (u : Waiting) (healthy : Option Bool) (w : World H)
      → Stores H py cfg timeout interval fuel u.inst
      → IsConsistent H py w.instances
      → IsConsistent H py (ended H py cfg timeout interval fuel C u healthy w).instances
  unfolding conclude roll_back
  ended-IsConsistent u none w stores c = c
  ended-IsConsistent u (some true) w stores c = c
  ended-IsConsistent u (some false) w stores c =
      subst (IsConsistent H py)
        (sym (ap (λ v. v.instances) (bind-pure_state (Reconciler.apply H py cfg fuel u.inst) _ w)))
        (apply-IsConsistent H py cfg fuel u.inst w stores.0 stores.1 c)

  image-is_instance :
      (inst : Instance) (new : Text)
      → is_instance py inst ≡ true
      → v_image new ≡ true
      → is_instance py (with_image new inst) ≡ true
  unfolding is_instance
  image-is_instance inst new valid fine = ground (arith, valid, fine)

  merged-Loads :
      (r : Result Instance) (patch : InstancePatch)
      → All
          (Loads H py cfg timeout interval fuel C)
          (merged H py cfg timeout interval fuel C r patch)
      → (i : Instance) → r ≡ ok i
      → Loads H py cfg timeout interval fuel C (merge i patch)
  merged-Loads r patch loads i e =
      (subst
        (λ q.
          All (Loads H py cfg timeout interval fuel C)
            (merged H py cfg timeout interval fuel C q patch))
        e loads).0

  Step-IsSound :
      {s t : System H} (step : Step H py cfg timeout interval fuel C s t)
      → All (Loads H py cfg timeout interval fuel C) (written H py cfg timeout interval fuel C step)
      → IsSound s
      → IsSound t
  Step-IsSound (outside s w same) loads h = record {
    consistent = subst (IsConsistent H py) (sym same) h.consistent;
    restorable = h.restorable;
  }
  Step-IsSound (created s body valid) loads h = record {
    consistent =
        create_instance-IsConsistent H py cfg timeout interval fuel C body s.world loads.0 loads.1.0
          valid h.consistent;
    restorable = h.restorable;
  }
  Step-IsSound (patched s name patch) loads h = record {
    consistent =
        patch_instance-IsConsistent H py cfg timeout interval fuel name patch s.world
          (merged-Loads (require H py cfg timeout interval fuel name s.world).0 patch loads)
          h.consistent;
    restorable = h.restorable;
  }
  Step-IsSound (deleted s name) loads h = record {
    consistent = delete-IsConsistent name s.world h.consistent;
    restorable = h.restorable;
  }
  Step-IsSound (update_begun s name inst new found fine) loads h =
      let required =
        subst (Required H py cfg timeout interval fuel name s.world.instances) found
          (require-Required H py cfg timeout interval fuel name s.world h.consistent).0 in
      record {
        consistent =
            begun-IsConsistent name inst new s.world
              (loads.1.0, image-is_instance inst new required.2 fine) h.consistent;
        restorable = ((loads.0, required.2), h.restorable);
      }
  Step-IsSound (update_ended s u healthy rest pick) loads h =
      let (stores, others) =
        All-Pick (λ v. Stores H py cfg timeout interval fuel v.inst) pick h.restorable in
      record {
        consistent = ended-IsConsistent u healthy s.world stores h.consistent;
        restorable = others;
      }

  -- However requests that create, patch and delete instances come between the parts of updates
  -- that wait, and whatever those decide, the directory stays consistent (each record's file holds
  -- a valid record of that name) and every update that waits can restore its record, if YAML loads
  -- back the records that these requests write.
  pub Reach-IsSound :
      {s t : System H} (r : Reach H py cfg timeout interval fuel C s t)
      → All
          (Loads H py cfg timeout interval fuel C)
          (all_written H py cfg timeout interval fuel C r)
      → IsSound s
      → IsSound t
  Reach-IsSound here loads h = h
  Reach-IsSound (next r step) loads h =
      let (new, old) =
        All-parts (Loads H py cfg timeout interval fuel C)
          (written H py cfg timeout interval fuel C step) _ loads in
      Step-IsSound step new (Reach-IsSound r old h)

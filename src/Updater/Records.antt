-- ===== src/Updater/Records.antt =====
-- What an update leaves in the instances directory, on every path through it.
use linuxmuster_radius.Prelude.{
  ℕ, zero, suc, ◌≡◌, refl, ◌⊎◌, inl, inr, Bool, true, false, Option, none, some, Text, text_eq,
  if◌then◌else◌, arith, Bool-cases,
}
use linuxmuster_radius.Exec.{Result, ok, err, Error, pure, ◌>>=◌}
use linuxmuster_radius.Dict
use linuxmuster_radius.Dict.{Dict, get-put}
use linuxmuster_radius.Models.Types.{Instance}
use linuxmuster_radius.Models.Fields.{Stdlib}
use linuxmuster_radius.Host.{Host}
use linuxmuster_radius.World.{World}
use linuxmuster_radius.Store
use linuxmuster_radius.Store.Files.{safe_name, yaml_file, prev_file}
use linuxmuster_radius.Store.Effects.{put_effect}
use linuxmuster_radius.Docker.Config.{Config}
use linuxmuster_radius.Docker.Frames.{ensure_running-Keeps, status-Keeps}
use linuxmuster_radius.Reconciler.{apply}
use linuxmuster_radius.Updater.{
  apply_outcome, write_prev, Status, Outcome, kept, rolled_back, with_image, poll, wait_healthy,
  roll_back, conclude, try_apply, after_apply, update_found,
}

module _ (H : Host) (py : Stdlib) (cfg : Config) (fuel : ℕ) where
  -- Applying a safely named instance leaves exactly its record written, also where the container
  -- cannot be started and apply raises.
  pub apply_instances :
      (inst : Instance) (w : World H)
      → safe_name inst.name ≡ true
      → (apply H py cfg fuel inst w).1.instances
        ≡ Dict.put w.instances (yaml_file inst.name) (H.safe_dump inst)
  unfolding apply
  apply_instances inst w safe = ground (
    arith,
    put_effect H inst w safe,
    (ensure_running-Keeps H py cfg fuel inst).at (Store.put H inst w).1,
  )

module _ (H : Host) (py : Stdlib) (cfg : Config) (timeout interval fuel : ℕ) where
  poll_instances :
      (n deadline : ℕ) (name : Text) (w : World H)
      → (poll H py cfg timeout interval fuel n deadline name w).1.instances ≡ w.instances
  unfolding poll
  poll_instances zero deadline name w = refl
  poll_instances (suc n) deadline name w =
      grind (arith, (status-Keeps H name).at w, poll_instances n deadline name)

  pub wait_healthy_instances :
      (name : Text) (w : World H)
      → (wait_healthy H py cfg timeout interval fuel name w).1.instances ≡ w.instances
  unfolding wait_healthy
  wait_healthy_instances name w = poll_instances fuel _ name _

  -- The image that the record carries after an update with this result.
  abbrev pub IsFinal : Instance → Text → Result (Option Outcome) → Text → Type 0
  IsFinal inst new (ok (some (kept n i p))) image = image ≡ new
  IsFinal inst new (ok (some (rolled_back n i p e))) image = image ≡ inst.image
  IsFinal inst new (ok none) image = image ≡ new
  IsFinal inst new (err e) image = (image ≡ new) ⊎ (image ≡ inst.image)

  -- The directory `d` with the record of `inst` on that image.
  abbrev recorded : Instance → Text → Dict Text → Text → Option Text
  recorded inst image d k =
      if text_eq (yaml_file inst.name) k
      then some (H.safe_dump (with_image image inst))
      else Dict.get d k

  abbrev Leaves : Instance → Text → Dict Text → Result (Option Outcome) × World H → Type 0
  Leaves inst new d (r, w) =
      (image : Text) × IsFinal inst new r image
      × ((k : Text) → Dict.get w.instances k ≡ recorded inst image d k)

  rolled_back-Leaves :
      (inst : Instance) (new name : Text) (e : Option Error) (r : Result (Option Status))
      (w : World H) (d : Dict Text)
      → ((k : Text) → Dict.get w.instances k ≡ recorded inst inst.image d k)
      → Leaves inst new d
          (((λ s. (r, s)) >>= λ st. pure (some (rolled_back name inst.image new e))) w)
  rolled_back-Leaves inst new name e (ok st) w d left = (inst.image, refl, left)
  rolled_back-Leaves inst new name e (err e') w d left = (inst.image, inr refl, left)

  roll_back-Leaves :
      (name : Text) (inst : Instance) (new : Text) (e : Option Error) (w : World H) (d : Dict Text)
      → safe_name inst.name ≡ true
      → ((k : Text)
          → text_eq (yaml_file inst.name) k ≡ false
          → Dict.get w.instances k ≡ Dict.get d k)
      → Leaves inst new d (roll_back H py cfg timeout interval fuel name inst new e w)
  unfolding roll_back
  roll_back-Leaves name inst new e w d safe same =
      rolled_back-Leaves inst new name e (apply H py cfg fuel inst w).0
        (apply H py cfg fuel inst w).1 d
        (λ k.
          rw (apply_instances H py cfg fuel inst w safe, get-put)
            (elim (Bool-cases (text_eq (yaml_file inst.name) k)) [
              | inl mine ↦ rw mine refl
              | inr other ↦ rw other (same k other)
            ]))

  conclude-Leaves :
      (name : Text) (inst : Instance) (new : Text) (h : Option Bool) (w : World H) (d : Dict Text)
      → safe_name inst.name ≡ true
      → ((k : Text) → Dict.get w.instances k ≡ recorded inst new d k)
      → Leaves inst new d (conclude H py cfg timeout interval fuel name inst new h w)
  unfolding conclude
  conclude-Leaves name inst new none w d safe same = (new, refl, same)
  conclude-Leaves name inst new (some true) w d safe same = (new, refl, same)
  conclude-Leaves name inst new (some false) w d safe same =
      roll_back-Leaves name inst new none w d safe (λ k other. rw (same k, other) refl)

  waited-Leaves :
      (name : Text) (inst : Instance) (new : Text) (r : Result (Option Bool)) (w : World H)
      (d : Dict Text)
      → safe_name inst.name ≡ true
      → ((k : Text) → Dict.get w.instances k ≡ recorded inst new d k)
      → Leaves inst new d
          (((λ s. (r, s)) >>= conclude H py cfg timeout interval fuel name inst new) w)
  waited-Leaves name inst new (ok h) w d safe same = conclude-Leaves name inst new h w d safe same
  waited-Leaves name inst new (err e) w d safe same = (new, inl refl, same)

  after_apply-Leaves :
      (name : Text) (inst : Instance) (new : Text) (e : Option Error) (w : World H) (d : Dict Text)
      → safe_name inst.name ≡ true
      → ((k : Text) → Dict.get w.instances k ≡ recorded inst new d k)
      → Leaves inst new d (after_apply H py cfg timeout interval fuel name inst new e w)
  unfolding after_apply
  after_apply-Leaves name inst new (some e) w d safe same =
      roll_back-Leaves name inst new (some e) w d safe (λ k other. rw (same k, other) refl)
  after_apply-Leaves name inst new none w d safe same =
      let (r, w') = wait_healthy H py cfg timeout interval fuel name w in
      waited-Leaves name inst new r w' d safe (λ k. rw (wait_healthy_instances name w) (same k))

  -- Whatever happens during an update of a safely named instance, its record carries the new image
  -- if the update was kept and the old one if it was rolled back (one of the two after an error,
  -- the new one if the fuel has run out); the rollback pointer holds the old image; no other file
  -- of the directory has changed.
  pub update_found_leaves :
      (name : Text) (inst : Instance) (new : Text) (w : World H)
      → safe_name inst.name ≡ true
      → let (r, w') = update_found H py cfg timeout interval fuel name inst new w in
        (image : Text) × IsFinal inst new r image
        × ((k : Text)
            → Dict.get w'.instances k ≡ (
                if text_eq (yaml_file inst.name) k
                then some (H.safe_dump (with_image image inst))
                else if text_eq (prev_file name) k
                then some inst.image
                else Dict.get w.instances k))
  unfolding update_found try_apply
  update_found_leaves name inst new w safe =
      let w' = write_prev H py cfg timeout interval fuel name inst.image w in
      let applied = apply H py cfg fuel (with_image new inst) w' in
      let left =
        after_apply-Leaves name inst new (apply_outcome H py cfg timeout interval fuel applied.0)
          applied.1 w'.instances safe
          (λ k. rw (apply_instances H py cfg fuel (with_image new inst) w' safe, get-put) refl) in
      (left.0, left.1, λ k. rw (left.2 k, get-put) refl)

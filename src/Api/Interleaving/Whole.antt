-- ===== src/Api/Interleaving/Whole.antt =====
-- An update with nothing between its parts is a run of the system.
use linuxmuster_radius.Prelude.{
  ℕ, ◌≡◌, refl, sym, subst, ◌∙◌, true, false, Option, none, some, Bool, List, [], ◌∷◌, Text,
}
use linuxmuster_radius.Exec.{Result, ok, err, Error, ◌>>=◌}
use linuxmuster_radius.Exec.Chains.{bind-pure_state}
use linuxmuster_radius.Models.Types.{Instance}
use linuxmuster_radius.Models.Fields.{Stdlib, v_image}
use linuxmuster_radius.Host.{Host}
use linuxmuster_radius.World.{World}
use linuxmuster_radius.Docker.Config.{Config}
use linuxmuster_radius.Reconciler.{apply}
use linuxmuster_radius.Updater.{
  conclude, roll_back, after_apply, update_found, wait_healthy, try_apply, with_image, write_prev,
  apply_outcome,
}
use linuxmuster_radius.Updater.Records.{wait_healthy_instances}
use linuxmuster_radius.Ca.{Crypto}
use linuxmuster_radius.Api.{require}
use linuxmuster_radius.Api.Interleaving.{
  Waiting, System, Reach, here, next, outside, update_begun, update_ended, first, before,
}

module _ (H : Host) (py : Stdlib) (cfg : Config) (timeout interval fuel : ℕ) (C : Crypto) where
  abbrev at_world : World H → List Waiting → System H
  at_world w us = record { world = w; waiting = us }

  -- A run, and what still waits at its end.
  abbrev Run : System H → World H → Type 0
  Run s w = (left : List Waiting) × Reach H py cfg timeout interval fuel C s (at_world w left)

  -- Which error there was, and the name in the outcome, change nothing of the state.
  roll_back_state :
      (name : Text) (inst : Instance) (new : Text) (e : Option Error) (w : World H)
      → (roll_back H py cfg timeout interval fuel name inst new e w).1
        ≡ (apply H py cfg fuel inst w).1
  unfolding roll_back
  roll_back_state name inst new e w = bind-pure_state (apply H py cfg fuel inst) _ w

  conclude_state :
      (name : Text) (u : Waiting) (healthy : Option Bool) (w : World H)
      → (conclude H py cfg timeout interval fuel u.inst.name u.inst u.new_image healthy w).1
        ≡ (conclude H py cfg timeout interval fuel name u.inst u.new_image healthy w).1
  unfolding conclude
  conclude_state name u none w = refl
  conclude_state name u (some true) w = refl
  conclude_state name u (some false) w =
      roll_back_state u.inst.name u.inst u.new_image none w
      ∙ sym (roll_back_state name u.inst u.new_image none w)

  waited-Run :
      (name : Text) (u : Waiting) (r : Result (Option Bool)) (w v : World H)
      → v.instances ≡ w.instances
      → Run
          (at_world w (u ∷ []))
          (((λ s. (r, s)) >>= λ healthy.
              conclude H py cfg timeout interval fuel name u.inst u.new_image healthy)
            v).1
  waited-Run name u (err e) w v same = (u ∷ [], next here (outside (at_world w (u ∷ [])) v same))
  waited-Run name u (ok healthy) w v same = (
    [],
    subst (λ t. Reach H py cfg timeout interval fuel C (at_world w (u ∷ [])) (at_world t []))
        (conclude_state name u healthy v)
        (next (next here (outside (at_world w (u ∷ [])) v same))
          (update_ended (at_world v (u ∷ [])) u healthy [] (first []))),
  )

  applied-Run :
      (name : Text) (u : Waiting) (e : Option Error) (w : World H)
      → Run
          (at_world w (u ∷ []))
          (after_apply H py cfg timeout interval fuel name u.inst u.new_image e w).1
  unfolding after_apply conclude
  applied-Run name u none w =
      waited-Run name u (wait_healthy H py cfg timeout interval fuel name w).0 w
        (wait_healthy H py cfg timeout interval fuel name w).1
        (wait_healthy_instances H py cfg timeout interval fuel name w)
  applied-Run name u (some e) w = (
    [],
    subst (λ t. Reach H py cfg timeout interval fuel C (at_world w (u ∷ [])) (at_world t []))
        (roll_back_state u.inst.name u.inst u.new_image none w
          ∙ sym (roll_back_state name u.inst u.new_image (some e) w))
        (next here (update_ended (at_world w (u ∷ [])) u (some false) [] (first []))),
  )

  -- An update of a record that `_require` gives, to an image that the request's validator takes, is
  -- a run from where no update waits.
  update_found-Run :
      (name : Text) (inst : Instance) (new : Text) (w : World H)
      → (require H py cfg timeout interval fuel name w).0 ≡ ok inst
      → v_image new ≡ true
      → Run (at_world w []) (update_found H py cfg timeout interval fuel name inst new w).1
  unfolding update_found try_apply
  update_found-Run name inst new w found fine =
      let u : Waiting = record { inst = inst; new_image = new } in
      let (left, run) =
        applied-Run name u
          (apply_outcome H py cfg timeout interval fuel
            (apply H py cfg fuel (with_image new inst)
              (write_prev H py cfg timeout interval fuel name inst.image w)).0)
          (apply H py cfg fuel (with_image new inst)
            (write_prev H py cfg timeout interval fuel name inst.image w)).1 in
      (
        left,
        before H py cfg timeout interval fuel C
            (update_begun (at_world w []) name inst new found fine) run,
      )

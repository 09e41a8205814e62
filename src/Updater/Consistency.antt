-- ===== src/Updater/Consistency.antt =====
-- Updates keep the invariant of the store; and the one error of an update that is not rolled back.
use linuxmuster_radius.Prelude.{
  ℕ, ◌≡◌, ◌⊎◌, inl, inr, refl, sym, ap, subst, ◌∙◌, Bool, true, Option, none, some, Text, text_eq,
  text_eq_iff, text_eq_refl, arith, Bool-cases,
}
use mathlib.Core.Option.{some-injective}
use linuxmuster_radius.Exec.{key_error, or_raise, Result, ok, err, Error, ◌>>=◌, is_ok}
use linuxmuster_radius.Dict
use linuxmuster_radius.Dict.{get-put}
use linuxmuster_radius.Models.Types.{Instance}
use linuxmuster_radius.Models.Fields.{Stdlib, is_instance}
use linuxmuster_radius.Host.{Host, dict}
use linuxmuster_radius.World.{World}
use linuxmuster_radius.Store
use linuxmuster_radius.Store.Files.{safe_name, yaml_file}
use linuxmuster_radius.Store.Names.{yaml_file-inj, yaml_file-ne-prev_file}
use linuxmuster_radius.Store.Records.{get_state, IsConsistent, is_instance-safe_name}
use linuxmuster_radius.Docker.Config.{Config}
use linuxmuster_radius.Docker.View.{Status}
use linuxmuster_radius.Reconciler.{apply}
use linuxmuster_radius.Updater.{
  update, Outcome, kept, rolled_back, with_image, wait_healthy, conclude, try_apply, after_apply,
  apply_outcome, update_found, write_prev,
}
use linuxmuster_radius.Updater.Records.{
  IsFinal, apply_instances, wait_healthy_instances, update_found_leaves,
}

module _ (H : Host) (py : Stdlib) (cfg : Config) (timeout interval fuel : ℕ) where
  final_choice :
      (inst : Instance) (new : Text) (r : Result (Option Outcome)) (image : Text)
      → IsFinal H py cfg timeout interval fuel inst new r image
      → (image ≡ new) ⊎ (image ≡ inst.image)
  final_choice inst new (ok (some (kept n i p))) image f = inl f
  final_choice inst new (ok (some (rolled_back n i p e))) image f = inr f
  final_choice inst new (ok none) image f = inl f
  final_choice inst new (err e) image f = f

  -- A record that YAML loads back as a valid one.
  abbrev pub Stores : Instance → Type 0
  Stores i = (H.safe_load (H.safe_dump i) ≡ dict (some i)) × (is_instance py i ≡ true)

  image_Stores :
      (inst : Instance) (new image : Text)
      → (image ≡ new) ⊎ (image ≡ inst.image)
      → Stores inst
      → Stores (with_image new inst)
      → Stores (with_image image inst)
  image_Stores inst new image (inl e) old fresh =
      subst (λ t. Stores (with_image t inst)) (sym e) fresh
  image_Stores inst new image (inr e) old fresh =
      subst (λ t. Stores (with_image t inst)) (sym e) old

  found-IsConsistent :
      (of : Text) (inst : Instance) (new : Text) (w : World H)
      → Stores inst
      → Stores (with_image new inst)
      → IsConsistent H py w.instances
      → IsConsistent H py (update_found H py cfg timeout interval fuel of inst new w).1.instances
  found-IsConsistent of inst new w old fresh c = record {
    at_file = λ name text e.
        let safe = is_instance-safe_name py inst old.1 in
        let (image, final, files) =
          update_found_leaves H py cfg timeout interval fuel of inst new w safe in
        let (loads, valid) =
          image_Stores inst new image (final_choice inst new _ image final) old fresh in
        let e' = rw (files, yaml_file-inj, yaml_file-ne-prev_file) at e in
        elim (Bool-cases (text_eq inst.name name)) [
          | inl same ↦ (
            with_image image inst,
            subst (λ t. H.safe_load t ≡ dict (some (with_image image inst)))
                (some-injective _ _ (rw same at e')) loads,
            valid,
            (text_eq_iff _ _).0 same,
          )
          | inr other ↦ c.at_file name text (rw other at e')
        ];
  }

  looked_up-IsConsistent :
      (name new : Text) (r : Result (Option Instance)) (w : World H)
      → ((inst : Instance) → r ≡ ok (some inst) → Stores inst × Stores (with_image new inst))
      → IsConsistent H py w.instances
      → IsConsistent H py
          (((λ s. (r, s)) >>= λ found. or_raise found (key_error name) >>= λ inst.
              update_found H py cfg timeout interval fuel name inst new)
            w).1.instances
  looked_up-IsConsistent name new (err e) w stores c = c
  looked_up-IsConsistent name new (ok none) w stores c = c
  looked_up-IsConsistent name new (ok (some inst)) w stores c =
      let (old, fresh) = stores inst refl in found-IsConsistent name inst new w old fresh c

  -- An update keeps a consistent directory consistent, on every path through it, if the stored
  -- record is valid and loads back, on its old image and on the new one.
  pub update-IsConsistent :
      (name new : Text) (w : World H)
      → ((inst : Instance)
          → (Store.get H py name w).0 ≡ ok (some inst)
          → Stores inst × Stores (with_image new inst))
      → IsConsistent H py w.instances
      → IsConsistent H py (update H py cfg timeout interval fuel name new w).1.instances
  unfolding update
  update-IsConsistent name new w stores c =
      looked_up-IsConsistent name new (Store.get H py name w).0 (Store.get H py name w).1 stores
        (rw (get_state H py name w) c)

  after_raise :
      (name : Text) (inst : Instance) (new : Text) (x : Error) (r : Result (Option Bool))
      (w : World H)
      → r ≡ err x
      → (((λ s. (r, s)) >>= λ h. conclude H py cfg timeout interval fuel name inst new h) w)
        ≡ (err x, w)
  after_raise name inst new x (ok h) w e = ground arith
  after_raise name inst new x (err y) w e = ground (arith, e)

  after_fine :
      (name : Text) (inst : Instance) (new : Text) (x : Error) (r : Result (Option Status))
      (w : World H)
      → is_ok r ≡ true
      → (wait_healthy H py cfg timeout interval fuel name w).0 ≡ err x
      → after_apply H py cfg timeout interval fuel name inst new
          (apply_outcome H py cfg timeout interval fuel r)
          w
        ≡ (err x, (wait_healthy H py cfg timeout interval fuel name w).1)
  unfolding after_apply
  after_fine name inst new x (ok st) w fine raises =
      after_raise name inst new x (wait_healthy H py cfg timeout interval fuel name w).0
        (wait_healthy H py cfg timeout interval fuel name w).1 raises
  after_fine name inst new x (err y) w fine raises = ground arith

  -- For a safely named instance, where the new image is applied and a look at the container then
  -- raises, the update raises too: nothing is rolled back, and the record stays on the new image.
  pub update_found-raises :
      (name : Text) (inst : Instance) (new : Text) (x : Error) (w : World H)
      → safe_name inst.name ≡ true
      → let applied =
          apply H py cfg fuel
            (with_image new inst)
            (write_prev H py cfg timeout interval fuel name inst.image w) in
        is_ok applied.0 ≡ true
        → (wait_healthy H py cfg timeout interval fuel name applied.1).0 ≡ err x
        → ((update_found H py cfg timeout interval fuel name inst new w).0 ≡ err x)
          × (Dict.get
                (update_found H py cfg timeout interval fuel name inst new w).1.instances
                (yaml_file inst.name)
              ≡ some (H.safe_dump (with_image new inst)))
  unfolding update_found try_apply
  update_found-raises name inst new x w safe fine raises =
      let w' = write_prev H py cfg timeout interval fuel name inst.image w in
      let applied = apply H py cfg fuel (with_image new inst) w' in
      let e = after_fine name inst new x applied.0 applied.1 fine raises in
      (
        ap (λ p. p.0) e,
        ap (λ p. Dict.get p.1.instances (yaml_file inst.name)) e
            ∙ ap (λ d. Dict.get d (yaml_file inst.name))
                (wait_healthy_instances H py cfg timeout interval fuel name applied.1
                  ∙ apply_instances H py cfg fuel (with_image new inst) w' safe)
            ∙ rw (get-put, text_eq_refl) refl,
      )

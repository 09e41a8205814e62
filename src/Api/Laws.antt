-- ===== src/Api/Laws.antt =====
-- What the handlers let through, and what they leave in the instances directory.
use linuxmuster_radius.Prelude.{
  ℕ, Bool, true, false, not, ◌&&◌, ◌≡◌, ◌≢◌, ◌↔◌, ◌⊎◌, inl, inr, refl, sym, ap, subst, ◌∙◌, Option,
  none, some, [], ◌∷◌, Text, text_eq_iff, arith, Bool-cases, and-right,
}
use linuxmuster_radius.Exec.{Result, ok, err, http, or_raise, pure, ◌>>=◌}
use linuxmuster_radius.Regex.{re_match}
use linuxmuster_radius.Dict
use linuxmuster_radius.Dict.{Dict, get-put}
use linuxmuster_radius.Models.Types.{Instance, InstancePatch}
use linuxmuster_radius.Models.Fields.{Stdlib, is_instance, v_name}
use linuxmuster_radius.Models.Patterns.{name_re}
use linuxmuster_radius.Host.{Host, dict}
use linuxmuster_radius.World.{World}
use linuxmuster_radius.Store
use linuxmuster_radius.Store.Files.{safe_name, yaml_file}
use linuxmuster_radius.Store.Names.{v_name-safe_name}
use linuxmuster_radius.Store.Records.{
  IsConsistent, is_instance-safe_name, put-IsConsistent, read_record-valid,
}
use linuxmuster_radius.Store.Effects.{put_effect}
use linuxmuster_radius.Reconciler.{apply}
use linuxmuster_radius.Docker.Config.{Config}
use linuxmuster_radius.Updater.Records.{apply_instances}
use linuxmuster_radius.Api.{
  verify, require, merge, has_null, patch_instance, patch_found, checked, apply_merged,
}

-- A request passes the token check exactly if it carries the configured token and that is not
-- empty.
pub verify_iff :
    (token : Text) (credentials : Option Text)
    → (verify token credentials ≡ ok tt) ↔ ((credentials ≡ some token) × (token ≢ []))
unfolding verify
verify_iff token none = ground arith
verify_iff token (some []) = ground arith
verify_iff token (some (c ∷ s)) = ground (arith, text_eq_iff (c ∷ s) token)

name_matches : (name : Text) → re_match name_re name ≡ true → safe_name name ≡ true
name_matches name h = v_name-safe_name name (unfold v_name in h)

module _ (H : Host) (py : Stdlib) (cfg : Config) (timeout interval fuel : ℕ) where
  -- What `_require` answers, by the name and the directory.
  abbrev pub Required : Text → Dict Text → Result Instance → Type 0
  Required name d (ok i) =
      (v_name name ≡ true)
      × (i.name ≡ name)
      × (is_instance py i ≡ true)
      × (Store.read_record H py (Dict.get d (yaml_file name)) ≡ ok (some i))
  Required name d (err e) =
      ((v_name name ≡ false) × (e ≡ http 422 "invalid instance name"))
      ⊎ ((v_name name ≡ true)
          × (Dict.get d (yaml_file name) ≡ none)
          × (e ≡ http 404 "instance not found"))

  -- What `_require` makes of what the store says.
  abbrev found_or_404 : Result (Option Instance) → Result Instance
  found_or_404 (err e) = err e
  found_or_404 (ok none) = err (http 404 "instance not found")
  found_or_404 (ok (some i)) = ok i

  found_or_404_lem :
      (r : Result (Option Instance)) (w : World H)
      → ((λ s. (r, s)) >>= λ found. or_raise found (http 404 "instance not found")) w
        ≡ (found_or_404 r, w)
  found_or_404_lem (err e) w = refl
  found_or_404_lem (ok none) w = refl
  found_or_404_lem (ok (some i)) w = refl

  require_lem :
      (name : Text) (w : World H)
      → re_match name_re name ≡ true
      → require H py cfg timeout interval fuel name w
        ≡ (found_or_404 (Store.read_record H py (Dict.get w.instances (yaml_file name))), w)
  unfolding require
  require_lem name w fine =
      rw (fine, name_matches name fine)
        (found_or_404_lem (Store.read_record H py (Dict.get w.instances (yaml_file name))) w)

  require_state :
      (name : Text) (w : World H) → (require H py cfg timeout interval fuel name w).1 ≡ w
  require_state name w = elim (Bool-cases (re_match name_re name)) [
    | inl fine ↦ rw (require_lem name w fine) refl
    | inr bad ↦ unfold require in rw bad refl
  ]

  require_file :
      (name : Text) (w : World H) (text : Option Text)
      → v_name name ≡ true
      → Dict.get w.instances (yaml_file name) ≡ text
      → IsConsistent H py w.instances
      → Required name w.instances (found_or_404 (Store.read_record H py text))
  require_file name w none fine e c = unfold Store.read_record in inr (fine, e, refl)
  require_file name w (some text) fine e c =
      let (i, loads, valid, named) = c.at_file name text e in
      let read = read_record-valid H py text i loads valid in
      rw read (fine, named, valid, ap (Store.read_record H py) e ∙ read)

  -- In a consistent directory _require changes nothing, and gives the valid record that the name's
  -- file holds, or 422 only for a name that the validator refuses, or 404 only for a name that it
  -- takes and that has no file.
  pub require-Required :
      (name : Text) (w : World H)
      → IsConsistent H py w.instances
      → Required name w.instances (require H py cfg timeout interval fuel name w).0
        × ((require H py cfg timeout interval fuel name w).1 ≡ w)
  require-Required name w c = (
    elim (Bool-cases (re_match name_re name)) [
      | inl fine ↦
          rw (require_lem name w fine) (require_file name w _ (unfold v_name in fine) refl c)
      | inr bad ↦ unfold require in rw bad (inl (unfold v_name in bad, refl))
    ],
    require_state name w,
  )

  pairs_state :
      {A : Type 0} (i : Instance) (r : Result A) (w : World H)
      → (◌>>=◌ {B = Instance × A} (λ s. (r, s)) (λ a. pure (i, a)) w).1 ≡ w
  pairs_state i (ok a) w = refl
  pairs_state i (err e) w = refl

  apply_merged_effect :
      (merged : Instance) (w : World H)
      → H.safe_load (H.safe_dump merged) ≡ dict (some merged)
      → is_instance py merged ≡ true
      → IsConsistent H py w.instances
      → IsConsistent H py (apply_merged H py cfg timeout interval fuel merged w).1.instances
  unfolding apply_merged
  apply_merged_effect merged w loads valid c =
      let safe = is_instance-safe_name py merged valid in
      let same =
        ap (λ v. v.instances)
          (pairs_state merged (apply H py cfg fuel merged w).0 (apply H py cfg fuel merged w).1)
        ∙ (apply_instances H py cfg fuel merged w safe ∙ sym (put_effect H merged w safe).1) in
      subst (λ d. IsConsistent H py d) (sym same) (put-IsConsistent H py merged loads w valid c)

  checked_effect :
      (good : Bool) (merged : Instance) (w : World H)
      → H.safe_load (H.safe_dump merged) ≡ dict (some merged)
      → (good ≡ true → is_instance py merged ≡ true)
      → IsConsistent H py w.instances
      → IsConsistent H py
          ((checked H py cfg timeout interval fuel good merged >>= λ m.
              apply_merged H py cfg timeout interval fuel m)
            w).1.instances
  checked_effect true merged w loads valid c = apply_merged_effect merged w loads (valid refl) c
  checked_effect false merged w loads valid c = c

  patch_found_effect :
      (i : Instance) (patch : InstancePatch) (w : World H)
      → H.safe_load (H.safe_dump (merge i patch)) ≡ dict (some (merge i patch))
      → IsConsistent H py w.instances
      → IsConsistent H py (patch_found H py cfg timeout interval fuel i patch w).1.instances
  unfolding patch_found
  patch_found_effect i patch w loads c =
      checked_effect (not (has_null patch) && is_instance py (merge i patch)) (merge i patch) w
        loads (and-right (not (has_null patch)) _) c

  patch_result :
      (r : Result Instance) (patch : InstancePatch) (w : World H)
      → ((i : Instance)
          → r ≡ ok i
          → H.safe_load (H.safe_dump (merge i patch)) ≡ dict (some (merge i patch)))
      → IsConsistent H py w.instances
      → IsConsistent H py
          (((λ s. (r, s)) >>= λ i. patch_found H py cfg timeout interval fuel i patch)
            w).1.instances
  patch_result (ok i) patch w loads c = patch_found_effect i patch w (loads i refl) c
  patch_result (err e) patch w loads c = c

  -- A patch keeps a consistent directory consistent, also where it is refused or where the
  -- container cannot be started, if YAML loads the merged record back.
  pub patch_instance-IsConsistent :
      (name : Text) (patch : InstancePatch) (w : World H)
      → ((i : Instance)
          → (require H py cfg timeout interval fuel name w).0 ≡ ok i
          → H.safe_load (H.safe_dump (merge i patch)) ≡ dict (some (merge i patch)))
      → IsConsistent H py w.instances
      → IsConsistent H py (patch_instance H py cfg timeout interval fuel name patch w).1.instances
  unfolding patch_instance
  patch_instance-IsConsistent name patch w loads c =
      patch_result (require H py cfg timeout interval fuel name w).0 patch
        (require H py cfg timeout interval fuel name w).1 loads (rw (require_state name w) c)

-- ===== src/Api/Interleaving.antt =====
-- Requests that arrive while an update waits for its container: the update is two steps, and other
-- handlers run between them. What is inside of one step is not interleaved.
pub mod Sound
pub mod Restored
mod Whole
use linuxmuster_radius.Prelude.{ℕ, ◌≡◌, Bool, true, Option, some, List, [], ◌∷◌, Text, ◌++◌}
use linuxmuster_radius.Exec.{Result, ok, err}
use linuxmuster_radius.Models.Types.{Instance, InstanceCreate, InstancePatch, ldap_ca_file}
use linuxmuster_radius.Models.Fields.{Stdlib, v_image}
use linuxmuster_radius.Models.Requests.{is_instance_create}
use linuxmuster_radius.Host.{Host, dict}
use linuxmuster_radius.World.{World}
use linuxmuster_radius.Docker.Config.{Config}
use linuxmuster_radius.Updater.{with_image, write_prev, try_apply, conclude}
use linuxmuster_radius.Ca.{Crypto}
use linuxmuster_radius.Api.{require, merge, patch_instance, delete_instance}
use linuxmuster_radius.Api.Authority.{with_ldap_ca, create_instance}

-- An update that waits: the instance with the image before, and the new image.
pub record Waiting : Type 0 where
  pub inst : Instance
  pub new_image : Text

-- One update of those that wait, and the others.
pub data Pick (u : Waiting) : List Waiting → List Waiting → Type 0 where
  first : (us : List Waiting) → Pick u (u ∷ us) us
  later : (v : Waiting) {us rest : List Waiting} → Pick u us rest → Pick u (v ∷ us) (v ∷ rest)

pub record System (H : Host) : Type 0 where
  pub world : World H
  pub waiting : List Waiting

module _ (H : Host) (py : Stdlib) (cfg : Config) (timeout interval fuel : ℕ) (C : Crypto) where
  -- The first part of `update_found`, up to the wait.
  abbrev pub begun : Text → Instance → Text → World H → World H
  begun name inst new w =
      (try_apply H py cfg timeout interval fuel (with_image new inst)
        (write_prev H py cfg timeout interval fuel name inst.image w)).1

  -- The part behind the wait, by what `_wait_healthy` says.
  abbrev pub ended : Waiting → Option Bool → World H → World H
  ended u healthy w =
      (conclude H py cfg timeout interval fuel u.inst.name u.inst u.new_image healthy w).1

  -- What the handlers and the outside can do. An update begins on a record that `_require` gives
  -- and an image that the request's validator takes.
  pub data Step : System H → System H → Type 0 where
    outside :
        (s : System H) (w : World H)
        → w.instances ≡ s.world.instances
        → Step s (record s { world = w })
    created :
        (s : System H) (body : InstanceCreate)
        → is_instance_create py body ≡ true
        → Step s
            (record s { world = (create_instance H py cfg timeout interval fuel C body s.world).1 })
    patched :
        (s : System H) (name : Text) (patch : InstancePatch)
        → Step s (record s {
          world = (patch_instance H py cfg timeout interval fuel name patch s.world).1;
        })
    deleted :
        (s : System H) (name : Text)
        → Step s
            (record s { world = (delete_instance H py cfg timeout interval fuel name s.world).1 })
    update_begun :
        (s : System H) (name : Text) (inst : Instance) (new : Text)
        → (require H py cfg timeout interval fuel name s.world).0 ≡ ok inst
        → v_image new ≡ true
        → Step s (record {
          world = begun name inst new s.world;
          waiting = record { inst = inst; new_image = new } ∷ s.waiting;
        })
    update_ended :
        (s : System H) (u : Waiting) (healthy : Option Bool) (rest : List Waiting)
        → Pick u s.waiting rest
        → Step s (record { world = ended u healthy s.world; waiting = rest })

  pub data Reach (s : System H) : System H → Type 0 where
    here : Reach s s
    next : {t u : System H} → Reach s t → Step t u → Reach s u

  -- A step before a run.
  pub before : {s t u : System H} → Step s t → Reach t u → Reach s u
  before step here = next here step
  before step (next r last) = next (before step r) last

  -- The merged record of a patch, where `_require` gives one.
  abbrev pub merged : Result Instance → InstancePatch → List Instance
  merged (ok i) patch = merge i patch ∷ []
  merged (err e) patch = []

  -- The records that a step may write.
  abbrev pub written : {s t : System H} → Step s t → List Instance
  written (outside s w same) = []
  written (created s body valid) =
      body.instance_fields ∷ with_ldap_ca body.instance_fields ldap_ca_file ∷ []
  written (patched s name patch) =
      merged (require H py cfg timeout interval fuel name s.world).0 patch
  written (deleted s name) = []
  written (update_begun s name inst new found valid) = inst ∷ with_image new inst ∷ []
  written (update_ended s u healthy rest pick) = []

  abbrev pub all_written : {s t : System H} → Reach s t → List Instance
  all_written here = []
  all_written (next r step) = written step ++ all_written r

  -- YAML loads the record back.
  abbrev pub Loads : Instance → Type 0
  Loads i = H.safe_load (H.safe_dump i) ≡ dict (some i)

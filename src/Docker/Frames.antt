-- ===== src/Docker/Frames.antt =====
-- The container service never writes to the instances directory.
use linuxmuster_radius.Docker.Env.{configured_or}
use linuxmuster_radius.Prelude.{
  ◌∷◌, [], ℕ, zero, suc, ◌≡◌, refl, Bool, true, false, Option, none, some, Text, List, arith,
}
use linuxmuster_radius.Exec.{modify, Exec, Result}
use linuxmuster_radius.Models.Types.{Instance}
use linuxmuster_radius.Models.Fields.{Stdlib}
use linuxmuster_radius.Host.{Host, RunArgs, Mount}
use linuxmuster_radius.World.{World}
use linuxmuster_radius.World.Frames.{KeepsInstances, frame_rules}
use linuxmuster_radius.Docker.Config.{Config}
use linuxmuster_radius.Docker.Env.{env_for, detected}
use linuxmuster_radius.Docker.Mounts.{
  mounts, render_instance, resolve, require_file, eap_mount, ldap_ca_volume, write_file,
}
use linuxmuster_radius.Docker.Inspect.{
  get_container, pull, error_line, last_error, status_of, status, watch, wait_settled,
}
use linuxmuster_radius.Docker.Lifecycle.{
  try_pull, prepare, remove_existing, replace_container, ensure_running,
}

module _ (H : Host) where
  pub get_container-Keeps : (name : Text) → KeepsInstances (get_container H name)
  unfolding get_container
  get_container-Keeps name = search frame_rules

  error_line-Keeps : (c : H.Container) → KeepsInstances (error_line H c)
  unfolding error_line
  error_line-Keeps c = search frame_rules

  last_error-Keeps : (c : H.Container) (b : Bool) → KeepsInstances (last_error H c b)
  unfolding last_error
  last_error-Keeps c false = search frame_rules
  last_error-Keeps c true = search (frame_rules, error_line-Keeps)

  status_of-Keeps : (name : Text) (c : Option H.Container) → KeepsInstances (status_of H name c)
  unfolding status_of
  status_of-Keeps name none = search frame_rules
  status_of-Keeps name (some c) = search (frame_rules, last_error-Keeps)

  pub status-Keeps : (name : Text) → KeepsInstances (status H name)
  unfolding status
  status-Keeps name = search (frame_rules, get_container-Keeps, status_of-Keeps)

  watch_instances :
      (fuel deadline : ℕ) (name : Text) (w : World H)
      → (watch H fuel deadline name w).1.instances ≡ w.instances
  unfolding watch
  watch_instances zero deadline name w = refl
  watch_instances (suc fuel) deadline name w =
      grind (arith, (status-Keeps name).at w, watch_instances fuel deadline name)

  watch-Keeps : (fuel deadline : ℕ) (name : Text) → KeepsInstances (watch H fuel deadline name)
  watch-Keeps fuel deadline name = record { at = watch_instances fuel deadline name }

  pub wait_settled-Keeps :
      (fuel : ℕ) (cfg : Config) (name : Text) → KeepsInstances (wait_settled H fuel cfg name)
  unfolding wait_settled
  wait_settled-Keeps fuel cfg name = search (frame_rules, watch-Keeps)

module _ (H : Host) (cfg : Config) where
  resolve-Keeps : (root child : Text) → KeepsInstances (resolve H cfg root child)
  unfolding resolve
  resolve-Keeps root child = record { at = λ w. refl }

  require_file-Keeps : (path : Text) → KeepsInstances (require_file H cfg path)
  unfolding require_file
  require_file-Keeps path = search frame_rules

  eap_mount-Keeps :
      (b : Bool) (dir file : Text) (v : List Mount) → KeepsInstances (eap_mount H cfg b dir file v)
  unfolding eap_mount
  eap_mount-Keeps b dir file v = search frame_rules

  ldap_ca_volume-Keeps :
      (dir : Text) (file : Option Text) (v : List Mount)
      → KeepsInstances (ldap_ca_volume H cfg dir file v)
  unfolding ldap_ca_volume
  ldap_ca_volume-Keeps dir none v = search frame_rules
  ldap_ca_volume-Keeps dir (some f) v = search (frame_rules, resolve-Keeps, require_file-Keeps)

  pub mounts-Keeps : (b : Bool) (inst : Instance) → KeepsInstances (mounts H cfg b inst)
  unfolding mounts
  mounts-Keeps b inst =
      search (frame_rules, resolve-Keeps, require_file-Keeps, eap_mount-Keeps, ldap_ca_volume-Keeps)
        depth 14

  write_file-Keeps : (path text : Text) → KeepsInstances (modify (write_file H cfg path text))
  unfolding write_file
  write_file-Keeps path text = record { at = λ w. refl }

  lift-Keeps : {A : Type 0} (r : Result A) → KeepsInstances {H = H} (λ w. (r, w))
  lift-Keeps r = record { at = λ w. refl }

  render_instance-Keeps : (inst : Instance) → KeepsInstances (render_instance H cfg inst)
  unfolding render_instance
  render_instance-Keeps inst =
      search (frame_rules, resolve-Keeps, require_file-Keeps, write_file-Keeps, lift-Keeps) depth 14

module _ (H : Host) (py : Stdlib) (cfg : Config) where
  detected-Keeps : (inst : Instance) → KeepsInstances (detected H py cfg inst)
  unfolding detected
  detected-Keeps inst = search frame_rules

  configured_or-Keeps :
      (o : Option Text) (m : Exec (World H) (Option Text))
      → KeepsInstances m
      → KeepsInstances (configured_or H py cfg o m)
  unfolding configured_or
  configured_or-Keeps none m k = k
  configured_or-Keeps (some []) m k = k
  configured_or-Keeps (some (c ∷ s)) m k = record { at = λ w. refl }

  pub env_for-Keeps : (inst : Instance) → KeepsInstances (env_for H py cfg inst)
  unfolding env_for
  env_for-Keeps inst = search (frame_rules, configured_or-Keeps, detected-Keeps)

  try_pull-Keeps : (image : Text) → KeepsInstances (try_pull H py cfg image)
  unfolding try_pull pull
  try_pull-Keeps image = search frame_rules

  prepare-Keeps : (inst : Instance) → KeepsInstances (prepare H py cfg inst)
  unfolding prepare
  prepare-Keeps inst =
      search (frame_rules, render_instance-Keeps, env_for-Keeps, mounts-Keeps) depth 8

  pub remove_existing-Keeps : (c : Option H.Container) → KeepsInstances (remove_existing H py cfg c)
  unfolding remove_existing
  remove_existing-Keeps none = search frame_rules
  remove_existing-Keeps (some c) = search frame_rules

  replace_container-Keeps :
      (name : Text) (args : RunArgs) → KeepsInstances (replace_container H py cfg name args)
  unfolding replace_container
  replace_container-Keeps name args =
      search (frame_rules, get_container-Keeps, remove_existing-Keeps) depth 8

  pub ensure_running-Keeps :
      (fuel : ℕ) (inst : Instance) → KeepsInstances (ensure_running H py cfg fuel inst)
  unfolding ensure_running
  ensure_running-Keeps fuel inst =
      search
        (frame_rules, try_pull-Keeps, prepare-Keeps, replace_container-Keeps, wait_settled-Keeps)
        depth 8

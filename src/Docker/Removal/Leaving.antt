-- ===== src/Docker/Removal/Leaving.antt =====
-- The removal of a container never writes to the instances directory.
use linuxmuster_radius.Prelude.{refl, Option, none, some, Text}
use linuxmuster_radius.Exec.{
  Exec, Result, ok, err, Error, modify, file_not_found, value_error, container_error,
}
use linuxmuster_radius.Models.Types.{Instance}
use linuxmuster_radius.Models.Fields.{Stdlib}
use linuxmuster_radius.Host.{Host, RunArgs}
use linuxmuster_radius.World.Frames.{KeepsInstances, frame_rules}
use linuxmuster_radius.Docker.Config.{Config}
use linuxmuster_radius.Docker.Frames.{
  get_container-Keeps, mounts-Keeps, env_for-Keeps, remove_existing-Keeps,
}
use linuxmuster_radius.Docker.Paths.{resolve_under}
use linuxmuster_radius.Docker.Lifecycle.{on_container}
use linuxmuster_radius.Docker.Removal.{
  leave_failure, run_leave, not_startable, run_or_not, has_volume, attempt_leave, leave_domain,
  stop_before, drop_volume, unlink_file, drop_at, drop_rendered, remove,
}

module _ (H : Host) (py : Stdlib) (cfg : Config) where
  leave_failure-Keeps : (e : Error) → KeepsInstances (leave_failure H py cfg e)
  unfolding leave_failure
  leave_failure-Keeps (container_error out) = search frame_rules
  leave_failure-Keeps e = search frame_rules

  run_leave-Keeps : (args : RunArgs) → KeepsInstances (run_leave H py cfg args)
  unfolding run_leave
  run_leave-Keeps args = search (frame_rules, leave_failure-Keeps)

  not_startable-Keeps : (e : Error) → KeepsInstances (not_startable H py cfg e)
  not_startable-Keeps (file_not_found m) = search frame_rules
  not_startable-Keeps (value_error m) = search frame_rules
  not_startable-Keeps e = record { at = λ w. refl }

  run_or_not-Keeps : (args : Option RunArgs) → KeepsInstances (run_or_not H py cfg args)
  run_or_not-Keeps none = search frame_rules
  run_or_not-Keeps (some args) = search (frame_rules, run_leave-Keeps)

  has_volume-Keeps : (name : Text) → KeepsInstances (has_volume H py cfg name)
  unfolding has_volume
  has_volume-Keeps name = search frame_rules

  attempt_leave-Keeps : (inst : Instance) → KeepsInstances (attempt_leave H py cfg inst)
  unfolding attempt_leave
  attempt_leave-Keeps inst =
      search (frame_rules, env_for-Keeps, mounts-Keeps, not_startable-Keeps, run_or_not-Keeps) depth
        12

  leave_domain-Keeps : (inst : Instance) → KeepsInstances (leave_domain H py cfg inst)
  unfolding leave_domain
  leave_domain-Keeps inst = search (frame_rules, has_volume-Keeps, attempt_leave-Keeps)

  on_container-Keeps :
      (m : H.Container → Exec H.State (Unit {0})) (c : Option H.Container)
      → KeepsInstances (on_container H py cfg m c)
  unfolding on_container
  on_container-Keeps m none = search frame_rules
  on_container-Keeps m (some c) = search frame_rules

  stop_before-Keeps : (name : Text) → KeepsInstances (stop_before H py cfg name)
  unfolding stop_before
  stop_before-Keeps name = search (frame_rules, get_container-Keeps, on_container-Keeps)

  drop_volume-Keeps : (name : Text) → KeepsInstances (drop_volume H py cfg name)
  unfolding drop_volume
  drop_volume-Keeps name = search frame_rules

  unlinked-Keeps : (path : Text) → KeepsInstances (modify (unlink_file H py cfg path))
  unlinked-Keeps path = record { at = λ w. refl }

  dropped_at-Keeps : (r : Result Text) → KeepsInstances (drop_at H py cfg r)
  dropped_at-Keeps (err e) = search frame_rules
  dropped_at-Keeps (ok dir) = search (frame_rules, unlinked-Keeps)

  drop_rendered-Keeps : (name : Text) → KeepsInstances (drop_rendered H py cfg name)
  unfolding drop_rendered
  drop_rendered-Keeps name = dropped_at-Keeps (resolve_under H.realpath cfg.render_dir name)

  pub remove-Keeps : (inst : Instance) → KeepsInstances (remove H py cfg inst)
  unfolding remove
  remove-Keeps inst =
      search
        (
          frame_rules, stop_before-Keeps, leave_domain-Keeps, get_container-Keeps,
          remove_existing-Keeps, drop_volume-Keeps, drop_rendered-Keeps,
        )
        depth 16

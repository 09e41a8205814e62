-- ===== src/Docker/Removal.antt =====
-- `remove` and `_leave_domain`: an instance leaves the domain and its container, volume and rendered
-- files go.
pub mod Leaving
use linuxmuster_radius.Prelude.{Bool, true, false, Option, none, some, Text, codes, if◌then◌else◌}
use linuxmuster_radius.Exec.{
  Exec, Result, ok, err, Error, pure, raise, catch, modify, ◌>>=◌, ◌>>◌, value_error,
  file_not_found, container_error,
}
use linuxmuster_radius.Dict
use linuxmuster_radius.Models.Types.{Instance}
use linuxmuster_radius.Models.Fields.{Stdlib}
use linuxmuster_radius.Host.{Host, RunArgs}
use linuxmuster_radius.World.{World, call}
use linuxmuster_radius.Docker.Config.{Config, volume_name, clients_file, ssid_policy_file}
use linuxmuster_radius.Docker.Env.{env_for}
use linuxmuster_radius.Docker.Mounts.{mounts}
use linuxmuster_radius.Docker.Paths.{join_path, resolve_under}
use linuxmuster_radius.Docker.Inspect.{is_not_found, is_api_error, get_container, tail_text}
use linuxmuster_radius.Docker.Lifecycle.{leave_args, on_container, remove_existing}

-- `{"ok", "attempted", "detail"}`. The fixed texts stand for the details that quote an exception.
pub record Leave : Type 0 where
  pub succeeded : Bool
  pub attempted : Bool
  pub detail : Text

abbrev pub never_joined : Leave
never_joined = record {
  succeeded = true;
  attempted = false;
  detail = codes "never joined (no state volume)";
}

abbrev pub cannot_run : Leave
cannot_run = record { succeeded = false; attempted = false; detail = codes "cannot run the leave" }

module _ (H : Host) (py : Stdlib) (cfg : Config) where
  abbrev leave_arguments : Instance → Exec (World H) RunArgs
  leave_arguments inst = do
    env ← env_for H py cfg inst
    volumes ← mounts H cfg false inst
    pure (leave_args H py cfg inst env volumes)

  -- How the one-off run ended.
  unfoldable pub leave_failure : Error → Exec (World H) Leave
  unfolding tail_text
  leave_failure (container_error out) =
      pure (record { succeeded = false; attempted = true; detail = tail_text out })
  leave_failure e =
      if is_api_error e
      then pure (record { succeeded = false; attempted = true; detail = codes "docker error" })
      else raise e

  unfoldable pub run_leave : RunArgs → Exec (World H) Leave
  unfolding leave_failure tail_text
  run_leave args =
      catch
        (do
          out ← call (H.run_container args)
          pure (record { succeeded = true; attempted = true; detail = tail_text out }))
        leave_failure

  -- A missing file or a bad value means that the run cannot be started.
  abbrev not_startable : Error → Exec (World H) (Option RunArgs)
  not_startable (file_not_found m) = pure none
  not_startable (value_error m) = pure none
  not_startable e = raise e

  abbrev run_or_not : Option RunArgs → Exec (World H) Leave
  run_or_not none = pure cannot_run
  run_or_not (some args) = run_leave args

  -- `client.volumes.get`: whether the state volume is there.
  unfoldable pub has_volume : Text → Exec (World H) Bool
  has_volume name =
      catch (do call (H.get_volume (volume_name name)); pure true)
        (λ e. if is_not_found e then pure false else raise e)

  unfoldable pub attempt_leave : Instance → Exec (World H) Leave
  unfolding run_leave
  attempt_leave inst = do
    args ← catch (do a ← leave_arguments inst; pure (some a)) not_startable
    run_or_not args

  -- `_leave_domain`
  unfoldable pub leave_domain : Instance → Exec (World H) Leave
  unfolding has_volume attempt_leave
  leave_domain inst = do
    joined ← has_volume inst.name
    if joined then attempt_leave inst else pure never_joined

  -- The stop before the leave: an API error is only logged.
  unfoldable pub stop_before : Text → Exec (World H) (Unit {0})
  unfolding get_container on_container
  stop_before name = do
    c ← get_container H name
    catch (on_container H py cfg (H.stop_container (some 15)) c)
        (λ e. if is_api_error e then pure tt else raise e)

  unfoldable pub drop_volume : Text → Exec (World H) (Unit {0})
  drop_volume name =
      catch (do call (H.get_volume (volume_name name)); call (H.remove_volume (volume_name name)))
        (λ e. if is_not_found e then pure tt else raise e)

  abbrev unlink_file : Text → World H → World H
  unlink_file path w = record w { files = Dict.remove w.files path }

  abbrev drop_at : Result Text → Exec (World H) (Unit {0})
  drop_at (err e) = pure tt
  drop_at (ok inst_dir) = do
    modify (unlink_file (join_path inst_dir clients_file))
    modify (unlink_file (join_path inst_dir ssid_policy_file))

  -- The rendered files of the instance go, unless its directory cannot be resolved.
  unfoldable pub drop_rendered : Text → Exec (World H) (Unit {0})
  drop_rendered name = drop_at (resolve_under H.realpath cfg.render_dir name)

  -- `remove`
  unfoldable pub remove : Instance → Exec (World H) Leave
  unfolding stop_before leave_domain get_container remove_existing drop_volume drop_rendered
  remove inst = do
    stop_before inst.name
    leave ← leave_domain inst
    c ← get_container H inst.name
    remove_existing H py cfg c
    drop_volume inst.name
    drop_rendered inst.name
    pure leave

-- ===== src/Docker/Lifecycle.antt =====
-- `ensure_running`, `start`, `stop`, `restart`, `remove` and `_leave_domain`.
use linuxmuster_radius.Prelude.{
  ℕ, true, false, Option, none, some, List, [], ◌∷◌, Text, codes, show_int, if◌then◌else◌,
}
use linuxmuster_radius.Exec.{Exec, pure, raise, catch, ◌>>=◌, ◌>>◌}
use linuxmuster_radius.Models.Types.{Instance, container_name}
use linuxmuster_radius.Models.Fields.{Stdlib}
use linuxmuster_radius.Host.{Host, Mount, RunArgs}
use linuxmuster_radius.World.{World, call}
use linuxmuster_radius.Docker.Config.{Config, instance_d_mount, auth_port, acct_port}
use linuxmuster_radius.Docker.Env.{env_for}
use linuxmuster_radius.Docker.Mounts.{mounts, set_mount, render_instance}
use linuxmuster_radius.Docker.View.{Status}
use linuxmuster_radius.Docker.Inspect.{is_api_error, get_container, pull, status, wait_settled}

module _ (H : Host) (py : Stdlib) (cfg : Config) where
  -- `_hardening`, and what both runs share.
  unfoldable pub hardened_args : Instance → List (Text × Text) → List Mount → RunArgs
  hardened_args inst env volumes = record {
    image = inst.image;
    name = none;
    command = [];
    hostname = inst.server_fqdn;
    environment = env;
    detach = false;
    auto_remove = false;
    restart_policy = none;
    volumes = volumes;
    udp_ports = [];
    healthcheck = none;
    read_only = true;
    tmpfs = codes "/run" ∷ codes "/tmp" ∷ [];
    cap_drop = codes "ALL" ∷ [];
    cap_add = codes "SETUID" ∷ codes "SETGID" ∷ codes "DAC_OVERRIDE" ∷ codes "CHOWN" ∷ [];
    security_opt = codes "no-new-privileges:true" ∷ [];
    log_options =
        (codes "max-size", cfg.log_max_size) ∷ (codes "max-file", show_int cfg.log_max_file) ∷ [];
  }

  -- The arguments of the instance's own container.
  unfoldable pub instance_args : Instance → List (Text × Text) → List Mount → RunArgs
  unfolding hardened_args container_name
  instance_args inst env volumes = record (hardened_args inst env volumes) {
    name = some (container_name inst);
    detach = true;
    restart_policy = some (codes "unless-stopped");
    udp_ports =
        (auth_port, cfg.container_bind_ip, auth_port)
        ∷ (acct_port, cfg.container_bind_ip, acct_port)
        ∷ [];
  }

  -- The one-off `leave` run.
  unfoldable pub leave_args : Instance → List (Text × Text) → List Mount → RunArgs
  unfolding hardened_args
  leave_args inst env volumes = record (hardened_args inst env volumes) {
    command = codes "leave" ∷ [];
    auto_remove = true;
    healthcheck = some (codes "NONE" ∷ []);
  }

  -- A pull that fails leaves the local image in use.
  unfoldable pub try_pull : Text → Exec (World H) (Unit {0})
  unfolding pull
  try_pull image = catch (pull H image) (λ e. if is_api_error e then pure tt else raise e)

  -- Everything that is checked before the old container is touched: the environment and the mounts.
  unfoldable pub prepare : Instance → Exec (World H) RunArgs
  unfolding render_instance env_for mounts set_mount instance_args
  prepare inst = do
    render_host ← render_instance H cfg inst
    env ← env_for H py cfg inst
    volumes ← mounts H cfg true inst
    pure (instance_args inst env (set_mount render_host instance_d_mount false volumes))

  unfoldable pub remove_existing : Option H.Container → Exec (World H) (Unit {0})
  remove_existing none = pure tt
  remove_existing (some c) = call (H.remove_container c)

  -- The end of `ensure_running`: the old container goes, the new one is started.
  unfoldable pub replace_container : Text → RunArgs → Exec (World H) (Unit {0})
  unfolding get_container remove_existing
  replace_container name args = do
    existing ← get_container H name
    remove_existing existing
    call (H.run_container args)
    pure tt

  -- `ensure_running`. The status is `none` only if the fuel of `_wait_settled` has run out.
  unfoldable pub ensure_running : ℕ → Instance → Exec (World H) (Option Status)
  unfolding try_pull prepare replace_container wait_settled
  ensure_running fuel inst = do
    try_pull inst.image
    args ← prepare inst
    replace_container inst.name args
    wait_settled H fuel cfg inst.name

  unfoldable pub on_container :
      (H.Container → Exec H.State (Unit {0})) → Option H.Container → Exec (World H) (Unit {0})
  on_container act none = pure tt
  on_container act (some c) = call (act c)

  -- `start`, `stop` and `restart`: the action, if there is a container, and then its status.
  unfoldable pub act_on : (H.Container → Exec H.State (Unit {0})) → Text → Exec (World H) Status
  unfolding get_container on_container status
  act_on act name = do c ← get_container H name; on_container act c; status H name

  unfoldable pub start : Text → Exec (World H) Status
  unfolding act_on
  start = act_on H.start_container

  unfoldable pub stop : Text → Exec (World H) Status
  unfolding act_on
  stop = act_on (H.stop_container none)

  unfoldable pub restart : Text → Exec (World H) Status
  unfolding act_on
  restart = act_on H.restart_container

-- ===== src/Docker/Health.antt =====
-- What the command line calls a problem of a container.
use linuxmuster_radius.Prelude.{◌≡◌, ◌↔◌, true, not, ◌&&◌, codes, if◌then◌else◌, arith}
use linuxmuster_radius.Host.{Attrs}
use linuxmuster_radius.Docker.View.{
  Status, exists, running, crash_looping, health, is_health, state_view, status_problem,
  check_status,
}

-- A status passes exactly if the container exists, runs, is not crash-looping and not unhealthy.
pub check_status_iff :
    (st : Status)
    → (check_status st ≡ true) ↔ (
        (exists st
          && running st
          && not (crash_looping st)
          && not (is_health (codes "unhealthy") (health st)))
        ≡ true)
unfolding check_status status_problem
check_status_iff st = ground arith

-- A container that Docker is restarting is seen as crash-looping and not as running, whatever its
-- health; a healthy one that is not being restarted is never seen as crash-looping.
pub state_view_lem :
    (attrs : Attrs)
    → ((if attrs.restarting
          then (state_view attrs).crash_looping && not (state_view attrs).running
          else not (
              (state_view attrs).crash_looping
              && is_health (codes "healthy") (state_view attrs).health))
        ≡ true)
unfolding state_view
state_view_lem attrs = ground arith

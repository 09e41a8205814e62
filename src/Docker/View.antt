-- ===== src/Docker/View.antt =====
-- `state_view` and the status of a container, with `_status_problem` of cli.py, which reads it.
use linuxmuster_radius.Prelude.{
  ℕ, Bool, true, false, not, ◌&&◌, ◌||◌, ltb, Option, none, some, Text, codes, text_eq,
  if◌then◌else◌,
}
use linuxmuster_radius.Host.{Attrs}

pub record View : Type 0 where
  pub running : Bool
  pub health : Option Text
  pub restart_count : ℕ
  pub crash_looping : Bool
  -- The key is there only if the container does not run.
  pub exit_code : Option (Option ℕ)

unfoldable pub is_health : Text → Option Text → Bool
is_health t none = false
is_health t (some h) = text_eq h t

-- `Status` of the `Health` entry, where both are there and it is a text.
abbrev pub health_status : Option (Option Text) → Option Text
health_status none = none
health_status (some s) = s

abbrev pub int_or_zero : Option ℕ → ℕ
int_or_zero none = 0
int_or_zero (some n) = n

unfoldable pub state_view : Attrs → View
unfolding is_health
state_view attrs =
    let health = health_status attrs.health in
    let running = attrs.running && not attrs.restarting in
    let restart_count = int_or_zero attrs.restart_count in
    record {
      running = running;
      health = health;
      restart_count = restart_count;
      crash_looping =
          attrs.restarting || (ltb 0 restart_count && not (is_health (codes "healthy") health));
      exit_code = if running then none else some attrs.exit_code;
    }

-- What `DockerService.status` returns: five keys where there is no container.
pub data Status : Type 0 where
  absent : Text → Status
  present : Text → View → Option Text → Option Text → Status

-- `st.get(...)`, where a missing key counts as false or none.
abbrev pub exists : Status → Bool
exists (absent name) = false
exists (present name view image error) = true

abbrev pub running : Status → Bool
running (absent name) = false
running (present name view image error) = view.running

abbrev pub health : Status → Option Text
health (absent name) = none
health (present name view image error) = view.health

abbrev pub crash_looping : Status → Bool
crash_looping (absent name) = false
crash_looping (present name view image error) = view.crash_looping

-- `_status_problem`: the reasons that the command line gives.
pub data Problem : Type 0 where
  no_container crash_loop not_running unhealthy : Problem

unfoldable pub status_problem : Status → Option Problem
unfolding is_health
status_problem st =
    if not (exists st)
    then some no_container
    else if crash_looping st
    then some crash_loop
    else if not (running st)
    then some not_running
    else if is_health (codes "unhealthy") (health st)
    then some unhealthy
    else none

-- `_check_status`
unfoldable pub check_status : Status → Bool
unfolding status_problem
check_status st = elim (status_problem st) [ none ↦ true | some problem ↦ false ]

-- ===== src/Cli/Statuses.antt =====
-- The status of a container on its way from docker_service.py through JSON to the command line.
pub mod Each
use linuxmuster_radius.Prelude.{
  ℕ, pos, ◌≡◌, refl, sym, ap, subst, ◌∙◌, Bool, true, false, not, ◌&&◌, Option, none, some, List,
  [], ◌∷◌, Text, codes, text_eq, if◌then◌else◌, All, Bool-cases, inl, inr, arith,
}
use linuxmuster_radius.Exec.{Exec, Result, ok, err, ◌>>=◌}
use linuxmuster_radius.Exec.Chains.{bind-ok, bind_lem, ok_injective}
use linuxmuster_radius.Docker.View.{
  View, Status, absent, present, exists, running, crash_looping, health, is_health,
}
use linuxmuster_radius.Cli.Json
use linuxmuster_radius.Cli.Json.{Json, Fields, null, bool, num, str, obj, end, field, iterate}
use linuxmuster_radius.Cli.Terminal.{
  Part, Line, Printed, warned, Response, Outside, Session, Request, text, value,
}
use linuxmuster_radius.Cli.Answers.{status_problem, check_status, emit, exit_unless, report_problem}
use linuxmuster_radius.Cli.Commands.{check_each, require_running}

abbrev text_json : Option Text → Json
text_json none = null
text_json (some s) = str s

abbrev number_json : Option ℕ → Json
number_json none = null
number_json (some n) = num (pos n)

-- The keys that are there only sometimes.
abbrev exit_code_field : Option (Option ℕ) → Fields → Fields
exit_code_field none fs = fs
exit_code_field (some code) fs = field (codes "exit_code") (number_json code) fs

abbrev last_error_field : Bool → Option Text → Fields
last_error_field false error = end
last_error_field true error = field (codes "last_error") (text_json error) end

-- What `DockerService.status` returns, as the API sends it.
unfoldable pub status_json : Status → Json
status_json (absent name) = obj (
    field (codes "name") (str name) (
      field (codes "exists") (bool false) (
        field (codes "running") (bool false)
          (field (codes "health") null (field (codes "image") null end)))))
status_json (present name view image error) = obj (
    field (codes "name") (str name) (
      field (codes "exists") (bool true) (
        field (codes "running") (bool view.running) (
          field (codes "health") (text_json view.health) (
            field (codes "restart_count") (num (pos view.restart_count)) (
              field (codes "crash_looping") (bool view.crash_looping) (
                exit_code_field view.exit_code (
                  field (codes "image") (text_json image)
                    (last_error_field view.crash_looping error)))))))))

-- Whether the command line finds no problem.
abbrev pub clean : Status → Bool
clean st =
    exists st
    && running st
    && not (crash_looping st)
    && not (is_health (codes "unhealthy") (health st))

module _ {O : Outside} (name : Part) (s : Session O) where
  checked_view :
      (n : Text) (running : Bool) (health : Option Text) (count : ℕ) (looping : Bool)
      (code : Option (Option ℕ)) (image error : Option Text)
      → let view : View = record {
        running = running;
        health = health;
        restart_count = count;
        crash_looping = looping;
        exit_code = code;
      } in
        (check_status name (status_json (present n view image error)) s).0
        ≡ ok (clean (present n view image error))
  unfolding check_status status_problem Json.get Json.find status_json is_health text_eq
  checked_view n false none count false none image error = refl
  checked_view n running health count looping code image error = ground arith

-- For a status as docker_service.py returns it, sent as JSON, _check_status returns true exactly
-- if the container exists, runs, is not crash-looping and not unhealthy; it never raises.
pub check_status-status_json :
    {O : Outside} (name : Part) (st : Status) (s : Session O)
    → (check_status name (status_json st) s).0 ≡ ok (clean st)
unfolding check_status status_problem Json.get Json.find status_json is_health text_eq
check_status-status_json name (absent n) s = refl
check_status-status_json name (present n view image error) s =
    checked_view name s n view.running view.health view.restart_count view.crash_looping
      view.exit_code image error

-- ===== src/Cli/Silence.antt =====
-- What reads an answer sends nothing, and never blames the options.
pub mod Console
pub mod Options
use linuxmuster_radius.Prelude.{
  ℕ, ℤ, ◌≡◌, refl, Bool, true, false, Option, none, some, List, [], ◌∷◌, Text, Option-cases, codes,
}
use linuxmuster_radius.Exec.{Exec, Result, ok, err}
use linuxmuster_radius.Ca.{Crypto}
use linuxmuster_radius.Cli.Json
use linuxmuster_radius.Cli.Json.{
  Json, Fields, iterate, subscript, find, null, bool, num, str, arr, obj,
}
use linuxmuster_radius.Cli.Terminal.{Part, Line, Outside, Session, Response}
use linuxmuster_radius.Cli.Answers.{
  client_of, exit_unless, json, open_client, emit, print_body, report_problem, status_problem,
  check_status, warn_each, ldaps_warnings,
}
use linuxmuster_radius.Cli.Commands.{require_running}
use linuxmuster_radius.Cli.Frames.{Silent, tame, anything, fine, silent_rules, Silent-bind}

pub get-fine : (j : Json) (k : Text) (d : Json) → fine tame (Json.get j k d) ≡ true
unfolding Json.get
get-fine (obj fs) k d = refl
get-fine null k d = refl
get-fine (bool b) k d = refl
get-fine (num n) k d = refl
get-fine (str s) k d = refl
get-fine (arr xs) k d = refl

find-fine : (o : Option Json) → fine tame (Json.or_key_error o) ≡ true
find-fine none = refl
find-fine (some j) = refl

pub subscript-fine : (j : Json) (k : Text) → fine tame (subscript j k) ≡ true
unfolding subscript
subscript-fine (obj fs) k = find-fine (find k fs)
subscript-fine null k = refl
subscript-fine (bool b) k = refl
subscript-fine (num n) k = refl
subscript-fine (str s) k = refl
subscript-fine (arr xs) k = refl

pub iterate-fine : (j : Json) → fine tame (iterate j) ≡ true
unfolding iterate
iterate-fine (obj fs) = refl
iterate-fine null = refl
iterate-fine (bool b) = refl
iterate-fine (num n) = refl
iterate-fine (str s) = refl
iterate-fine (arr xs) = refl

pub ruleset reading = (silent_rules, get-fine, subscript-fine, iterate-fine)

module _ {O : Outside} where
  print_body-Silent : (s : Text) (j : Option Json) → Silent {O = O} tame (print_body s j)
  print_body-Silent s none = search silent_rules
  print_body-Silent s (some j) = search silent_rules

  pub emit-Silent : (resp : Response) → Silent {O = O} tame (emit resp)
  unfolding emit
  emit-Silent resp = search (reading, print_body-Silent) depth 12

  pub status_problem-Silent : (st : Json) → Silent {O = O} tame (status_problem st)
  unfolding status_problem
  status_problem-Silent st = search reading depth 20

  client_of-Silent : (o : Option (Text × Text)) → Silent {O = O} tame (client_of o)
  unfolding client_of
  client_of-Silent none = search silent_rules
  client_of-Silent (some (token, url)) = search silent_rules

  pub open_client-Silent : Silent {O = O} tame open_client
  unfolding open_client
  open_client-Silent = record {
    keeps = λ s. (client_of-Silent (O.settings s.net)).keeps s;
    raises = λ s. (client_of-Silent (O.settings s.net)).raises s;
  }

  report_problem-Silent :
      (name : Part) (problem : Option Line) → Silent {O = O} tame (report_problem name problem)
  report_problem-Silent name none = search silent_rules
  report_problem-Silent name (some problem) = search silent_rules

  pub check_status-Silent : (name : Part) (st : Json) → Silent {O = O} tame (check_status name st)
  unfolding check_status
  check_status-Silent name st = search (silent_rules, status_problem-Silent, report_problem-Silent)

  warn_each-Silent : (is : List Json) (count : ℕ) → Silent {O = O} tame (warn_each count is)
  unfolding warn_each
  warn_each-Silent [] count = search silent_rules
  warn_each-Silent (i ∷ is) count = search (reading, warn_each-Silent is) depth 16

  pub ldaps_warnings-Silent : (listed : Json) → Silent {O = O} tame (ldaps_warnings listed)
  unfolding ldaps_warnings
  ldaps_warnings-Silent listed = search (reading, λ (is : List Json). warn_each-Silent is 0)

  pub exit_unless-Silent : (b : Bool) → Silent {O = O} tame (exit_unless b)
  exit_unless-Silent true = search silent_rules
  exit_unless-Silent false = search silent_rules

  pub json-Silent : (resp : Response) → Silent {O = O} tame (json resp)
  json-Silent resp = search silent_rules

  pub require_running-Silent :
      (name : Text) (resp : Response) → Silent {O = O} tame (require_running name resp)
  unfolding require_running
  require_running-Silent name resp =
      search (reading, emit-Silent, json-Silent, check_status-Silent, exit_unless-Silent) depth 16

-- ===== src/Cli/Silence/Console.antt =====
-- What prints an answer for people sends nothing.
use linuxmuster_radius.Prelude.{Bool, true, false, Option, none, some, List, [], ◌∷◌, Text, refl}
use linuxmuster_radius.Exec.{Exec}
use linuxmuster_radius.Cli.Json.{Json, null, bool, num, str, arr, obj}
use linuxmuster_radius.Cli.Terminal.{Outside, Session, Response}
use linuxmuster_radius.Cli.Commands.{check_each, if_all, warn_listed, not_left}
use linuxmuster_radius.Cli.Console.{
  show_gate, show_gates, render_login, render_user, render_running, render_test, test_body,
  ask_unless, print_log, print_logs, print_or_write, after_write, ask,
}
use linuxmuster_radius.Cli.Frames.{Silent, tame, silent_rules}
use linuxmuster_radius.Cli.Silence.{
  reading, check_status-Silent, ldaps_warnings-Silent, json-Silent,
}

module _ {O : Outside} where
  if_all-Silent :
      (b : Bool) (rest : Exec (Session O) Bool) → Silent tame rest → Silent tame (if_all b rest)
  if_all-Silent true rest k = k
  if_all-Silent false rest k = search silent_rules

  pub check_each-Silent : (sts : List Json) → Silent {O = O} tame (check_each sts)
  unfolding check_each
  check_each-Silent [] = search silent_rules
  check_each-Silent (st ∷ sts) =
      search
        (reading, check_status-Silent, if_all-Silent, λ (later : List Json). check_each-Silent sts)
        depth 12

  pub warn_listed-Silent : (listing : Response) → Silent {O = O} tame (warn_listed listing)
  unfolding warn_listed
  warn_listed-Silent listing = search (silent_rules, json-Silent, ldaps_warnings-Silent)

  pub not_left-Silent : (name : Text) (detail : Json) → Silent {O = O} tame (not_left name detail)
  not_left-Silent name detail = search silent_rules

  show_gate-Silent : (g : Json) → Silent {O = O} tame (show_gate g)
  unfolding show_gate
  show_gate-Silent g = search reading depth 14

  show_gates-Silent : (gs : List Json) → Silent {O = O} tame (show_gates gs)
  unfolding show_gates
  show_gates-Silent [] = search silent_rules
  show_gates-Silent (g ∷ gs) =
      search (silent_rules, show_gate-Silent, λ (later : List Json). show_gates-Silent gs)

  render_login-Silent : (answered login : Json) → Silent {O = O} tame (render_login answered login)
  unfolding render_login
  render_login-Silent answered login = search (reading, show_gates-Silent) depth 24

  render_user-Silent : (answered login : Json) → Silent {O = O} tame (render_user answered login)
  unfolding render_user
  render_user-Silent answered login = search (silent_rules, render_login-Silent)

  render_running-Silent : (answered : Json) → Silent {O = O} tame (render_running answered)
  unfolding render_running
  render_running-Silent answered = search (reading, render_user-Silent) depth 16

  pub render_test-Silent : (answered : Json) → Silent {O = O} tame (render_test answered)
  unfolding render_test
  render_test-Silent answered = search (reading, render_running-Silent) depth 12

  ask-Silent : Silent {O = O} tame ask
  ask-Silent = record { keeps = λ s. refl; raises = λ s. refl }

  ask_unless-Silent : (given : Option Text) → Silent {O = O} tame (ask_unless given)
  ask_unless-Silent none = ask-Silent
  ask_unless-Silent (some []) = ask-Silent
  ask_unless-Silent (some (c ∷ s)) = search silent_rules

  pub test_body-Silent :
      (user password : Option Text) → Silent {O = O} tame (test_body user password)
  unfolding test_body
  test_body-Silent none password = search silent_rules
  test_body-Silent (some user) password = search (silent_rules, ask_unless-Silent)

  print_log-Silent : (j : Json) → Silent {O = O} tame (print_log j)
  print_log-Silent (str s) = search silent_rules
  print_log-Silent (obj fs) = search silent_rules
  print_log-Silent null = search silent_rules
  print_log-Silent (bool b) = search silent_rules
  print_log-Silent (num n) = search silent_rules
  print_log-Silent (arr xs) = search silent_rules

  pub print_logs-Silent : (answered : Json) → Silent {O = O} tame (print_logs answered)
  print_logs-Silent answered = search (reading, print_log-Silent)

  written-Silent :
      (path : Text) (written : Option O.Net) → Silent {O = O} tame (after_write path written)
  written-Silent path none = search silent_rules
  written-Silent path (some net) = record { keeps = λ s. refl; raises = λ s. refl }

  pub print_or_write-Silent :
      (out : Option Text) (s : Text) → Silent {O = O} tame (print_or_write out s)
  print_or_write-Silent none s = search silent_rules
  print_or_write-Silent (some path) s = record {
    keeps = λ t. (written-Silent path (O.write_text path s t.net)).keeps t;
    raises = λ t. (written-Silent path (O.write_text path s t.net)).raises t;
  }

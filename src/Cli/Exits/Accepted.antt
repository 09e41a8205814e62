-- ===== src/Cli/Exits/Accepted.antt =====
-- No command but `health` exits with 0 after an answer that is an error.
use linuxmuster_radius.Prelude.{ℕ, ℤ, ◌≡◌, refl, Bool, true, false, all, Option, [], Text}
use linuxmuster_radius.Exec.{ok}
use linuxmuster_radius.Ca.{Crypto}
use linuxmuster_radius.Cli.Terminal.{Outside, Session, Request, Response}
use linuxmuster_radius.Cli.Commands.{
  CreateOptions, show_answer, list, rm, reconcile, create, set_ldap_ca, require_running, show,
  start, stop, restart, status, update, update_all, rollback,
}
use linuxmuster_radius.Cli.Console.{
  answered_by, test, logs, ca_export, ca_init, ca_show, cert_issue, cert_show,
}
use linuxmuster_radius.Cli.Running
use linuxmuster_radius.Cli.Running.{Command, is_health, run}
use linuxmuster_radius.Cli.Silence.{
  reading, ldaps_warnings-Silent, check_status-Silent, exit_unless-Silent,
}
use linuxmuster_radius.Cli.Silence.Console.{
  check_each-Silent, not_left-Silent, render_test-Silent, test_body-Silent, print_logs-Silent,
  print_or_write-Silent,
}
use linuxmuster_radius.Cli.Silence.Options.{parse_ssids-Silent, resolve_ldap_ca-Silent}
use linuxmuster_radius.Cli.Exits.{
  Accepts, Checks, accept_rules, accepted, Settles-emit_error, Settles-refuse, Checks-Settles,
  Accepts-options,
}

module _ {O : Outside} where
  show_answer-Accepts : (req : Request) → Accepts {O = O} (show_answer req)
  unfolding show_answer
  show_answer-Accepts req = search (accept_rules, Checks-Settles)

  list-Accepts : Accepts {O = O} list
  unfolding list
  list-Accepts = search (accept_rules, ldaps_warnings-Silent) depth 14

  rm-Accepts : (name : Text) → Accepts {O = O} (rm name)
  unfolding rm
  rm-Accepts name = search (accept_rules, reading, not_left-Silent) depth 24

  reconcile-Accepts : Accepts {O = O} reconcile
  unfolding reconcile
  reconcile-Accepts = search (accept_rules, reading, check_each-Silent, exit_unless-Silent) depth 24

  require_running-Checks :
      (name : Text) (resp : Response) → Checks {O = O} resp (require_running name resp)
  unfolding require_running
  require_running-Checks name resp =
      search (accept_rules, reading, check_status-Silent, exit_unless-Silent) depth 24

  answered_by-Accepts : (req : Request) → Accepts {O = O} (answered_by req)
  unfolding answered_by
  answered_by-Accepts req = search (accept_rules, Settles-refuse) depth 14

  test-Accepts :
      (name : Text) (user password : Option Text) (json_out : Bool)
      → Accepts {O = O} (test name user password json_out)
  unfolding test
  test-Accepts name user password json_out =
      search (accept_rules, answered_by-Accepts, test_body-Silent, render_test-Silent) depth 16

  logs-Accepts :
      (name : Text) (tail : ℕ) (since until : Option ℕ) (grep : Option Text) (json_out : Bool)
      → Accepts {O = O} (logs name tail since until grep json_out)
  unfolding logs
  logs-Accepts name tail since until grep json_out =
      search (accept_rules, answered_by-Accepts, print_logs-Silent) depth 16

  ca_export-Accepts : (out : Option Text) → Accepts {O = O} (ca_export out)
  unfolding ca_export
  ca_export-Accepts out = search (accept_rules, answered_by-Accepts, print_or_write-Silent)

  module _ (decimal : ℕ → Option ℕ) (C : Crypto) where
    create-Accepts :
        (to_int : Text → Option ℤ) (o : CreateOptions) → Accepts {O = O} (create decimal C to_int o)
    unfolding create
    create-Accepts to_int o =
        search
          (
            accept_rules, Accepts-options, resolve_ldap_ca-Silent, parse_ssids-Silent,
            require_running-Checks,
          )
          depth 16

    set_ldap_ca-Accepts :
        (name : Text) (file : Option Text) (tofu : Bool)
        → Accepts {O = O} (set_ldap_ca decimal C name file tofu)
    unfolding set_ldap_ca
    set_ldap_ca-Accepts name file tofu =
        search
          (
            accept_rules, reading, Accepts-options, Settles-emit_error, resolve_ldap_ca-Silent,
            require_running-Checks,
          )
          depth 24

    accepted_by :
        (to_int : Text → Option ℤ) (cmd : Command)
        → is_health cmd ≡ false
        → Accepts {O = O} (run decimal to_int C cmd)
    unfolding run show start stop restart status rollback update update_all ca_init ca_show
        cert_issue cert_show
    accepted_by to_int Running.list h = list-Accepts
    accepted_by to_int Running.update_all h = show_answer-Accepts _
    accepted_by to_int Running.health h = cc
    accepted_by to_int Running.reconcile h = reconcile-Accepts
    accepted_by to_int Running.ca_show h = show_answer-Accepts _
    accepted_by to_int (Running.show name) h = show_answer-Accepts _
    accepted_by to_int (Running.rm name) h = rm-Accepts name
    accepted_by to_int (Running.start name) h = show_answer-Accepts _
    accepted_by to_int (Running.stop name) h = show_answer-Accepts _
    accepted_by to_int (Running.restart name) h = show_answer-Accepts _
    accepted_by to_int (Running.status name) h = show_answer-Accepts _
    accepted_by to_int (Running.rollback name) h = show_answer-Accepts _
    accepted_by to_int (Running.cert_show name) h = show_answer-Accepts _
    accepted_by to_int (Running.create o) h = create-Accepts to_int o
    accepted_by to_int (Running.set_ldap_ca name file tofu) h = set_ldap_ca-Accepts name file tofu
    accepted_by to_int (Running.test name user password json_out) h =
        test-Accepts name user password json_out
    accepted_by to_int (Running.logs name tail since until grep json_out) h =
        logs-Accepts name tail since until grep json_out
    accepted_by to_int (Running.update name image) h = show_answer-Accepts _
    accepted_by to_int (Running.ca_init common_name days passphrase) h = show_answer-Accepts _
    accepted_by to_int (Running.ca_export out) h = ca_export-Accepts out
    accepted_by to_int (Running.cert_issue name fqdn days passphrase) h = show_answer-Accepts _

-- A command other than health that exits with 0, on a fresh session, has had no request refused or
-- unanswered: each answer it got has a status code below 400.
pub run-accepted :
    {O : Outside} (decimal : ℕ → Option ℕ) (to_int : Text → Option ℤ) (C : Crypto) (cmd : Command)
    (s : Session O)
    → is_health cmd ≡ false
    → s.exchanged ≡ []
    → (run decimal to_int C cmd s).0 ≡ ok tt
    → all accepted (run decimal to_int C cmd s).1.exchanged ≡ true
run-accepted decimal to_int C cmd s h fresh e =
    (accepted_by decimal C to_int cmd h).at s tt (rw fresh refl) e

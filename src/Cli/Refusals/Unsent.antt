-- ===== src/Cli/Refusals/Unsent.antt =====
-- No command ends in a `BadParameter` after a request that could change something.
use Prim.Native.String.{String}
use linuxmuster_radius.Prelude.{ℕ, ℤ, ◌≡◌, refl, Bool, true, all, Option, [], Text}
use linuxmuster_radius.Exec.{Exec, Result, ok, err, bad_parameter, http_error, attempt, ◌>>=◌}
use linuxmuster_radius.Ca.{Crypto}
use linuxmuster_radius.Cli.{Client}
use linuxmuster_radius.Cli.Terminal.{Outside, Session, Request, Response, request}
use linuxmuster_radius.Cli.Commands.{
  CreateOptions, show_answer, list, rm, reconcile, health, create, set_ldap_ca, require_running,
  show, start, stop, restart, status, update, update_all, rollback, unless_unreachable, emit_error,
}
use linuxmuster_radius.Cli.Console.{
  answered_by, test, logs, ca_export, ca_init, ca_show, cert_issue, cert_show,
}
use linuxmuster_radius.Cli.Running
use linuxmuster_radius.Cli.Running.{Command, run}
use linuxmuster_radius.Cli.Frames.{Silent, Silent-anything, tame, fine, silent_rules}
use linuxmuster_radius.Cli.Silence.{
  reading, emit-Silent, ldaps_warnings-Silent, exit_unless-Silent, require_running-Silent,
}
use linuxmuster_radius.Cli.Silence.Console.{
  check_each-Silent, not_left-Silent, warn_listed-Silent, render_test-Silent, test_body-Silent,
  print_logs-Silent, print_or_write-Silent,
}
use linuxmuster_radius.Cli.Silence.Options.{parse_ssids-Silent, resolve_ldap_ca-Silent}
use linuxmuster_radius.Cli.Refusals.{
  is_read, Tame, Refuses, Refuses-Tame, Refuses-bind, Refuses-get, tame_rules, refuse_rules,
}

module _ {O : Outside} where
  show_answer-Tame : (req : Request) → Tame {O = O} (show_answer req)
  unfolding show_answer
  show_answer-Tame req = search tame_rules depth 12

  list-Tame : Tame {O = O} list
  unfolding list
  list-Tame = search (tame_rules, ldaps_warnings-Silent) depth 16

  rm-Tame : (name : Text) → Tame {O = O} (rm name)
  unfolding rm
  rm-Tame name = search (tame_rules, reading, not_left-Silent) depth 24

  reconcile-Tame : Tame {O = O} reconcile
  unfolding reconcile
  reconcile-Tame = search (tame_rules, reading, check_each-Silent, exit_unless-Silent) depth 24

  answered_by-Tame : (req : Request) → Tame {O = O} (answered_by req)
  unfolding answered_by
  answered_by-Tame req = search tame_rules depth 16

  test-Tame :
      (name : Text) (user password : Option Text) (json_out : Bool)
      → Tame {O = O} (test name user password json_out)
  unfolding test
  test-Tame name user password json_out =
      search (tame_rules, answered_by-Tame, test_body-Silent, render_test-Silent) depth 16

  logs-Tame :
      (name : Text) (tail : ℕ) (since until : Option ℕ) (grep : Option Text) (json_out : Bool)
      → Tame {O = O} (logs name tail since until grep json_out)
  unfolding logs
  logs-Tame name tail since until grep json_out =
      search (tame_rules, answered_by-Tame, print_logs-Silent) depth 16

  ca_export-Tame : (out : Option Text) → Tame {O = O} (ca_export out)
  unfolding ca_export
  ca_export-Tame out = search (tame_rules, answered_by-Tame, print_or_write-Silent)

  passed_over :
      (r : Result Response) (s : Session O)
      → fine tame r ≡ true
      → fine tame (unless_unreachable r s).0 ≡ true
  passed_over (ok listing) s h = (warn_listed-Silent listing).raises s
  passed_over (err http_error) s h = refl
  passed_over (err e) s h = h

  attempted-Tame :
      (m : Exec (Session O) Response) → Tame m → Tame (attempt m >>= unless_unreachable)
  attempted-Tame m k = record { raises = λ s. let (r, s') = m s in passed_over r s' (k.raises s) }

  health-Tame : Tame {O = O} health
  unfolding health
  health-Tame = search (tame_rules, attempted-Tame) depth 16

  Refuses-last :
      (client : Client) (req : Request) (name : Text)
      → Refuses {O = O} (request client req >>= require_running name)
  Refuses-last client req name = search (refuse_rules, require_running-Silent)

  emit_error-Silent : (resp : Response) → Silent {O = O} tame (emit_error resp)
  emit_error-Silent resp = search (silent_rules, emit-Silent)

  module _ (decimal : ℕ → Option ℕ) (C : Crypto) where
    create-Refuses :
        (to_int : Text → Option ℤ) (o : CreateOptions) → Refuses {O = O} (create decimal C to_int o)
    unfolding create
    create-Refuses to_int o =
        search (refuse_rules, resolve_ldap_ca-Silent, parse_ssids-Silent, require_running-Silent)
          depth 20

    set_ldap_ca-Refuses :
        (name : Text) (file : Option Text) (tofu : Bool)
        → Refuses {O = O} (set_ldap_ca decimal C name file tofu)
    unfolding set_ldap_ca
    set_ldap_ca-Refuses name file tofu =
        search
          (
            tame_rules, reading, Refuses-bind, Refuses-get, Silent-anything, emit_error-Silent,
            resolve_ldap_ca-Silent, Refuses-last,
          )
          depth 30

    refused_by :
        (to_int : Text → Option ℤ) (cmd : Command) → Refuses {O = O} (run decimal to_int C cmd)
    unfolding run show start stop restart status rollback update update_all ca_init ca_show
        cert_issue cert_show
    refused_by to_int Running.list = Refuses-Tame _ list-Tame
    refused_by to_int Running.update_all = Refuses-Tame _ (show_answer-Tame _)
    refused_by to_int Running.health = Refuses-Tame _ health-Tame
    refused_by to_int Running.reconcile = Refuses-Tame _ reconcile-Tame
    refused_by to_int Running.ca_show = Refuses-Tame _ (show_answer-Tame _)
    refused_by to_int (Running.show name) = Refuses-Tame _ (show_answer-Tame _)
    refused_by to_int (Running.rm name) = Refuses-Tame _ (rm-Tame name)
    refused_by to_int (Running.start name) = Refuses-Tame _ (show_answer-Tame _)
    refused_by to_int (Running.stop name) = Refuses-Tame _ (show_answer-Tame _)
    refused_by to_int (Running.restart name) = Refuses-Tame _ (show_answer-Tame _)
    refused_by to_int (Running.status name) = Refuses-Tame _ (show_answer-Tame _)
    refused_by to_int (Running.rollback name) = Refuses-Tame _ (show_answer-Tame _)
    refused_by to_int (Running.cert_show name) = Refuses-Tame _ (show_answer-Tame _)
    refused_by to_int (Running.create o) = create-Refuses to_int o
    refused_by to_int (Running.set_ldap_ca name file tofu) = set_ldap_ca-Refuses name file tofu
    refused_by to_int (Running.test name user password json_out) =
        Refuses-Tame _ (test-Tame name user password json_out)
    refused_by to_int (Running.logs name tail since until grep json_out) =
        Refuses-Tame _ (logs-Tame name tail since until grep json_out)
    refused_by to_int (Running.update name image) = Refuses-Tame _ (show_answer-Tame _)
    refused_by to_int (Running.ca_init common_name days passphrase) =
        Refuses-Tame _ (show_answer-Tame _)
    refused_by to_int (Running.ca_export out) = Refuses-Tame _ (ca_export-Tame out)
    refused_by to_int (Running.cert_issue name fqdn days passphrase) =
        Refuses-Tame _ (show_answer-Tame _)

-- A command that ends with a BadParameter, on a fresh session, has sent nothing but GET requests.
pub run-bad_parameter :
    {O : Outside} (decimal : ℕ → Option ℕ) (to_int : Text → Option ℤ) (C : Crypto) (cmd : Command)
    (s : Session O) (x : String)
    → s.exchanged ≡ []
    → (run decimal to_int C cmd s).0 ≡ err (bad_parameter x)
    → all is_read (run decimal to_int C cmd s).1.exchanged ≡ true
run-bad_parameter decimal to_int C cmd s x fresh e =
    (refused_by decimal C to_int cmd).at s x (rw fresh refl) e

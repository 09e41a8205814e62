-- ===== src/Cli/Running.antt =====
-- One command of the command line, with the options that typer has parsed.
use linuxmuster_radius.Prelude.{ℕ, ℤ, Bool, true, false, Option, Text}
use linuxmuster_radius.Exec.{Exec}
use linuxmuster_radius.Ca.{Crypto}
use linuxmuster_radius.Cli.Terminal.{Outside, Session}
use linuxmuster_radius.Cli.Commands
use linuxmuster_radius.Cli.Commands.{CreateOptions}
use linuxmuster_radius.Cli.Console

pub data Command : Type 0 where
  list update_all health reconcile ca_show : Command
  show rm start stop restart status rollback cert_show : Text → Command
  create : CreateOptions → Command
  set_ldap_ca : Text → Option Text → Bool → Command
  test : Text → Option Text → Option Text → Bool → Command
  logs : Text → ℕ → Option ℕ → Option ℕ → Option Text → Bool → Command
  update : Text → Option Text → Command
  ca_init : Text → ℤ → Text → Command
  ca_export : Option Text → Command
  cert_issue : Text → Option Text → ℤ → Text → Command

-- `health` alone tolerates an answer that is an error.
abbrev pub is_health : Command → Bool
is_health health = true
is_health cmd = false

-- `app()`; `decimal` and `to_int` are how `int` reads digits and texts.
unfoldable pub run :
    {O : Outside} (decimal : ℕ → Option ℕ) (to_int : Text → Option ℤ)
    → Crypto
    → Command
    → Exec (Session O) (Unit {0})
run decimal to_int C list = Commands.list
run decimal to_int C update_all = Commands.update_all
run decimal to_int C health = Commands.health
run decimal to_int C reconcile = Commands.reconcile
run decimal to_int C ca_show = Console.ca_show
run decimal to_int C (show name) = Commands.show name
run decimal to_int C (rm name) = Commands.rm name
run decimal to_int C (start name) = Commands.start name
run decimal to_int C (stop name) = Commands.stop name
run decimal to_int C (restart name) = Commands.restart name
run decimal to_int C (status name) = Commands.status name
run decimal to_int C (rollback name) = Commands.rollback name
run decimal to_int C (cert_show name) = Console.cert_show name
run decimal to_int C (create options) = Commands.create decimal C to_int options
run decimal to_int C (set_ldap_ca name file tofu) = Commands.set_ldap_ca decimal C name file tofu
run decimal to_int C (test name user password json_out) = Console.test name user password json_out
run decimal to_int C (logs name tail since until grep json_out) =
    Console.logs name tail since until grep json_out
run decimal to_int C (update name image) = Commands.update name image
run decimal to_int C (ca_init common_name days passphrase) =
    Console.ca_init common_name days passphrase
run decimal to_int C (ca_export out) = Console.ca_export out
run decimal to_int C (cert_issue name fqdn days passphrase) =
    Console.cert_issue name fqdn days passphrase

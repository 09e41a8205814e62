-- ===== src/Tests/Cli.antt =====
-- The theorems on the command line, applied to one SSID and to an API that creates what it is sent.
use linuxmuster_radius.Prelude.{
  ℕ, ℤ, pos, ◌≡◌, refl, true, false, all, List, [], ◌∷◌, Option, some, none, Text, codes, contains,
  text_eq,
}
use linuxmuster_radius.Regex.{re_match}
use linuxmuster_radius.Models.Patterns.{ssid_re, group_re}
use linuxmuster_radius.Cli.{parse_ssid, get_client}
use linuxmuster_radius.Cli.SsidOption.{parse_ssid_lem}
use linuxmuster_radius.Exec.{ok, err, bad_parameter}
use linuxmuster_radius.Models.Urls.{UrlParts, ldap_url_parts}
use linuxmuster_radius.Docker.View.{Status, present}
use linuxmuster_radius.Cli.Json.{Json, obj, end, field, bool, str, null}
use linuxmuster_radius.Cli.Terminal.{text, Response, Completed, Outside, Session, decoded}
use linuxmuster_radius.Cli.Answers.{check_status}
use linuxmuster_radius.Cli.Commands.{CreateOptions, create, check_each}
use linuxmuster_radius.Cli.Tofu.{tofu_fetch_chain}
use linuxmuster_radius.Cli.Pem.{find_all}
use linuxmuster_radius.Cli.Pem.Served.{Printout, printed, block, find_all-printed}
use linuxmuster_radius.Cli.Tofu.Shown.{asking, IsShown, tofu_fetch_chain-IsShown}
use linuxmuster_radius.Cli.Running
use linuxmuster_radius.Cli.Running.{run}
use linuxmuster_radius.Cli.Exits.{accepted}
use linuxmuster_radius.Cli.Exits.Accepted.{run-accepted}
use linuxmuster_radius.Cli.Refusals.{is_read}
use linuxmuster_radius.Cli.Refusals.Unsent.{run-bad_parameter}
use linuxmuster_radius.Cli.Statuses.{status_json, check_status-status_json}
use linuxmuster_radius.Cli.Statuses.Each.{Judged, check_each-Judged}
use linuxmuster_radius.Cli.Creating.{IsCreated, create-IsCreated}
use linuxmuster_radius.Tests.Ca.{texts}

abbrev twenty : Text → Option ℤ
twenty t = some (pos 20)

staff-valid : re_match ssid_re (codes "staff") ≡ true
unfolding linuxmuster_radius.Regex.fullmatch
staff-valid = refl

teachers-valid : re_match group_re (codes "teachers") ≡ true
unfolding linuxmuster_radius.Regex.fullmatch
teachers-valid = refl

parse_ssid_lem_example :
    parse_ssid twenty (codes "staff:teachers")
    ≡ some (record { name = codes "staff"; allowed_group = codes "teachers"; vlan = none })
parse_ssid_lem_example =
    parse_ssid_lem twenty (codes "staff") (codes "teachers") staff-valid teachers-valid

-- The certificate of an API on another host goes unchecked if its name begins like the loopback's.
other_host-unverified :
    (get_client (codes "token") (codes "https://localhost.example.org:8080")).verifies ≡ false
unfolding get_client
other_host-unverified = refl

-- An API that answers every request with a container that runs, and a server with one certificate.
abbrev running : Json
running = obj (field (codes "exists") (bool true) (field (codes "running") (bool true) end))

abbrev created : Response
created = record {
  status_code = 201;
  content = codes "{}";
  body_text = codes "{}";
  parsed = some (obj (field (codes "status") running end));
}

abbrev one_certificate : List Printout
one_certificate = record { chatter = codes "CONNECTED"; body = codes "MII" } ∷ []

abbrev api : Outside
api = record {
  Net = Unit {0};
  send = λ client req n. (some created, n);
  read_text = λ path n. decoded (codes "pem");
  write_text = λ path s n. some n;
  run_openssl = λ cmd n. (
    some (record {
      return_code = pos 0;
      stdout = printed one_certificate (codes "DONE");
      stderr = [];
    }),
    n,
  );
  prompt = λ n. (codes "secret", n);
  settings = λ n. some (codes "token", codes "http://127.0.0.1:8770");
  repr = λ j. [];
}

abbrev fresh : Session api
fresh = record { net = tt; printed = []; exchanged = [] }

abbrev no_digits : ℕ → Option ℕ
no_digits c = none

abbrev with_ssid : Text → CreateOptions
with_ssid ssid = record {
  name = codes "wlan";
  realm = codes "EXAMPLE.LAN";
  workgroup = codes "EXAMPLE";
  server_fqdn = codes "radius.example.lan";
  ldap_server = codes "ldaps://dc";
  ldap_base_dn = codes "DC=example";
  ldap_bind_dn = codes "CN=binduser";
  client_subnet = codes "10.0.0.0/24" ∷ [];
  ssid = ssid ∷ [];
  join_secret = codes "join";
  ldap_bind_secret = codes "bind";
  radius_secret = codes "radius";
  wifi_group = codes "wifi";
  image = none;
  ldap_ca = some (codes "/ca.pem");
  ldap_ca_tofu = false;
}

abbrev staff : CreateOptions
staff = with_ssid (codes "staff:teachers:20")

staff_created : (create no_digits texts twenty staff fresh).0 ≡ ok tt
unfolding create linuxmuster_radius.Cli.Json.get
staff_created = refl

create-IsCreated_example :
    IsCreated no_digits texts twenty staff fresh (create no_digits texts twenty staff fresh).1
create-IsCreated_example = create-IsCreated no_digits texts twenty staff fresh staff_created

staff_ran : (run no_digits twenty texts (Running.create staff) fresh).0 ≡ ok tt
unfolding run create linuxmuster_radius.Cli.Json.get
staff_ran = refl

run-accepted_example :
    all accepted (run no_digits twenty texts (Running.create staff) fresh).1.exchanged ≡ true
run-accepted_example =
    run-accepted no_digits twenty texts (Running.create staff) fresh refl refl staff_ran

-- An SSID option without a group.
abbrev groupless : Running.Command
groupless = Running.create (with_ssid (codes "staff"))

groupless_refused : (run no_digits twenty texts groupless fresh).0 ≡ err (bad_parameter "--ssid")
unfolding run create
groupless_refused = refl

run-bad_parameter_example :
    all is_read (run no_digits twenty texts groupless fresh).1.exchanged ≡ true
run-bad_parameter_example =
    run-bad_parameter no_digits twenty texts groupless fresh "--ssid" refl groupless_refused

-- A container that crash-loops, twice.
abbrev looping : Status
looping =
    present (codes "wlan")
      (record {
        running = false;
        health = none;
        restart_count = 3;
        crash_looping = true;
        exit_code = some (some 1);
      })
      none (some (codes "FATAL"))

check_status-status_json_example :
    (check_status {O = api} (text (codes "wlan")) (status_json looping) fresh).0 ≡ ok false
check_status-status_json_example = check_status-status_json (text (codes "wlan")) looping fresh

abbrev two_looping : List Json
two_looping = status_json looping ∷ status_json looping ∷ []

two_checked : (check_each {O = api} two_looping fresh).0 ≡ ok false
unfolding check_each status_json linuxmuster_radius.Cli.Json.get text_eq
two_checked = refl

check_each-Judged_example :
    Judged false two_looping fresh (check_each {O = api} two_looping fresh).1.printed
check_each-Judged_example = check_each-Judged two_looping fresh false two_checked

plain_parts :
    (contains (codes "CONNECTED") (codes "-----BEGIN CERTIFICATE-----") ≡ false)
    × (contains (codes "MII") (codes "-----END CERTIFICATE-----") ≡ false)
unfolding contains
plain_parts = (refl, refl)

plain_tail : contains (codes "DONE") (codes "-----BEGIN CERTIFICATE-----") ≡ false
unfolding contains
plain_tail = refl

find_all-printed_example :
    find_all 0 (printed one_certificate (codes "DONE")) ≡ block (codes "MII") ∷ []
find_all-printed_example =
    find_all-printed one_certificate (codes "DONE") (plain_parts, tt) plain_tail

abbrev served : Text
served = block (codes "MII")

served_fetched : (tofu_fetch_chain no_digits texts (codes "ldaps://dc") fresh).0 ≡ ok served
unfolding tofu_fetch_chain
served_fetched = refl

tofu_fetch_chain-IsShown_example :
    (parts : UrlParts) × (proc : Completed) × (ldap_url_parts no_digits (codes "ldaps://dc")
      ≡ some parts)
    × (parts.scheme ≡ codes "ldaps")
    × ((api.run_openssl (asking parts) fresh.net).0 ≡ some proc)
    × IsShown texts proc.stdout served
        (tofu_fetch_chain no_digits texts (codes "ldaps://dc") fresh).1.printed
tofu_fetch_chain-IsShown_example =
    tofu_fetch_chain-IsShown no_digits texts (codes "ldaps://dc") fresh served served_fetched

-- ===== src/Cli/Answers.antt =====
-- How the command line reads an answer of the API: `_emit`, `_ldaps_warnings`, `_status_problem` and
-- `_check_status`, and the client that it is sent by.
use linuxmuster_radius.Prelude.{
  ℕ, suc, pos, negsuc, ◌++◌, ◌||◌, ◌&&◌, ◌==◌, not, leb, Bool, true, false, Option, none, some,
  List, [], ◌∷◌, Text, codes, show_nat, if◌then◌else◌,
}
use linuxmuster_radius.Exec.{
  Exec, pure, raise, lift, or_raise, ◌>>=◌, ◌>>◌, other_error, typer_exit,
}
use linuxmuster_radius.Models.Urls.{is_ldaps}
use linuxmuster_radius.Cli.{Client, get_client}
use linuxmuster_radius.Cli.Json.{
  Json, null, bool, num, str, arr, obj, iterate, get, truthy, is_text,
}
use linuxmuster_radius.Cli.Terminal.{
  Part, Line, lit, text, number, value, dumped, Response, Outside, Session, echo, warn,
}

-- `resp.json()`; a body that is no JSON is a `ValueError`.
abbrev pub json : {S : Type 0} → Response → Exec S Json
json resp = or_raise resp.parsed other_error

abbrev is_empty : List ℕ → Bool
is_empty [] = true
is_empty (c ∷ s) = false

-- `a or b`, for what is formatted.
abbrev or_lit : Json → Part → Part
or_lit j p = if truthy j then value j else p

-- `_status_problem`
unfoldable pub status_problem : {S : Type 0} → Json → Exec S (Option Line)
unfolding truthy
status_problem st = do
  exists ← lift (get st (codes "exists") null)
  crash_looping ← lift (get st (codes "crash_looping") null)
  restart_count ← lift (get st (codes "restart_count") (num (pos 0)))
  health ← lift (get st (codes "health") null)
  last_error ← lift (get st (codes "last_error") null)
  running ← lift (get st (codes "running") null)
  exit_code ← lift (get st (codes "exit_code") null)
  pure (
      if not (truthy exists)
      then some (lit "no container" ∷ [])
      else if truthy crash_looping
      then some (
          lit "crash-looping (restarted "
          ∷ value restart_count
          ∷ lit "x, health "
          ∷ value health
          ∷ lit "); last error: "
          ∷ or_lit last_error (lit "-")
          ∷ [])
      else if not (truthy running)
      then some (lit "not running (exit code " ∷ value exit_code ∷ lit ")" ∷ [])
      else if is_text (codes "unhealthy") health
      then some (lit "running but unhealthy (winbind trust or radiusd probe failing)" ∷ [])
      else none)

-- `str(j)`; `repr` is that of an array or an object.
unfoldable pub str_of : (Json → Text) → Json → Text
str_of repr (str s) = s
str_of repr null = codes "None"
str_of repr (bool true) = codes "True"
str_of repr (bool false) = codes "False"
str_of repr (num (pos n)) = show_nat n
str_of repr (num (negsuc n)) = codes "-" ++ show_nat (suc n)
str_of repr (arr xs) = repr (arr xs)
str_of repr (obj fs) = repr (obj fs)

abbrev unverified : Json → Text → Line
unverified name server =
    lit "WARNING: instance '"
    ∷ value name
    ∷ lit "': LDAPS unverified — the certificate of "
    ∷ text server
    ∷ lit
        " is NOT checked (no CA pinned); an on-path attacker between this host and the DC can spoof the group lookup (role gate / VLAN). Fix: lmnradius set-ldap-ca "
    ∷ value name
    ∷ lit
        " --ldap-ca /path/to/cacert.pem (the DC's CA; on a linuxmuster.net server /etc/linuxmuster/ssl/cacert.pem)"
    ∷ []

module _ {O : Outside} where
  -- `with _get_client() as c`
  unfoldable pub client_of : Option (Text × Text) → Exec (Session O) Client
  unfolding get_client
  client_of none = raise other_error
  client_of (some (token, url)) = pure (get_client token url)

  unfoldable pub open_client : Exec (Session O) Client
  unfolding client_of
  open_client s = client_of (O.settings s.net) s

  abbrev pub refuse : Response → Exec (Session O) (Unit {0})
  refuse resp = do
    warn (lit "error " ∷ number resp.status_code ∷ lit ": " ∷ text resp.body_text ∷ [])
    raise (typer_exit 1)

  -- The `try` of `_emit`.
  abbrev pub print_body : Text → Option Json → Exec (Session O) (Unit {0})
  print_body body none = echo (text body ∷ [])
  print_body body (some j) = echo (dumped j ∷ [])

  -- `_emit`
  unfoldable pub emit : Response → Exec (Session O) (Unit {0})
  emit resp =
      if leb 400 resp.status_code
      then refuse resp
      else if resp.status_code == 204 || is_empty resp.content
      then echo (lit "ok" ∷ [])
      else print_body resp.body_text resp.parsed

  -- The loop of `_ldaps_warnings`.
  unfoldable pub warn_each : ℕ → List Json → Exec (Session O) ℕ
  unfolding is_ldaps str_of truthy
  warn_each count [] = pure count
  warn_each count (inst ∷ instances) = do
    ldap_server ← lift (get inst (codes "ldap_server") (str []))
    ldap_ca ← lift (get inst (codes "ldap_ca") null)
    name ← lift (get inst (codes "name") null)
    let server = str_of O.repr ldap_server
    let found = is_ldaps server && not (truthy ldap_ca)
    if found then warn (unverified name server) else pure tt
    warn_each (if found then suc count else count) instances

  -- `_ldaps_warnings`
  unfoldable pub ldaps_warnings : Json → Exec (Session O) ℕ
  unfolding warn_each
  ldaps_warnings listed = do instances ← lift (iterate listed); warn_each 0 instances

  abbrev pub report_problem : Part → Option Line → Exec (Session O) Bool
  report_problem name none = pure true
  report_problem name (some problem) = do
    warn (
        lit "WARNING: instance '"
        ∷ name
        ∷ lit "' is "
        ∷ (problem ++ (lit " — see 'lmnradius logs " ∷ name ∷ lit "'" ∷ [])))
    pure false

  -- `_check_status`; the name is a text, or what the answer has for it.
  unfoldable pub check_status : Part → Json → Exec (Session O) Bool
  unfolding status_problem
  check_status name st = do problem ← status_problem st; report_problem name problem

  -- `if not _check_status(...): raise typer.Exit(1)`
  abbrev pub exit_unless : Bool → Exec (Session O) (Unit {0})
  exit_unless true = pure tt
  exit_unless false = raise (typer_exit 1)

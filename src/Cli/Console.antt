-- ===== src/Cli/Console.antt =====
-- The commands whose answer is printed for people: `test`, `logs`, `ca` and `cert`.
use linuxmuster_radius.Prelude.{
  ℕ, ℤ, ◌++◌, ◌==◌, ◌&&◌, not, any, leb, Bool, false, Option, none, some, List, [], ◌∷◌, Text,
  codes, rstrip_of, if◌then◌else◌,
}
use linuxmuster_radius.Exec.{
  Exec, ok, pure, raise, lift, modify, when, ◌>>=◌, ◌>>◌, typer_exit, other_error,
}
use linuxmuster_radius.Cli.Json
use linuxmuster_radius.Cli.Json.{
  Json, Fields, null, bool, num, str, obj, end, field, iterate, subscript, truthy, is_null,
}
use linuxmuster_radius.Cli.Terminal.{
  Part, Line, lit, text, number, value, dumped, get, post, Request, Response, Outside, Session,
  request, plain, with_body, instance_path, echo, warn,
}
use linuxmuster_radius.Cli.Answers.{open_client, json, refuse}
use linuxmuster_radius.Cli.Commands.{show_answer, given_text}

-- `_mark`
abbrev pub mark : Json → Part
mark passed = if truthy passed then lit "  OK  " else lit " FAIL "

abbrev vlan_text : Json → Json → Line
vlan_text vlan member =
    if truthy member && not (is_null vlan) then lit " -> VLAN " ∷ value vlan ∷ [] else []

-- `_log_params`
abbrev given_number : Text → Option ℕ → List (Text × Part)
given_number k none = []
given_number k (some n) = (k, number n) ∷ []

abbrev given_param : Text → Option Text → List (Text × Part)
given_param k none = []
given_param k (some s) = (k, text s) ∷ []

unfoldable pub log_params : ℕ → Option ℕ → Option ℕ → Option Text → List (Text × Part)
log_params tail since until grep =
    (codes "tail", number tail)
    ∷ (given_number (codes "since") since
        ++ (given_number (codes "until") until ++ given_param (codes "grep") grep))

module _ {O : Outside} where
  -- One row of the preview: whether the user is a member.
  unfoldable pub show_gate : Json → Exec (Session O) Bool
  show_gate g = do
    vlan ← lift (Json.get g (codes "vlan") null)
    member ← lift (subscript g (codes "member"))
    ssid ← lift (subscript g (codes "ssid"))
    group ← lift (subscript g (codes "group"))
    echo (
        lit "["
        ∷ mark member
        ∷ lit "] SSID "
        ∷ value ssid
        ∷ lit "  — member of "
        ∷ value group
        ∷ lit "?"
        ∷ vlan_text vlan member)
    pure (truthy member)

  -- The loop over the rows; the members that it has seen.
  unfoldable pub show_gates : List Json → Exec (Session O) (List Bool)
  unfolding show_gate
  show_gates [] = pure []
  show_gates (g ∷ gs) = do member ← show_gate g; members ← show_gates gs; pure (member ∷ members)

  -- The part of `_render_test` behind the login.
  unfoldable pub render_login : Json → Json → Exec (Session O) (Unit {0})
  unfolding show_gates
  render_login answered login = do
    passed ← lift (subscript login (codes "ok"))
    detail ← lift (subscript login (codes "detail"))
    code ← lift (subscript login (codes "code"))
    echo (
        lit "["
        ∷ mark passed
        ∷ lit "] domain login   — "
        ∷ value detail
        ∷ lit " ("
        ∷ value code
        ∷ lit ")"
        ∷ [])
    gates ← lift (Json.get answered (codes "gates") (Json.arr Json.nil))
    rows ← lift (iterate gates)
    members ← show_gates rows
    when (not (truthy passed)) (raise (typer_exit 1))
    when (truthy gates && not (any (λ m. m) members)) (
        echo (
          lit
            "note: login OK but the user is in NONE of the configured SSID groups — every SSID would reject."
          ∷ []))

  -- `if login is None`
  unfoldable pub render_user : Json → Json → Exec (Session O) (Unit {0})
  unfolding render_login
  render_user answered login =
      if is_null login
      then echo
          (lit "(no user given — trust-only check; add --user <name> to test a domain login)" ∷ [])
      else render_login answered login

  unfoldable pub render_running : Json → Exec (Session O) (Unit {0})
  unfolding render_user
  render_running answered = do
    trust ← lift (Json.get answered (codes "trust") (obj end))
    passed ← lift (Json.get trust (codes "ok") (bool false))
    detail ← lift (Json.get trust (codes "detail") (str []))
    echo (lit "[" ∷ mark passed ∷ lit "] winbind trust  — " ∷ value detail ∷ [])
    login ← lift (Json.get answered (codes "login") null)
    render_user answered login

  abbrev pub no_container : Json → Exec (Session O) (Unit {0})
  no_container answered = do
    detail ← lift (Json.get answered (codes "detail") (str (codes "container not running")))
    warn (value detail ∷ [])
    raise (typer_exit 1)

  -- `_render_test`
  unfoldable pub render_test : Json → Exec (Session O) (Unit {0})
  unfolding render_running truthy
  render_test answered = do
    running ← lift (Json.get answered (codes "container_running") null)
    if truthy running then render_running answered else no_container answered

  -- The answer of `test`, `logs` and `ca export` is looked at only if it is no error.
  unfoldable pub answered_by : Request → Exec (Session O) Response
  unfolding open_client request
  answered_by req = do
    client ← open_client
    resp ← request client req
    when (leb 400 resp.status_code) (refuse resp)
    pure resp

  abbrev pub show_json : Json → Exec (Session O) (Unit {0})
  show_json j = echo (dumped j ∷ [])

  abbrev pub ask : Exec (Session O) Text
  ask s = let (password, net) = O.prompt s.net in (ok password, record s { net = net })

  -- `if not password: password = typer.prompt(...)`
  abbrev pub ask_unless : Option Text → Exec (Session O) Text
  ask_unless (some (c ∷ s)) = pure (c ∷ s)
  ask_unless given = ask

  -- The body of a test: without a user there is no password.
  unfoldable pub test_body : Option Text → Option Text → Exec (Session O) Fields
  test_body none password = pure end
  test_body (some user) password = do
    given ← ask_unless password
    pure (field (codes "user") (str user) (field (codes "password") (str given) end))

  unfoldable pub test : Text → Option Text → Option Text → Bool → Exec (Session O) (Unit {0})
  unfolding test_body answered_by render_test
  test name user password json_out = do
    body ← test_body user password
    resp ← answered_by (with_body post (instance_path name "/test") (obj body))
    answered ← json resp
    if json_out then show_json answered else render_test answered

  -- `.rstrip("\n")` is a method of texts only.
  abbrev pub print_log : Json → Exec (Session O) (Unit {0})
  print_log (str s) = echo (text (rstrip_of (λ c. c == 10) s) ∷ [])
  print_log j = raise other_error

  abbrev pub print_logs : Json → Exec (Session O) (Unit {0})
  print_logs answered = do lines ← lift (Json.get answered (codes "logs") (str [])); print_log lines

  unfoldable pub logs :
      Text → ℕ → Option ℕ → Option ℕ → Option Text → Bool → Exec (Session O) (Unit {0})
  unfolding log_params answered_by rstrip_of
  logs name tail since until grep json_out = do
    resp ← answered_by (record (plain get (instance_path name "/logs")) {
      params = log_params tail since until grep;
    })
    answered ← json resp
    if json_out then show_json answered else print_logs answered

  unfoldable pub ca_init : Text → ℤ → Text → Exec (Session O) (Unit {0})
  unfolding show_answer
  ca_init common_name validity_days passphrase = show_answer (
      with_body post (codes "/v1/ca") (
        obj (
          field (codes "passphrase") (str passphrase) (
            field (codes "common_name") (str common_name)
              (field (codes "validity_days") (num validity_days) end)))))

  unfoldable pub ca_show : Exec (Session O) (Unit {0})
  unfolding show_answer
  ca_show = show_answer (plain get (codes "/v1/ca"))

  -- `write_text` may raise an `OSError`.
  abbrev pub after_write : Text → Option O.Net → Exec (Session O) (Unit {0})
  after_write path none = raise other_error
  after_write path (some net) = do
    modify (λ t. record t { net = net })
    echo (lit "wrote " ∷ text path ∷ [])

  abbrev pub write_out : Text → Text → Exec (Session O) (Unit {0})
  write_out path s t = after_write path (O.write_text path s t.net) t

  abbrev pub print_or_write : Option Text → Text → Exec (Session O) (Unit {0})
  print_or_write none s = echo (text s ∷ [])
  print_or_write (some path) s = write_out path s

  unfoldable pub ca_export : Option Text → Exec (Session O) (Unit {0})
  unfolding answered_by
  ca_export out = do
    resp ← answered_by (plain get (codes "/v1/ca/export"))
    print_or_write out resp.body_text

  unfoldable pub cert_issue : Text → Option Text → ℤ → Text → Exec (Session O) (Unit {0})
  unfolding show_answer
  cert_issue name fqdn validity_days passphrase = show_answer (
      with_body post (instance_path name "/cert") (
        obj (
          field (codes "passphrase") (str passphrase) (
            field (codes "validity_days") (num validity_days)
              (given_text (codes "fqdn") fqdn end)))))

  unfoldable pub cert_show : Text → Exec (Session O) (Unit {0})
  unfolding show_answer
  cert_show name = show_answer (plain get (instance_path name "/cert"))

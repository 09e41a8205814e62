-- ===== src/Cli/Commands.antt =====
-- The commands on instances that only send a request and print the answer, and those that look at
-- what the answer says of the containers.
use linuxmuster_radius.Prelude.{
  ℕ, ℤ, ◌==◌, not, Bool, true, false, Option, none, some, List, [], ◌∷◌, Text, codes, leb, map,
  if◌then◌else◌,
}
use linuxmuster_radius.Exec.{
  Exec, Result, ok, err, pure, raise, lift, or_raise, when, attempt, ◌>>=◌, ◌>>◌, bad_parameter,
  typer_exit, http_error,
}
use linuxmuster_radius.Ca.{Crypto}
use linuxmuster_radius.Cli.{SsidEntry, parse_ssid}
use linuxmuster_radius.Cli.Json
use linuxmuster_radius.Cli.Json.{
  Json, Fields, bool, num, str, arr, obj, nil, end, field, iterate, truthy, to_items,
}
use linuxmuster_radius.Cli.Terminal.{
  lit, text, value, get, post, put, delete, Request, Response, Outside, Session, request, plain,
  with_body, instance_path, warn,
}
use linuxmuster_radius.Cli.Answers.{
  open_client, emit, json, ldaps_warnings, check_status, exit_unless, str_of,
}
use linuxmuster_radius.Cli.Tofu.{resolve_ldap_ca}

-- The options of `create`.
pub record CreateOptions : Type 0 where
  pub name : Text
  pub realm : Text
  pub workgroup : Text
  pub server_fqdn : Text
  pub ldap_server : Text
  pub ldap_base_dn : Text
  pub ldap_bind_dn : Text
  pub client_subnet : List Text
  pub ssid : List Text
  pub join_secret : Text
  pub ldap_bind_secret : Text
  pub radius_secret : Text
  pub wifi_group : Text
  pub image : Option Text
  pub ldap_ca : Option Text
  pub ldap_ca_tofu : Bool

abbrev vlan_field : Option ℤ → Fields
vlan_field none = end
vlan_field (some vlan) = field (codes "vlan") (num vlan) end

abbrev pub entry_json : SsidEntry → Json
entry_json e = obj (
    field (codes "name") (str e.name)
      (field (codes "allowed_group") (str e.allowed_group) (vlan_field e.vlan)))

-- `if value is not None: body[key] = value`, in front of what else is in the body.
abbrev pub given_text : Text → Option Text → Fields → Fields
given_text k none fs = fs
given_text k (some s) fs = field k (str s) fs

-- The body of `create`. The order of its keys means nothing.
unfoldable pub create_body : CreateOptions → List SsidEntry → Option Text → Json
create_body o ssids ldap_ca_pem = obj (
    field (codes "name") (str o.name) (
      field (codes "realm") (str o.realm) (
        field (codes "workgroup") (str o.workgroup) (
          field (codes "server_fqdn") (str o.server_fqdn) (
            field (codes "ldap_server") (str o.ldap_server) (
              field (codes "ldap_base_dn") (str o.ldap_base_dn) (
                field (codes "ldap_bind_dn") (str o.ldap_bind_dn) (
                  field (codes "wifi_group") (str o.wifi_group) (
                    field (codes "client_subnets") (arr (to_items (map str o.client_subnet))) (
                      field (codes "ssids") (arr (to_items (map entry_json ssids))) (
                        field (codes "join_secret") (str o.join_secret) (
                          field (codes "ldap_bind_secret") (str o.ldap_bind_secret) (
                            field (codes "radius_secret") (str o.radius_secret) (
                              given_text (codes "image") o.image
                                (given_text (codes "ldap_ca_pem") ldap_ca_pem end)))))))))))))))

-- `_parse_ssid` of each option.
unfoldable pub parse_ssids : {S : Type 0} → (Text → Option ℤ) → List Text → Exec S (List SsidEntry)
unfolding parse_ssid
parse_ssids to_int [] = pure []
parse_ssids to_int (spec ∷ specs) = do
  entry ← or_raise (parse_ssid to_int spec) (bad_parameter "--ssid")
  entries ← parse_ssids to_int specs
  pure (entry ∷ entries)

-- `_emit` of what one request is answered.
module _ {O : Outside} where
  unfoldable pub show_answer : Request → Exec (Session O) (Unit {0})
  unfolding open_client request emit
  show_answer req = do client ← open_client; resp ← request client req; emit resp

  -- `list_`
  unfoldable pub list : Exec (Session O) (Unit {0})
  unfolding open_client request emit ldaps_warnings
  list = do
    client ← open_client
    resp ← request client (plain get (codes "/v1/instances"))
    emit resp
    listed ← json resp
    ldaps_warnings listed
    pure tt

  unfoldable pub show : Text → Exec (Session O) (Unit {0})
  unfolding show_answer
  show name = show_answer (plain get (instance_path name ""))

  unfoldable pub start : Text → Exec (Session O) (Unit {0})
  unfolding show_answer
  start name = show_answer (plain post (instance_path name "/start"))

  unfoldable pub stop : Text → Exec (Session O) (Unit {0})
  unfolding show_answer
  stop name = show_answer (plain post (instance_path name "/stop"))

  unfoldable pub restart : Text → Exec (Session O) (Unit {0})
  unfolding show_answer
  restart name = show_answer (plain post (instance_path name "/restart"))

  unfoldable pub status : Text → Exec (Session O) (Unit {0})
  unfolding show_answer
  status name = show_answer (plain get (instance_path name "/status"))

  unfoldable pub update : Text → Option Text → Exec (Session O) (Unit {0})
  unfolding show_answer
  update name image =
      show_answer
        (with_body post (instance_path name "/update") (obj (given_text (codes "image") image end)))

  unfoldable pub update_all : Exec (Session O) (Unit {0})
  unfolding show_answer
  update_all = show_answer (plain post (codes "/v1/update-all"))

  unfoldable pub rollback : Text → Exec (Session O) (Unit {0})
  unfolding show_answer
  rollback name = show_answer (plain post (instance_path name "/rollback"))

  -- The end of `create` and `set_ldap_ca`: the container must run.
  unfoldable pub require_running : Text → Response → Exec (Session O) (Unit {0})
  unfolding emit check_status
  require_running name resp = do
    emit resp
    answered ← json resp
    st ← lift (Json.get answered (codes "status") (obj end))
    running ← check_status (text name) st
    exit_unless running

  abbrev pub not_left : Text → Json → Exec (Session O) (Unit {0})
  not_left name detail = do
    warn (
        lit "WARNING: instance '"
        ∷ text name
        ∷ lit "' was removed locally but did NOT leave the domain: "
        ∷ value detail
        ∷ lit
            "\nClean up on the DC: samba-tool computer delete <NAME>$ and remove the DNS A record of the RADIUS FQDN."
        ∷ [])
    raise (typer_exit 1)

  -- `rm`: an instance that is removed but did not leave the domain is an error.
  unfoldable pub rm : Text → Exec (Session O) (Unit {0})
  unfolding open_client request emit truthy
  rm name = do
    client ← open_client
    resp ← request client (plain delete (instance_path name ""))
    emit resp
    answered ← json resp
    leave ← lift (Json.get answered (codes "domain_leave") (obj end))
    left ← lift (Json.get leave (codes "ok") (bool false))
    detail ← lift (Json.get leave (codes "detail") (str (codes "-")))
    when (not (truthy left)) (not_left name detail)

  -- `all(...)` goes on only after a true value.
  abbrev pub if_all : Bool → Exec (Session O) Bool → Exec (Session O) Bool
  if_all true rest = rest
  if_all false rest = pure false

  -- The generator in `all(...)` of `reconcile`, which stops at the first problem.
  unfoldable pub check_each : List Json → Exec (Session O) Bool
  unfolding check_status
  check_each [] = pure true
  check_each (st ∷ sts) = do
    name ← lift (Json.get st (codes "name") (str (codes "?")))
    running ← check_status (value name) st
    let rest = check_each sts
    if_all running rest

  unfoldable pub reconcile : Exec (Session O) (Unit {0})
  unfolding open_client request emit check_each
  reconcile = do
    client ← open_client
    resp ← request client (plain post (codes "/v1/reconcile"))
    emit resp
    answered ← json resp
    reconciled ← lift (Json.get answered (codes "reconciled") (arr nil))
    sts ← lift (iterate reconciled)
    running ← check_each sts
    exit_unless running

  -- The listing that `health` asks for, and what it makes of it.
  unfoldable pub warn_listed : Response → Exec (Session O) (Unit {0})
  unfolding ldaps_warnings
  warn_listed listing =
      when (listing.status_code == 200) (do listed ← json listing; ldaps_warnings listed; pure tt)

  -- `except httpx.HTTPError: return`
  abbrev pub unless_unreachable : Result Response → Exec (Session O) (Unit {0})
  unless_unreachable (ok listing) = warn_listed listing
  unless_unreachable (err http_error) = pure tt
  unless_unreachable (err e) = raise e

  unfoldable pub health : Exec (Session O) (Unit {0})
  unfolding open_client request emit warn_listed
  health = do
    client ← open_client
    resp ← request client (plain get (codes "/v1/health"))
    emit resp
    listing ← attempt (request client (plain get (codes "/v1/instances")))
    unless_unreachable listing

  -- `if current.status_code >= 400: _emit(current)`
  abbrev pub emit_error : Response → Exec (Session O) (Unit {0})
  emit_error resp = if leb 400 resp.status_code then emit resp else pure tt

  module _ (decimal : ℕ → Option ℕ) (C : Crypto) where
    unfoldable pub create : (Text → Option ℤ) → CreateOptions → Exec (Session O) (Unit {0})
    unfolding resolve_ldap_ca parse_ssids create_body open_client request require_running
    create to_int o = do
      ldap_ca_pem ← resolve_ldap_ca decimal C o.ldap_ca o.ldap_ca_tofu o.ldap_server
      ssids ← parse_ssids to_int o.ssid
      client ← open_client
      resp ←
          request client (with_body post (codes "/v1/instances") (create_body o ssids ldap_ca_pem))
      require_running o.name resp

    unfoldable pub set_ldap_ca : Text → Option Text → Bool → Exec (Session O) (Unit {0})
    unfolding resolve_ldap_ca open_client request require_running str_of emit
    set_ldap_ca name ldap_ca ldap_ca_tofu = do
      client ← open_client
      current ← request client (plain get (instance_path name ""))
      emit_error current
      inst ← json current
      server ← lift (Json.get inst (codes "ldap_server") (str []))
      found ← resolve_ldap_ca decimal C ldap_ca ldap_ca_tofu (str_of O.repr server)
      pem ← or_raise found (bad_parameter "give --ldap-ca <file> or --ldap-ca-tofu")
      resp ←
          request client (
            with_body put (instance_path name "/ldap-ca") (obj (field (codes "pem") (str pem) end)))
      require_running name resp

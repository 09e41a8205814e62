-- ===== src/Api/Authority.antt =====
-- The handlers of api.py that create an instance, pin the LDAPS certificates of its domain
-- controller, and run the certificate authority.
use linuxmuster_radius.Prelude.{ℕ, Bool, true, false, ◌&&◌, Option, none, some, List, [], ◌∷◌, Text}
use linuxmuster_radius.Exec.{
  Exec, Result, ok, err, Error, pure, raise_if, lift, gets, ◌>>=◌, ◌>>◌, http, value_error,
  file_exists, file_not_found,
}
use linuxmuster_radius.Dict
use linuxmuster_radius.Dict.{Dict}
use linuxmuster_radius.Models.Types.{Instance, InstanceCreate, CaInitRequest, CertIssueRequest}
use linuxmuster_radius.Models.Fields.{Stdlib}
use linuxmuster_radius.Models.Urls.{is_ldaps}
use linuxmuster_radius.Host.{Host}
use linuxmuster_radius.World.{World}
use linuxmuster_radius.Docker.Config.{Config}
use linuxmuster_radius.Docker.View.{Status}
use linuxmuster_radius.Reconciler
use linuxmuster_radius.Ca.{Crypto, Draw}
use linuxmuster_radius.Ca.Files.{Op, make_dir, change_mode, open_file, write_data}
use linuxmuster_radius.Ca.Authority.{CaView}
use linuxmuster_radius.Ca.Authority
use linuxmuster_radius.Ca.Server.{ServerView, issue_server_cert, cert_status}
use linuxmuster_radius.Ca.LdapCa.{Pinned, write_ldap_ca}
use linuxmuster_radius.Api.{require}

-- The answer of the handlers that apply an instance.
pub record Applied : Type 0 where
  pub instance_now : Instance
  pub status : Option Status
  pub ldap_ca : Option Pinned

-- `inst.model_copy(update={"ldap_ca": pinned["file"]})`
abbrev pub with_ldap_ca : Instance → Text → Instance
with_ldap_ca i file = record i { ldap_ca = some file }

abbrev pub is_null : Option Text → Bool
is_null none = true
is_null (some t) = false

-- The answers to the exceptions of `ca`.
abbrev pub pin_error : Error → Error
pin_error (value_error m) = http 422 m
pin_error e = e

abbrev pub init_error : Error → Error
init_error (file_exists m) = http 409 m
init_error (value_error m) = http 422 m
init_error e = e

abbrev pub export_error : Error → Error
export_error (file_not_found m) = http 404 m
export_error e = e

abbrev pub issue_error : Error → Error
issue_error (file_not_found m) = http 409 "initialise the EAP CA first"
issue_error (value_error m) = http 422 m
issue_error e = e

abbrev pub answer : {A : Type 0} → (Error → Error) → Result A → Result A
answer handler (ok a) = ok a
answer handler (err e) = err (handler e)

abbrev pub or_404 : {A : Type 0} → Option A → Result A
or_404 none = err (http 404 "not found")
or_404 (some a) = ok a

abbrev pub first_text : Option Text → Text → Text
first_text none t = t
first_text (some []) t = t
first_text (some (c ∷ s)) t = c ∷ s

module _ (H : Host) (py : Stdlib) (cfg : Config) (health_timeout poll_interval fuel : ℕ)
    (C : Crypto) where
  -- What a call writes to the files; their modes are not part of this state.
  abbrev pub performed : Dict Text → Op → Dict Text
  performed files (make_dir p) = files
  performed files (change_mode p m) = files
  performed files (open_file p m) = Dict.put files (H.realpath p) []
  performed files (write_data p t) = Dict.put files (H.realpath p) t

  unfoldable pub perform : List Op → World H → World H
  perform [] w = w
  perform (op ∷ ops) w = perform ops (record w { files = performed w.files op })

  abbrev pub read_file : World H → Text → Option Text
  read_file w path = Dict.get w.files (H.realpath path)

  -- An operation of `ca`, with its exceptions turned into answers.
  unfoldable pub on_files : {A : Type 0} → (Error → Error) → Exec (List Op) A → Exec (World H) A
  unfolding perform
  on_files handler m w = let (r, ops) = m [] in (answer handler r, perform ops w)

  -- `_pin_ldap_ca`
  unfoldable pub pin_ldap_ca : Text → Text → Exec (World H) Pinned
  unfolding on_files write_ldap_ca
  pin_ldap_ca name pem = on_files pin_error (write_ldap_ca C cfg.certs_dir name pem)

  -- What is applied, with what was pinned.
  unfoldable pub apply_pinned : Instance → Option Pinned → Exec (World H) Applied
  unfolding Reconciler.apply
  apply_pinned inst pinned = do
    result ← Reconciler.apply H py cfg fuel inst
    pure (record { instance_now = inst; status = result; ldap_ca = pinned })

  abbrev pub pin_and_apply : Instance → Text → Exec (World H) Applied
  pin_and_apply inst pem = do
    pinned ← pin_ldap_ca inst.name pem
    apply_pinned (with_ldap_ca inst pinned.file) (some pinned)

  -- A new instance, by whether a bundle comes with it.
  unfoldable pub create_with : Instance → Option Text → Exec (World H) Applied
  unfolding is_ldaps pin_ldap_ca apply_pinned
  create_with inst none = do
    raise_if (is_ldaps inst.ldap_server && is_null inst.ldap_ca)
        (http 422 "LDAPS certificate verification is mandatory")
    apply_pinned inst none
  create_with inst (some pem) = pin_and_apply inst pem

  -- The body is validated before the handler runs.
  unfoldable pub create_instance : InstanceCreate → Exec (World H) Applied
  unfolding create_with
  create_instance body = create_with body.instance_fields body.ldap_ca_pem

  unfoldable pub set_ldap_ca : Text → Text → Exec (World H) Applied
  unfolding require pin_ldap_ca apply_pinned
  set_ldap_ca name pem = do
    existing ← require H py cfg health_timeout poll_interval fuel name
    pinned ← pin_ldap_ca name pem
    apply_pinned (with_ldap_ca existing pinned.file) (some pinned)

  unfoldable pub init_ca : Draw C → CaInitRequest → Exec (World H) CaView
  unfolding on_files Authority.init_ca
  init_ca draw body w =
      on_files init_error
        (Authority.init_ca C (read_file w) cfg.certs_dir draw body.passphrase body.common_name
          body.validity_days)
        w

  unfoldable pub get_ca : Exec (World H) CaView
  unfolding Authority.ca_status
  get_ca = do
    w ← gets (λ w. w)
    found ← lift (Authority.ca_status C (read_file w) cfg.certs_dir)
    lift (or_404 found)

  unfoldable pub export_ca : Exec (World H) Text
  unfolding Authority.export_ca
  export_ca = do
    w ← gets (λ w. w)
    lift (answer export_error (Authority.export_ca C (read_file w) cfg.certs_dir))

  unfoldable pub issue_cert : Draw C → Text → CertIssueRequest → Exec (World H) ServerView
  unfolding require on_files issue_server_cert
  issue_cert draw name body = do
    inst ← require H py cfg health_timeout poll_interval fuel name
    w ← gets (λ w. w)
    on_files issue_error (
        issue_server_cert C (read_file w) cfg.certs_dir draw name
          (first_text body.fqdn inst.server_fqdn) body.passphrase body.validity_days)

  unfoldable pub get_cert : Text → Exec (World H) ServerView
  unfolding require cert_status
  get_cert name = do
    require H py cfg health_timeout poll_interval fuel name
    w ← gets (λ w. w)
    found ← lift (cert_status C (read_file w) cfg.certs_dir name)
    lift (or_404 found)

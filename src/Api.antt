-- ===== src/Api.antt =====
-- controlplane/lmnradius/api.py and security.py: the handlers of the instances, the token check, and
-- the status code of each error. The routes that write certificates are in Authority.
pub mod Laws
pub mod Authority
pub mod Creating
pub mod Interleaving
use linuxmuster_radius.Prelude.{
  ℕ, ℤ, zero, suc, Bool, true, false, not, ◌&&◌, ◌||◌, leb, ltb, Option, none, some, List, [], ◌∷◌,
  Text, codes, text_eq, length, if◌then◌else◌,
}
use linuxmuster_radius.Exec.{
  Exec, Result, ok, err, Error, pure, raise, raise_if, or_raise, gets, ◌>>=◌, ◌>>◌, catch, http,
  value_error, validation_error, key_error, file_not_found, file_exists, permission_error,
  store_error, not_found, image_not_found, api_error, docker_error, container_error, other_error,
}
use linuxmuster_radius.Regex.{re_match}
use linuxmuster_radius.Models.Patterns.{name_re}
use linuxmuster_radius.Models.Types.{Instance, InstancePatch, default_image}
use linuxmuster_radius.Models.Fields.{Stdlib, is_instance}
use linuxmuster_radius.Host.{Host}
use linuxmuster_radius.World.{World}
use linuxmuster_radius.Store
use linuxmuster_radius.Docker.Config.{Config}
use linuxmuster_radius.Docker.View.{Status}
use linuxmuster_radius.Docker.Inspect
use linuxmuster_radius.Docker.Lifecycle
use linuxmuster_radius.Docker.Removal.{Leave}
use linuxmuster_radius.Reconciler
use linuxmuster_radius.Updater
use linuxmuster_radius.Diagnostics
use linuxmuster_radius.Diagnostics.{Report}
use linuxmuster_radius.Updater.{Outcome, Entry}

-- `verify` of `make_verify_token`: the credentials of the bearer header, if there is one. The two
-- texts are compared by their bytes.
unfoldable pub verify : Text → Option Text → Result (Unit {0})
unfolding text_eq
verify api_token none = err (http 401 "Missing authentication credentials")
verify api_token (some []) = err (http 401 "Missing authentication credentials")
verify api_token (some (c ∷ s)) =
    if text_eq (c ∷ s) api_token then ok tt else err (http 403 "Invalid authentication token")

-- The status code of an error, by the exception handlers; the rest is an internal server error.
unfoldable pub status_code : Error → ℕ
status_code (http code detail) = code
status_code not_found = 503
status_code image_not_found = 503
status_code api_error = 503
status_code docker_error = 503
status_code (container_error out) = 503
status_code (file_not_found m) = 409
status_code permission_error = 409
status_code e = 500

abbrev pub given {ℓ} : {A : Type ℓ} → Option (Option A) → A → A
given (some (some new)) old = new
given sent old = old

abbrev pub is_null {ℓ} : {A : Type ℓ} → Option (Option A) → Bool
is_null (some none) = true
is_null sent = false

-- Whether a field that the instance needs is sent as null.
unfoldable pub has_null : InstancePatch → Bool
has_null p =
    is_null p.realm
    || is_null p.workgroup
    || is_null p.server_fqdn
    || is_null p.ldap_server
    || is_null p.ldap_base_dn
    || is_null p.ldap_bind_dn
    || is_null p.wifi_group
    || is_null p.client_subnets
    || is_null p.ssids
    || is_null p.join_secret
    || is_null p.ldap_bind_secret
    || is_null p.radius_secret
    || is_null p.image

-- The pinned CA may be null.
abbrev pub sent_or {ℓ} : {A : Type ℓ} → Option A → A → A
sent_or none old = old
sent_or (some new) old = new

-- `{**existing, **updates}` where no field that is needed is null: a patch has no name.
unfoldable pub merge : Instance → InstancePatch → Instance
merge i p = record {
  name = i.name;
  realm = given p.realm i.realm;
  workgroup = given p.workgroup i.workgroup;
  server_fqdn = given p.server_fqdn i.server_fqdn;
  ldap_server = given p.ldap_server i.ldap_server;
  ldap_base_dn = given p.ldap_base_dn i.ldap_base_dn;
  ldap_bind_dn = given p.ldap_bind_dn i.ldap_bind_dn;
  wifi_group = given p.wifi_group i.wifi_group;
  client_subnets = given p.client_subnets i.client_subnets;
  ssids = given p.ssids i.ssids;
  join_secret = given p.join_secret i.join_secret;
  ldap_bind_secret = given p.ldap_bind_secret i.ldap_bind_secret;
  radius_secret = given p.radius_secret i.radius_secret;
  image = given p.image i.image;
  ldap_ca = sent_or p.ldap_ca i.ldap_ca;
}

abbrev grep_too_long : Option Text → Bool
grep_too_long none = false
grep_too_long (some g) = ltb 200 (length g)

-- `_check_log_params`
unfoldable pub check_log_params : {S : Type 0} → ℕ → Option Text → Exec S (Unit {0})
check_log_params tail grep = do
  raise_if (not (leb 1 tail && leb tail 10000)) (http 422 "tail must be between 1 and 10000")
  raise_if (grep_too_long grep) (http 422 "grep pattern too long (max 200 chars)")

module _ (H : Host) (py : Stdlib) (cfg : Config) (health_timeout poll_interval fuel : ℕ) where
  -- `_require`
  unfoldable pub require : Text → Exec (World H) Instance
  unfolding Store.get
  require name = do
    raise_if (not (re_match name_re name)) (http 422 "invalid instance name")
    found ← Store.get H py name
    or_raise found (http 404 "instance not found")

  abbrev pub checked : Bool → Instance → Exec (World H) Instance
  checked good merged w = (if good then ok merged else err validation_error, w)

  -- `Instance.model_validate` of the merged fields
  unfoldable pub validate : Instance → InstancePatch → Exec (World H) Instance
  validate i p = checked (not (has_null p) && is_instance py (merge i p)) (merge i p)

  -- The merged instance is applied.
  unfoldable pub apply_merged : Instance → Exec (World H) (Instance × Option Status)
  unfolding Reconciler.apply
  apply_merged merged = do result ← Reconciler.apply H py cfg fuel merged; pure (merged, result)

  unfoldable pub reconcile : Exec (World H) (List (Option Status))
  unfolding Reconciler.reconcile_all
  reconcile = Reconciler.reconcile_all H py cfg fuel

  unfoldable pub update_all : World H → List Entry × World H
  unfolding Updater.update_all
  update_all = Updater.update_all H py cfg health_timeout poll_interval fuel default_image

  unfoldable pub list_instances : Exec (World H) (List Instance)
  unfolding Store.list
  list_instances = gets (Store.list H py)

  unfoldable pub get_instance : Text → Exec (World H) Instance
  unfolding require
  get_instance = require

  -- The patch of the instance that was found.
  unfoldable pub patch_found : Instance → InstancePatch → Exec (World H) (Instance × Option Status)
  unfolding validate apply_merged
  patch_found existing patch = do merged ← validate existing patch; apply_merged merged

  unfoldable pub patch_instance : Text → InstancePatch → Exec (World H) (Instance × Option Status)
  unfolding require patch_found
  patch_instance name patch = do existing ← require name; patch_found existing patch

  unfoldable pub delete_instance : Text → Exec (World H) Leave
  unfolding require Reconciler.remove
  delete_instance name = do require name; Reconciler.remove H py cfg fuel name

  -- The handlers that look the instance up and then do one thing with its name.
  unfoldable pub on_instance : {A : Type 0} → (Text → Exec (World H) A) → Text → Exec (World H) A
  unfolding require
  on_instance act name = do require name; act name

  unfoldable pub start_instance : Text → Exec (World H) Status
  unfolding on_instance Lifecycle.start
  start_instance = on_instance (Lifecycle.start H py cfg)

  unfoldable pub stop_instance : Text → Exec (World H) Status
  unfolding on_instance Lifecycle.stop
  stop_instance = on_instance (Lifecycle.stop H py cfg)

  unfoldable pub restart_instance : Text → Exec (World H) Status
  unfolding on_instance Lifecycle.restart
  restart_instance = on_instance (Lifecycle.restart H py cfg)

  unfoldable pub instance_status : Text → Exec (World H) Status
  unfolding on_instance Inspect.status
  instance_status = on_instance (Inspect.status H)

  unfoldable pub instance_logs : Text → ℕ → Option ℕ → Option ℕ → Option Text → Exec (World H) Text
  unfolding require check_log_params Inspect.logs
  instance_logs name tail since until grep = do
    require name
    check_log_params tail grep
    Inspect.logs H name tail since until grep

  unfoldable pub update_instance : Text → Text → Exec (World H) (Option Outcome)
  unfolding on_instance Updater.update
  update_instance name image =
      on_instance (λ n. Updater.update H py cfg health_timeout poll_interval fuel n image) name

  abbrev as_conflict : Error → Exec (World H) Text
  as_conflict (file_not_found m) = raise (http 409 m)
  as_conflict e = raise e

  unfoldable pub rollback_instance : Text → Exec (World H) Text
  unfolding on_instance Updater.rollback
  rollback_instance =
      on_instance
        (λ n. catch (Updater.rollback H py cfg health_timeout poll_interval fuel n) as_conflict)

  -- `test_instance`; the two functions are `str.lower` and `str.upper`.
  unfoldable pub test_instance :
      (Text → Text) → (Text → Text) → Text → Option Text → Option Text → Exec (World H) Report
  unfolding require Diagnostics.test
  test_instance lower upper name user password = do
    inst ← require name
    Diagnostics.test lower upper H inst user password

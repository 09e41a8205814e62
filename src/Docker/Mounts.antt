-- ===== src/Docker/Mounts.antt =====
-- `_mounts`, `_render_instance` and `_hardening`: what a container is started with. Every source of
-- a mount is resolved and checked here; a problem raises, and nothing outside has changed.
use linuxmuster_radius.Prelude.{
  ◌&&◌, Bool, true, false, not, ◌||◌, ◌==◌, Option, none, some, List, [], ◌∷◌, Text, text_eq,
  rstrip_of, if◌then◌else◌,
}
use linuxmuster_radius.Exec.{
  Exec, Result, pure, raise_if, gets, modify, ◌>>=◌, ◌>>◌, file_not_found,
}
use linuxmuster_radius.Dict
use linuxmuster_radius.Models.Types.{Instance}
use linuxmuster_radius.Host.{Host, Mount}
use linuxmuster_radius.World.{World}
use linuxmuster_radius.Render.{render_clients_conf, render_ssid_policy}
use linuxmuster_radius.Docker.Config.{
  Config, volume_name, ca_file, cert_file, key_file, clients_file, ssid_policy_file, samba_state,
  ldap_ca_mount,
}
use linuxmuster_radius.Docker.Env.{join_secret_path, ldap_bind_secret_path, eap_path}
use linuxmuster_radius.Docker.Paths.{resolve_under, join_path}

-- `volumes[source] = {...}`
unfoldable pub set_mount : Text → Text → Bool → List Mount → List Mount
unfolding text_eq
set_mount source bind writable [] =
    record { source = source; bind = bind; writable = writable } ∷ []
set_mount source bind writable (m ∷ ms) =
    if text_eq m.source source
    then record { source = source; bind = bind; writable = writable } ∷ ms
    else m ∷ set_mount source bind writable ms

module _ (H : Host) (cfg : Config) where
  abbrev lift : {A : Type 0} → Result A → Exec (World H) A
  lift r w = (r, w)

  unfoldable pub resolve : Text → Text → Exec (World H) Text
  resolve root child = lift (resolve_under H.realpath root child)

  abbrev is_some : {A : Type 0} → Option A → Bool
  is_some none = false
  is_some (some a) = true

  -- `os.path.isfile`
  unfoldable pub is_file : Text → Exec (World H) Bool
  is_file path = gets (λ w. is_some (Dict.get w.files path))

  unfoldable pub require_file : Text → Exec (World H) (Unit {0})
  unfolding is_file
  require_file path = do there ← is_file path; raise_if (not there) (file_not_found "file missing")

  -- One file of the EAP material: mounted if it is there, an error only if it is required.
  unfoldable pub eap_mount : Bool → Text → Text → List Mount → Exec (World H) (List Mount)
  unfolding is_file set_mount
  eap_mount require_eap cert_dir file volumes = do
    let path = join_path cert_dir file
    there ← is_file path
    raise_if (not there && require_eap) (file_not_found "EAP cert material missing")
    pure (if there then set_mount path (eap_path file) false volumes else volumes)

  -- The pinned CA of the domain controller, if the instance has one.
  unfoldable pub ldap_ca_volume : Text → Option Text → List Mount → Exec (World H) (List Mount)
  unfolding resolve require_file set_mount
  ldap_ca_volume cert_dir none volumes = pure volumes
  ldap_ca_volume cert_dir (some file) volumes = do
    source ← resolve cert_dir file
    require_file source
    pure (set_mount source ldap_ca_mount false volumes)

  -- `_mounts`
  unfoldable pub mounts : Bool → Instance → Exec (World H) (List Mount)
  unfolding resolve require_file eap_mount ldap_ca_volume
  mounts require_eap inst = do
    join_host ← resolve cfg.secrets_dir inst.join_secret
    ldap_bind_host ← resolve cfg.secrets_dir inst.ldap_bind_secret
    require_file join_host
    require_file ldap_bind_host
    let secrets =
        set_mount ldap_bind_host (ldap_bind_secret_path inst) false
          (set_mount join_host (join_secret_path inst) false [])
    cert_dir ← resolve cfg.certs_dir inst.name
    with_ca ←
        eap_mount require_eap cert_dir ca_file
          (set_mount (volume_name inst.name) samba_state true secrets)
    with_cert ← eap_mount require_eap cert_dir cert_file with_ca
    with_key ← eap_mount require_eap cert_dir key_file with_cert
    ldap_ca_volume cert_dir inst.ldap_ca with_key

  unfoldable pub write_file : Text → Text → World H → World H
  write_file path text w = record w { files = Dict.put w.files path text }

  -- `.rstrip("\r\n")`
  abbrev strip_line_end : Text → Text
  strip_line_end = rstrip_of (λ c. c == 10 || c == 13)

  abbrev or_empty : Option Text → Text
  or_empty none = []
  or_empty (some t) = t

  -- `_render_instance`
  unfoldable pub render_instance : Instance → Exec (World H) Text
  unfolding resolve require_file write_file
  render_instance inst = do
    secret_path ← resolve cfg.secrets_dir inst.radius_secret
    require_file secret_path
    content ← gets (λ w. or_empty (Dict.get w.files secret_path))
    inst_dir ← resolve cfg.render_dir inst.name
    clients ← lift (render_clients_conf inst (strip_line_end content))
    modify (write_file (join_path inst_dir clients_file) clients)
    modify (write_file (join_path inst_dir ssid_policy_file) (render_ssid_policy inst))
    pure inst_dir

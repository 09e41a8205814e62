-- ===== src/Docker/Env.antt =====
-- `env_for`: the environment of the container.
use linuxmuster_radius.Prelude.{Option, none, some, List, [], ◌∷◌, ◌++◌, Text, codes}
use linuxmuster_radius.Exec.{Exec, pure, or_raise, ◌>>=◌, value_error}
use linuxmuster_radius.Models.Types.{Instance}
use linuxmuster_radius.Models.Fields.{Stdlib}
use linuxmuster_radius.Models.Urls.{ldap_url_parts}
use linuxmuster_radius.Host.{Host}
use linuxmuster_radius.World.{World, ask}
use linuxmuster_radius.Docker.HostIp.{detect_host_ip}
use linuxmuster_radius.Docker.Config.{
  Config, secrets_mount, certs_mount, ldap_ca_mount, ca_file, cert_file, key_file,
}

-- `f"{_SECRETS_MOUNT}/{name}"`
abbrev pub under_mount : Text → Text → Text
under_mount mount name = mount ++ (codes "/" ++ name)

abbrev pub join_secret_path : Instance → Text
join_secret_path inst = under_mount secrets_mount inst.join_secret

abbrev pub ldap_bind_secret_path : Instance → Text
ldap_bind_secret_path inst = under_mount secrets_mount inst.ldap_bind_secret

abbrev pub eap_path : Text → Text
eap_path file = under_mount certs_mount file

abbrev ldap_ca_env : Option Text → List (Text × Text)
ldap_ca_env none = []
ldap_ca_env (some file) = (codes "LDAP_CA", ldap_ca_mount) ∷ []

-- `if host_ip: env["HOST_IP"] = host_ip`: an empty address counts as none.
abbrev host_ip_env : Option Text → List (Text × Text)
host_ip_env none = []
host_ip_env (some []) = []
host_ip_env (some (c ∷ s)) = (codes "HOST_IP", c ∷ s) ∷ []

unfoldable pub base_env : Instance → List (Text × Text)
base_env inst =
    (codes "INSTANCE", inst.name)
    ∷ (codes "REALM", inst.realm)
    ∷ (codes "WORKGROUP", inst.workgroup)
    ∷ (codes "SERVER_FQDN", inst.server_fqdn)
    ∷ (codes "LDAP_SERVER", inst.ldap_server)
    ∷ (codes "LDAP_BASE_DN", inst.ldap_base_dn)
    ∷ (codes "LDAP_BIND_DN", inst.ldap_bind_dn)
    ∷ (codes "WIFI_GROUP", inst.wifi_group)
    ∷ (codes "LDAP_BIND_SECRET", ldap_bind_secret_path inst)
    ∷ (codes "JOIN_SECRET", join_secret_path inst)
    ∷ (codes "EAP_CA", eap_path ca_file)
    ∷ (codes "EAP_CERT", eap_path cert_file)
    ∷ (codes "EAP_KEY", eap_path key_file)
    ∷ []

module _ (H : Host) (py : Stdlib) (cfg : Config) where
  -- `detect_host_ip(ldap_url_parts(inst.ldap_server)[1])`
  unfoldable pub detected : Instance → Exec (World H) (Option Text)
  unfolding detect_host_ip
  detected inst = do
    parts ← or_raise (ldap_url_parts py.decimal inst.ldap_server) (value_error "not an ldap(s) URI")
    ask (detect_host_ip H parts.host)

  -- `self.host_ip or detect_host_ip(...)`
  unfoldable pub configured_or :
      Option Text → Exec (World H) (Option Text) → Exec (World H) (Option Text)
  configured_or none m = m
  configured_or (some []) m = m
  configured_or (some (c ∷ s)) m = pure (some (c ∷ s))

  unfoldable pub env_for : Instance → Exec (World H) (List (Text × Text))
  unfolding base_env detected
  env_for inst = do
    host_ip ← configured_or cfg.host_ip (detected inst)
    pure (base_env inst ++ (ldap_ca_env inst.ldap_ca ++ host_ip_env host_ip))

-- ===== src/Docker/Config.antt =====
-- The settings of `DockerService`, its container and volume names, and where it mounts what.
use linuxmuster_radius.Prelude.{ℕ, ℤ, Option, Text, codes, ◌++◌}

pub record Config : Type 0 where
  pub secrets_dir : Text
  pub certs_dir : Text
  pub render_dir : Text
  pub container_bind_ip : Text
  pub log_max_size : Text
  pub log_max_file : ℤ
  pub host_ip : Option Text
  -- In milliseconds, as `Host.monotonic`.
  pub settle_timeout : ℕ

-- `_container_name`, which is also `Instance.container_name`, and `_volume_name`.
unfoldable pub container_name_of : Text → Text
container_name_of name = codes "lmnradius-" ++ name

unfoldable pub volume_name : Text → Text
volume_name name = codes "lmnradius-samba-" ++ name

abbrev pub instance_d_mount : Text
instance_d_mount = codes "/etc/lmnradius/instance.d"

abbrev pub secrets_mount : Text
secrets_mount = codes "/run/secrets"

abbrev pub certs_mount : Text
certs_mount = codes "/run/secrets/eap"

abbrev pub ldap_ca_mount : Text
ldap_ca_mount = codes "/run/secrets/ldap/ca.pem"

abbrev pub samba_state : Text
samba_state = codes "/var/lib/samba"

abbrev pub ca_file : Text
ca_file = codes "ca.pem"

abbrev pub cert_file : Text
cert_file = codes "server.pem"

abbrev pub key_file : Text
key_file = codes "server.key"

abbrev pub clients_file : Text
clients_file = codes "clients.conf"

abbrev pub ssid_policy_file : Text
ssid_policy_file = codes "ssid-policy"

abbrev pub auth_port : ℕ
auth_port = 1812

abbrev pub acct_port : ℕ
acct_port = 1813

-- `_SETTLE_TIMEOUT` and `_SETTLE_POLL`, in milliseconds.
abbrev pub settle_timeout_default : ℕ
settle_timeout_default = 45000

abbrev pub settle_poll : ℕ
settle_poll = 1000

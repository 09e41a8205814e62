-- ===== src/Tests/Sample.antt =====
-- An installation in which every call succeeds and the container is healthy.
use linuxmuster_radius.Prelude.{
  arith, ℕ, ℤ, pos, ◌+◌, ◌-◌, Bool, true, false, ◌&&◌, leb, ◌≡◌, refl, Option, none, some, List, [],
  ◌∷◌, ◌++◌, Text, codes, if◌then◌else◌,
}
use linuxmuster_radius.Exec.{pure, ok, err, api_error}
use linuxmuster_radius.Models.Types.{Instance, Ssid}
use linuxmuster_radius.Models.Network.{Network}
use linuxmuster_radius.Models.Fields.{Stdlib, is_instance}
use linuxmuster_radius.Host.{Host, dict, Attrs}
use linuxmuster_radius.World.{World}
use linuxmuster_radius.Store.Records.{IsConsistent}
use linuxmuster_radius.Dict
use linuxmuster_radius.Docker.Config.{Config}

abbrev ascii_decimal : ℕ → Option ℕ
ascii_decimal c = if leb b'0' c && leb c b'9' then some (c - b'0') else none

-- 10.0.0.0/8
abbrev pub school_network : Network
school_network = record { version = 4; network_address = 167772160; broadcast_address = 184549375 }

abbrev pub sample_py : Stdlib
sample_py = record { decimal = ascii_decimal; ip_network = λ t. some school_network }

abbrev pub teachers : Ssid
teachers = record { name = codes "staff"; allowed_group = codes "teachers"; vlan = some (pos 20) }

abbrev pub old_image : Text
old_image = codes "radius:1"

abbrev pub new_image : Text
new_image = codes "radius:2"

abbrev pub with_name : Text → Text → Instance
with_name name image = record {
  name = name;
  realm = codes "AD";
  workgroup = codes "AD";
  server_fqdn = codes "dc.ad";
  ldap_server = codes "ldaps://dc.ad";
  ldap_base_dn = codes "DC=ad";
  ldap_bind_dn = codes "CN=r,DC=ad";
  wifi_group = codes "wifi";
  client_subnets = codes "10.0.0.0/8" ∷ [];
  ssids = teachers ∷ [];
  join_secret = codes "join";
  ldap_bind_secret = codes "bind";
  radius_secret = codes "radius";
  image = image;
  ldap_ca = none;
}

abbrev pub sample : Instance
sample = with_name (codes "wlan") old_image

abbrev healthy : Attrs
healthy = record {
  health = some (some (codes "healthy"));
  restarting = false;
  running = true;
  exit_code = some 0;
  restart_count = some 0;
}

-- The state is the clock. The dump of a record of the sample is its image.
abbrev pub sample_host : Host
sample_host = record {
  State = ℕ;
  Container = Unit {0};
  git = λ args s. (none, s);
  monotonic = λ s. (s, s);
  sleep = λ t s. s + t;
  safe_dump = λ i. i.image;
  safe_load = λ t. dict (some (with_name (codes "wlan") t));
  realpath = λ p. p;
  source_address = λ p s. (some (codes "10.0.0.2"), s);
  is_loopback = λ t. some false;
  route_table = λ s. (none, s);
  interface_address = λ n s. (none, s);
  get_container = λ n. pure tt;
  remove_container = λ c. pure tt;
  start_container = λ c. pure tt;
  stop_container = λ t c. pure tt;
  restart_container = λ c. pure tt;
  inspect = λ c. pure healthy;
  image_tags = λ c. pure [];
  container_logs = λ c n a b. pure [];
  exec_run = λ c args. pure (pos 0, []);
  pull = λ r t. pure tt;
  run_container = λ a. pure [];
  get_volume = λ n. pure tt;
  remove_volume = λ n. pure tt;
}

-- The first look finds the container healthy, every later one fails.
abbrev pub failing_host : Host
failing_host = record sample_host {
  inspect = λ c s. (if leb 1 s then err api_error else ok healthy, s + 1);
}

abbrev pub sample_config : Config
sample_config = record {
  secrets_dir = codes "/s";
  certs_dir = codes "/c";
  render_dir = codes "/r";
  container_bind_ip = codes "10.0.0.2";
  log_max_size = codes "10m";
  log_max_file = pos 3;
  host_ip = none;
  settle_timeout = 1000;
}

-- The secrets and the certificates are there, and no record yet.
abbrev pub sample_world : World sample_host
sample_world = record {
  instances = [];
  files =
      (codes "/s/join", codes "j")
      ∷ (codes "/s/bind", codes "b")
      ∷ (codes "/s/radius", codes "secret\n")
      ∷ (codes "/c/wlan/ca.pem", codes "c")
      ∷ (codes "/c/wlan/server.pem", codes "p")
      ∷ (codes "/c/wlan/server.key", codes "k")
      ∷ [];
  host = 0;
}

abbrev pub failing_world : World failing_host
failing_world = record { instances = []; files = sample_world.files; host = 0 }

pub sample-valid : is_instance sample_py sample ≡ true
unfolding is_instance linuxmuster_radius.Models.Fields.v_name linuxmuster_radius.Regex.fullmatch
    linuxmuster_radius.Models.Patterns.host_match linuxmuster_radius.Models.Fields.v_ldap_server
    linuxmuster_radius.Models.Fields.v_dn linuxmuster_radius.Models.Fields.v_client_subnets
    linuxmuster_radius.Models.Network.covers_loopback linuxmuster_radius.Models.Fields.v_ssids
    linuxmuster_radius.Models.Fields.v_secret linuxmuster_radius.Prelude.contains
    linuxmuster_radius.Models.Fields.v_image linuxmuster_radius.Models.Fields.v_ldap_ca
sample-valid = refl

pub sample_new-valid : is_instance sample_py (with_name (codes "wlan") new_image) ≡ true
unfolding is_instance linuxmuster_radius.Models.Fields.v_name linuxmuster_radius.Regex.fullmatch
    linuxmuster_radius.Models.Patterns.host_match linuxmuster_radius.Models.Fields.v_ldap_server
    linuxmuster_radius.Models.Fields.v_dn linuxmuster_radius.Models.Fields.v_client_subnets
    linuxmuster_radius.Models.Network.covers_loopback linuxmuster_radius.Models.Fields.v_ssids
    linuxmuster_radius.Models.Fields.v_secret linuxmuster_radius.Prelude.contains
    linuxmuster_radius.Models.Fields.v_image linuxmuster_radius.Models.Fields.v_ldap_ca
sample_new-valid = refl

pub sample-IsConsistent : IsConsistent sample_host sample_py []
unfolding Dict.get
sample-IsConsistent = record { at_file = λ name text e. ground arith }

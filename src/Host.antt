-- ===== src/Host.antt =====
-- What the control plane calls and does not implement: git, the clock, the Docker Engine through
-- docker-py, the YAML library, and the file system's answers about links. Each is a parameter; its
-- state is unknown, and every call may change it.
use linuxmuster_radius.Prelude.{ℕ, ℤ, Bool, Text, List, Option}
use linuxmuster_radius.Exec.{Exec}
use linuxmuster_radius.Models.Types.{Instance}

-- A finished `subprocess.run(..., capture_output=True, text=True)`.
pub record Completed : Type 0 where
  pub returncode : ℕ
  pub stdout : Text
  pub stderr : Text

-- What `yaml.safe_load` of a text gives, as far as the program tells it apart: a `YAMLError`, no
-- mapping, or a mapping. pydantic's coercion of the mapping to the declared types may fail (`none`).
pub data Loaded : Type 0 where
  unreadable not_dict : Loaded
  dict : Option Instance → Loaded

-- A container's inspect data, as far as the program reads it. `restart_count` is what `int(...)`
-- makes of it, `none` where that raises; `status` is `none` where it is no text.
pub record Attrs : Type 0 where
  pub health : Option (Option Text)
  pub restarting : Bool
  pub running : Bool
  pub exit_code : Option ℕ
  pub restart_count : Option ℕ

-- A bind mount or a volume of a container: its source on the host, its target, `ro` or `rw`.
pub record Mount : Type 0 where
  pub source : Text
  pub bind : Text
  pub writable : Bool

-- The arguments of `containers.run`, for the instance and for the one-off run.
pub record RunArgs : Type 0 where
  pub image : Text
  pub name : Option Text
  pub command : List Text
  pub hostname : Text
  pub environment : List (Text × Text)
  pub detach : Bool
  pub auto_remove : Bool
  pub restart_policy : Option Text
  pub volumes : List Mount
  pub udp_ports : List (ℕ × Text × ℕ)
  pub healthcheck : Option (List Text)
  pub read_only : Bool
  pub tmpfs : List Text
  pub cap_drop : List Text
  pub cap_add : List Text
  pub security_opt : List Text
  pub log_options : List (Text × Text)

pub record Host : Type 1 where
  pub State : Type 0
  pub Container : Type 0
  -- `subprocess.run(["git", ...])`; `none` is an `OSError` or a `SubprocessError`.
  pub git : List Text → State → Option Completed × State
  -- `time.monotonic()` in milliseconds, and `time.sleep`.
  pub monotonic : State → ℕ × State
  pub sleep : ℕ → State → State
  -- `yaml.safe_dump` and `yaml.safe_load`.
  pub safe_dump : Instance → Text
  pub safe_load : Text → Loaded
  -- `os.path.realpath`
  pub realpath : Text → Text
  -- What `connect` and `getsockname` of a datagram socket give for a target, `is_loopback` of
  -- `ipaddress.ip_address`, the text of /proc/net/route, and the address that SIOCGIFADDR gives for
  -- an interface; `none` where a call raises an OSError or a ValueError.
  pub source_address : Text → State → Option Text × State
  pub is_loopback : Text → Option Bool
  pub route_table : State → Option Text × State
  pub interface_address : Text → State → Option Text × State
  -- docker-py
  pub get_container : Text → Exec State Container
  pub remove_container : Container → Exec State (Unit {0})
  pub start_container : Container → Exec State (Unit {0})
  pub stop_container : Option ℕ → Container → Exec State (Unit {0})
  pub restart_container : Container → Exec State (Unit {0})
  pub inspect : Container → Exec State Attrs
  pub image_tags : Container → Exec State (List Text)
  pub container_logs : Container → ℕ → Option ℕ → Option ℕ → Exec State Text
  pub exec_run : Container → List Text → Exec State (ℤ × Text)
  pub pull : Text → Option Text → Exec State (Unit {0})
  pub run_container : RunArgs → Exec State Text
  pub get_volume : Text → Exec State (Unit {0})
  pub remove_volume : Text → Exec State (Unit {0})

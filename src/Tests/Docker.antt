-- ===== src/Tests/Docker.antt =====
-- The theorems on the container service, applied to the sample.
use linuxmuster_radius.Prelude.{◌≡◌, ◌≢◌, refl, none, some, codes, arith}
use linuxmuster_radius.Exec.{ok}
use linuxmuster_radius.World.Clock.{Clock}
use linuxmuster_radius.Docker.Inspect.{wait_settled}
use linuxmuster_radius.Docker.HostIp.{rows, default_interface}
use linuxmuster_radius.Docker.Fuel.{wait_settled-ends}
use linuxmuster_radius.Tests.Sample.{sample_host, sample_config, sample_world}

-- The clock of the sample is its state.
pub sample-Clock : Clock sample_host
sample-Clock = record {
  time = λ s. s;
  reading = λ s. refl;
  after_reading = λ s. ground arith;
  after_sleep = λ t s. ground arith;
  after_get = λ n s. ground arith;
  after_inspect = λ c s. ground arith;
  after_tags = λ c s. ground arith;
  after_logs = λ c n a b s. ground arith;
}

wait_settled-ends_example :
    (wait_settled sample_host 2 sample_config (codes "wlan") sample_world).0 ≢ ok none
wait_settled-ends_example =
    wait_settled-ends sample_host sample-Clock sample_config 1 (codes "wlan") sample_world
      (ground arith)

-- A routing table whose second row is the default route.
default_route :
    default_interface
      (rows (codes "Iface Destination\nlo 0000007F 0\neth0 \t00000000 010011AC\nwlan0 00000000\n"))
    ≡ some (codes "eth0")
unfolding rows default_interface
default_route = refl

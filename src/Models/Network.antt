-- ===== src/Models/Network.antt =====
-- The networks of Python's `ipaddress`, and the loopback test of `_v_client_subnets`.
use linuxmuster_radius.Prelude.{
  ℕ, ◌≤◌, ◌≡◌, Bool, true, ◌&&◌, ◌||◌, ◌==◌, leb, arith, if◌then◌else◌,
}

-- An address range of one IP version, by its first and last address.
pub record Network : Type 0 where
  pub version : ℕ
  pub network_address : ℕ
  pub broadcast_address : ℕ

-- `address in network`, where the address has the version `v`.
abbrev pub has_address : ℕ → ℕ → Network → Bool
has_address v a net = v == net.version && (leb net.network_address a && leb a net.broadcast_address)

-- `a.overlaps(b)`
unfoldable pub overlaps : Network → Network → Bool
overlaps a b =
    has_address a.version a.network_address b
    || has_address a.version a.broadcast_address b
    || has_address b.version b.network_address a
    || has_address b.version b.broadcast_address a

-- 127.0.0.0/8 and ::1/128
abbrev pub loopback_v4 : Network
loopback_v4 = record { version = 4; network_address = 2130706432; broadcast_address = 2147483647 }

abbrev pub loopback_v6 : Network
loopback_v6 = record { version = 6; network_address = 1; broadcast_address = 1 }

unfoldable pub covers_loopback : Network → Bool
unfolding overlaps
covers_loopback net = overlaps net (if net.version == 4 then loopback_v4 else loopback_v6)

-- Two ranges that are not empty overlap if an address lies in both.
pub overlaps_of_common :
    (a b : Network) (x : ℕ)
    → a.version ≡ b.version
    → a.network_address ≤ x
    → x ≤ a.broadcast_address
    → b.network_address ≤ x
    → x ≤ b.broadcast_address
    → overlaps a b ≡ true
unfolding overlaps
overlaps_of_common a b x v h1 h2 h3 h4 = ground arith

-- ===== src/Models/Fields.antt =====
-- The field validators of `SSID` and `Instance`. A validator returns its value or raises
-- `ValueError`: here it answers whether it returns.
use linuxmuster_radius.Prelude.{
  ℕ, ℤ, in_range, Text, codes, contains, List, [], ◌∷◌, Option, none, some, Bool, true, false, ◌&&◌,
  ◌||◌, not, all,
}
use linuxmuster_radius.Regex.{re_match}
use linuxmuster_radius.Models.Patterns.{
  name_re, realm_re, workgroup_re, host_match, group_re, dn_re, ldap_uri_re, secret_re, ssid_re,
  image_re,
}
use linuxmuster_radius.Models.Types.{Ssid, Instance}
use linuxmuster_radius.Models.Network.{Network, covers_loopback}

-- What the program uses of Python's Unicode tables and of `ipaddress.ip_network(s, strict=False)`.
pub record Stdlib : Type 0 where
  -- `unicodedata.decimal` of a character.
  pub decimal : ℕ → Option ℕ
  -- `none` is a `ValueError`.
  pub ip_network : Text → Option Network

-- An optional value that has to pass a test only where it is given.
abbrev pub none_or : {A : Type 0} → (A → Bool) → Option A → Bool
none_or p none = true
none_or p (some a) = p a

-- `if not v: raise`
abbrev pub nonempty {ℓ} : {A : Type ℓ} → List A → Bool
nonempty [] = false
nonempty (x ∷ xs) = true

unfoldable pub v_vlan : Option ℤ → Bool
v_vlan = none_or (in_range 1 4094)

unfoldable pub v_ssid : Ssid → Bool
unfolding v_vlan
v_ssid s = re_match ssid_re s.name && re_match group_re s.allowed_group && v_vlan s.vlan

unfoldable pub v_name : Text → Bool
v_name = re_match name_re

unfoldable pub v_secret : Text → Bool
v_secret v = not (contains v (codes "..") || not (re_match secret_re v))

unfoldable pub v_ldap_ca : Option Text → Bool
unfolding v_secret
v_ldap_ca = none_or v_secret

unfoldable pub v_image : Text → Bool
v_image = re_match image_re

unfoldable pub v_dn : Text → Bool
v_dn = re_match dn_re

unfoldable pub v_ssids : List Ssid → Bool
unfolding v_ssid
v_ssids v = nonempty v && all v_ssid v

module _ (py : Stdlib) where
  unfoldable pub v_ldap_server : Text → Bool
  v_ldap_server = re_match (ldap_uri_re py.decimal)

  -- One CIDR: it parses, and its network does not cover loopback.
  unfoldable pub v_cidr : Text → Bool
  v_cidr cidr = elim (py.ip_network cidr) [ none ↦ false | some net ↦ not (covers_loopback net) ]

  unfoldable pub v_client_subnets : List Text → Bool
  unfolding v_cidr
  v_client_subnets v = nonempty v && all v_cidr v

  -- Whether `Instance(**data)` returns: every field validator does.
  unfoldable pub is_instance : Instance → Bool
  is_instance i =
      v_name i.name
      && re_match realm_re i.realm
      && re_match workgroup_re i.workgroup
      && host_match i.server_fqdn
      && v_ldap_server i.ldap_server
      && v_dn i.ldap_base_dn
      && v_dn i.ldap_bind_dn
      && re_match group_re i.wifi_group
      && v_client_subnets i.client_subnets
      && v_ssids i.ssids
      && v_secret i.join_secret
      && v_secret i.ldap_bind_secret
      && v_secret i.radius_secret
      && v_image i.image
      && v_ldap_ca i.ldap_ca

-- ===== src/Models/Types.antt =====
-- The fields of `SSID`, `Instance`, `InstancePatch` and of the request bodies. A record is what
-- pydantic has coerced to the declared types; whether it is valid is said in Fields and Requests.
use linuxmuster_radius.Prelude.{ℤ, Text, codes, List, Option, ◌++◌}

pub record Ssid : Type 0 where
  pub name : Text
  pub allowed_group : Text
  pub vlan : Option ℤ

pub record Instance : Type 0 where
  pub name : Text
  pub realm : Text
  pub workgroup : Text
  pub server_fqdn : Text
  pub ldap_server : Text
  pub ldap_base_dn : Text
  pub ldap_bind_dn : Text
  pub wifi_group : Text
  pub client_subnets : List Text
  pub ssids : List Ssid
  pub join_secret : Text
  pub ldap_bind_secret : Text
  pub radius_secret : Text
  pub image : Text
  pub ldap_ca : Option Text

-- `container_name`
unfoldable pub container_name : Instance → Text
container_name inst = codes "lmnradius-" ++ inst.name

-- `DEFAULT_IMAGE`
abbrev pub default_image : Text
default_image =
    codes
      "ghcr.io/faircomp/linuxmuster-radius@sha256:7385d3a64c3d98afa33577473c6b065f2a6a2ef88fa7ff70117ab6262118a77a"

-- `LDAP_CA_FILE`
abbrev pub ldap_ca_file : Text
ldap_ca_file = codes "ldap-ca.pem"

-- A field of a patch: not sent, sent as null, or sent.
pub record InstancePatch : Type 0 where
  pub realm : Option (Option Text)
  pub workgroup : Option (Option Text)
  pub server_fqdn : Option (Option Text)
  pub ldap_server : Option (Option Text)
  pub ldap_base_dn : Option (Option Text)
  pub ldap_bind_dn : Option (Option Text)
  pub wifi_group : Option (Option Text)
  pub client_subnets : Option (Option (List Text))
  pub ssids : Option (Option (List Ssid))
  pub join_secret : Option (Option Text)
  pub ldap_bind_secret : Option (Option Text)
  pub radius_secret : Option (Option Text)
  pub image : Option (Option Text)
  pub ldap_ca : Option (Option Text)

-- `InstanceCreate` adds the write-only PEM bundle.
pub record InstanceCreate : Type 0 where
  pub instance_fields : Instance
  pub ldap_ca_pem : Option Text

pub record CaInitRequest : Type 0 where
  pub passphrase : Text
  pub common_name : Text
  pub validity_days : ℤ

pub record CertIssueRequest : Type 0 where
  pub passphrase : Text
  pub fqdn : Option Text
  pub validity_days : ℤ

pub record TestRequest : Type 0 where
  pub user : Option Text
  pub password : Option Text

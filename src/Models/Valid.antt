-- ===== src/Models/Valid.antt =====
-- What it means that `Instance(**data)` returned, field by field.
use linuxmuster_radius.Prelude.{◌≡◌, true, arith}
use linuxmuster_radius.Models.Patterns.{host_match}
use linuxmuster_radius.Models.Types.{Instance}
use linuxmuster_radius.Models.Fields.{
  Stdlib, is_instance, v_name, v_ldap_server, v_client_subnets, v_ssids, v_secret, v_image,
  v_ldap_ca,
}

pub record IsValid (py : Stdlib) (i : Instance) : Type 0 where
  pub name : v_name i.name ≡ true
  pub server_fqdn : host_match i.server_fqdn ≡ true
  pub ldap_server : v_ldap_server py i.ldap_server ≡ true
  pub client_subnets : v_client_subnets py i.client_subnets ≡ true
  pub ssids : v_ssids i.ssids ≡ true
  pub join_secret : v_secret i.join_secret ≡ true
  pub ldap_bind_secret : v_secret i.ldap_bind_secret ≡ true
  pub radius_secret : v_secret i.radius_secret ≡ true
  pub image : v_image i.image ≡ true
  pub ldap_ca : v_ldap_ca i.ldap_ca ≡ true

pub is_instance-IsValid : (py : Stdlib) (i : Instance) → is_instance py i ≡ true → IsValid py i
unfolding is_instance
is_instance-IsValid py i h = ground arith

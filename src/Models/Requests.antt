-- ===== src/Models/Requests.antt =====
-- The validators of the request bodies.
use linuxmuster_radius.Prelude.{
  ℕ, in_range, Text, Option, none, some, Bool, false, ◌&&◌, ◌*◌, length, leb,
}
use linuxmuster_radius.Regex.{re_match}
use linuxmuster_radius.Models.Patterns.{host_match, test_user_re}
use linuxmuster_radius.Models.Types.{InstanceCreate, CaInitRequest, CertIssueRequest, TestRequest}
use linuxmuster_radius.Models.Fields.{Stdlib, none_or, nonempty, is_instance}

-- `_PEM_MAX_LEN`
abbrev pub pem_max_len : ℕ
pem_max_len = 64 * 1024

-- `0 < len(v) <= _PEM_MAX_LEN`: the validator of `LdapCaRequest.pem`.
unfoldable pub v_pem : Text → Bool
v_pem v = leb 1 (length v) && leb (length v) pem_max_len

unfoldable pub is_instance_create : Stdlib → InstanceCreate → Bool
unfolding v_pem
is_instance_create py body = is_instance py body.instance_fields && none_or v_pem body.ldap_ca_pem

unfoldable pub is_ca_init : CaInitRequest → Bool
is_ca_init body = nonempty body.passphrase && in_range 1 7305 body.validity_days

unfoldable pub is_cert_issue : CertIssueRequest → Bool
is_cert_issue body =
    nonempty body.passphrase && none_or host_match body.fqdn && in_range 1 3653 body.validity_days

-- `not self.password` also holds of an empty password.
abbrev pub password_given : Option Text → Bool
password_given none = false
password_given (some p) = nonempty p

-- `_v_user`, and the model validator behind it.
unfoldable pub is_test_request : TestRequest → Bool
is_test_request body =
    none_or (re_match test_user_re) body.user
    && none_or (λ _. password_given body.password) body.user

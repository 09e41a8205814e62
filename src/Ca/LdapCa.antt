-- ===== src/Ca/LdapCa.antt =====
-- `describe_pem_bundle` and `write_ldap_ca`: the certificates that the LDAPS link is checked against.
use linuxmuster_radius.Prelude.{ℕ, Bool, false, not, any, map, Option, none, some, List, ◌∷◌, Text}
use linuxmuster_radius.Exec.{Exec, raise, raise_if, lift, pure, ◌>>=◌, ◌>>◌, value_error}
use linuxmuster_radius.Models.Types.{ldap_ca_file}
use linuxmuster_radius.Store.Files.{safe_name}
use linuxmuster_radius.Docker.Paths.{join_path}
use linuxmuster_radius.Ca.{Crypto}
use linuxmuster_radius.Ca.Files.{Op, make_dir, change_mode, write_file, private_dir, private_file}
use linuxmuster_radius.Ca.Authority.{emit}
use linuxmuster_radius.Ca.Server.{instance_dir, instance_file}

pub record Described : Type 0 where
  pub subject : Text
  pub issuer : Text
  pub not_after : ℕ
  pub sha256_fingerprint : Text
  pub is_ca : Bool
  pub trust_anchor : Bool

pub record Pinned : Type 0 where
  pub file : Text
  pub certificates : List Described
  pub trust_anchor : Bool

abbrev or_false : Option Bool → Bool
or_false none = false
or_false (some b) = b

-- The calls of `write_ldap_ca` that write.
unfoldable pub ldap_ca_ops : Text → Text → Text → List Op
unfolding join_path
ldap_ca_ops certs_dir name pem =
    make_dir (instance_dir certs_dir name)
    ∷ change_mode (instance_dir certs_dir name) private_dir
    ∷ write_file (instance_file certs_dir name ldap_ca_file) pem private_file

module _ (C : Crypto) where
  unfoldable pub describe_one : C.Certificate → Described
  describe_one cert = record {
    subject = C.rfc4514 (C.subject cert);
    issuer = C.rfc4514 (C.issuer cert);
    not_after = C.not_valid_after cert;
    sha256_fingerprint = C.sha256_fingerprint cert;
    is_ca = or_false (C.is_ca cert);
    trust_anchor = C.same_name (C.subject cert) (C.issuer cert);
  }

  abbrev pub describe_all : {S : Type 0} → Option (List C.Certificate) → Exec S (List Described)
  describe_all none = raise (value_error "no PEM certificate found")
  describe_all (some certs) = pure (map (describe_one) certs)

  unfoldable pub describe_pem_bundle : {S : Type 0} → Text → Exec S (List Described)
  unfolding describe_one
  describe_pem_bundle pem = describe_all (C.load_certificates pem)

  -- The bundle's certificates: all that may raise, before the first call that writes.
  unfoldable pub checked_bundle : Text → Text → Exec (Unit {0}) (List Described)
  unfolding safe_name describe_pem_bundle
  checked_bundle name pem = do
    raise_if (not (safe_name name)) (value_error "unsafe instance name")
    describe_pem_bundle pem

  unfoldable pub write_bundle : Text → Text → Text → List Described → Exec (List Op) Pinned
  unfolding ldap_ca_ops
  write_bundle certs_dir name pem certs = do
    emit (ldap_ca_ops certs_dir name pem)
    pure (record {
      file = ldap_ca_file;
      certificates = certs;
      trust_anchor = any (λ c. c.trust_anchor) certs;
    })

  unfoldable pub write_ldap_ca : Text → Text → Text → Exec (List Op) Pinned
  unfolding checked_bundle write_bundle
  write_ldap_ca certs_dir name pem = do
    certs ← lift (checked_bundle name pem tt).0
    write_bundle certs_dir name pem certs

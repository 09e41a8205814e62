-- ===== src/Ca.antt =====
-- controlplane/lmnradius/ca.py: the certificate authority for EAP, without the network and Docker.
-- Here are the certificates that it signs; the children are its operations and what they write.
pub mod Files
pub mod Paths
pub mod Authority
pub mod Server
pub mod LdapCa
pub mod Interrupted
pub mod Effects
pub mod Results
pub mod Issued
use linuxmuster_radius.Prelude.{
  ℕ, ℤ, pos, negsuc, suc, zero, ◌+◌, ◌*◌, ◌-◌, Bool, true, false, ltb, Option, none, some, List, [],
  ◌∷◌, Text, codes,
}
use linuxmuster_radius.Exec.{Exec, raise, pure, value_error, other_error}

abbrev pub ca_dirname : Text
ca_dirname = codes "ca"

abbrev pub ca_key_name : Text
ca_key_name = codes "ca.key.pem"

abbrev pub ca_cert_name : Text
ca_cert_name = codes "ca.cert.pem"

abbrev pub ca_file : Text
ca_file = codes "ca.pem"

abbrev pub cert_file : Text
cert_file = codes "server.pem"

abbrev pub key_file : Text
key_file = codes "server.key"

-- `_BACKDATE`, in seconds.
abbrev pub backdate : ℕ
backdate = 300

abbrev pub public_exponent : ℕ
public_exponent = 65537

abbrev pub ca_key_bits : ℕ
ca_key_bits = 4096

abbrev pub server_key_bits : ℕ
server_key_bits = 2048

-- The key usages that are set; the others are not.
pub data Usage : Type 0 where
  digital_signature key_encipherment key_cert_sign crl_sign : Usage

pub data Extension (Public : Type 0) : Type 0 where
  basic_constraints : Bool → Option ℕ → Extension Public
  key_usage : List Usage → Extension Public
  subject_alternative_name : Text → Extension Public
  extended_key_usage : List Text → Extension Public
  authority_key_identifier subject_key_identifier : Public → Extension Public

-- What a `CertificateBuilder` holds when it signs: each extension with its criticality.
pub record Template (Name Public : Type 0) : Type 0 where
  pub subject : Name
  pub issuer : Name
  pub public_key : Public
  pub serial : ℕ
  pub not_before : ℕ
  pub not_after : ℕ
  pub extensions : List (Extension Public × Bool)

-- What `load_pem_private_key` gives: a `ValueError` or `TypeError`, or a key of some kind.
pub data Loaded (Key : Type 0) : Type 0 where
  undecryptable other_key : Loaded Key
  rsa_key : Key → Loaded Key

-- The package cryptography. Instants are seconds since the year 1; `none` is a `ValueError`.
pub record Crypto : Type 1 where
  pub Name : Type 0
  pub Key : Type 0
  pub Public : Type 0
  pub Certificate : Type 0
  pub common_name : Text → Option Name
  pub public_key : Key → Public
  pub sign : Template Name Public → Key → Certificate
  pub encrypted_pem : Text → Key → Text
  pub plain_pem : Key → Text
  pub certificate_pem : Certificate → Text
  pub load_certificate : Text → Option Certificate
  pub load_certificates : Text → Option (List Certificate)
  pub load_key : Text → Text → Loaded Key
  pub subject : Certificate → Name
  pub issuer : Certificate → Name
  pub same_name : Name → Name → Bool
  pub rfc4514 : Name → Text
  pub serial_number : Certificate → ℕ
  pub not_valid_before : Certificate → ℕ
  pub not_valid_after : Certificate → ℕ
  pub sha256_fingerprint : Certificate → Text
  -- The extensions that are read, where the certificate has them.
  pub dns_names : Certificate → Option (List Text)
  pub is_ca : Certificate → Option Bool

-- What one call draws: `rsa.generate_private_key` by its exponent and size, the random serial
-- number, and the time.
pub record Draw (C : Crypto) : Type 0 where
  pub key : ℕ → ℕ → C.Key
  pub serial : ℕ
  pub now : ℕ

-- `validity_days < 1` is refused.
unfoldable pub positive : {S : Type 0} → ℤ → Exec S ℕ
positive (pos zero) = raise (value_error "validity_days must be positive")
positive (pos (suc n)) = pure (suc n)
positive (negsuc n) = raise (value_error "validity_days must be positive")

-- The end of the year 9999, after which a date raises an OverflowError.
abbrev pub last_instant : ℕ
last_instant = 315537897600

-- `now + timedelta(days=days)`
unfoldable pub after_days : {S : Type 0} → ℕ → ℕ → Exec S ℕ
after_days now days s =
    let t = now + days * 86400 in
    elim (ltb t last_instant) [ true ↦ pure t s | false ↦ raise other_error s ]

module _ (C : Crypto) (draw : Draw C) where
  -- The certificate of the authority: it may sign certificates, but no further authority.
  unfoldable pub ca_template : C.Name → C.Public → ℕ → Template C.Name C.Public
  ca_template name public not_after = record {
    subject = name;
    issuer = name;
    public_key = public;
    serial = draw.serial;
    not_before = draw.now - backdate;
    not_after = not_after;
    extensions =
        (basic_constraints true (some 0), true)
        ∷ (key_usage (key_cert_sign ∷ crl_sign ∷ []), true)
        ∷ (subject_key_identifier public, false)
        ∷ [];
  }

  -- The certificate of an instance's server, by the key that signs it.
  unfoldable pub server_template :
      C.Name → C.Name → Text → C.Public → C.Public → ℕ → Template C.Name C.Public
  server_template name issuer fqdn public ca_public not_after = record {
    subject = name;
    issuer = issuer;
    public_key = public;
    serial = draw.serial;
    not_before = draw.now - backdate;
    not_after = not_after;
    extensions =
        (subject_alternative_name fqdn, false)
        ∷ (basic_constraints false none, true)
        ∷ (key_usage (digital_signature ∷ key_encipherment ∷ []), true)
        ∷ (extended_key_usage (codes "1.3.6.1.5.5.7.3.1" ∷ codes "1.3.6.1.5.5.7.3.14" ∷ []), false)
        ∷ (authority_key_identifier ca_public, false)
        ∷ (subject_key_identifier public, false)
        ∷ [];
  }

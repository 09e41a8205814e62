-- ===== src/Ca/Server.antt =====
-- `issue_server_cert` and `cert_status`.
use linuxmuster_radius.Prelude.{
  ℕ, ℤ, not, Option, none, some, List, [], ◌∷◌, ◌++◌, Text, if◌then◌else◌,
}
use linuxmuster_radius.Exec.{
  Exec, Result, err, raise, raise_if, lift, or_raise, pure, ◌>>=◌, ◌>>◌, value_error,
  file_not_found,
}
use linuxmuster_radius.Models.Fields.{nonempty}
use linuxmuster_radius.Models.Patterns.{host_match}
use linuxmuster_radius.Store.Files.{safe_name}
use linuxmuster_radius.Docker.Paths.{join_path}
use linuxmuster_radius.Ca.{
  Crypto, Draw, Loaded, undecryptable, other_key, rsa_key, ca_file, cert_file, key_file,
  server_key_bits, public_exponent, positive, after_days, server_template,
}
use linuxmuster_radius.Ca.Files.{
  Op, make_dir, change_mode, write_file, private_dir, private_file, public_file,
}
use linuxmuster_radius.Ca.Authority.{ca_cert_path, ca_key_path, emit, described}

-- `_describe_server`
pub record ServerView : Type 0 where
  pub subject : Text
  pub san : List Text
  pub issuer : Text
  pub serial : ℕ
  pub not_before : ℕ
  pub not_after : ℕ

abbrev names_or_none : Option (List Text) → List Text
names_or_none none = []
names_or_none (some names) = names

abbrev pub describe_server : (C : Crypto) → C.Certificate → ServerView
describe_server C cert = record {
  subject = C.rfc4514 (C.subject cert);
  san = names_or_none (C.dns_names cert);
  issuer = C.rfc4514 (C.issuer cert);
  serial = C.serial_number cert;
  not_before = C.not_valid_before cert;
  not_after = C.not_valid_after cert;
}

abbrev pub instance_dir : Text → Text → Text
instance_dir certs_dir name = join_path certs_dir name

abbrev pub instance_file : Text → Text → Text → Text
instance_file certs_dir name file = join_path (instance_dir certs_dir name) file

-- The three files of an instance: its key, its certificate and a copy of the authority's.
abbrev pub server_files : Text → Text → Text → Text → Text → List Op
server_files certs_dir name key_bytes cert_bytes ca_pem =
    write_file (instance_file certs_dir name key_file) key_bytes private_file
    ++ write_file (instance_file certs_dir name cert_file) cert_bytes public_file
    ++ write_file (instance_file certs_dir name ca_file) ca_pem public_file

-- The calls of `issue_server_cert` that write.
unfoldable pub server_ops : Text → Text → Text → Text → Text → List Op
unfolding join_path
server_ops certs_dir name key_bytes cert_bytes ca_pem =
    make_dir (instance_dir certs_dir name)
    ∷ change_mode (instance_dir certs_dir name) private_dir
    ∷ server_files certs_dir name key_bytes cert_bytes ca_pem

abbrev pub both_there : Option Text → Option Text → Option (Text × Text)
both_there (some cert) (some key) = some (cert, key)
both_there (some cert) none = none
both_there none key = none

module _ {S : Type 0} (C : Crypto) where
  abbrev pub unlocked : Loaded C.Key → Exec S C.Key
  unlocked undecryptable = raise (value_error "invalid CA passphrase")
  unlocked other_key = raise (value_error "CA key is not an RSA key")
  unlocked (rsa_key key) = pure key

module _ (C : Crypto) (read : Text → Option Text) (certs_dir : Text) where
  -- The certificate, its key and the authority's certificate: all that may raise, before the first
  -- call that writes.
  unfoldable pub signed_server :
      Draw C → Text → Text → Text → ℤ → Exec (Unit {0}) (C.Certificate × C.Key × Text)
  unfolding safe_name host_match positive after_days server_template join_path
  signed_server draw name fqdn passphrase validity_days = do
    raise_if (not (safe_name name)) (value_error "unsafe instance name")
    raise_if (not (host_match fqdn)) (value_error "invalid fqdn")
    raise_if (not (nonempty passphrase)) (value_error "passphrase must not be empty")
    days ← positive validity_days
    files ←
        or_raise (both_there (read (ca_cert_path certs_dir)) (read (ca_key_path certs_dir)))
          (file_not_found "EAP CA not initialised")
    ca_cert ← or_raise (C.load_certificate files.0) (value_error "no certificate")
    ca_key ← unlocked C (C.load_key files.1 passphrase)
    let key = draw.key public_exponent server_key_bits
    subject ← or_raise (C.common_name fqdn) (value_error "bad common name")
    not_after ← after_days draw.now days
    let template =
        server_template C draw subject (C.subject ca_cert) fqdn (C.public_key key)
          (C.public_key ca_key) not_after
    pure (C.sign template ca_key, key, files.0)

  unfoldable pub write_server : Text → C.Certificate × C.Key × Text → Exec (List Op) ServerView
  unfolding server_ops
  write_server name (cert, key, ca_pem) = do
    emit (server_ops certs_dir name (C.plain_pem key) (C.certificate_pem cert) ca_pem)
    pure (describe_server C cert)

  unfoldable pub issue_server_cert : Draw C → Text → Text → Text → ℤ → Exec (List Op) ServerView
  unfolding signed_server write_server
  issue_server_cert draw name fqdn passphrase validity_days = do
    signed ← lift (signed_server draw name fqdn passphrase validity_days tt).0
    write_server name signed

  unfoldable pub cert_status : Text → Result (Option ServerView)
  unfolding safe_name described join_path
  cert_status name =
      if safe_name name
      then described C read certs_dir (describe_server C)
          (read (instance_file certs_dir name cert_file))
      else err (value_error "unsafe instance name")

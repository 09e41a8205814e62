-- ===== src/Ca/Authority.antt =====
-- `init_ca`, `ca_status` and `export_ca`.
use linuxmuster_radius.Prelude.{
  ℕ, ℤ, Bool, true, false, not, Option, none, some, List, ◌∷◌, ◌++◌, Text,
}
use linuxmuster_radius.Exec.{
  Exec, Result, ok, err, raise_if, lift, or_raise, pure, modify, ◌>>=◌, ◌>>◌, value_error,
  file_exists, file_not_found,
}
use linuxmuster_radius.Models.Fields.{nonempty}
use linuxmuster_radius.Docker.Paths.{join_path}
use linuxmuster_radius.Ca.{
  Crypto, Draw, ca_dirname, ca_key_name, ca_cert_name, ca_key_bits, public_exponent, positive,
  after_days, ca_template,
}
use linuxmuster_radius.Ca.Files.{
  Op, make_dir, change_mode, write_file, private_dir, private_file, public_file,
}

-- `_describe_ca`; serial numbers and instants are kept as numbers.
pub record CaView : Type 0 where
  pub subject : Text
  pub serial : ℕ
  pub not_before : ℕ
  pub not_after : ℕ
  pub sha256_fingerprint : Text

abbrev pub describe_ca : (C : Crypto) → C.Certificate → CaView
describe_ca C cert = record {
  subject = C.rfc4514 (C.subject cert);
  serial = C.serial_number cert;
  not_before = C.not_valid_before cert;
  not_after = C.not_valid_after cert;
  sha256_fingerprint = C.sha256_fingerprint cert;
}

abbrev pub ca_dir : Text → Text
ca_dir certs_dir = join_path certs_dir ca_dirname

abbrev pub ca_cert_path : Text → Text
ca_cert_path certs_dir = join_path (ca_dir certs_dir) ca_cert_name

abbrev pub ca_key_path : Text → Text
ca_key_path certs_dir = join_path (ca_dir certs_dir) ca_key_name

abbrev pub is_there : Option Text → Bool
is_there none = false
is_there (some t) = true

-- The calls that write come after all that may raise; they are the state.
abbrev pub emit : List Op → Exec (List Op) (Unit {0})
emit ops = modify (λ before. before ++ ops)

-- The calls of `init_ca` that write.
unfoldable pub ca_ops : Text → Text → Text → List Op
unfolding join_path
ca_ops certs_dir key_bytes cert_bytes =
    make_dir (ca_dir certs_dir)
    ∷ change_mode (ca_dir certs_dir) private_dir
    ∷ (write_file (ca_key_path certs_dir) key_bytes private_file
        ++ write_file (ca_cert_path certs_dir) cert_bytes public_file)

-- `read` is the content of a file, where it exists.
module _ (C : Crypto) (read : Text → Option Text) (certs_dir : Text) where
  -- The certificate with its key: all that may raise, before the first call that writes.
  unfoldable pub signed_ca : Draw C → Text → Text → ℤ → Exec (Unit {0}) (C.Certificate × C.Key)
  unfolding join_path positive after_days ca_template
  signed_ca draw passphrase common_name validity_days = do
    raise_if (not (nonempty passphrase)) (value_error "passphrase must not be empty")
    raise_if (not (nonempty common_name)) (value_error "common_name must not be empty")
    days ← positive validity_days
    raise_if (is_there (read (ca_cert_path certs_dir))) (file_exists "EAP CA already initialised")
    let key = draw.key public_exponent ca_key_bits
    name ← or_raise (C.common_name common_name) (value_error "bad common name")
    not_after ← after_days draw.now days
    pure (C.sign (ca_template C draw name (C.public_key key) not_after) key, key)

  -- The authority's certificate and key are written.
  unfoldable pub write_ca : Text → C.Certificate × C.Key → Exec (List Op) CaView
  unfolding ca_ops
  write_ca passphrase (cert, key) = do
    emit (ca_ops certs_dir (C.encrypted_pem passphrase key) (C.certificate_pem cert))
    pure (describe_ca C cert)

  unfoldable pub init_ca : Draw C → Text → Text → ℤ → Exec (List Op) CaView
  unfolding signed_ca write_ca
  init_ca draw passphrase common_name validity_days = do
    signed ← lift (signed_ca draw passphrase common_name validity_days tt).0
    write_ca passphrase signed

  -- A file that is no certificate raises a ValueError.
  unfoldable pub described : {A : Type 0} → (C.Certificate → A) → Option Text → Result (Option A)
  described view none = ok none
  described view (some pem) = elim (C.load_certificate pem) [
    | none ↦ err (value_error "no certificate")
    | some cert ↦ ok (some (view cert))
  ]

  unfoldable pub ca_status : Result (Option CaView)
  unfolding described join_path
  ca_status = described (describe_ca C) (read (ca_cert_path certs_dir))

  unfoldable pub export_ca : Result Text
  unfolding join_path
  export_ca = elim (read (ca_cert_path certs_dir)) [
    | none ↦ err (file_not_found "EAP CA not initialised")
    | some pem ↦ ok pem
  ]

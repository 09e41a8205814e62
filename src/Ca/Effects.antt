-- ===== src/Ca/Effects.antt =====
-- What the authority's operations leave behind, from the state of the directory before.
use linuxmuster_radius.Prelude.{ℕ, ℤ, ◌≡◌, ◌⊎◌, inl, inr, refl, Option, none, some, [], Text}
use linuxmuster_radius.Dict
use linuxmuster_radius.Exec.Chains.{lifted}
use linuxmuster_radius.Ca.{Crypto, Draw, key_file}
use linuxmuster_radius.Ca.Files.{Node, Disk, file, Through, private_dir, private_file}
use linuxmuster_radius.Ca.Authority.{init_ca, write_ca, ca_key_path, ca_cert_path}
use linuxmuster_radius.Ca.Server.{issue_server_cert, write_server, instance_dir, instance_file}
use linuxmuster_radius.Ca.Interrupted.{ca_ops-Through, server_ops-Through, mode_of}

abbrev pub content_in : Option Node → Option Text
content_in none = none
content_in (some n) = n.content

-- The content of a file, where it exists.
abbrev pub content_of : Disk → Text → Option Text
content_of e p = content_in (Dict.get e p)

-- The key file of the authority is complete.
abbrev pub HasKey : (C : Crypto) → Text → Text → Disk → Type 0
HasKey C certs_dir passphrase e =
    (key : C.Key) × (Dict.get e (ca_key_path certs_dir)
      ≡ some (file private_file (C.encrypted_pem passphrase key)))

module _ (C : Crypto) (dir_mode : ℕ) (certs_dir : Text) (draw : Draw C) (d : Disk) where
  -- The certificate is there only with a complete key.
  abbrev pub KeyFirst : Text → Disk → Type 0
  KeyFirst passphrase e =
      (Dict.get e (ca_cert_path certs_dir) ≡ none) ⊎ HasKey C certs_dir passphrase e

  -- While init_ca writes to a directory without a certificate of the authority, and also where it
  -- is interrupted or raises, there is no certificate yet or the encrypted key is complete and
  -- readable by its owner only.
  pub init_ca-Through :
      (passphrase common_name : Text) (days : ℤ)
      → Dict.get d (ca_cert_path certs_dir) ≡ none
      → Through dir_mode
          (KeyFirst passphrase)
          (init_ca C (content_of d) certs_dir draw passphrase common_name days []).1
          d
  unfolding init_ca write_ca Through
  init_ca-Through passphrase common_name days fresh =
      lifted (λ ops. Through dir_mode (KeyFirst passphrase) ops d) _
        (write_ca C (content_of d) certs_dir passphrase) [] (inl fresh)
        (λ signed returned.
          ca_ops-Through dir_mode certs_dir (C.encrypted_pem passphrase signed.1)
            (C.certificate_pem signed.0) d fresh (KeyFirst passphrase) (λ e h. inl h)
            (λ e h. inr (signed.1, h)))

  -- The server's key is as it was before, or its directory is private.
  abbrev pub KeyPrivate : Text → Disk → Type 0
  KeyPrivate name e =
      (Dict.get e (instance_file certs_dir name key_file)
        ≡ Dict.get d (instance_file certs_dir name key_file))
      ⊎ (mode_of dir_mode (Dict.get e (instance_dir certs_dir name)) ≡ some private_dir)

  -- While issue_server_cert writes, and also where it is interrupted or raises, the instance's key
  -- file is as it was before or its directory is readable by its owner only.
  pub issue-Through :
      (name fqdn passphrase : Text) (days : ℤ)
      → Through dir_mode
          (KeyPrivate name)
          (issue_server_cert C (content_of d) certs_dir draw name fqdn passphrase days []).1
          d
  unfolding issue_server_cert write_server Through
  issue-Through name fqdn passphrase days =
      lifted (λ ops. Through dir_mode (KeyPrivate name) ops d) _
        (write_server C (content_of d) certs_dir name) [] (inl refl)
        (λ signed returned. server_ops-Through dir_mode certs_dir name _ _ signed.2 d)

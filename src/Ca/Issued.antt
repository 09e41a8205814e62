-- ===== src/Ca/Issued.antt =====
-- What `issue_server_cert` and `write_ldap_ca` leave behind where they return.
use linuxmuster_radius.Prelude.{
  ℕ, ℤ, ◌≡◌, inl, inr, refl, sym, ap, subst, ◌∙◌, true, false, ◌||◌, any, map, Option, some, List,
  [], ◌∷◌, ◌++◌, Text, arith, Bool-cases, Option-cases, text_eq,
}
use linuxmuster_radius.Dict
use linuxmuster_radius.Exec.{ok, lift}
use linuxmuster_radius.Exec.Chains.{bind-ok, bind_lem, ok_injective}
use linuxmuster_radius.Store.Files.{safe_name}
use linuxmuster_radius.Models.Types.{ldap_ca_file}
use linuxmuster_radius.Ca.{Crypto, Draw, cert_file, ca_file, key_file}
use linuxmuster_radius.Ca.Paths.{join_path_ne}
use linuxmuster_radius.Ca.Files.{
  Disk, file, run_all, make_dir, change_mode, write_file, private_dir, private_file, public_file,
}
use linuxmuster_radius.Ca.Authority.{described}
use linuxmuster_radius.Ca.Server.{
  issue_server_cert, signed_server, write_server, server_ops, instance_dir, instance_file,
  describe_server, cert_status, ServerView,
}
use linuxmuster_radius.Ca.LdapCa.{
  write_ldap_ca, checked_bundle, write_bundle, Described, ldap_ca_ops, describe_pem_bundle,
  describe_one, Pinned,
}
use linuxmuster_radius.Ca.Interrupted.{get-write_file, get-run_all}
use linuxmuster_radius.Ca.Effects.{content_of, content_in}

name_was_safe :
    (C : Crypto) (read : Text → Option Text) (certs_dir : Text) (draw : Draw C)
    (name fqdn passphrase : Text) (days : ℤ) (x : C.Certificate × C.Key × Text)
    → (signed_server C read certs_dir draw name fqdn passphrase days tt).0 ≡ ok x
    → safe_name name ≡ true
unfolding signed_server
name_was_safe C read certs_dir draw name fqdn passphrase days x e =
    elim (Bool-cases (safe_name name)) [
      | inl safe ↦ safe
      | inr unsafe ↦ ground (arith, rw (unsafe, signed_server) at e)
    ]

status_lem :
    (C : Crypto) (read : Text → Option Text) (certs_dir name : Text) (cert : C.Certificate)
    → safe_name name ≡ true
    → read (instance_file certs_dir name cert_file) ≡ some (C.certificate_pem cert)
    → C.load_certificate (C.certificate_pem cert) ≡ some cert
    → cert_status C read certs_dir name ≡ ok (some (describe_server C cert))
unfolding cert_status
status_lem C read certs_dir name cert safe there loads = rw (safe, there, loads, described) refl

any_anchor :
    (C : Crypto) (certs : List C.Certificate)
    → any (λ c. c.trust_anchor) (map (describe_one C) certs)
      ≡ any (λ c. C.same_name (C.subject c) (C.issuer c)) certs
unfolding describe_one
any_anchor C [] = refl
any_anchor C (c ∷ certs) =
    ap (λ b. C.same_name (C.subject c) (C.issuer c) || b) (any_anchor C certs)

bundle_lem :
    (C : Crypto) (name pem : Text) (views : List Described)
    → (checked_bundle C name pem tt).0 ≡ ok views
    → (certs : List C.Certificate) × (C.load_certificates pem ≡ some certs)
      × (views ≡ map (describe_one C) certs)
unfolding checked_bundle describe_pem_bundle
bundle_lem C name pem views e = elim (Bool-cases (safe_name name)) [
  | inr unsafe ↦ ground (arith, rw (unsafe, checked_bundle) at e)
  | inl safe ↦ elim (Option-cases (C.load_certificates pem)) [
    | inl none_there ↦
        ground (arith, rw (safe, none_there, checked_bundle, describe_pem_bundle) at e)
    | inr there ↦ (
      there.0,
      there.1,
      sym (ok_injective _ views (rw (safe, there.1, checked_bundle, describe_pem_bundle) at e)),
    )
  ]
]

abbrev pinned_of : List Described → Pinned
pinned_of certs = record {
  file = ldap_ca_file;
  certificates = certs;
  trust_anchor = any (λ c. c.trust_anchor) certs;
}

module _ (C : Crypto) (dir_mode : ℕ) (certs_dir : Text) (d : Disk) where
  cert_written :
      (name key_bytes cert_bytes ca_pem : Text)
      → content_of
          (run_all dir_mode (server_ops certs_dir name key_bytes cert_bytes ca_pem) d)
          (instance_file certs_dir name cert_file)
        ≡ some cert_bytes
  unfolding server_ops run_all text_eq
  cert_written name key_bytes cert_bytes ca_pem =
      let dir = instance_dir certs_dir name in
      let cert = instance_file certs_dir name cert_file in
      let other : text_eq (instance_file certs_dir name ca_file) cert ≡ false =
        join_path_ne dir ca_file cert_file refl refl in
      let first =
        make_dir dir
        ∷ change_mode dir private_dir
        ∷ write_file (instance_file certs_dir name key_file) key_bytes private_file in
      let second = run_all dir_mode (first ++ write_file cert cert_bytes public_file) d in
      ap content_in (
        get-run_all dir_mode cert
          (write_file (instance_file certs_dir name ca_file) ca_pem public_file) second
          (other, (other, (other, tt)))
        ∙ get-write_file dir_mode cert cert_bytes public_file (run_all dir_mode first d))

  -- If a certificate that was written loads back, the status of an instance's certificate after it
  -- was issued is what issuing it returned.
  pub cert_status-issue :
      (draw : Draw C) (name fqdn passphrase : Text) (days : ℤ) (view : ServerView)
      → ((c : C.Certificate) → C.load_certificate (C.certificate_pem c) ≡ some c)
      → (issue_server_cert C (content_of d) certs_dir draw name fqdn passphrase days []).0 ≡ ok view
      → let ops =
          (issue_server_cert C (content_of d) certs_dir draw name fqdn passphrase days []).1 in
        cert_status C (content_of (run_all dir_mode ops d)) certs_dir name ≡ ok (some view)
  unfolding issue_server_cert write_server cert_status described
  cert_status-issue draw name fqdn passphrase days view loads returned =
      let write = write_server C (content_of d) certs_dir name in
      let first = signed_server C (content_of d) certs_dir draw name fqdn passphrase days tt in
      let (signed, is_signed, rest) = bind-ok (lift first.0) write view [] returned in
      let safe =
        name_was_safe C (content_of d) certs_dir draw name fqdn passphrase days signed is_signed in
      let ops =
        (issue_server_cert C (content_of d) certs_dir draw name fqdn passphrase days []).1 in
      let there : content_of (run_all dir_mode ops d) (instance_file certs_dir name cert_file)
          ≡ some (C.certificate_pem signed.0) =
        ap (λ r. content_of (run_all dir_mode r.1 d) (instance_file certs_dir name cert_file))
          (bind_lem (lift first.0) write signed [] is_signed)
        ∙ cert_written name (C.plain_pem signed.1) (C.certificate_pem signed.0) signed.2 in
      status_lem C (content_of (run_all dir_mode ops d)) certs_dir name signed.0 safe there
        (loads signed.0)
      ∙ ap (λ v. ok (some v)) (ok_injective (describe_server C signed.0) view rest)

  -- Where write_ldap_ca returns, the bundle is in the instance's file, readable by its owner only,
  -- and has a trust anchor exactly as one of the bundle's certificates is self-signed.
  pub write_ldap_ca_lem :
      (name pem : Text) (pinned : Pinned)
      → (write_ldap_ca C certs_dir name pem []).0 ≡ ok pinned
      → let e = run_all dir_mode (write_ldap_ca C certs_dir name pem []).1 d in
        (Dict.get e (instance_file certs_dir name pinned.file) ≡ some (file private_file pem))
        × ((certs : List C.Certificate) × (C.load_certificates pem ≡ some certs)
            × (pinned.trust_anchor ≡ any (λ c. C.same_name (C.subject c) (C.issuer c)) certs))
  unfolding write_ldap_ca write_bundle ldap_ca_ops run_all
  write_ldap_ca_lem name pem pinned returned =
      let write = write_bundle C certs_dir name pem in
      let first = checked_bundle C name pem tt in
      let (views, is_views, rest) = bind-ok (lift first.0) write pinned [] returned in
      let (certs, loaded, described) = bundle_lem C name pem views is_views in
      let path = instance_file certs_dir name ldap_ca_file in
      let made =
        make_dir (instance_dir certs_dir name)
        ∷ change_mode (instance_dir certs_dir name) private_dir
        ∷ [] in
      let is_pinned = ok_injective (pinned_of views) pinned rest in
      (
        subst
            (λ p.
              Dict.get (run_all dir_mode (write_ldap_ca C certs_dir name pem []).1 d)
                (instance_file certs_dir name p.file)
              ≡ some (file private_file pem))
            is_pinned
            (ap (λ r. Dict.get (run_all dir_mode r.1 d) path)
                (bind_lem (lift first.0) write views [] is_views)
              ∙ get-write_file dir_mode path pem private_file (run_all dir_mode made d)),
        (
          certs,
          loaded,
          ap (λ p. p.trust_anchor) (sym is_pinned)
              ∙ (ap (any (λ c. c.trust_anchor)) described ∙ any_anchor C certs),
        ),
      )

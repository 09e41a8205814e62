-- ===== src/Ca/Results.antt =====
-- What the authority's operations leave behind where they return.
use linuxmuster_radius.Prelude.{
  ℕ, ℤ, pos, negsuc, suc, zero, ◌≡◌, ◌≢◌, refl, ap, ◌∙◌, Option, some, List, [], ◌∷◌, Text, arith,
}
use linuxmuster_radius.Exec.{Exec, Result, ok, err, lift, ◌>>=◌}
use linuxmuster_radius.Exec.Chains.{bind-ok, bind_lem}
use linuxmuster_radius.Ca.{positive, Crypto, Draw}
use linuxmuster_radius.Ca.Files.{
  Op, Disk, run_all, make_dir, change_mode, write_file, private_dir, private_file, public_file,
}
use linuxmuster_radius.Ca.Authority.{
  init_ca, signed_ca, write_ca, ca_ops, ca_dir, ca_key_path, ca_cert_path, CaView,
}
use linuxmuster_radius.Ca.Interrupted.{get-write_file}
use linuxmuster_radius.Ca.Effects.{content_of, content_in}

refused :
    (C : Crypto) (read : Text → Option Text) (certs_dir : Text) (draw : Draw C)
    (passphrase common_name : Text) (days : ℤ) (pem : Text) (x : C.Certificate × C.Key)
    → read (ca_cert_path certs_dir) ≡ some pem
    → (signed_ca C read certs_dir draw passphrase common_name days tt).0 ≢ ok x
unfolding signed_ca positive
refused C read certs_dir draw [] common_name days pem x there e = ground (arith, e)
refused C read certs_dir draw (c ∷ s) [] days pem x there e = ground (arith, e)
refused C read certs_dir draw (c ∷ s) (n ∷ ns) (negsuc z) pem x there e = ground (arith, e)
refused C read certs_dir draw (c ∷ s) (n ∷ ns) (pos zero) pem x there e = ground (arith, e)
refused C read certs_dir draw (c ∷ s) (n ∷ ns) (pos (suc z)) pem x there e =
    ground (arith, rw (there, signed_ca) at e)

-- What never returns leads to nothing.
stopped :
    {A B : Type 0} (r : Result A) (f : A → Exec (List Op) B) (b : B)
    → ((a : A) → r ≢ ok a)
    → (((lift r >>= f) []).0 ≢ ok b) × (((lift r >>= f) []).1 ≡ [])
stopped (ok a) f b never = absurd (never a refl)
stopped (err e) f b never = (ground arith, refl)

module _ (C : Crypto) (dir_mode : ℕ) (certs_dir : Text) (draw : Draw C) (d : Disk) where
  cert_written :
      (key_bytes cert_bytes : Text)
      → content_of
          (run_all dir_mode (ca_ops certs_dir key_bytes cert_bytes) d)
          (ca_cert_path certs_dir)
        ≡ some cert_bytes
  unfolding ca_ops run_all
  cert_written key_bytes cert_bytes =
      let first =
        make_dir (ca_dir certs_dir)
        ∷ change_mode (ca_dir certs_dir) private_dir
        ∷ write_file (ca_key_path certs_dir) key_bytes private_file in
      ap content_in (
        get-write_file dir_mode (ca_cert_path certs_dir) cert_bytes public_file
          (run_all dir_mode first d))

  -- Where init_ca has returned, a second init_ca on what it left behind raises and writes nothing.
  pub init_ca_once :
      (passphrase common_name : Text) (days : ℤ) (view : CaView)
      → (init_ca C (content_of d) certs_dir draw passphrase common_name days []).0 ≡ ok view
      → (again : Draw C) (passphrase' common_name' : Text) (days' : ℤ) (view' : CaView)
      → let e =
          run_all dir_mode
            (init_ca C (content_of d) certs_dir draw passphrase common_name days []).1
            d in
        let (r, ops) = init_ca C (content_of e) certs_dir again passphrase' common_name' days' [] in
        (r ≢ ok view') × (ops ≡ [])
  unfolding init_ca write_ca
  init_ca_once passphrase common_name days view returned again passphrase' common_name' days'
        view' =
      let write = write_ca C (content_of d) certs_dir passphrase in
      let first = signed_ca C (content_of d) certs_dir draw passphrase common_name days tt in
      let (signed, is_signed, rest) = bind-ok (lift first.0) write view [] returned in
      let key_bytes = C.encrypted_pem passphrase signed.1 in
      let cert_bytes = C.certificate_pem signed.0 in
      let e =
        run_all dir_mode (init_ca C (content_of d) certs_dir draw passphrase common_name days []).1
          d in
      let there : content_of e (ca_cert_path certs_dir) ≡ some cert_bytes =
        ap (λ r. content_of (run_all dir_mode r.1 d) (ca_cert_path certs_dir))
          (bind_lem (lift first.0) write signed [] is_signed)
        ∙ cert_written key_bytes cert_bytes in
      stopped (signed_ca C (content_of e) certs_dir again passphrase' common_name' days' tt).0
        (write_ca C (content_of e) certs_dir passphrase') view'
        (λ x.
          refused C (content_of e) certs_dir again passphrase' common_name' days' cert_bytes x
            there)

-- ===== src/Ca/Interrupted.antt =====
-- What the certificate directory is like while the authority writes, so also where it is interrupted.
use linuxmuster_radius.Prelude.{
  ℕ, ◌≡◌, ◌⊎◌, inl, inr, refl, ap, subst, ◌∙◌, false, Option, none, some, List, [], ◌∷◌, ◌++◌, Text,
  text_eq, text_eq_refl, All,
}
use linuxmuster_radius.Dict
use linuxmuster_radius.Ca.{key_file, cert_file, ca_file, ca_key_name, ca_cert_name}
use linuxmuster_radius.Ca.Paths.{join_path_ne, join_path_ne_dir, join_path_dir_ne}
use linuxmuster_radius.Ca.Files.{
  Op, Node, Disk, file, target, effect, run, run_all, get-run, Through, make_dir, change_mode,
  open_file, write_data, write_file, private_dir, private_file, public_file,
}
use linuxmuster_radius.Ca.Authority.{ca_ops, ca_dir, ca_key_path, ca_cert_path}
use linuxmuster_radius.Ca.Server.{server_ops, server_files, instance_dir, instance_file}

module _ (dir_mode : ℕ) where
  -- Calls that name other paths do not change a node.
  abbrev pub Avoids : Text → List Op → Type 0
  Avoids p ops = All (λ op. text_eq (target op) p ≡ false) ops

  Through-avoid :
      (P : Disk → Type 0) (p : Text) (Q : Option Node → Type 0) (ops : List Op) (d : Disk)
      → Avoids p ops
      → ((e : Disk) → Q (Dict.get e p) → P e)
      → Q (Dict.get d p)
      → Through dir_mode P ops d
  unfolding Through
  Through-avoid P p Q [] d avoid give h = give d h
  Through-avoid P p Q (op ∷ ops) d avoid give h = (
    give d h,
    Through-avoid P p Q ops (run dir_mode op d) avoid.1 give
        (rw (get-run dir_mode op d p, avoid.0) h),
  )

  Through-append :
      (P : Disk → Type 0) (xs ys : List Op) (d : Disk)
      → Through dir_mode P xs d
      → Through dir_mode P ys (run_all dir_mode xs d)
      → Through dir_mode P (xs ++ ys) d
  unfolding Through run_all
  Through-append P [] ys d hx hy = hy
  Through-append P (x ∷ xs) ys d hx hy = (hx.0, Through-append P xs ys (run dir_mode x d) hx.1 hy)

  pub get-run_all :
      (p : Text) (ops : List Op) (d : Disk)
      → Avoids p ops
      → Dict.get (run_all dir_mode ops d) p ≡ Dict.get d p
  unfolding run_all
  get-run_all p [] d avoid = refl
  get-run_all p (op ∷ ops) d avoid =
      get-run_all p ops (run dir_mode op d) avoid.1 ∙ rw (get-run dir_mode op d p, avoid.0) refl

  chain :
      (p t : Text) (m : ℕ) (o : Option Node)
      → effect dir_mode
          (change_mode p m)
          (effect dir_mode (write_data p t) (effect dir_mode (open_file p m) o))
        ≡ some (file m t)
  chain p t m none = refl
  chain p t m (some n) = refl

  get-run_same :
      (op : Op) (d : Disk) (p : Text)
      → target op ≡ p
      → Dict.get (run dir_mode op d) p ≡ effect dir_mode op (Dict.get d p)
  get-run_same op d p same =
      subst (λ q. Dict.get (run dir_mode op d) q ≡ effect dir_mode op (Dict.get d q)) same
        (rw (get-run dir_mode op d (target op), text_eq_refl (target op)) refl)

  -- A file that was written has its content and its mode.
  pub get-write_file :
      (p t : Text) (m : ℕ) (d : Disk)
      → Dict.get (run_all dir_mode (write_file p t m) d) p ≡ some (file m t)
  unfolding run_all
  get-write_file p t m d =
      let one = run dir_mode (open_file p m) d in
      let two = run dir_mode (write_data p t) one in
      get-run_same (change_mode p m) two p refl
      ∙ (ap (effect dir_mode (change_mode p m)) (
            get-run_same (write_data p t) one p refl
            ∙ ap (effect dir_mode (write_data p t)) (get-run_same (open_file p m) d p refl))
          ∙ chain p t m (Dict.get d p))

  -- While init_ca writes, there is no certificate yet or the key is complete.
  pub ca_ops-Through :
      (certs_dir key_bytes cert_bytes : Text) (d : Disk)
      → Dict.get d (ca_cert_path certs_dir) ≡ none
      → (P : Disk → Type 0) → ((e : Disk) → Dict.get e (ca_cert_path certs_dir) ≡ none → P e)
      → ((e : Disk) → Dict.get e (ca_key_path certs_dir) ≡ some (file private_file key_bytes) → P e)
      → Through dir_mode P (ca_ops certs_dir key_bytes cert_bytes) d
  unfolding ca_ops run_all text_eq
  ca_ops-Through certs_dir key_bytes cert_bytes d absent P before after =
      let dir = ca_dir certs_dir in
      let key = ca_key_path certs_dir in
      let cert = ca_cert_path certs_dir in
      let first = make_dir dir ∷ change_mode dir private_dir ∷ [] in
      let key_first : text_eq key cert ≡ false =
        join_path_ne dir ca_key_name ca_cert_name refl refl in
      let cert_first : text_eq cert key ≡ false =
        join_path_ne dir ca_cert_name ca_key_name refl refl in
      let not_dir : text_eq dir cert ≡ false = join_path_ne_dir dir ca_cert_name refl refl in
      Through-append P (first ++ write_file key key_bytes private_file)
        (write_file cert cert_bytes public_file) d
        (Through-avoid P cert (λ o. o ≡ none) (first ++ write_file key key_bytes private_file) d
          (not_dir, (not_dir, (key_first, (key_first, (key_first, tt))))) before absent)
        (Through-avoid P key (λ o. o ≡ some (file private_file key_bytes))
          (write_file cert cert_bytes public_file)
          (run_all dir_mode (first ++ write_file key key_bytes private_file) d)
          (cert_first, (cert_first, (cert_first, tt))) after
          (get-write_file key key_bytes private_file (run_all dir_mode first d)))

  abbrev pub mode_of : Option Node → Option ℕ
  mode_of none = none
  mode_of (some n) = some n.mode

  made_private :
      (p : Text) (o : Option Node)
      → mode_of (effect dir_mode (change_mode p private_dir) (effect dir_mode (make_dir p) o))
        ≡ some private_dir
  made_private p none = refl
  made_private p (some n) = refl

  -- While issue_server_cert writes, the key file is as it was or its directory is private.
  pub server_ops-Through :
      (certs_dir name key_bytes cert_bytes ca_pem : Text) (d : Disk)
      → Through dir_mode
          (λ e.
            (Dict.get e (instance_file certs_dir name key_file)
              ≡ Dict.get d (instance_file certs_dir name key_file))
            ⊎ (mode_of (Dict.get e (instance_dir certs_dir name)) ≡ some private_dir))
          (server_ops certs_dir name key_bytes cert_bytes ca_pem)
          d
  unfolding server_ops run_all
  server_ops-Through certs_dir name key_bytes cert_bytes ca_pem d =
      let dir = instance_dir certs_dir name in
      let key = instance_file certs_dir name key_file in
      let first = make_dir dir ∷ change_mode dir private_dir ∷ [] in
      let not_dir : text_eq dir key ≡ false = join_path_ne_dir dir key_file refl refl in
      let k : text_eq key dir ≡ false = join_path_dir_ne dir key_file refl refl in
      let c : text_eq (instance_file certs_dir name cert_file) dir ≡ false =
        join_path_dir_ne dir cert_file refl refl in
      let a : text_eq (instance_file certs_dir name ca_file) dir ≡ false =
        join_path_dir_ne dir ca_file refl refl in
      let made = run dir_mode (make_dir dir) d in
      Through-append _ first (server_files certs_dir name key_bytes cert_bytes ca_pem) d
        (Through-avoid _ key (λ o. o ≡ Dict.get d key) first d (not_dir, (not_dir, tt))
          (λ e h. inl h) refl)
        (Through-avoid _ dir (λ o. mode_of o ≡ some private_dir)
          (server_files certs_dir name key_bytes cert_bytes ca_pem) (run_all dir_mode first d)
          (k, (k, (k, (c, (c, (c, (a, (a, (a, tt))))))))) (λ e h. inr h)
          (ap mode_of (
              get-run_same (change_mode dir private_dir) made dir refl
              ∙ ap (effect dir_mode (change_mode dir private_dir))
                  (get-run_same (make_dir dir) d dir refl))
            ∙ made_private dir (Dict.get d dir)))

-- ===== src/Api/Creating.antt =====
-- What creating an instance leaves: a valid record, and for LDAPS a certificate to check against.
use linuxmuster_radius.Prelude.{
  ℕ, Bool, true, false, not, ◌&&◌, ◌≡◌, ◌≢◌, inl, inr, refl, sym, ap, subst, ◌∙◌, Option, none,
  some, List, [], ◌∷◌, Text, arith, Bool-cases, and-left, and-right, text_eq, text_eq_refl,
  if◌then◌else◌,
}
use linuxmuster_radius.Exec.{Exec, Result, ok, err, pure, lift, ◌>>=◌}
use linuxmuster_radius.Exec.Chains.{bind-ok, bind_lem, bind-pure_state, ok_injective}
use linuxmuster_radius.Models.Types.{Instance, InstanceCreate, ldap_ca_file}
use linuxmuster_radius.Models.Fields.{Stdlib, is_instance, v_ldap_ca}
use linuxmuster_radius.Models.Requests.{is_instance_create}
use linuxmuster_radius.Models.Urls.{is_ldaps}
use linuxmuster_radius.Host.{Host, dict}
use linuxmuster_radius.World.{World}
use linuxmuster_radius.Dict
use linuxmuster_radius.Dict.{get-put}
use linuxmuster_radius.Ca.Server.{instance_file}
use linuxmuster_radius.Store.Records.{IsConsistent, is_instance-safe_name, put-IsConsistent}
use linuxmuster_radius.Store.Effects.{put_effect}
use linuxmuster_radius.Reconciler.{apply}
use linuxmuster_radius.Docker.Config.{Config}
use linuxmuster_radius.Docker.View.{Status}
use linuxmuster_radius.Updater.Records.{apply_instances}
use linuxmuster_radius.Ca.{Crypto}
use linuxmuster_radius.Ca.Files.{Op}
use linuxmuster_radius.Ca.LdapCa.{
  Pinned, Described, write_ldap_ca, write_bundle, checked_bundle, ldap_ca_ops,
}
use linuxmuster_radius.Api.Authority.{
  Applied, with_ldap_ca, is_null, answer, pin_error, perform, performed, on_files, pin_ldap_ca,
  apply_pinned, create_with, create_instance,
}

bundle_name-valid : v_ldap_ca (some ldap_ca_file) ≡ true
unfolding v_ldap_ca linuxmuster_radius.Prelude.contains linuxmuster_radius.Regex.fullmatch
bundle_name-valid = refl

bundle_name :
    (C : Crypto) (dir : Text) (r : Result (List Described)) (name pem : Text) (pinned : Pinned)
    → answer pin_error ((lift r >>= write_bundle C dir name pem) []).0 ≡ ok pinned
    → pinned.file ≡ ldap_ca_file
unfolding write_bundle
bundle_name C dir (ok views) name pem pinned e = ap (λ p. p.file) (sym (ok_injective _ pinned e))
bundle_name C dir (err x) name pem pinned e = ground (arith, e)

module _ (H : Host) (py : Stdlib) (cfg : Config) (timeout interval fuel : ℕ) (C : Crypto) where
  -- The instance was applied, from one state to another.
  abbrev AppliedFrom : Applied → World H → World H → Type 0
  AppliedFrom a w after = apply H py cfg fuel a.instance_now w ≡ (ok a.status, after)

  -- Without a bundle the record names the file that the request names. With one it is applied
  -- where the file that the record names, in the directory of its certificates, has that bundle.
  abbrev pub IsVerified : InstanceCreate → Option Text → Applied → World H → World H → Type 0
  IsVerified body none a w after =
      (file : Text) × (body.instance_fields.ldap_ca ≡ some file)
      × (a.instance_now.ldap_ca ≡ some file)
      × AppliedFrom a w after
  IsVerified body (some pem) a w after =
      let name = body.instance_fields.name in
      let pinned = (pin_ldap_ca H py cfg timeout interval fuel C name pem w).1 in
      (file : Text) × (a.instance_now.ldap_ca ≡ some file)
      × (a.instance_now.name ≡ name)
      × (Dict.get pinned.files (H.realpath (instance_file cfg.certs_dir name file)) ≡ some pem)
      × AppliedFrom a pinned after

  was_applied :
      (inst : Instance) (pinned : Option Pinned) (a : Applied) (w : World H)
      → (apply_pinned H py cfg timeout interval fuel C inst pinned w).0 ≡ ok a
      → (a.instance_now ≡ inst)
        × AppliedFrom a w (apply_pinned H py cfg timeout interval fuel C inst pinned w).1
  unfolding apply_pinned
  was_applied inst pinned a w e =
      let run = apply H py cfg fuel inst in
      let make : Option Status → Applied =
        λ s. record { instance_now = inst; status = s; ldap_ca = pinned } in
      let (status, is_status, rest) = bind-ok run (λ s. pure (make s)) a w e in
      let made = ok_injective _ a rest in
      (
        ap (λ x. x.instance_now) (sym made),
        rw (bind-pure_state run make w, ← made) (ap (λ r. (r, (run w).1)) is_status),
      )

  bundle_written :
      (r : Result (List Described)) (name pem : Text) (pinned : Pinned) (w : World H)
      → answer pin_error ((lift r >>= write_bundle C cfg.certs_dir name pem) []).0 ≡ ok pinned
      → Dict.get
          (perform H py cfg timeout interval fuel C
            ((lift r >>= write_bundle C cfg.certs_dir name pem) []).1
            w).files
          (H.realpath (instance_file cfg.certs_dir name ldap_ca_file))
        ≡ some pem
  unfolding write_bundle ldap_ca_ops perform
  bundle_written (ok views) name pem pinned w e = rw (get-put, text_eq_refl) refl
  bundle_written (err x) name pem pinned w e = ground (arith, e)

  pinned_file :
      (name pem : Text) (pinned : Pinned) (w : World H)
      → (pin_ldap_ca H py cfg timeout interval fuel C name pem w).0 ≡ ok pinned
      → (pinned.file ≡ ldap_ca_file)
        × (Dict.get
              (pin_ldap_ca H py cfg timeout interval fuel C name pem w).1.files
              (H.realpath (instance_file cfg.certs_dir name ldap_ca_file))
            ≡ some pem)
  unfolding pin_ldap_ca on_files write_ldap_ca write_bundle
  pinned_file name pem pinned w e = (
    bundle_name C cfg.certs_dir (checked_bundle C name pem tt).0 name pem pinned e,
    bundle_written (checked_bundle C name pem tt).0 name pem pinned w e,
  )

  named : (o : Option Text) → is_null o ≡ false → (file : Text) × (o ≡ some file)
  named none e = ground (arith, e)
  named (some file) e = (file, refl)

  verified :
      (body : InstanceCreate) (pem : Option Text) (a : Applied) (w : World H)
      → (create_with H py cfg timeout interval fuel C body.instance_fields pem w).0 ≡ ok a
      → is_ldaps a.instance_now.ldap_server ≡ true
      → IsVerified body pem a w
          (create_with H py cfg timeout interval fuel C body.instance_fields pem w).1
  unfolding create_with
  verified body none a w e ldaps =
      let inst = body.instance_fields in
      let test = is_ldaps inst.ldap_server && is_null inst.ldap_ca in
      elim (Bool-cases test) [
        | inl refused ↦ ground (arith, rw refused at e)
        | inr through ↦
            let (same, run) = was_applied inst none a w (rw through at e) in
            let secure = ap (λ i. is_ldaps i.ldap_server) (sym same) ∙ ldaps in
            let (file, has) = named inst.ldap_ca (ground (arith, through, secure)) in
            rw through (file, has, ap (λ i. i.ldap_ca) same ∙ has, run)
      ]
  verified body (some pem) a w e ldaps =
      let inst = body.instance_fields in
      let pin = pin_ldap_ca H py cfg timeout interval fuel C inst.name pem in
      let then_apply : Pinned → Exec (World H) Applied =
        λ p. apply_pinned H py cfg timeout interval fuel C (with_ldap_ca inst p.file) (some p) in
      let (pinned, pinning, rest) = bind-ok pin then_apply a w e in
      let (same, run) =
        was_applied (with_ldap_ca inst pinned.file) (some pinned) a (pin w).1 rest in
      let (is_file, written) = pinned_file inst.name pem pinned w pinning in
      (
        ldap_ca_file,
        ap (λ i. i.ldap_ca) same ∙ ap some is_file,
        ap (λ i. i.name) same,
        written,
        rw (bind_lem pin then_apply pinned w pinning) run,
      )

  -- An instance that the API has created on an LDAPS server names a certificate file: the one that
  -- the request names, or, where the request has a bundle, a file in the directory of the
  -- instance's certificates, which had exactly that bundle when the instance was applied.
  pub create_instance-IsVerified :
      (body : InstanceCreate) (a : Applied) (w : World H)
      → (create_instance H py cfg timeout interval fuel C body w).0 ≡ ok a
      → is_ldaps a.instance_now.ldap_server ≡ true
      → IsVerified body body.ldap_ca_pem a w
          (create_instance H py cfg timeout interval fuel C body w).1
  unfolding create_instance
  create_instance-IsVerified body a w = verified body body.ldap_ca_pem a w

  perform_instances :
      (ops : List Op) (w : World H)
      → (perform H py cfg timeout interval fuel C ops w).instances ≡ w.instances
  unfolding perform
  perform_instances [] w = refl
  perform_instances (op ∷ ops) w =
      perform_instances ops
        (record w { files = performed H py cfg timeout interval fuel C w.files op })

  pin_instances :
      (name pem : Text) (w : World H)
      → (pin_ldap_ca H py cfg timeout interval fuel C name pem w).1.instances ≡ w.instances
  unfolding pin_ldap_ca on_files
  pin_instances name pem w = perform_instances (write_ldap_ca C cfg.certs_dir name pem []).1 w

  after_apply :
      (inst : Instance) (pinned : Option Pinned) (r : Result (Option Status)) (w : World H)
      → (◌>>=◌ {B = Applied}
          (λ s. (r, s))
          (λ status. pure (record { instance_now = inst; status = status; ldap_ca = pinned }))
          w).1
        ≡ w
  after_apply inst pinned (ok st) w = refl
  after_apply inst pinned (err e) w = refl

  apply_pinned-IsConsistent :
      (inst : Instance) (pinned : Option Pinned) (w : World H)
      → H.safe_load (H.safe_dump inst) ≡ dict (some inst)
      → is_instance py inst ≡ true
      → IsConsistent H py w.instances
      → IsConsistent H py (apply_pinned H py cfg timeout interval fuel C inst pinned w).1.instances
  unfolding apply_pinned
  apply_pinned-IsConsistent inst pinned w loads valid c =
      let safe = is_instance-safe_name py inst valid in
      let same =
        ap (λ v. v.instances)
          (after_apply inst pinned (apply H py cfg fuel inst w).0 (apply H py cfg fuel inst w).1)
        ∙ (apply_instances H py cfg fuel inst w safe ∙ sym (put_effect H inst w safe).1) in
      subst (λ d. IsConsistent H py d) (sym same) (put-IsConsistent H py inst loads w valid c)

  pinned_applied :
      (inst : Instance) (r : Result Pinned) (w : World H)
      → ((pinned : Pinned) → r ≡ ok pinned → pinned.file ≡ ldap_ca_file)
      → H.safe_load (H.safe_dump (with_ldap_ca inst ldap_ca_file))
        ≡ dict (some (with_ldap_ca inst ldap_ca_file))
      → is_instance py (with_ldap_ca inst ldap_ca_file) ≡ true
      → IsConsistent H py w.instances
      → IsConsistent H py
          (((λ s. (r, s)) >>= λ pinned.
              apply_pinned H py cfg timeout interval fuel C
                (with_ldap_ca inst pinned.file)
                (some pinned))
            w).1.instances
  pinned_applied inst (err e) w named loads valid c = c
  pinned_applied inst (ok pinned) w named loads valid c =
      subst
        (λ f.
          IsConsistent H py
            (apply_pinned H py cfg timeout interval fuel C (with_ldap_ca inst f) (some pinned)
              w).1.instances)
        (sym (named pinned refl))
        (apply_pinned-IsConsistent (with_ldap_ca inst ldap_ca_file) (some pinned) w loads valid c)

  with_bundle-valid :
      (inst : Instance)
      → is_instance py inst ≡ true
      → is_instance py (with_ldap_ca inst ldap_ca_file) ≡ true
  unfolding is_instance
  with_bundle-valid inst valid =
      let front = and-left _ (v_ldap_ca inst.ldap_ca) valid in
      ground (arith, front, bundle_name-valid)

  create_with-IsConsistent :
      (inst : Instance) (pem : Option Text) (w : World H)
      → H.safe_load (H.safe_dump inst) ≡ dict (some inst)
      → H.safe_load (H.safe_dump (with_ldap_ca inst ldap_ca_file))
        ≡ dict (some (with_ldap_ca inst ldap_ca_file))
      → is_instance py inst ≡ true
      → IsConsistent H py w.instances
      → IsConsistent H py (create_with H py cfg timeout interval fuel C inst pem w).1.instances
  unfolding create_with
  create_with-IsConsistent inst none w loads loads' valid c =
      elim (Bool-cases (is_ldaps inst.ldap_server && is_null inst.ldap_ca)) [
        | inl refused ↦ rw (refused, create_with) c
        | inr let_through ↦
            rw (let_through, create_with) (apply_pinned-IsConsistent inst none w loads valid c)
      ]
  create_with-IsConsistent inst (some pem) w loads loads' valid c =
      pinned_applied inst (pin_ldap_ca H py cfg timeout interval fuel C inst.name pem w).0
        (pin_ldap_ca H py cfg timeout interval fuel C inst.name pem w).1
        (λ pinned e. (pinned_file inst.name pem pinned w e).0) loads' (with_bundle-valid inst valid)
        (subst (IsConsistent H py) (sym (pin_instances inst.name pem w)) c)

  -- Creating an instance from a valid body keeps a consistent directory consistent, also where it is
  -- refused or the container cannot be started, if YAML loads the record back, with the pinned file
  -- and without.
  pub create_instance-IsConsistent :
      (body : InstanceCreate) (w : World H)
      → let inst = body.instance_fields in
        H.safe_load (H.safe_dump inst) ≡ dict (some inst)
        → H.safe_load (H.safe_dump (with_ldap_ca inst ldap_ca_file))
          ≡ dict (some (with_ldap_ca inst ldap_ca_file))
        → is_instance_create py body ≡ true
        → IsConsistent H py w.instances
        → IsConsistent H py (create_instance H py cfg timeout interval fuel C body w).1.instances
  unfolding create_instance is_instance_create
  create_instance-IsConsistent body w loads loads' valid c =
      create_with-IsConsistent body.instance_fields body.ldap_ca_pem w loads loads'
        (and-left (is_instance py body.instance_fields) _ valid) c
